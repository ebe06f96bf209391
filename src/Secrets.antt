-- ===== src/Secrets.antt =====
-- internal/secrets/aes.go: the store that encrypts tokens and provider keys. The encodings, AES-GCM and the
-- random source are parameters; the text of errors is left out.
pub mod RoundTrip
pub mod Tests
use majordomo_steward.Prelude.{
  ℕ, ◌==◌, Bool, true, false, not, Option, none, some, [], Str, str_eq, ◌++◌, length, take, drop,
  ltb, Result, ok, err, ◌>>=◌, if◌then◌else◌,
}

-- What the store calls of encoding/hex, encoding/base64, crypto/aes and crypto/cipher. `is_cipher_key` says
-- whether aes.NewCipher and cipher.NewGCM take the key; `seal` is the ciphertext that Seal appends, and
-- `unseal` is Open.
pub record Crypto : Type 0 where
  pub decode_hex : Str → Option Str
  pub encode_std : Str → Str
  pub decode_std : Str → Option Str
  pub decode_raw_std : Str → Option Str
  pub is_cipher_key : Str → Bool
  pub nonce_size : ℕ
  pub seal : Str → Str → Str → Str
  pub unseal : Str → Str → Str → Option Str

pub data SecretError : Type 0 where
  key_required : SecretError
  bad_key : SecretError
  cipher_failed : SecretError
  nonce_failed : SecretError
  decode_failed : SecretError
  ciphertext_too_short : SecretError
  open_failed : SecretError

-- AESStore
pub record AesStore : Type 0 where
  pub key : Str

-- `if err != nil || len(keyBytes) != 32 { … }`, with the attempt that follows as a fallback.
abbrev pub try_key : Option Str → Result SecretError AesStore → Result SecretError AesStore
try_key none rest = rest
try_key (some key) rest = if length key == 32 then ok (record { key = key }) else rest

module _ (c : Crypto) where
  unfoldable pub new_aes_store : Str → Result SecretError AesStore
  new_aes_store key =
      if str_eq key []
      then err key_required
      else try_key (c.decode_hex key)
          (try_key (c.decode_std key) (try_key (c.decode_raw_std key) (err bad_key)))

  -- aes.NewCipher and cipher.NewGCM
  abbrev pub check_cipher : Str → Result SecretError Unit
  check_cipher key = if c.is_cipher_key key then ok tt else err cipher_failed

  abbrev pub seal_with : AesStore → Str → Option Str → Result SecretError Str
  seal_with s plaintext none = err nonce_failed
  seal_with s plaintext (some nonce) = ok (c.encode_std (nonce ++ c.seal s.key nonce plaintext))

  -- Encrypt. The second argument is the nonce that the random source gives, none if reading it fails; Seal
  -- appends the ciphertext to the nonce.
  unfoldable pub encrypt : AesStore → Option Str → Str → Result SecretError Str
  encrypt s nonce plaintext = do ready ← check_cipher s.key; seal_with s plaintext nonce

  abbrev pub decoded : Option Str → Result SecretError Str
  decoded none = err decode_failed
  decoded (some data_bytes) = ok data_bytes

  abbrev pub opened : Option Str → Result SecretError Str
  opened none = err open_failed
  opened (some plaintext) = ok plaintext

  abbrev pub open_data : AesStore → Str → Result SecretError Str
  open_data s data_bytes =
      if ltb (length data_bytes) c.nonce_size
      then err ciphertext_too_short
      else opened (c.unseal s.key (take c.nonce_size data_bytes) (drop c.nonce_size data_bytes))

  unfoldable pub decrypt : AesStore → Str → Result SecretError Str
  decrypt s ciphertext = do
    data_bytes ← decoded (c.decode_std ciphertext)
    ready ← check_cipher s.key
    open_data s data_bytes
