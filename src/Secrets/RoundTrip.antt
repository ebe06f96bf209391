-- ===== src/Secrets/RoundTrip.antt =====
-- Encryption and decryption with a key that the store takes.
use majordomo_steward.Prelude.{
  ◌==◌, true, false, Option, none, some, [], Str, str_eq, ◌++◌, length, length-append, take-append,
  drop-append, ltb, Result, ok, ◌≡◌, refl, sym, ap, subst, arith, Bool-cases, inl, inr,
}
use majordomo_steward.Secrets.{
  Crypto, AesStore, SecretError, try_key, new_aes_store, encrypt, decrypt, opened, open_data,
}

-- A store that is made has a key of 32 bytes.
abbrev HasFullKey : Result SecretError AesStore → Type 0
HasFullKey (ok s) = length s.key ≡ 32
HasFullKey _ = Unit

try_key-Full :
    (o : Option Str) (rest : Result SecretError AesStore)
    → HasFullKey rest
    → HasFullKey (try_key o rest)
try_key-Full none rest h = h
try_key-Full (some key) rest h = elim (Bool-cases (length key == 32)) [
  | inl full ↦ rw full (ground arith)
  | inr other ↦ rw other h
]

new_aes_store-Full : (c : Crypto) (key : Str) → HasFullKey (new_aes_store c key)
unfolding new_aes_store
new_aes_store-Full c key = elim (Bool-cases (str_eq key [])) [
  | inl empty ↦ rw empty tt
  | inr given ↦ rw given (
      try_key-Full (c.decode_hex key) _
        (try_key-Full (c.decode_std key) _ (try_key-Full (c.decode_raw_std key) _ tt)))
]

module _ (c : Crypto) (decode-encode : (d : Str) → c.decode_std (c.encode_std d) ≡ some d)
    (unseal-seal : (key nonce p : Str) → c.unseal key nonce (c.seal key nonce p) ≡ some p)
    (takes_full : (key : Str) → length key ≡ 32 → c.is_cipher_key key ≡ true) where
  open_data-seal :
      (s : AesStore) (nonce plaintext : Str)
      → length nonce ≡ c.nonce_size
      → open_data c s (nonce ++ c.seal s.key nonce plaintext) ≡ ok plaintext
  open_data-seal s nonce plaintext size =
      let sealed = c.seal s.key nonce plaintext in
      let long : ltb (length (nonce ++ sealed)) c.nonce_size ≡ false =
        ground (arith, length-append nonce sealed) in
      rw (long, sym size, take-append nonce sealed, drop-append nonce sealed)
        (ap (opened c) (unseal-seal s.key nonce plaintext))

  -- For a key that NewAESStore takes and a nonce of the size of GCM, if base64 decodes what it encodes, GCM
  -- opens what it seals, and AES takes keys of 32 bytes: Encrypt gives a ciphertext, and Decrypt gives the
  -- plaintext of it back.
  pub decrypt-encrypt :
      (key nonce plaintext : Str) (s : AesStore)
      → new_aes_store c key ≡ ok s
      → length nonce ≡ c.nonce_size
      → (e : Str) × (encrypt c s (some nonce) plaintext ≡ ok e) × (decrypt c s e ≡ ok plaintext)
  unfolding encrypt decrypt
  decrypt-encrypt key nonce plaintext s made size =
      let full : length s.key ≡ 32 = subst HasFullKey made (new_aes_store-Full c key) in
      let sealed = nonce ++ c.seal s.key nonce plaintext in
      (
        c.encode_std sealed,
        rw (takes_full s.key full) refl,
        rw (decode-encode sealed, takes_full s.key full) (open_data-seal s nonce plaintext size),
      )
