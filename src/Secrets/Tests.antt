-- ===== src/Secrets/Tests.antt =====
-- Tests of the store of secrets.
use majordomo_steward.Prelude.{◌==◌, none, some, Str, lit, length, ok, err, ◌≡◌, refl, arith}
use majordomo_steward.Secrets.{
  Crypto, AesStore, new_aes_store, encrypt, decrypt, ciphertext_too_short,
}
use majordomo_steward.Secrets.RoundTrip.{decrypt-encrypt}

-- Encodings and a cipher that change nothing, and nonces of two bytes.
abbrev plain_crypto : Crypto
plain_crypto = record {
  decode_hex = λ d. none;
  encode_std = λ d. d;
  decode_std = λ d. some d;
  decode_raw_std = λ d. none;
  is_cipher_key = λ key. length key == 32;
  nonce_size = 2;
  seal = λ key nonce p. p;
  unseal = λ key nonce d. some d;
}

abbrev full_key : Str
full_key = lit "abcdefghijklmnopabcdefghijklmnop"

abbrev full_store : AesStore
full_store = record { key = full_key }

new_aes_store-full_key : new_aes_store plain_crypto full_key ≡ ok full_store
unfolding new_aes_store
new_aes_store-full_key = refl

decrypt-short : decrypt plain_crypto full_store (lit "n") ≡ err ciphertext_too_short
unfolding decrypt
decrypt-short = refl

decrypt-encrypt_example :
    (e : Str) × (encrypt plain_crypto full_store (some (lit "no")) (lit "secret") ≡ ok e)
    × (decrypt plain_crypto full_store e ≡ ok (lit "secret"))
decrypt-encrypt_example =
    decrypt-encrypt plain_crypto (λ d. refl) (λ key nonce p. refl) (λ key full. ground arith)
      full_key (lit "no") (lit "secret") full_store new_aes_store-full_key (refl)
