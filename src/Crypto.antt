-- ===== src/Crypto.antt =====
-- internal/crypto/crypto.go. AES-256-GCM and the source of randomness belong to Go's library: an
-- `Aead` is its interface, with the law that opening undoes sealing, and a nonce is an argument.
use alfa_hakaton.Common.{
  ℕ, ◌≡◌, ap, ◌==◌, ◌∙◌, sym, Bytes, [], ◌∷◌, ◌++◌, Option, none, some, length, take, drop,
  take-append, take-length, drop-append, drop-length, length-append, ltb, if◌then◌else◌, arith, ◌⊎◌,
  inl, inr, Option-cases,
}
use alfa_hakaton.Common.Result.{Result, ok, err, of_option, ◌>>=◌}

pub data CryptoError : Type 0 where
  bad_key_length no_randomness too_short not_authentic invalid_key : CryptoError

pub record Aead : Type 0 where
  pub nonce_size : ℕ
  pub seal : Bytes → Bytes → Bytes → Bytes
  pub open_sealed : Bytes → Bytes → Bytes → Option Bytes
  pub open_sealed-seal :
      (key nonce plain : Bytes)
      → length nonce ≡ nonce_size
      → open_sealed key nonce (seal key nonce plain) ≡ some plain

pub record Cipher : Type 0 where
  pub aead : Aead
  pub key : Bytes

unfoldable pub new : Aead → Bytes → Result CryptoError Cipher
new a key = if length key == 32 then ok (record { aead = a; key = key }) else err bad_key_length

-- `none` for a nonce is a failure of the random source.
unfoldable pub encrypt : Cipher → Option Bytes → Bytes → Result CryptoError Bytes
encrypt c nonce plain = do n ← of_option no_randomness nonce; ok (n ++ c.aead.seal c.key n plain)

unfoldable pub decrypt : Cipher → Bytes → Result CryptoError Bytes
decrypt c sealed =
    let size = c.aead.nonce_size in
    if ltb (length sealed) size
    then err too_short
    else of_option not_authentic (c.aead.open_sealed c.key (take size sealed) (drop size sealed))

-- A decoded key, if it has 32 bytes.
unfoldable pub accept : Option Bytes → Result CryptoError Bytes → Result CryptoError Bytes
accept none other = other
accept (some k) other = if length k == 32 then ok k else other

-- The key of an environment variable with value `raw`; `hex` and `base64` are the library's decoders.
unfoldable pub key_from_env :
    (hex base64 : Bytes → Option Bytes) → Option Bytes → Bytes → Result CryptoError Bytes
unfolding accept
key_from_env hex base64 random [] = of_option no_randomness random
key_from_env hex base64 random (c ∷ raw) =
    accept (hex (c ∷ raw)) (accept (base64 (c ∷ raw)) (err invalid_key))

-- What was encrypted is decrypted to itself, under every key and nonce of the right size.
pub decrypt-encrypt :
    (c : Cipher) (nonce plain : Bytes)
    → length nonce ≡ c.aead.nonce_size
    → (encrypt c (some nonce) plain >>= decrypt c) ≡ ok plain
unfolding encrypt decrypt
decrypt-encrypt c nonce plain h =
    let sealed = c.aead.seal c.key nonce plain in
    let front : take c.aead.nonce_size (nonce ++ sealed) ≡ nonce =
      take-append c.aead.nonce_size nonce sealed (omega arith)
      ∙ ap (λ n. take n nonce) (sym h)
      ∙ take-length nonce in
    let back : drop c.aead.nonce_size (nonce ++ sealed) ≡ sealed =
      drop-append c.aead.nonce_size nonce sealed (omega arith)
      ∙ ap (λ z. z ++ sealed) (ap (λ n. drop n nonce) (sym h) ∙ drop-length nonce) in
    rw (front, back, c.aead.open_sealed-seal c.key nonce plain h)
      (ground (arith, length-append nonce sealed))

accept-length :
    (o : Option Bytes) (other : Result CryptoError Bytes) (key : Bytes)
    → accept o other ≡ ok key
    → (length key ≡ 32) ⊎ (other ≡ ok key)
unfolding accept
accept-length none other key h = inr h
accept-length (some k) other key h = ground arith

-- A key that comes from the environment has 32 bytes, so that `new` accepts it, provided that a
-- generated one has.
pub key_from_env-length :
    (a : Aead) (hex base64 : Bytes → Option Bytes) (random : Option Bytes) (raw : Bytes)
    {key : Bytes}
    → ((r : Bytes) → random ≡ some r → length r ≡ 32)
    → key_from_env hex base64 random raw ≡ ok key
    → new a key ≡ ok (record { aead = a; key = key })
unfolding key_from_env new
key_from_env-length a hex base64 random [] {key} h e = elim (Option-cases random) [
  | inl f ↦ cc f
  | inr (r, f) ↦ ground (arith, h r f)
]
key_from_env-length a hex base64 random (c ∷ raw) {key} h e = ground (
  arith,
  accept-length (hex (c ∷ raw)) (accept (base64 (c ∷ raw)) (err invalid_key)) key,
  accept-length (base64 (c ∷ raw)) (err invalid_key) key,
)
