-- ===== src/Store/Memory.antt =====
-- internal/store/memory.go, and `hashID` of internal/store/store.go. The cipher and the key are
-- those of `NewMemory`; JSON and HMAC are the library's. Each call holds the lock for each of its
-- reads and writes of the items, so it is atomic, except `Load`, which is two steps.
pub mod Codec
pub mod Laws
pub mod Implements
pub mod Race
use alfa_hakaton.Common.{
  ℕ, Bool, true, false, Bytes, codes, List, [], ◌∷◌, ◌++◌, Option, none, some, take, if◌then◌else◌,
}
use alfa_hakaton.Common.Int.{ℤ}
use alfa_hakaton.Common.Result.{Result, ok, err}
use alfa_hakaton.Common.Assoc
use alfa_hakaton.Crypto.{Cipher, encrypt, decrypt}
use alfa_hakaton.Store.Types.{
  Record, StoreError, not_encodable, encrypt_failed, decrypt_failed, not_decodable, Io, expiry_for,
  live_at,
}
use Codec.{Json}

pub record Entry : Type 0 where
  pub ct : Bytes
  pub expiry : Option ℕ

abbrev pub Items : Type 0
Items = List (Bytes × Entry)

-- `hashID`: the first 16 hexadecimal digits of the HMAC.
unfoldable pub hash_id : (Bytes → Bytes → Bytes) → Bytes → Bytes → Bytes
hash_id hmac key id = take 16 (hmac key id)

-- The code's `expired`.
unfoldable pub expired : Entry → ℕ → Bool
expired e now = if live_at e.expiry now then false else true

-- One tick of `cleanupLoop`.
unfoldable pub cleanup : ℕ → Items → Items
cleanup now [] = []
cleanup now ((k, e) ∷ items) =
    if expired e now then cleanup now items else (k, e) ∷ cleanup now items

-- Whether a live entry is there already.
unfoldable pub taken : Option Entry → ℕ → Bool
taken none now = false
taken (some e) now = if expired e now then false else true

module _ (json : Json) (cipher : Cipher) where
  unfoldable pub encode : Io → Record → Result StoreError Bytes
  encode io rec = elim (json.marshal rec) [
    | none ↦ err not_encodable
    | some plain ↦ elim (encrypt cipher io.nonce plain) [
      | ok ct ↦ ok ct
      | err e ↦ err encrypt_failed
    ]
  ]

  unfoldable pub decode : Bytes → Result StoreError Record
  decode ct = elim (decrypt cipher ct) [
    | err e ↦ err decrypt_failed
    | ok plain ↦ elim (json.unmarshal plain) [ none ↦ err not_decodable | some rec ↦ ok rec ]
  ]

module _ (json : Json) (cipher : Cipher) (hmac : Bytes → Bytes → Bytes) where
  unfoldable pub save : Io → Bytes → Record → ℤ → Items → Result StoreError (Unit {0}) × Items
  save io id rec ttl items = elim (encode json cipher io rec) [
    | err e ↦ (err e, items)
    | ok ct ↦ (
      ok tt,
      Assoc.insert (hash_id hmac cipher.key id) (record { ct = ct; expiry = expiry_for io.now ttl })
          items,
    )
  ]

  unfoldable pub save_new : Io → Bytes → Record → ℤ → Items → Result StoreError Bool × Items
  save_new io id rec ttl items = elim (encode json cipher io rec) [
    | err e ↦ (err e, items)
    | ok ct ↦
        if taken (Assoc.lookup (hash_id hmac cipher.key id) items) io.now
        then (ok false, items)
        else (
          ok true,
          Assoc.insert (hash_id hmac cipher.key id)
              (record { ct = ct; expiry = expiry_for io.now ttl }) items,
        )
  ]

  -- The first step of `Load`, under the read lock.
  unfoldable pub load_read : Bytes → Items → Option Entry
  load_read id items = Assoc.lookup (hash_id hmac cipher.key id) items

  -- What is left to do with the entry that was read: an expired one is deleted, under the write lock.
  unfoldable pub load_rest :
      ℕ → Bytes → Option Entry → Items → Result StoreError (Option Record) × Items
  load_rest now id none items = (ok none, items)
  load_rest now id (some e) items =
      if expired e now
      then (ok none, Assoc.delete (hash_id hmac cipher.key id) items)
      else elim (decode json cipher e.ct) [
        | ok rec ↦ (ok (some rec), items)
        | err x ↦ (err x, items)
      ]

  -- `Load` with nothing in between.
  unfoldable pub load : Io → Bytes → Items → Result StoreError (Option Record) × Items
  load io id items = load_rest io.now id (load_read id items) items

  unfoldable pub delete : Bytes → Items → Items
  delete id items = Assoc.delete (hash_id hmac cipher.key id) items
