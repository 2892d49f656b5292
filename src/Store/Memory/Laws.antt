-- ===== src/Store/Memory/Laws.antt =====
-- The record that an id has in the memory store, and what each call does to it.
use alfa_hakaton.Common.{
  ℕ, ◌≤◌, ◌≡◌, subst, ◌∙◌, false, Bool-cases, Bytes, bytes_eq, bytes_eq_iff, [], ◌∷◌, ◌++◌, Option,
  none, some, inl, inr, length, if◌then◌else◌, arith,
}
use alfa_hakaton.Common.Result.{Result, ok, err}
use alfa_hakaton.Common.Assoc
use alfa_hakaton.Common.Assoc.{
  IsUnique, lookup-insert, lookup-delete, insert-IsUnique, delete-IsUnique,
}
use alfa_hakaton.Crypto.{Cipher, encrypt, decrypt, decrypt-encrypt}
use alfa_hakaton.Store.Types.{Record, StoreError, Io, live_at}
use alfa_hakaton.Store.Api.{while_live}
use alfa_hakaton.Store.Memory.{Entry, Items, encode, decode}
use alfa_hakaton.Store.Memory.Codec.{Json}

pub live_at_mono :
    (e : Option ℕ) (now t : ℕ) → now ≤ t → live_at e now ≡ false → live_at e t ≡ false
unfolding live_at
live_at_mono none now t h k = cc
live_at_mono (some e) now t h k = ground arith

module _ (json : Json) (cipher : Cipher) where
  -- Every entry can be read.
  abbrev pub AllReadable : Items → Type 0
  AllReadable [] = Unit
  AllReadable ((k, e) ∷ items) =
      ((r : Record) × (decode json cipher e.ct ≡ ok r)) × AllReadable items

  pub record IsSound (items : Items) : Type 0 where
    pub unique : IsUnique items
    pub readable : AllReadable items

  -- The nonce has the cipher's size.
  abbrev pub IsReady : Io → Type 0
  IsReady io = (n : Bytes) × (io.nonce ≡ some n) × (length n ≡ cipher.aead.nonce_size)

  abbrev pub value : Result StoreError Record → Option Record
  value (ok r) = some r
  value (err e) = none

  abbrev pub entry_view : ℕ → Option Entry → Option Record
  entry_view t none = none
  entry_view t (some e) = if live_at e.expiry t then value (decode json cipher e.ct) else none

  unfoldable pub view : Items → ℕ → Bytes → Option Record
  view items t k = entry_view t (Assoc.lookup k items)

  pub readable_of :
      (k : Bytes) (items : Items) {e : Entry}
      → AllReadable items
      → Assoc.lookup k items ≡ some e
      → (r : Record) × (decode json cipher e.ct ≡ ok r)
  unfolding Assoc.lookup
  readable_of k [] h f = cc
  readable_of k ((j, e) ∷ items) {e = x} h f = elim (Bool-cases (bytes_eq j k)) [
    | inl same ↦
        let here : e ≡ x = ground arith in
        subst (λ (y : Entry). (r : Record) × (decode json cipher y.ct ≡ ok r)) here h.0
    | inr other ↦ readable_of k items {e = x} h.1 (ground arith)
  ]

  insert-AllReadable :
      (k : Bytes) (e : Entry) (items : Items)
      → (r : Record) × (decode json cipher e.ct ≡ ok r)
      → AllReadable items
      → AllReadable (Assoc.insert k e items)
  unfolding Assoc.insert
  insert-AllReadable k e [] h a = (h, tt)
  insert-AllReadable k e ((j, w) ∷ items) h a = elim (Bool-cases (bytes_eq j k)) [
    | inl same ↦ rw same (h, a.1)
    | inr other ↦ rw other (a.0, insert-AllReadable k e items h a.1)
  ]

  delete-AllReadable :
      (k : Bytes) (items : Items) → AllReadable items → AllReadable (Assoc.delete k items)
  unfolding Assoc.delete
  delete-AllReadable k [] a = tt
  delete-AllReadable k ((j, w) ∷ items) a = elim (Bool-cases (bytes_eq j k)) [
    | inl same ↦ rw same (delete-AllReadable k items a.1)
    | inr other ↦ rw other (a.0, delete-AllReadable k items a.1)
  ]

  -- What is encoded is decoded to itself.
  pub decode-encode :
      (io : Io) (rec : Record)
      → json.IsStorable rec
      → IsReady io
      → (ct : Bytes) × (encode json cipher io rec ≡ ok ct) × (decode json cipher ct ≡ ok rec)
  unfolding encode decode encrypt
  decode-encode io rec storable (n, e, size) =
      let (b, m, u) = json.unmarshal-marshal rec storable in
      let ct = n ++ cipher.aead.seal cipher.key n b in
      let back : decrypt cipher ct ≡ ok b = decrypt-encrypt cipher n b size in
      (ct, rw (m, e, encode, encrypt), rw (back, decode, u))

  pub view-insert :
      (k : Bytes) (ct : Bytes) (expiry : Option ℕ) (rec : Record) (items : Items) (t : ℕ)
      (j : Bytes)
      → decode json cipher ct ≡ ok rec
      → view (Assoc.insert k (record { ct = ct; expiry = expiry }) items) t j
        ≡ (if bytes_eq k j then while_live expiry t rec else view items t j)
  unfolding view
  view-insert k ct expiry rec items t j h =
      rw (lookup-insert k j (record { ct = ct; expiry = expiry }) items)
        (elim (Bool-cases (bytes_eq k j)) [ inl e ↦ rw (e, h) | inr e ↦ rw e ])

  pub insert-IsSound :
      (k ct : Bytes) (expiry : Option ℕ) (rec : Record) (items : Items)
      → decode json cipher ct ≡ ok rec
      → IsSound items
      → IsSound (Assoc.insert k (record { ct = ct; expiry = expiry }) items)
  insert-IsSound k ct expiry rec items h s = record {
    unique = insert-IsUnique k (record { ct = ct; expiry = expiry }) items s.unique;
    readable = insert-AllReadable k (record { ct = ct; expiry = expiry }) items (rec, h) s.readable;
  }

  pub view-delete :
      (k : Bytes) (items : Items) (t : ℕ) (j : Bytes)
      → view (Assoc.delete k items) t j ≡ (if bytes_eq k j then none else view items t j)
  unfolding view
  view-delete k items t j =
      rw (lookup-delete k j items)
        (elim (Bool-cases (bytes_eq k j)) [ inl e ↦ rw e | inr e ↦ rw e ])

  pub delete-IsSound : (k : Bytes) (items : Items) → IsSound items → IsSound (Assoc.delete k items)
  delete-IsSound k items s = record {
    unique = delete-IsUnique k items s.unique;
    readable = delete-AllReadable k items s.readable;
  }

  -- An entry that has expired has no record, and its removal changes nothing from then on.
  pub drop_expired :
      (k : Bytes) (items : Items) (e : Entry) (now t : ℕ) (j : Bytes)
      → Assoc.lookup k items ≡ some e
      → live_at e.expiry now ≡ false
      → now ≤ t
      → view (Assoc.delete k items) t j ≡ view items t j
  unfolding view
  drop_expired k items e now t j found dead later =
      view-delete k items t j ∙ elim (Bool-cases (bytes_eq k j)) [
        | inl same ↦
            rw (
              same,
              ← (bytes_eq_iff k j).0 same,
              view,
              found,
              live_at_mono e.expiry now t later dead,
            )
        | inr other ↦ rw other
      ]
