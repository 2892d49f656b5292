-- ===== src/Store/Memory/Implements.antt =====
-- The memory store keeps what the `Store` interface promises.
use alfa_hakaton.Common.{
  ℕ, ◌≤◌, ◌≡◌, refl, true, false, Bool-cases, Option-cases, Bytes, bytes_eq, none, some, inl, inr,
  if◌then◌else◌,
}
use alfa_hakaton.Common.Int.{ℤ}
use alfa_hakaton.Common.Result.{ok}
use alfa_hakaton.Common.Assoc
use alfa_hakaton.Common.Assoc.{IsUnique}
use alfa_hakaton.Crypto.{Cipher}
use alfa_hakaton.Store.Types.{Record, Io, expiry_for, live_at}
use alfa_hakaton.Store.Api.{Store, while_live}
use alfa_hakaton.Store.Memory.{
  Items, hash_id, expired, taken, save, save_new, load_read, load_rest, load, delete,
}
use alfa_hakaton.Store.Memory.Codec.{Json}
use alfa_hakaton.Store.Memory.Laws.{
  view-delete, delete-IsSound, IsSound, IsReady, view, decode-encode, view-insert, insert-IsSound,
  drop_expired, readable_of,
}

module _ (json : Json) (cipher : Cipher) (hmac : Bytes → Bytes → Bytes) where
  -- What writing a record under an id does to the view.
  abbrev Written : Io → Bytes → Record → ℤ → Items → Items → Type 0
  Written io id rec ttl items items' =
      (t : ℕ) (k : Bytes)
      → view json cipher items' t k ≡ (
          if bytes_eq (hash_id hmac cipher.key id) k
          then while_live (expiry_for io.now ttl) t rec
          else view json cipher items t k)

  -- `Save` stores the record under the hash of its id until it expires, and touches no other.
  pub save_lem :
      (io : Io) (id : Bytes) (rec : Record) (ttl : ℤ) (items : Items)
      → IsSound json cipher items
      → json.IsStorable rec
      → IsReady json cipher io
      → (items' : Items) × (save json cipher hmac io id rec ttl items ≡ (ok tt, items'))
        × IsSound json cipher items'
        × Written io id rec ttl items items'
  unfolding save
  save_lem io id rec ttl items sound storable ready =
      let (ct, e, d) = decode-encode json cipher io rec storable ready in
      let key = hash_id hmac cipher.key id in
      let expiry = expiry_for io.now ttl in
      (
        Assoc.insert key (record { ct = ct; expiry = expiry }) items,
        rw (e, save),
        insert-IsSound json cipher key ct expiry rec items d sound,
        λ t k. view-insert json cipher key ct expiry rec items t k d,
      )

  pub taken_view :
      (items : Items) (now : ℕ) (k : Bytes)
      → IsSound json cipher items
      → view json cipher items now k ≡ none
      → taken (Assoc.lookup k items) now ≡ false
  unfolding view taken expired
  taken_view items now k sound h = elim (Option-cases (Assoc.lookup k items)) [
    | inl e ↦ rw e
    | inr (x, e) ↦
        let (r, d) = readable_of json cipher k items {e = x} sound.readable e in
        rw e (elim (Bool-cases (live_at x.expiry now)) [
          | inl l ↦ cc (rw (e, view, l, d) at h)
          | inr l ↦ rw l
        ])
  ]

  pub view_taken :
      (items : Items) (now : ℕ) (k : Bytes) (old : Record)
      → view json cipher items now k ≡ some old
      → taken (Assoc.lookup k items) now ≡ true
  unfolding view taken expired
  view_taken items now k old h = elim (Option-cases (Assoc.lookup k items)) [
    | inl e ↦ cc (rw (e, view) at h)
    | inr (x, e) ↦ rw e (elim (Bool-cases (live_at x.expiry now)) [
      | inl l ↦ rw l
      | inr l ↦ cc (rw (e, view, l) at h)
    ])
  ]

  -- `SaveNew`, where the id has no live record, stores the record under the hash of the id until it
  -- expires, says so, and touches no other.
  pub save_new_lem :
      (io : Io) (id : Bytes) (rec : Record) (ttl : ℤ) (items : Items)
      → IsSound json cipher items
      → json.IsStorable rec
      → IsReady json cipher io
      → view json cipher items io.now (hash_id hmac cipher.key id) ≡ none
      → (items' : Items) × (save_new json cipher hmac io id rec ttl items ≡ (ok true, items'))
        × IsSound json cipher items'
        × Written io id rec ttl items items'
  unfolding save_new
  save_new_lem io id rec ttl items sound storable ready free =
      let (ct, e, d) = decode-encode json cipher io rec storable ready in
      let key = hash_id hmac cipher.key id in
      let expiry = expiry_for io.now ttl in
      (
        Assoc.insert key (record { ct = ct; expiry = expiry }) items,
        rw (e, save_new, taken_view items io.now key sound free),
        insert-IsSound json cipher key ct expiry rec items d sound,
        λ t k. view-insert json cipher key ct expiry rec items t k d,
      )

  -- `SaveNew` leaves a live record as it is.
  pub save_new_taken :
      (io : Io) (id : Bytes) (rec old : Record) (ttl : ℤ) (items : Items)
      → IsSound json cipher items
      → json.IsStorable rec
      → IsReady json cipher io
      → view json cipher items io.now (hash_id hmac cipher.key id) ≡ some old
      → save_new json cipher hmac io id rec ttl items ≡ (ok false, items)
  unfolding save_new
  save_new_taken io id rec old ttl items sound storable ready held =
      let (ct, e, d) = decode-encode json cipher io rec storable ready in
      rw (e, save_new, view_taken items io.now (hash_id hmac cipher.key id) old held)

  -- `Load` with nothing in between returns the live record, and changes no view from then on.
  pub load_lem :
      (io : Io) (id : Bytes) (items : Items)
      → IsSound json cipher items
      → (items' : Items) × (load json cipher hmac io id items
          ≡ (ok (view json cipher items io.now (hash_id hmac cipher.key id)), items'))
        × IsSound json cipher items'
        × ((t : ℕ) (k : Bytes)
            → io.now ≤ t
            → view json cipher items' t k ≡ view json cipher items t k)
  unfolding load load_read load_rest view expired
  load_lem io id items sound =
      let key = hash_id hmac cipher.key id in
      elim (Option-cases (Assoc.lookup key items)) [
        | inl e ↦ (items, rw e, sound, λ t k h. refl)
        | inr (x, e) ↦
            let (r, d) = readable_of json cipher key items {e = x} sound.readable e in
            elim (Bool-cases (live_at x.expiry io.now)) [
              | inl l ↦ (items, rw (e, load_rest, l, d), sound, λ t k h. refl)
              | inr l ↦ (
                Assoc.delete key items,
                rw (e, load_rest, l),
                delete-IsSound json cipher key items sound,
                λ t k h. drop_expired json cipher key items x io.now t k e l h,
              )
            ]
      ]

  -- `Delete` removes the record of the id, and touches no other.
  pub delete_lem :
      (id : Bytes) (items : Items)
      → IsSound json cipher items
      → IsSound json cipher (delete json cipher hmac id items)
        × ((t : ℕ) (k : Bytes)
            → view json cipher (delete json cipher hmac id items) t k ≡ (
                if bytes_eq (hash_id hmac cipher.key id) k
                then none
                else view json cipher items t k))
  unfolding delete
  delete_lem id items sound =
      let key = hash_id hmac cipher.key id in
      (delete-IsSound json cipher key items sound, view-delete json cipher key items)

  -- The memory store is a `Store`: each call does what the interface promises.
  abbrev pub memory_store : Store
  memory_store = record {
    State = Items;
    save = save json cipher hmac;
    save_new = save_new json cipher hmac;
    load = load json cipher hmac;
    delete = delete json cipher hmac;
    hash_id = hash_id hmac cipher.key;
    IsSound = IsSound json cipher;
    IsStorable = json.IsStorable;
    IsReady = IsReady json cipher;
    view = view json cipher;
    save_lem = save_lem;
    save_new_lem = save_new_lem;
    save_new_taken = save_new_taken;
    load_lem = load_lem;
    delete_lem = delete_lem;
  }
