-- ===== src/Tests/Plain.antt =====
-- A store that keeps records as they are, with their expiry.
use alfa_hakaton.Common.{
  ℕ, ◌≡◌, refl, ap, ◌∙◌, Bool, true, false, Bytes, bytes_eq, List, Option, none, some,
  if◌then◌else◌,
}
use alfa_hakaton.Common.Int.{ℤ}
use alfa_hakaton.Common.Assoc.{lookup, insert, delete, lookup-insert, lookup-delete}
use alfa_hakaton.Common.Result.{Result, ok}
use alfa_hakaton.Store.Types.{Record, Io, StoreError, expiry_for}
use alfa_hakaton.Store.Api.{Store, while_live}

abbrev Kept : Type 0
Kept = List (Bytes × (Record × Option ℕ))

abbrev shown : ℕ → Option (Record × Option ℕ) → Option Record
shown t none = none
shown t (some (rec, expiry)) = while_live expiry t rec

abbrev pub plain_view : Kept → ℕ → Bytes → Option Record
plain_view s t k = shown t (lookup k s)

abbrev write : Io → Bytes → Record → ℤ → Kept → Kept
write io id rec ttl s = insert id (rec, expiry_for io.now ttl) s

abbrev write_new : Io → Bytes → Record → ℤ → Kept → Option Record → Result StoreError Bool × Kept
write_new io id rec ttl s none = (ok true, write io id rec ttl s)
write_new io id rec ttl s (some old) = (ok false, s)

shown-if :
    (t : ℕ) (b : Bool) (x y : Option (Record × Option ℕ))
    → shown t (if b then x else y) ≡ (if b then shown t x else shown t y)
shown-if t true x y = refl
shown-if t false x y = refl

pub written :
    (io : Io) (id : Bytes) (rec : Record) (ttl : ℤ) (s : Kept) (t : ℕ) (k : Bytes)
    → plain_view (write io id rec ttl s) t k
      ≡ (if bytes_eq id k then while_live (expiry_for io.now ttl) t rec else plain_view s t k)
written io id rec ttl s t k =
    ap (shown t) (lookup-insert id k (rec, expiry_for io.now ttl) s)
    ∙ shown-if t (bytes_eq id k) (some (rec, expiry_for io.now ttl)) (lookup k s)

pub deleted :
    (id : Bytes) (s : Kept) (t : ℕ) (k : Bytes)
    → plain_view (delete id s) t k ≡ (if bytes_eq id k then none else plain_view s t k)
deleted id s t k =
    ap (shown t) (lookup-delete id k s) ∙ shown-if t (bytes_eq id k) none (lookup k s)

abbrev pub plain_store : Store
plain_store = record {
  State = Kept;
  save = λ io id rec ttl s. (ok tt, write io id rec ttl s);
  save_new = λ io id rec ttl s. write_new io id rec ttl s (plain_view s io.now id);
  load = λ io id s. (ok (plain_view s io.now id), s);
  delete = λ id s. delete id s;
  hash_id = λ id. id;
  IsSound = λ s. Unit {0};
  IsStorable = λ rec. Unit {0};
  IsReady = λ io. Unit {0};
  view = plain_view;
  save_lem = λ io id rec ttl s sound storable ready.
      (write io id rec ttl s, refl, tt, written io id rec ttl s);
  save_new_lem = λ io id rec ttl s sound storable ready free.
      (write io id rec ttl s, rw free refl, tt, written io id rec ttl s);
  save_new_taken = λ io id rec old ttl s sound storable ready held. rw held refl;
  load_lem = λ io id s sound. (s, refl, tt, λ t k h. refl);
  delete_lem = λ id s sound. (tt, deleted id s);
}
