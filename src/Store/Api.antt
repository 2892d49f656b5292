-- ===== src/Store/Api.antt =====
-- The `Store` interface of internal/store/store.go as its clients see it: the calls, and what they
-- promise of `view`, the record that an id has at a time. Ids are told apart by their hash.
use alfa_hakaton.Common.{
  ℕ, ◌≤◌, ◌≡◌, Bool, true, false, Bytes, bytes_eq, Option, none, some, if◌then◌else◌,
}
use alfa_hakaton.Common.Int.{ℤ}
use alfa_hakaton.Common.Result.{Result, ok}
use alfa_hakaton.Store.Types.{Record, StoreError, Io, expiry_for, live_at}

-- A record that is there as long as it has not expired.
abbrev pub while_live : Option ℕ → ℕ → Record → Option Record
while_live expiry t rec = if live_at expiry t then some rec else none

pub record Store : Type 1 where
  pub State : Type 0
  pub save : Io → Bytes → Record → ℤ → State → Result StoreError (Unit {0}) × State
  pub save_new : Io → Bytes → Record → ℤ → State → Result StoreError Bool × State
  pub load : Io → Bytes → State → Result StoreError (Option Record) × State
  pub delete : Bytes → State → State
  pub hash_id : Bytes → Bytes
  -- What is asked of a state, of a record and of the surroundings of a call that is to succeed.
  pub IsSound : State → Type 0
  pub IsStorable : Record → Type 0
  pub IsReady : Io → Type 0
  pub view : State → ℕ → Bytes → Option Record
  pub save_lem :
      (io : Io) (id : Bytes) (rec : Record) (ttl : ℤ) (s : State)
      → IsSound s
      → IsStorable rec
      → IsReady io
      → (s' : State) × (save io id rec ttl s ≡ (ok tt, s'))
        × IsSound s'
        × ((t : ℕ) (k : Bytes)
            → view s' t k ≡ (
                if bytes_eq (hash_id id) k
                then while_live (expiry_for io.now ttl) t rec
                else view s t k))
  pub save_new_lem :
      (io : Io) (id : Bytes) (rec : Record) (ttl : ℤ) (s : State)
      → IsSound s
      → IsStorable rec
      → IsReady io
      → view s io.now (hash_id id) ≡ none
      → (s' : State) × (save_new io id rec ttl s ≡ (ok true, s'))
        × IsSound s'
        × ((t : ℕ) (k : Bytes)
            → view s' t k ≡ (
                if bytes_eq (hash_id id) k
                then while_live (expiry_for io.now ttl) t rec
                else view s t k))
  -- The first write wins.
  pub save_new_taken :
      (io : Io) (id : Bytes) (rec old : Record) (ttl : ℤ) (s : State)
      → IsSound s
      → IsStorable rec
      → IsReady io
      → view s io.now (hash_id id) ≡ some old
      → save_new io id rec ttl s ≡ (ok false, s)
  pub load_lem :
      (io : Io) (id : Bytes) (s : State)
      → IsSound s
      → (s' : State) × (load io id s ≡ (ok (view s io.now (hash_id id)), s'))
        × IsSound s'
        × ((t : ℕ) (k : Bytes) → io.now ≤ t → view s' t k ≡ view s t k)
  pub delete_lem :
      (id : Bytes) (s : State)
      → IsSound s
      → IsSound (delete id s)
        × ((t : ℕ) (k : Bytes)
            → view (delete id s) t k ≡ (if bytes_eq (hash_id id) k then none else view s t k))
