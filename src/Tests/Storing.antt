-- ===== src/Tests/Storing.antt =====
-- The store in memory.
use alfa_hakaton.Common.{
  ℕ, ◌≡◌, refl, Bytes, bytes_eq, codes, [], ◌∷◌, none, some, if◌then◌else◌, arith,
}
use alfa_hakaton.Common.Assoc
use alfa_hakaton.Common.Assoc.{IsUnique}
use alfa_hakaton.Common.Int.{pos}
use alfa_hakaton.Common.Result.{ok}
use alfa_hakaton.Crypto.{encrypt, decrypt}
use alfa_hakaton.Store.Types.{expiry_for, live_at}
use alfa_hakaton.Store.Api.{while_live}
use alfa_hakaton.Store.Memory.{
  Entry, Items, hash_id, expired, cleanup, save, load_read, load_rest, encode, decode,
}
use alfa_hakaton.Store.Memory.Laws.{IsSound, view, IsReady}
use alfa_hakaton.Store.Memory.Race.{cleanup_keeps, load_drops_saved}
use alfa_hakaton.Tests.Data.{bob_record, cipher, json, hmac, io}

abbrev id : Bytes
id = codes "42"

abbrev entry : ℕ → Entry
entry expiry = record { ct = 7 ∷ 9 ∷ 1 ∷ []; expiry = some expiry }

-- One record, which expires at time 9.
abbrev items : Items
items = (id, entry 9) ∷ []

-- The same, expired before time 1.
abbrev dead_items : Items
dead_items = (id, entry 0) ∷ []

empty-IsSound : IsSound json cipher []
empty-IsSound = record { unique = tt; readable = tt }

items-IsSound : IsSound json cipher items
unfolding Assoc.lookup decode decrypt
items-IsSound = record { unique = (refl, tt); readable = ((bob_record, refl), tt) }

io-IsReady : IsReady json cipher (io 0)
io-IsReady = (7 ∷ 9 ∷ [], refl, refl)

items-view : view json cipher items 1 id ≡ some bob_record
unfolding view Assoc.lookup bytes_eq live_at decode decrypt
items-view = refl

abbrev Written : Items → Items → Type 0
Written before after =
    (t : ℕ) (k : Bytes)
    → view json cipher after t k ≡ (
        if bytes_eq (hash_id hmac cipher.key id) k
        then while_live (expiry_for 1 (pos 60)) t bob_record
        else view json cipher before t k)

cleanup_keeps_example :
    view json cipher (cleanup 1 dead_items) 3 id ≡ view json cipher dead_items 3 id
unfolding Assoc.lookup
cleanup_keeps_example = cleanup_keeps json cipher 1 3 dead_items id (refl, tt) (omega arith)

load_drops_saved_example :
    let after =
      load_rest json cipher hmac 1 id
        (load_read json cipher hmac id dead_items)
        (save json cipher hmac (io 0) id bob_record (pos 60) dead_items).1 in
    (after.0 ≡ ok none) × ((t : ℕ) → view json cipher after.1 t (hash_id hmac cipher.key id) ≡ none)
unfolding load_read Assoc.lookup bytes_eq hash_id expired live_at save encode encrypt Assoc.insert
load_drops_saved_example =
    load_drops_saved json cipher hmac id 1 (entry 0) (io 0) bob_record (pos 60) dead_items
      (save json cipher hmac (io 0) id bob_record (pos 60) dead_items).1 refl refl refl
