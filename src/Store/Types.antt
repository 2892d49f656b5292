-- ===== src/Store/Types.antt =====
-- internal/store/store.go: what is kept. Times are natural numbers of nanoseconds, and a time to live
-- is a signed duration.
use alfa_hakaton.Common.{
  ℕ, ◌+◌, ◌==◌, Bool, true, ltb, Bytes, List, [], Option, none, some, if◌then◌else◌,
}
use alfa_hakaton.Common.Int.{ℤ, pos, negsuc}
use alfa_hakaton.Mask.Doc.{Replacement}

pub record Record : Type 0 where
  pub replacements : List Replacement
  pub strategy : Bytes
  pub created_at : ℕ
  pub masked_text : Bytes
  pub hash : Bytes
  pub system_id : Bytes

-- The owner of records that were written before owners were kept.
abbrev pub legacy_owner : Bytes
legacy_owner = []

pub data StoreError : Type 0 where
  not_encodable encrypt_failed decrypt_failed not_decodable unreachable : StoreError

-- What a call takes from its surroundings: the time, and the bytes that the random source gives, if it
-- gives any.
pub record Io : Type 0 where
  pub now : ℕ
  pub nonce : Option Bytes

-- `time.Now().Add(ttl)`, or no expiry.
unfoldable pub expiry_for : ℕ → ℤ → Option ℕ
expiry_for now (pos ttl) = if ttl == 0 then none else some (now + ttl)
expiry_for now (negsuc n) = none

-- Whether something that expires at `expiry` is there at time `t`.
unfoldable pub live_at : Option ℕ → ℕ → Bool
live_at none t = true
live_at (some e) t = if ltb e t then Bool.false else true
