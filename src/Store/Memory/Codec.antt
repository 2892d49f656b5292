-- ===== src/Store/Memory/Codec.antt =====
-- `encoding/json` on records: a record whose strings are valid UTF-8 is read back as it was written.
use alfa_hakaton.Common.{◌≡◌, Bytes, Option, some}
use alfa_hakaton.Store.Types.{Record}

pub record Json : Type 1 where
  pub marshal : Record → Option Bytes
  pub unmarshal : Bytes → Option Record
  pub IsStorable : Record → Type 0
  pub unmarshal-marshal :
      (r : Record) → IsStorable r → (b : Bytes) × (marshal r ≡ some b) × (unmarshal b ≡ some r)
