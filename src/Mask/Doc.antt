-- ===== src/Mask/Doc.antt =====
-- internal/mask/mask.go: the state kept for one document, the record of one substitution, and what a
-- strategy is. `Apply` hands every strategy a document state, so that is what `mask` takes.
use alfa_hakaton.Common.{ℕ, ◌+◌, Bytes, List, [], Option, none, some}
use alfa_hakaton.Common.Int.{ℤ}
use alfa_hakaton.Common.Assoc
use alfa_hakaton.Pii.Types.{Category}

pub record DocState : Type 0 where
  pub memos : List (Bytes × Bytes)
  pub seq : List (Category × ℕ)

unfoldable pub new_doc_state : DocState
new_doc_state = record { memos = []; seq = [] }

abbrev pub or_empty : Option Bytes → Bytes
or_empty none = []
or_empty (some r) = r

abbrev pub or_zero : Option ℕ → ℕ
or_zero none = 0
or_zero (some n) = n

-- The replacement recorded for a value, or the empty string.
unfoldable pub memo : DocState → Bytes → Bytes
memo d value = or_empty (Assoc.lookup value d.memos)

unfoldable pub remember : DocState → Bytes → Bytes → DocState
remember d value replacement = record d { memos = Assoc.insert value replacement d.memos }

-- The next number of a category, with the counter moved on.
unfoldable pub next : DocState → Category → ℕ × DocState
next d cat =
    let n = or_zero (Assoc.lookup cat d.seq) + 1 in (n, record d { seq = Assoc.insert cat n d.seq })

pub record Strategy : Type 0 where
  pub name : Bytes
  pub mask : Bytes → Category → DocState → Bytes × DocState

pub record Replacement : Type 0 where
  pub category : Category
  pub original : Bytes
  pub masked : Bytes
  pub start : ℤ
  pub end : ℤ
