-- ===== src/Engine/Types.antt =====
-- internal/engine/engine.go: options, results and errors of the requests. The durations of `Stages`
-- are not modelled: nothing is decided by them.
use alfa_hakaton.Common.{ℕ, Bool, Bytes, List, Option}
use alfa_hakaton.Common.Int.{ℤ}
use alfa_hakaton.Mask.Doc.{Strategy}
use alfa_hakaton.Pii.Types.{Category}
use alfa_hakaton.Pii.Pipeline.{Pipeline}
use alfa_hakaton.Store.Types.{StoreError}
use alfa_hakaton.Engine.Filter.{ComboRule, Counts}

pub record Options : Type 0 where
  pub categories : List Category
  pub strategy : Bytes
  pub ttl : ℤ
  pub combo_rules : List ComboRule
  pub unmask : Bool
  pub system_id : Bytes
  pub default_system_id : Bytes

-- The strategies are a map by name: the order of the list is one that its iteration may take.
pub record Engine : Type 0 where
  pub pipeline : Pipeline
  pub strategies : List (Bytes × Strategy)

pub data EngineError : Type 0 where
  not_found looks_like_unmask foreign_record no_strategy : EngineError
  store_failed : StoreError → EngineError

pub record MaskResult : Type 0 where
  pub masked : Bytes
  pub found : Counts

pub record UnmaskResult : Type 0 where
  pub restored : Bytes
  pub misses : ℕ

pub record ProcessResult : Type 0 where
  pub result : Bytes
  pub found : Option Counts
  pub unmasked : Bool
  pub misses : ℕ
