-- ===== src/Engine/Masking.antt =====
-- `resolveStrategy`, `ownsRecord`, `runMask` and `maskOnly` of internal/engine/engine.go, and
-- `maskChunked` of internal/engine/chunk.go: a text is masked without touching the store.
use alfa_hakaton.Common.{
  Bool, not, ◌&&◌, Bytes, bytes_eq, codes, List, [], ◌∷◌, Option, none, some, length, ltb,
  if◌then◌else◌,
}
use alfa_hakaton.Common.Assoc
use alfa_hakaton.Common.Result.{Result, ok, err}
use alfa_hakaton.Common.Sort.{SortSlice}
use alfa_hakaton.Pii.Types.{Span}
use alfa_hakaton.Pii.Pipeline.{run}
use alfa_hakaton.Mask.Doc.{Strategy, DocState, new_doc_state}
use alfa_hakaton.Mask.Apply.{apply, Applied}
use alfa_hakaton.Store.Types.{Record, legacy_owner}
use alfa_hakaton.Engine.Types.{Options, Engine, EngineError, no_strategy, MaskResult, ProcessResult}
use alfa_hakaton.Engine.Filter.{filter_spans, counts}
use alfa_hakaton.Engine.Windows.{chunk_threshold, detect_windowed}

abbrev first_strategy : List (Bytes × Strategy) → Option Strategy
first_strategy [] = none
first_strategy ((name, s) ∷ rest) = some s

abbrev or_else : Option Strategy → Option Strategy → Option Strategy
or_else (some s) t = some s
or_else none t = t

unfoldable pub resolve_strategy : Engine → Bytes → Option Strategy
unfolding Assoc.lookup
resolve_strategy e name =
    or_else (Assoc.lookup name e.strategies)
      (or_else (Assoc.lookup (codes "partial") e.strategies) (first_strategy e.strategies))

-- A record with no owner belongs to the default system only.
unfoldable pub owns_record : Record → Options → Bool
owns_record rec opt =
    if bytes_eq rec.system_id legacy_owner
    then not (bytes_eq opt.system_id []) && bytes_eq opt.system_id opt.default_system_id
    else bytes_eq rec.system_id opt.system_id

pub record Masked : Type 0 where
  pub applied : Applied
  pub result : MaskResult

-- The outcome of masking new text.
abbrev pub masked_result : MaskResult → ProcessResult
masked_result m = record {
  result = m.masked;
  found = some m.found;
  unmasked = Bool.false;
  misses = 0;
}

abbrev pub fresh_result : Result EngineError MaskResult → Result EngineError ProcessResult
fresh_result (err x) = err x
fresh_result (ok m) = ok (masked_result m)

module _ (sort : SortSlice) where
  -- The spans that are masked, by the windows of a long text or the whole of a short one.
  unfoldable pub spans_of : Engine → Bytes → Options → List Span
  unfolding filter_spans
  spans_of e text opt =
      let found =
        if ltb chunk_threshold (length text)
        then detect_windowed sort e.pipeline text
        else run sort e.pipeline text in
      filter_spans found opt.categories opt.combo_rules

  unfoldable pub run_mask : Engine → Bytes → Options → Strategy → DocState → Masked
  run_mask e text opt strategy doc =
      let spans = spans_of e text opt in
      let applied = apply sort text spans strategy (some doc) in
      record { applied = applied; result = record { masked = applied.text; found = counts spans } }

  abbrev mask_with :
      Engine → Bytes → Options → DocState → Option Strategy → Result EngineError MaskResult
  mask_with e text opt doc none = err no_strategy
  mask_with e text opt doc (some strategy) = ok (run_mask e text opt strategy doc).result

  unfoldable pub mask_only : Engine → Bytes → Options → DocState → Result EngineError MaskResult
  mask_only e text opt doc = mask_with e text opt doc (resolve_strategy e opt.strategy)

  unfoldable pub mask_fresh_result : Engine → Bytes → Options → Result EngineError ProcessResult
  mask_fresh_result e payload opt = fresh_result (mask_only e payload opt new_doc_state)
