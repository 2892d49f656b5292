-- ===== src/Engine/Batch.antt =====
-- `MaskBatchEx`, `joinMasked` and `joinTexts` of internal/engine/engine.go: the messages of a chat are
-- masked with one document state, and stored as one record under one id.
pub mod Laws
use alfa_hakaton.Common.{
  ℕ, ◌+◌, not, Bytes, List, [], ◌∷◌, ◌++◌, map, Option, none, some, length, if◌then◌else◌,
}
use alfa_hakaton.Common.Assoc
use alfa_hakaton.Common.Int.{◌+ℤ◌}
use alfa_hakaton.Common.Result.{Result, ok, err}
use alfa_hakaton.Common.Sort.{SortSlice}
use alfa_hakaton.Mask.Doc.{DocState, Strategy, Replacement, new_doc_state, or_zero}
use alfa_hakaton.Store.Types.{Record, Io, StoreError}
use alfa_hakaton.Store.Api.{Store}
use alfa_hakaton.Engine.Types.{
  Options, Engine, EngineError, foreign_record, no_strategy, store_failed,
}
use alfa_hakaton.Engine.Filter.{Counts}
use alfa_hakaton.Engine.Masking.{resolve_strategy, owns_record, run_mask, Masked}
use alfa_hakaton.Engine.Requests.{record_of}

pub record MaskBatchResult : Type 0 where
  pub masked : List Bytes
  pub found : Counts

-- A line end behind every text, as `joinMasked` and `joinTexts` write it.
unfoldable pub join : List Bytes → Bytes
join [] = []
join (t ∷ ts) = t ++ 0x0A ∷ join ts

-- `found[c] += n` for each count.
unfoldable pub add_counts : Counts → Counts → Counts
add_counts found [] = found
add_counts found ((c, n) ∷ more) =
    add_counts (Assoc.insert c (or_zero (Assoc.lookup c found) + n) found) more

-- A replacement's place in the joined texts.
unfoldable pub shift_rep : ℕ → Replacement → Replacement
shift_rep n r = record r { start = r.start +ℤ n; end = r.end +ℤ n }

-- The loop's variables.
pub record Batch : Type 0 where
  pub masked : List Bytes
  pub reps : List Replacement
  pub found : Counts
  pub offset : ℕ
  pub doc : DocState

unfoldable pub start_batch : Batch
start_batch = record { masked = []; reps = []; found = []; offset = 0; doc = new_doc_state }

-- What the masking of one message adds.
unfoldable pub add_message : Batch → Masked → Batch
unfolding shift_rep add_counts
add_message b m = record {
  masked = b.masked ++ m.result.masked ∷ [];
  reps = b.reps ++ map (shift_rep b.offset) m.applied.replacements;
  found = add_counts b.found m.result.found;
  offset = b.offset + (length m.result.masked + 1);
  doc = m.applied.doc;
}

module _ (sort : SortSlice) where
  unfoldable pub mask_messages : Engine → Options → Strategy → Batch → List Bytes → Batch
  unfolding add_message
  mask_messages e opt strategy b [] = b
  mask_messages e opt strategy b (t ∷ texts) =
      mask_messages e opt strategy (add_message b (run_mask sort e t opt strategy b.doc)) texts

  module _ (hash_text : Bytes → Bytes) (st : Store) (io : ℕ → Io)
      (others : ℕ → st.State → st.State) where
    abbrev pub batch_saved :
        Batch
        → Result StoreError (Unit {0}) × st.State
        → Result EngineError MaskBatchResult × st.State
    batch_saved b (err x, s) = (err (store_failed x), s)
    batch_saved b (ok u, s) = (ok (record { masked = b.masked; found = b.found }), s)

    abbrev pub batch_with :
        Engine
        → Bytes
        → List Bytes
        → Options
        → Option Strategy
        → st.State
        → Result EngineError MaskBatchResult × st.State
    batch_with e id texts opt none s = (err no_strategy, s)
    batch_with e id texts opt (some strategy) s =
        let b = mask_messages e opt strategy start_batch texts in
        let rec =
          record_of (hash_text (join texts)) (io 1).now opt strategy (join b.masked) b.reps in
        batch_saved b (st.save (io 1) id rec opt.ttl (others 1 s))

    -- After the load, where a failure of the store counts as no record.
    abbrev pub batch_loaded :
        Engine
        → Bytes
        → List Bytes
        → Options
        → Result StoreError (Option Record) × st.State
        → Result EngineError MaskBatchResult × st.State
    batch_loaded e id texts opt (err x, s) =
        batch_with e id texts opt (resolve_strategy e opt.strategy) s
    batch_loaded e id texts opt (ok none, s) =
        batch_with e id texts opt (resolve_strategy e opt.strategy) s
    batch_loaded e id texts opt (ok (some rec), s) =
        if not (owns_record rec opt)
        then (err foreign_record, s)
        else batch_with e id texts opt (resolve_strategy e opt.strategy) s

    unfoldable pub mask_batch_ex :
        Engine
        → Bytes
        → List Bytes
        → Options
        → st.State
        → Result EngineError MaskBatchResult × st.State
    mask_batch_ex e id texts opt s = batch_loaded e id texts opt (st.load (io 0) id (others 0 s))
