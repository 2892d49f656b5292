-- ===== src/Engine/Requests.antt =====
-- `MaskEx`, `maskWithRecord` and `UnmaskEx` of internal/engine/engine.go. Before its n-th
-- call of the store a request lets `others n` happen to it: whatever other requests and the cleanup do
-- meanwhile. `io n` is the time and the randomness of that call.
pub mod Laws
use alfa_hakaton.Common.{ℕ, not, Bytes, bytes_eq, List, [], Option, none, some, if◌then◌else◌}
use alfa_hakaton.Common.Result.{Result, ok, err}
use alfa_hakaton.Common.Sort.{SortSlice}
use alfa_hakaton.Mask.Doc.{Strategy, DocState, new_doc_state, Replacement}
use alfa_hakaton.Mask.Restore.{restore}
use alfa_hakaton.Store.Types.{Record, Io, StoreError}
use alfa_hakaton.Store.Api.{Store}
use alfa_hakaton.Engine.Types.{
  Options, Engine, EngineError, not_found, looks_like_unmask, foreign_record, no_strategy,
  store_failed, MaskResult, UnmaskResult,
}
use alfa_hakaton.Engine.Filter.{Counts, counts_of_reps}
use alfa_hakaton.Engine.Masking.{resolve_strategy, owns_record, run_mask}

unfoldable pub counts_from_rec : Record → Counts
unfolding counts_of_reps
counts_from_rec rec = counts_of_reps [] rec.replacements

-- The record of a text that was masked.
abbrev pub record_of : Bytes → ℕ → Options → Strategy → Bytes → List Replacement → Record
record_of hash now opt strategy masked reps = record {
  replacements = reps;
  strategy = strategy.name;
  created_at = now;
  masked_text = masked;
  hash = hash;
  system_id = opt.system_id;
}

module _ (sort : SortSlice) (st : Store) (hash_text : Bytes → Bytes) (io : ℕ → Io)
    (others : ℕ → st.State → st.State) where
  -- After the save.
  abbrev pub mask_saved :
      MaskResult
      → Result StoreError (Unit {0}) × st.State
      → Result EngineError MaskResult × st.State
  mask_saved m (err x, s) = (err (store_failed x), s)
  mask_saved m (ok u, s) = (ok m, s)

  abbrev pub mask_and_save :
      Engine
      → Bytes
      → Bytes
      → Options
      → DocState
      → Option Strategy
      → st.State
      → Result EngineError MaskResult × st.State
  mask_and_save e id text opt doc none s = (err no_strategy, s)
  mask_and_save e id text opt doc (some strategy) s =
      let m = run_mask sort e text opt strategy doc in
      let rec =
        record_of (hash_text text) (io 1).now opt strategy m.result.masked m.applied.replacements in
      mask_saved m.result (st.save (io 1) id rec opt.ttl (others 1 s))

  unfoldable pub mask_with_record :
      Engine
      → Bytes
      → Bytes
      → Options
      → DocState
      → Option Record
      → st.State
      → Result EngineError MaskResult × st.State
  mask_with_record e id text opt doc none s =
      mask_and_save e id text opt doc (resolve_strategy e opt.strategy) s
  mask_with_record e id text opt doc (some rec) s =
      if bytes_eq rec.hash (hash_text text)
      then (ok (record { masked = rec.masked_text; found = counts_from_rec rec }), s)
      else if bytes_eq rec.masked_text text
      then (err looks_like_unmask, s)
      else mask_and_save e id text opt doc (resolve_strategy e opt.strategy) s

  -- What was loaded, for `maskEx`: a failure of the store counts as no record.
  unfoldable pub mask_loaded :
      Engine
      → Bytes
      → Bytes
      → Options
      → DocState
      → Option Record
      → st.State
      → Result EngineError MaskResult × st.State
  mask_loaded e id text opt doc none s = mask_with_record e id text opt doc none s
  mask_loaded e id text opt doc (some rec) s =
      if not (owns_record rec opt)
      then (err foreign_record, s)
      else if bytes_eq rec.hash (hash_text text)
      then (ok (record { masked = rec.masked_text; found = counts_from_rec rec }), s)
      else if bytes_eq rec.masked_text text
      then (err looks_like_unmask, s)
      else mask_with_record e id text opt doc (some rec) s

  abbrev loaded : {E : Type 0} → Result E (Option Record) → Option Record
  loaded (err x) = none
  loaded (ok o) = o

  unfoldable pub mask_ex :
      Engine → Bytes → Bytes → Options → st.State → Result EngineError MaskResult × st.State
  mask_ex e id text opt s =
      let got = st.load (io 0) id (others 0 s) in
      mask_loaded e id text opt new_doc_state (loaded got.0) got.1

  -- After the load.
  abbrev pub unmask_loaded :
      Bytes
      → Options
      → Result StoreError (Option Record) × st.State
      → Result EngineError UnmaskResult × st.State
  unmask_loaded masked opt (err x, s) = (err (store_failed x), s)
  unmask_loaded masked opt (ok none, s) = (err not_found, s)
  unmask_loaded masked opt (ok (some rec), s) =
      if not (owns_record rec opt) then (err not_found, s) else (
        ok (record {
          restored = (restore sort masked rec.replacements).0;
          misses = (restore sort masked rec.replacements).1;
        }),
        s,
      )

  unfoldable pub unmask_ex :
      Bytes → Bytes → Options → st.State → Result EngineError UnmaskResult × st.State
  unmask_ex id masked opt s = unmask_loaded masked opt (st.load (io 0) id (others 0 s))
