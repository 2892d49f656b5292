-- ===== src/Engine/Refinement/Machine.antt =====
-- What internal/engine/engine.go promises of its requests, as a machine of its own: a request looks up
-- the record of its id, and decides by it on an answer and on a record to keep. Only masking and
-- restoring of a text are the engine's.
use alfa_hakaton.Common.{
  ℕ, Bool, true, false, not, ◌&&◌, ◌||◌, ltb, Bytes, bytes_eq, List, [], ◌∷◌, Option, none, some,
  length, if◌then◌else◌,
}
use alfa_hakaton.Common.Result.{Result, ok, err}
use alfa_hakaton.Common.Sort.{SortSlice}
use alfa_hakaton.Mask.Doc.{Strategy, new_doc_state}
use alfa_hakaton.Mask.Restore.{restore}
use alfa_hakaton.Store.Types.{Record, Io}
use alfa_hakaton.Store.Spec.{Dictionary, put}
use alfa_hakaton.Engine.Types.{
  Options, Engine, EngineError, not_found, looks_like_unmask, foreign_record, no_strategy,
  MaskResult, UnmaskResult, ProcessResult,
}
use alfa_hakaton.Engine.Filter.{counts_of_reps}
use alfa_hakaton.Engine.Masking.{masked_result, fresh_result, resolve_strategy, run_mask, mask_only}
use alfa_hakaton.Engine.Requests.{record_of}

-- A request with its id, its text and its options.
pub data Call : Type 0 where
  process_call : Bytes → Bytes → Options → Call
  mask_call : Bytes → Bytes → Options → Call
  unmask_call : Bytes → Bytes → Options → Call

pub data CallResult : Type 0 where
  processed : Result EngineError ProcessResult → CallResult
  masked : Result EngineError MaskResult → CallResult
  unmasked : Result EngineError UnmaskResult → CallResult

abbrev pub id_of : Call → Bytes
id_of (process_call id text opt) = id
id_of (mask_call id text opt) = id
id_of (unmask_call id text opt) = id

abbrev pub options_of : Call → Options
options_of (process_call id text opt) = opt
options_of (mask_call id text opt) = opt
options_of (unmask_call id text opt) = opt

-- A system owns what it has made, and the default system what has no owner.
abbrev pub is_own : Record → Options → Bool
is_own rec opt =
    (not (bytes_eq rec.system_id []) && bytes_eq rec.system_id opt.system_id)
    || (bytes_eq rec.system_id []
        && (not (bytes_eq opt.system_id []) && bytes_eq opt.system_id opt.default_system_id))

module _ (sort : SortSlice) (hash_text : Bytes → Bytes) (e : Engine) where
  -- An answer, and the record that is kept with it.
  abbrev pub Decision : Type 0 → Type 0
  Decision R = Result EngineError R × Option Record

  -- A new mask is kept with what it takes to restore it.
  abbrev pub kept :
      {R : Type 0} → (MaskResult → R) → ℕ → Bytes → Options → Option Strategy → Decision R
  kept f now text opt none = (err no_strategy, none)
  kept f now text opt (some strategy) =
      let m = run_mask sort e text opt strategy new_doc_state in
      (
        ok (f m.result),
        some (record_of (hash_text text) now opt strategy m.result.masked m.applied.replacements),
      )

  abbrev pub decide_process : ℕ → Bytes → Options → Option Record → Decision ProcessResult
  decide_process now text opt none =
      kept masked_result now text opt (resolve_strategy e opt.strategy)
  decide_process now text opt (some rec) =
      let r = restore sort text rec.replacements in
      (
        if is_own rec opt && bytes_eq rec.hash (hash_text text)
            then ok (record {
              result = rec.masked_text;
              found = some (counts_of_reps [] rec.replacements);
              unmasked = false;
              misses = 0;
            })
            else if is_own rec opt && (opt.unmask && ltb r.1 (length rec.replacements))
            then ok (record { result = r.0; found = none; unmasked = true; misses = r.1 })
            else fresh_result (mask_only sort e text opt new_doc_state),
        none,
      )

  abbrev pub decide_mask : ℕ → Bytes → Options → Option Record → Decision MaskResult
  decide_mask now text opt none = kept (λ m. m) now text opt (resolve_strategy e opt.strategy)
  decide_mask now text opt (some rec) =
      if not (is_own rec opt)
      then (err foreign_record, none)
      else if bytes_eq rec.hash (hash_text text)
      then (
        ok (record { masked = rec.masked_text; found = counts_of_reps [] rec.replacements }),
        none,
      )
      else if bytes_eq rec.masked_text text
      then (err looks_like_unmask, none)
      else kept (λ m. m) now text opt (resolve_strategy e opt.strategy)

  abbrev pub decide_unmask : Bytes → Options → Option Record → Result EngineError UnmaskResult
  decide_unmask text opt none = err not_found
  decide_unmask text opt (some rec) =
      let r = restore sort text rec.replacements in
      if is_own rec opt then ok (record { restored = r.0; misses = r.1 }) else err not_found

  abbrev pub decide : ℕ → Call → Option Record → CallResult × Option Record
  decide now (process_call id text opt) o =
      let d = decide_process now text opt o in (processed d.0, d.1)
  decide now (mask_call id text opt) o = let d = decide_mask now text opt o in (masked d.0, d.1)
  decide now (unmask_call id text opt) o = (unmasked (decide_unmask text opt o), none)

  -- The dictionary with the record that is kept, if there is one.
  abbrev pub keep : Io → Bytes → Options → Option Record → Dictionary → Dictionary
  keep io key opt none v = v
  keep io key opt (some rec) v = put io key rec opt.ttl v

  module _ (hash_id : Bytes → Bytes) where
    -- What is decided by the record that the id has when the request comes.
    abbrev pub decided : (ℕ → Io) → Call → Dictionary → CallResult × Option Record
    decided io c v = decide (io 1).now c (v (io 0).now (hash_id (id_of c)))

    abbrev pub after_call : (ℕ → Io) → Call → Dictionary → Dictionary
    after_call io c v = keep (io 1) (hash_id (id_of c)) (options_of c) (decided io c v).1 v

    abbrev pub run_machine : List ((ℕ → Io) × Call) → Dictionary → List CallResult
    run_machine [] v = []
    run_machine ((io, c) ∷ calls) v = (decided io c v).0 ∷ run_machine calls (after_call io c v)
