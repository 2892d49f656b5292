-- ===== src/Engine/Process.antt =====
-- `Process` and `processExisting` of internal/engine/engine.go, the checker's contract for one payload.
-- As in Engine/Requests.antt, `others n` is what happens to the store before the n-th call of it.
pub mod Safety
pub mod Contract
use alfa_hakaton.Common.{
  Option, Bool, ℕ, true, false, not, ◌&&◌, Bytes, bytes_eq, none, some, length, leb, if◌then◌else◌,
}
use alfa_hakaton.Common.Result.{Result, ok, err}
use alfa_hakaton.Common.Sort.{SortSlice}
use alfa_hakaton.Mask.Doc.{Strategy, new_doc_state}
use alfa_hakaton.Mask.Restore.{restore}
use alfa_hakaton.Store.Types.{Record, Io, StoreError}
use alfa_hakaton.Store.Api.{Store}
use alfa_hakaton.Engine.Types.{
  Options, Engine, EngineError, no_strategy, store_failed, ProcessResult, MaskResult,
}
use alfa_hakaton.Engine.Masking.{
  masked_result, resolve_strategy, owns_record, run_mask, mask_fresh_result,
}
use alfa_hakaton.Engine.Requests.{counts_from_rec, record_of}

-- The counts of an idempotent retry, which `processExisting` leaves out.
unfoldable pub with_found : Record → ProcessResult → ProcessResult
with_found rec res = elim res.found [
  | some m ↦ res
  | none ↦
      if not res.unmasked && bytes_eq res.result rec.masked_text
      then record res { found = some (counts_from_rec rec) }
      else res
]

-- What `Process` makes of the answer of `processExisting`.
abbrev pub retried : Record → Result EngineError ProcessResult → Result EngineError ProcessResult
retried rec (err x) = err x
retried rec (ok res) = ok (with_found rec res)

module _ (sort : SortSlice) (hash_text : Bytes → Bytes) (e : Engine) where
  unfoldable pub process_existing : Record → Bytes → Options → Result EngineError ProcessResult
  process_existing rec payload opt =
      let r = restore sort payload rec.replacements in
      if bytes_eq rec.hash (hash_text payload)
      then ok (record { result = rec.masked_text; found = none; unmasked = false; misses = 0 })
      else if not opt.unmask
      then mask_fresh_result sort e payload opt
      else if leb (length rec.replacements) r.1
      then mask_fresh_result sort e payload opt
      else ok (record { result = r.0; found = none; unmasked = true; misses = r.1 })

  -- A record was found: whose it is decides.
  unfoldable pub process_found : Record → Bytes → Options → Result EngineError ProcessResult
  process_found rec payload opt =
      if not (owns_record rec opt)
      then mask_fresh_result sort e payload opt
      else retried rec (process_existing rec payload opt)

  -- The same after a lost race, where the counts are not filled in.
  unfoldable pub process_winner : Record → Bytes → Options → Result EngineError ProcessResult
  process_winner rec payload opt =
      if not (owns_record rec opt)
      then mask_fresh_result sort e payload opt
      else process_existing rec payload opt

  module _ (st : Store) (io : ℕ → Io) (others : ℕ → st.State → st.State) where
    abbrev pub Outcome : Type 0
    Outcome = Result EngineError ProcessResult × st.State

    -- After the last, plain save.
    abbrev pub saved : MaskResult → Result StoreError (Unit {0}) × st.State → Outcome
    saved m (err x, s) = (err (store_failed x), s)
    saved m (ok u, s) = (ok (masked_result m), s)

    -- After the second load: the winner's record, or nothing, if it has gone already.
    abbrev pub reloaded :
        Bytes
        → Bytes
        → Options
        → Record
        → MaskResult
        → Result StoreError (Option Record) × st.State
        → Outcome
    reloaded id payload opt new_rec m (err x, s) = (err (store_failed x), s)
    reloaded id payload opt new_rec m (ok none, s) =
        saved m (st.save (io 3) id new_rec opt.ttl (others 3 s))
    reloaded id payload opt new_rec m (ok (some rec), s) = (process_winner rec payload opt, s)

    -- After the first write: it was made, or the race was lost.
    abbrev pub created :
        Bytes → Bytes → Options → Record → MaskResult → Result StoreError Bool × st.State → Outcome
    created id payload opt new_rec m (err x, s) = (err (store_failed x), s)
    created id payload opt new_rec m (ok true, s) = (ok (masked_result m), s)
    created id payload opt new_rec m (ok false, s) =
        reloaded id payload opt new_rec m (st.load (io 2) id (others 2 s))

    -- No record was found: the payload is masked, and saved if still nobody else has.
    abbrev pub process_new : Bytes → Bytes → Options → Option Strategy → st.State → Outcome
    process_new id payload opt none s = (err no_strategy, s)
    process_new id payload opt (some strategy) s =
        let m = run_mask sort e payload opt strategy new_doc_state in
        let new_rec =
          record_of (hash_text payload) (io 1).now opt strategy m.result.masked
            m.applied.replacements in
        created id payload opt new_rec m.result (st.save_new (io 1) id new_rec opt.ttl (others 1 s))

    -- After the first load.
    abbrev pub first_loaded :
        Bytes → Bytes → Options → Result StoreError (Option Record) × st.State → Outcome
    first_loaded id payload opt (err x, s) = (err (store_failed x), s)
    first_loaded id payload opt (ok none, s) =
        process_new id payload opt (resolve_strategy e opt.strategy) s
    first_loaded id payload opt (ok (some rec), s) = (process_found rec payload opt, s)

    unfoldable pub process : Bytes → Bytes → Options → st.State → Outcome
    process id payload opt s = first_loaded id payload opt (st.load (io 0) id (others 0 s))
