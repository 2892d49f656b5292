-- ===== src/Engine/Refinement/Sequences.antt =====
-- A sequence of requests of internal/engine/engine.go over any store answers as the machine.
use mathlib.Core.Path.{ap₂}
use alfa_hakaton.Common.{ℕ, ◌≡◌, refl, ap, Bytes, List, [], ◌∷◌}
use alfa_hakaton.Common.Sort.{SortSlice}
use alfa_hakaton.Store.Types.{Io}
use alfa_hakaton.Store.Api.{Store}
use alfa_hakaton.Store.Spec.{Dictionary}
use alfa_hakaton.Engine.Types.{Engine}
use alfa_hakaton.Engine.Requests.{mask_ex, unmask_ex}
use alfa_hakaton.Engine.Process.{process}
use alfa_hakaton.Engine.Process.Contract.{alone}
use alfa_hakaton.Engine.Refinement.{Agrees}
use alfa_hakaton.Engine.Refinement.Machine.{
  Call, process_call, mask_call, unmask_call, CallResult, processed, masked, unmasked, decided,
  after_call, run_machine,
}
use alfa_hakaton.Engine.Refinement.Decided.{
  IsTimed, CanKeep, Sim, process-Sim, mask-Sim, unmask-Sim,
}

abbrev tag : {R S : Type 0} → (R → CallResult) → R × S → CallResult × S
tag f o = (f o.0, o.1)

module _ (sort : SortSlice) (hash_text : Bytes → Bytes) (e : Engine) (st : Store) where
  unfoldable pub run_call : (ℕ → Io) → Call → st.State → CallResult × st.State
  run_call io (process_call id payload opt) s =
      tag processed (process sort hash_text e st io alone id payload opt s)
  run_call io (mask_call id text opt) s =
      tag masked (mask_ex sort st hash_text io alone e id text opt s)
  run_call io (unmask_call id text opt) s =
      tag unmasked (unmask_ex sort st hash_text io alone id text opt s)

  -- One call after the other, each with the times and the randomness that it is given.
  unfoldable pub run_calls : List ((ℕ → Io) × Call) → st.State → List CallResult
  unfolding run_call
  run_calls [] s = []
  run_calls ((io, c) ∷ calls) s = let (r, s') = run_call io c s in r ∷ run_calls calls s'

  -- The clock goes on from call to call, every call has its randomness, and the records that the machine
  -- keeps can be written.
  abbrev pub IsRunnable : ℕ → List ((ℕ → Io) × Call) → Dictionary → Type 0
  IsRunnable from [] v = Unit
  IsRunnable from ((io, c) ∷ calls) v =
      IsTimed from io
      × ((n : ℕ) → st.IsReady (io n))
      × CanKeep st (decided sort hash_text e st.hash_id io c v).1
      × IsRunnable (io 3).now calls (after_call sort hash_text e st.hash_id io c v)

  run_call-Sim :
      (from : ℕ) (io : ℕ → Io) (c : Call) (s : st.State) (v : Dictionary)
      → IsTimed from io
      → ((n : ℕ) → st.IsReady (io n))
      → CanKeep st (decided sort hash_text e st.hash_id io c v).1
      → Agrees st from s v
      → Sim st (io 3).now (run_call io c s) (
        (decided sort hash_text e st.hash_id io c v).0,
        after_call sort hash_text e st.hash_id io c v,
      )
  unfolding run_call
  run_call-Sim from io (process_call id payload opt) s v timed ready can a =
      let h = process-Sim sort hash_text e st io ready from id payload opt s v timed a can in
      (ap processed h.0, h.1)
  run_call-Sim from io (mask_call id text opt) s v timed ready can a =
      let h = mask-Sim sort hash_text e st io ready from id text opt s v timed a can in
      (ap masked h.0, h.1)
  run_call-Sim from io (unmask_call id text opt) s v timed ready can a =
      let h = unmask-Sim sort hash_text e st io ready from id text opt s v timed a in
      (ap unmasked h.0, h.1)

  -- Over any store that keeps its contract, a sequence of Process, Mask and Unmask requests, one after
  -- the other, is answered as the machine answers it, which decides each request by the record that its
  -- id has in a dictionary: if store and dictionary agree at the start, nothing in the dictionary comes
  -- back once it is gone, the clock does not go back, each call has its randomness, and the records that
  -- the machine keeps can be written.
  pub run_calls_refines :
      (from : ℕ) (calls : List ((ℕ → Io) × Call)) (s : st.State) (v : Dictionary)
      → IsRunnable from calls v
      → Agrees st from s v
      → run_calls calls s ≡ run_machine sort hash_text e st.hash_id calls v
  unfolding run_calls
  run_calls_refines from [] s v h a = refl
  run_calls_refines from ((io, c) ∷ calls) s v h a =
      let one = run_call-Sim from io c s v h.0 h.1 h.2 a in
      ap₂ ◌∷◌ one.0 (
        run_calls_refines (io 3).now calls (run_call io c s).1
          (after_call sort hash_text e st.hash_id io c v) h.3 one.1)
