-- ===== src/Tests/Refining.antt =====
-- A sequence of requests over the store in memory and over the machine.
use alfa_hakaton.Common.{ℕ, ◌≡◌, refl, bytes_eq, List, [], ◌∷◌, none, arith}
use alfa_hakaton.Common.Assoc.{lookup}
use alfa_hakaton.Store.Types.{Io, live_at, expiry_for}
use alfa_hakaton.Store.Spec.{Dictionary}
use alfa_hakaton.Store.Memory.{hash_id}
use alfa_hakaton.Store.Memory.Laws.{view}
use alfa_hakaton.Engine.Masking.{resolve_strategy}
use alfa_hakaton.Engine.Refinement.Machine.{Call, process_call, mask_call, unmask_call, run_machine}
use alfa_hakaton.Engine.Refinement.Decided.{IsTimed}
use alfa_hakaton.Engine.Refinement.Sequences.{IsRunnable, run_calls, run_calls_refines}
use alfa_hakaton.Tests.Data.{sort, bob, engine, opt, other_opt, hash_text, io, bob_masked}
use alfa_hakaton.Tests.Requests.{id, store}

-- The owner masks and restores, and another system tries to.
abbrev calls : List ((ℕ → Io) × Call)
calls =
    (io, process_call id bob opt)
    ∷ (io, process_call id bob_masked.result.masked opt)
    ∷ (io, process_call id bob_masked.result.masked other_opt)
    ∷ (io, mask_call id bob other_opt)
    ∷ (io, unmask_call id bob_masked.result.masked other_opt)
    ∷ (io, unmask_call id bob_masked.result.masked opt)
    ∷ []

abbrev nothing : Dictionary
nothing t k = none

timed : IsTimed 1 io
timed = record {
  first = omega arith;
  second = omega arith;
  third = omega arith;
  fourth = omega arith;
}

ready : (n : ℕ) → store.IsReady (io n)
ready n = (7 ∷ 9 ∷ [], refl, refl)

calls-IsRunnable : IsRunnable sort hash_text engine store 1 calls nothing
unfolding bytes_eq live_at expiry_for hash_id resolve_strategy lookup
calls-IsRunnable = (
  timed,
  ready,
  refl,
  (
    timed,
    ready,
    tt,
    (timed, ready, tt, (timed, ready, tt, (timed, ready, tt, (timed, ready, tt, tt)))),
  ),
)

run_calls_refines_example :
    run_calls sort hash_text engine store calls []
    ≡ run_machine sort hash_text engine store.hash_id calls nothing
unfolding lookup view
run_calls_refines_example =
    run_calls_refines sort hash_text engine store 1 calls [] nothing calls-IsRunnable (record {
      sound = record { unique = tt; readable = tt };
      same = λ t k h. refl;
      fades = λ t u k h l e. refl;
    })
