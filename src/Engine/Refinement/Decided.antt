-- ===== src/Engine/Refinement/Decided.antt =====
-- Each request of internal/engine/engine.go answers as the machine decides, and leaves the store as the
-- machine leaves the dictionary.
use alfa_hakaton.Common.{
  ℕ, ◌≡◌, ◌≤◌, refl, Bool, Bool-cases, inl, inr, true, false, not, ◌&&◌, ltb, leb, Bytes, bytes_eq,
  bytes_eq_refl, Option, none, some, length, if◌then◌else◌, arith,
}
use alfa_hakaton.Common.Result.{Result, ok, err}
use alfa_hakaton.Common.Sort.{SortSlice}
use alfa_hakaton.Mask.Doc.{Strategy, new_doc_state}
use alfa_hakaton.Mask.Restore.{restore}
use alfa_hakaton.Store.Types.{Record, Io}
use alfa_hakaton.Store.Api.{Store}
use alfa_hakaton.Store.Spec.{Dictionary}
use alfa_hakaton.Engine.Types.{Options, Engine, EngineError, MaskResult}
use alfa_hakaton.Engine.Masking.{
  masked_result, fresh_result, resolve_strategy, owns_record, run_mask, mask_only,
  mask_fresh_result,
}
use alfa_hakaton.Engine.Requests.{
  record_of, counts_from_rec, mask_and_save, mask_with_record, mask_loaded, mask_ex, unmask_loaded,
  unmask_ex,
}
use alfa_hakaton.Engine.Process.{
  with_found, retried, process_existing, process_found, process_new, first_loaded, process,
}
use alfa_hakaton.Engine.Process.Contract.{alone}
use alfa_hakaton.Engine.Refinement.{Agrees, later, load-Agrees, save-Agrees, save_new-Agrees}
use alfa_hakaton.Engine.Refinement.Machine.{
  is_own, decide_process, decide_mask, decide_unmask, kept, keep,
}

-- The clock of a request does not go back.
pub record IsTimed (from : ℕ) (io : ℕ → Io) : Type 0 where
  pub first : from ≤ (io 0).now
  pub second : (io 0).now ≤ (io 1).now
  pub third : (io 1).now ≤ (io 2).now
  pub fourth : (io 2).now ≤ (io 3).now

pub is_own_lem : (rec : Record) (opt : Options) → is_own rec opt ≡ owns_record rec opt
unfolding owns_record
is_own_lem rec opt = ground arith

retried-fresh :
    (rec : Record) (r : Result EngineError MaskResult)
    → retried rec (fresh_result r) ≡ fresh_result r
unfolding with_found
retried-fresh rec (err x) = refl
retried-fresh rec (ok m) = refl

-- The tests of `Process` and of `processExisting`, one after the other, and at once.
picks :
    {R : Type 0} (f : R → R) (own same may : Bool) (found total : ℕ)
    (stored stored' opened fresh : R)
    → f stored ≡ stored'
    → f opened ≡ opened
    → f fresh ≡ fresh
    → (if not own
        then fresh
        else f (
            if same
            then stored
            else if not may
            then fresh
            else if leb total found
            then fresh
            else opened))
      ≡ (if own && same then stored' else if own && (may && ltb found total) then opened else fresh)
picks f false same may found total stored stored' opened fresh h k l = refl
picks f true true may found total stored stored' opened fresh h k l = h
picks f true false false found total stored stored' opened fresh h k l = l
picks f true false true found total stored stored' opened fresh h k l =
    elim (Bool-cases (leb total found)) [
      | inl e ↦ let fewer : ltb found total ≡ false = ground arith in rw (e, fewer) l
      | inr e ↦ let more : ltb found total ≡ true = ground arith in rw (e, more) k
    ]

-- Two outcomes with one result, whose states agree.
abbrev pub Sim : {R : Type 0} (st : Store) → ℕ → R × st.State → R × Dictionary → Type 0
Sim st t o p = (o.0 ≡ p.0) × Agrees st t o.1 p.1

-- What is kept can be written.
abbrev pub CanKeep : Store → Option Record → Type 0
CanKeep st none = Unit
CanKeep st (some rec) = st.IsStorable rec

module _ (sort : SortSlice) (hash_text : Bytes → Bytes) (e : Engine) where
  process_found_lem :
      (now : ℕ) (rec : Record) (text : Bytes) (opt : Options)
      → process_found sort hash_text e rec text opt
        ≡ (decide_process sort hash_text e now text opt (some rec)).0
  unfolding process_found process_existing with_found mask_fresh_result counts_from_rec
  process_found_lem now rec text opt =
      let r = restore sort text rec.replacements in
      rw (is_own_lem rec opt) (
        picks (retried rec) (owns_record rec opt) (bytes_eq rec.hash (hash_text text)) opt.unmask
          r.1 (length rec.replacements)
          (ok (record { result = rec.masked_text; found = none; unmasked = false; misses = 0 }))
          (ok (record {
            result = rec.masked_text;
            found = some (counts_from_rec rec);
            unmasked = false;
            misses = 0;
          }))
          (ok (record { result = r.0; found = none; unmasked = true; misses = r.1 }))
          (fresh_result (mask_only sort e text opt new_doc_state))
          (rw (bytes_eq_refl rec.masked_text) refl) refl
          (retried-fresh rec (mask_only sort e text opt new_doc_state)))

  module _ (st : Store) (io : ℕ → Io) (ready : (n : ℕ) → st.IsReady (io n)) where
    first-Sim :
        (from : ℕ) (id text : Bytes) (opt : Options) (o : Option Record) (s : st.State)
        (v : Dictionary)
        → IsTimed from io
        → Agrees st (io 0).now s v
        → v (io 0).now (st.hash_id id) ≡ o
        → CanKeep st (decide_process sort hash_text e (io 1).now text opt o).1
        → Sim st (io 3).now (first_loaded sort hash_text e st io alone id text opt (ok o, s)) (
          (decide_process sort hash_text e (io 1).now text opt o).0,
          keep sort hash_text e
              (io 1)
              (st.hash_id id)
              opt
              (decide_process sort hash_text e (io 1).now text opt o).1
              v,
        )
    first-Sim from id text opt (some rec) s v timed a got can = (
      process_found_lem (io 1).now rec text opt,
      later st _ _ s v (omega (arith, timed.second, timed.third, timed.fourth)) a,
    )
    first-Sim from id text opt none s v timed a got can =
        new-Sim (resolve_strategy e opt.strategy) can
      where
        new-Sim :
            (o : Option Strategy)
            → CanKeep st (kept sort hash_text e masked_result (io 1).now text opt o).1
            → Sim st (io 3).now (process_new sort hash_text e st io alone id text opt o s) (
              (kept sort hash_text e masked_result (io 1).now text opt o).0,
              keep sort hash_text e
                  (io 1)
                  (st.hash_id id)
                  opt
                  (kept sort hash_text e masked_result (io 1).now text opt o).1
                  v,
            )
        new-Sim none can' =
            (refl, later st _ _ s v (omega (arith, timed.second, timed.third, timed.fourth)) a)
        new-Sim (some strategy) can' =
            let m = run_mask sort e text opt strategy new_doc_state in
            let rec =
              record_of (hash_text text) (io 1).now opt strategy m.result.masked
                m.applied.replacements in
            let (s', wrote, a') =
              save_new-Agrees st (io 0).now (io 1) id rec opt.ttl s v (ready 1) can' timed.second
                got a in
            rw wrote (refl, later st _ _ s' _ (omega (arith, timed.third, timed.fourth)) a')

    pub process-Sim :
        (from : ℕ) (id text : Bytes) (opt : Options) (s : st.State) (v : Dictionary)
        → IsTimed from io
        → Agrees st from s v
        → CanKeep st
            (decide_process sort hash_text e (io 1).now text opt (v (io 0).now (st.hash_id id))).1
        → Sim st (io 3).now (process sort hash_text e st io alone id text opt s) (
          (decide_process sort hash_text e (io 1).now text opt (v (io 0).now (st.hash_id id))).0,
          keep sort hash_text e
              (io 1)
              (st.hash_id id)
              opt
              (decide_process sort hash_text e (io 1).now text opt (v (io 0).now (st.hash_id id))).1
              v,
        )
    unfolding process
    process-Sim from id text opt s v timed a can =
        let (s', got, a') = load-Agrees st from (io 0) id s v timed.first a in
        rw got (first-Sim from id text opt (v (io 0).now (st.hash_id id)) s' v timed a' refl can)

    mask_and_save-Sim :
        (from : ℕ) (id text : Bytes) (opt : Options) (o : Option Strategy) (s : st.State)
        (v : Dictionary)
        → IsTimed from io
        → Agrees st (io 0).now s v
        → CanKeep st (kept sort hash_text e (λ m. m) (io 1).now text opt o).1
        → Sim st
            (io 3).now
            (mask_and_save sort st hash_text io alone e id text opt new_doc_state o s)
            (
              (kept sort hash_text e (λ m. m) (io 1).now text opt o).0,
              keep sort hash_text e
                  (io 1)
                  (st.hash_id id)
                  opt
                  (kept sort hash_text e (λ m. m) (io 1).now text opt o).1
                  v,
            )
    mask_and_save-Sim from id text opt none s v timed a can =
        (refl, later st _ _ s v (omega (arith, timed.second, timed.third, timed.fourth)) a)
    mask_and_save-Sim from id text opt (some strategy) s v timed a can =
        let m = run_mask sort e text opt strategy new_doc_state in
        let rec =
          record_of (hash_text text) (io 1).now opt strategy m.result.masked
            m.applied.replacements in
        let (s', wrote, a') =
          save-Agrees st (io 0).now (io 1) id rec opt.ttl s v (ready 1) can timed.second a in
        rw wrote (refl, later st _ _ s' _ (omega (arith, timed.third, timed.fourth)) a')

    mask_loaded-Sim :
        (from : ℕ) (id text : Bytes) (opt : Options) (o : Option Record) (s : st.State)
        (v : Dictionary)
        → IsTimed from io
        → Agrees st (io 0).now s v
        → CanKeep st (decide_mask sort hash_text e (io 1).now text opt o).1
        → Sim st
            (io 3).now
            (mask_loaded sort st hash_text io alone e id text opt new_doc_state o s)
            (
              (decide_mask sort hash_text e (io 1).now text opt o).0,
              keep sort hash_text e
                  (io 1)
                  (st.hash_id id)
                  opt
                  (decide_mask sort hash_text e (io 1).now text opt o).1
                  v,
            )
    unfolding mask_loaded mask_with_record counts_from_rec
    mask_loaded-Sim from id text opt none s v timed a =
        mask_and_save-Sim from id text opt (resolve_strategy e opt.strategy) s v timed a
    mask_loaded-Sim from id text opt (some rec) s v timed a =
        let a' =
          later st _ (io 3).now s v (omega (arith, timed.second, timed.third, timed.fourth)) a in
        let again =
          mask_and_save-Sim from id text opt (resolve_strategy e opt.strategy) s v timed a in
        rw (is_own_lem rec opt) (elim (Bool-cases (owns_record rec opt)) [
          | inr foreign ↦ rw foreign (λ can. (refl, a'))
          | inl mine ↦ elim (Bool-cases (bytes_eq rec.hash (hash_text text))) [
            | inl same ↦ rw (mine, same) (λ can. (refl, a'))
            | inr other ↦ elim (Bool-cases (bytes_eq rec.masked_text text)) [
              | inl mask ↦ rw (mine, other, mask) (λ can. (refl, a'))
              | inr new ↦ rw (mine, other, new) again
            ]
          ]
        ])

    pub mask-Sim :
        (from : ℕ) (id text : Bytes) (opt : Options) (s : st.State) (v : Dictionary)
        → IsTimed from io
        → Agrees st from s v
        → CanKeep st
            (decide_mask sort hash_text e (io 1).now text opt (v (io 0).now (st.hash_id id))).1
        → Sim st (io 3).now (mask_ex sort st hash_text io alone e id text opt s) (
          (decide_mask sort hash_text e (io 1).now text opt (v (io 0).now (st.hash_id id))).0,
          keep sort hash_text e
              (io 1)
              (st.hash_id id)
              opt
              (decide_mask sort hash_text e (io 1).now text opt (v (io 0).now (st.hash_id id))).1
              v,
        )
    unfolding mask_ex
    mask-Sim from id text opt s v timed a can =
        let (s', got, a') = load-Agrees st from (io 0) id s v timed.first a in
        rw got (mask_loaded-Sim from id text opt (v (io 0).now (st.hash_id id)) s' v timed a' can)

    unmask_loaded-Sim :
        (from : ℕ) (text : Bytes) (opt : Options) (o : Option Record) (s : st.State)
        (v : Dictionary)
        → IsTimed from io
        → Agrees st (io 0).now s v
        → Sim st
            (io 3).now
            (unmask_loaded sort st hash_text io alone text opt (ok o, s))
            (decide_unmask sort hash_text e text opt o, v)
    unmask_loaded-Sim from text opt none s v timed a =
        (refl, later st _ _ s v (omega (arith, timed.second, timed.third, timed.fourth)) a)
    unmask_loaded-Sim from text opt (some rec) s v timed a =
        let a' =
          later st _ (io 3).now s v (omega (arith, timed.second, timed.third, timed.fourth)) a in
        rw (is_own_lem rec opt) (elim (Bool-cases (owns_record rec opt)) [
          | inl mine ↦ rw mine (refl, a')
          | inr foreign ↦ rw foreign (refl, a')
        ])

    pub unmask-Sim :
        (from : ℕ) (id text : Bytes) (opt : Options) (s : st.State) (v : Dictionary)
        → IsTimed from io
        → Agrees st from s v
        → Sim st
            (io 3).now
            (unmask_ex sort st hash_text io alone id text opt s)
            (decide_unmask sort hash_text e text opt (v (io 0).now (st.hash_id id)), v)
    unfolding unmask_ex
    unmask-Sim from id text opt s v timed a =
        let (s', got, a') = load-Agrees st from (io 0) id s v timed.first a in
        rw got (unmask_loaded-Sim from text opt (v (io 0).now (st.hash_id id)) s' v timed a')
