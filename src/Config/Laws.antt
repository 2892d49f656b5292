-- ===== src/Config/Laws.antt =====
-- What a validated configuration guarantees.
use alfa_hakaton.Common.{
  ◌≡◌, refl, ◌⊎◌, inl, inr, Bool, true, false, Bool-cases, any, Bytes, bytes_eq, bytes_eq_refl,
  bytes_eq_sound, subst, ◌||◌, List, [], ◌∷◌, some, All,
}
use alfa_hakaton.Common.Result.{Result, ok, err, ◌>>=◌}
use alfa_hakaton.Auth.{System, is_empty, system_by_id}
use alfa_hakaton.Config.{
  Config, ConfigError, valid_strategy, validate_system, validate_systems, validate_basics, validate,
}

err-ok :
    (e : ConfigError) {P : Type 0} → ◌≡◌ {A = Result ConfigError (Unit {0})} (err e) (ok tt) → P
err-ok e h = cc

-- A chain of checks succeeds only if each does.
both_ok :
    (r next : Result ConfigError (Unit {0}))
    → (r >>= (λ u. next)) ≡ ok tt
    → (r ≡ ok tt) × (next ≡ ok tt)
both_ok (ok tt) next h = (refl, h)
both_ok (err e) next h = err-ok e h

-- The head of a list of systems that passes: it has an id, which was not seen before, and passes.
record Passes (seen : List Bytes) (s : System) (systems : List System) : Type 0 where
  named : is_empty s.id ≡ false
  fresh : any (λ k. bytes_eq k s.id) seen ≡ false
  valid : validate_system s ≡ ok tt
  rest : validate_systems (s.id ∷ seen) systems ≡ ok tt

head-Passes :
    (seen : List Bytes) (s : System) (systems : List System)
    → validate_systems seen (s ∷ systems) ≡ ok tt
    → Passes seen s systems
unfolding validate_systems
head-Passes seen s systems h = elim (Bool-cases (is_empty s.id)) [
  | inl e ↦ err-ok _ (rw e at h)
  | inr e ↦ elim (Bool-cases (any (λ k. bytes_eq k s.id) seen)) [
    | inl f ↦ err-ok _ (rw (e, f) at h)
    | inr f ↦
        let (first, rest) =
          both_ok (validate_system s) (validate_systems (s.id ∷ seen) systems) (rw (e, f) at h) in
        record { named = e; fresh = f; valid = first; rest = rest }
  ]
]

or_left : (b c : Bool) → b ≡ true → (b || c) ≡ true
or_left b c h = rw h

or_right : (b c : Bool) → c ≡ true → (b || c) ≡ true
or_right true c h = refl
or_right false c h = h

new_id :
    (seen : List Bytes) (j k : Bytes)
    → any (λ i. bytes_eq i j) seen ≡ true
    → any (λ i. bytes_eq i k) seen ≡ false
    → bytes_eq j k ≡ false
new_id seen j k m f = elim (Bool-cases (bytes_eq j k)) [
  | inl e ↦ cc (subst (λ i. any (λ l. bytes_eq l i) seen ≡ true) (bytes_eq_sound j k e) m)
  | inr e ↦ e
]

-- A system whose id was seen has another id than each system that passes after it.
seen_differs :
    (seen : List Bytes) (k : Bytes) (systems : List System)
    → any (λ j. bytes_eq j k) seen ≡ true
    → validate_systems seen systems ≡ ok tt
    → All (λ t. bytes_eq k t.id ≡ false) systems
seen_differs seen k [] m h = tt
seen_differs seen k (s ∷ systems) m h =
    let p = head-Passes seen s systems h in
    (
      new_id seen k s.id m p.fresh,
      seen_differs (s.id ∷ seen) k systems
          (or_right (bytes_eq s.id k) (any (λ j. bytes_eq j k) seen) m) p.rest,
    )

abbrev pub IsFound : List System → System → Type 0
IsFound systems s = system_by_id systems s.id ≡ some s

IsFound-behind :
    (s : System) (all systems : List System)
    → All (λ t. bytes_eq s.id t.id ≡ false) systems
    → All (IsFound all) systems
    → All (IsFound (s ∷ all)) systems
unfolding system_by_id
IsFound-behind s all [] d h = tt
IsFound-behind s all (t ∷ systems) d h = (rw (d.0) h.0, IsFound-behind s all systems d.1 h.1)

systems-IsFound :
    (seen : List Bytes) (systems : List System)
    → validate_systems seen systems ≡ ok tt
    → All (IsFound systems) systems
unfolding system_by_id
systems-IsFound seen [] h = tt
systems-IsFound seen (s ∷ systems) h =
    let p = head-Passes seen s systems h in
    (
      rw (bytes_eq_refl s.id) refl,
      IsFound-behind s systems systems
          (seen_differs (s.id ∷ seen) s.id systems
            (or_left (bytes_eq s.id s.id) (any (λ j. bytes_eq j s.id) seen) (bytes_eq_refl s.id))
            p.rest)
          (systems-IsFound (s.id ∷ seen) systems p.rest),
    )

-- In a configuration that passes the validation every system is the one that is found under its id.
pub system_by_id-validate : (c : Config) → validate c ≡ ok tt → All (IsFound c.systems) c.systems
unfolding validate
system_by_id-validate c h =
    systems-IsFound [] c.systems (both_ok (validate_basics c) (validate_systems [] c.systems) h).1

-- A name that is empty, which stands for the default, or known.
abbrev pub IsKnown : System → Type 0
IsKnown s = (s.strategy ≡ []) ⊎ (valid_strategy s.strategy ≡ true)

is_empty-nil : (s : Bytes) → is_empty s ≡ true → s ≡ []
is_empty-nil [] h = refl
is_empty-nil (c ∷ s) h = cc

known : (s : System) → validate_system s ≡ ok tt → IsKnown s
unfolding validate_system
known s h = elim (Bool-cases (valid_strategy s.strategy)) [
  | inl e ↦ inr e
  | inr e ↦ elim (Bool-cases (is_empty s.strategy)) [
    | inl f ↦ inl (is_empty-nil s.strategy f)
    | inr f ↦ err-ok _ (rw (e, f) at h)
  ]
]

systems-IsKnown :
    (seen : List Bytes) (systems : List System)
    → validate_systems seen systems ≡ ok tt
    → All IsKnown systems
systems-IsKnown seen [] h = tt
systems-IsKnown seen (s ∷ systems) h =
    let p = head-Passes seen s systems h in
    (known s p.valid, systems-IsKnown (s.id ∷ seen) systems p.rest)

-- In a configuration that passes the validation every system names a strategy that there is, or none.
pub validate-IsKnown : (c : Config) → validate c ≡ ok tt → All IsKnown c.systems
unfolding validate
validate-IsKnown c h =
    systems-IsKnown [] c.systems (both_ok (validate_basics c) (validate_systems [] c.systems) h).1
