-- ===== src/Auth/Laws.antt =====
-- Who gets in.
use alfa_hakaton.Common.{
  ℕ, ◌≡◌, ◌≢◌, ◌⊎◌, refl, ap, sym, ◌∙◌, subst, true, false, Bool-cases, inl, inr, arith, Bytes,
  bytes_eq_sound, List, [], ◌∷◌, Option, none, some,
}
use alfa_hakaton.Auth.{
  System, Route, allowed, forbidden, unauthorized, is_process, is_empty, system_by_id, expected_key,
  constant_time_equal, check_key, check_system, system_id, authenticate,
}

-- What a request that is let in as `s` has shown: the key that is expected of the system, or, on
-- `/process` alone, none, where the system has none.
pub record Shown (getenv : Bytes → Bytes) (route : Route) (key : Bytes) (s : System) : Type 0 where
  pub is_enabled : s.enabled ≡ true
  pub expected : Bytes
  pub determined : expected_key getenv s ≡ some expected
  pub matches : ((expected ≡ []) × (is_process route ≡ true)) ⊎ ((expected ≢ []) × (key ≡ expected))

allowed-injective : (s t : System) → allowed s ≡ allowed t → s ≡ t
allowed-injective s t e = cc

forbidden-allowed : (s : System) → forbidden ≢ allowed s
forbidden-allowed s e = cc

unauthorized-allowed : (s : System) → unauthorized ≢ allowed s
unauthorized-allowed s e = cc

constant_time_equal_sound : (a b : Bytes) → constant_time_equal a b ≡ true → b ≡ a
unfolding constant_time_equal
constant_time_equal_sound a b e = ground (arith, bytes_eq_sound a b)

cons-is_some : (c : ℕ) (x : Bytes) → c ∷ x ≢ []
cons-is_some c x e = cc

check_key_allowed :
    (getenv : Bytes → Bytes) (route : Route) (s t : System) (key : Bytes) (o : Option Bytes)
    → s.enabled ≡ true
    → expected_key getenv s ≡ o
    → check_key route s key o ≡ allowed t
    → (s ≡ t) × Shown getenv route key s
unfolding check_key
check_key_allowed getenv route s t key none h d e = elim (unauthorized-allowed t e) [ ]
check_key_allowed getenv route s t key (some []) h d e = elim (Bool-cases (is_process route)) [
  | inl p ↦ (
    allowed-injective s t (ground arith),
    record { is_enabled = h; expected = []; determined = d; matches = inl (refl, p) },
  )
  | inr p ↦ elim (forbidden-allowed t (ground arith)) [ ]
]
check_key_allowed getenv route s t key (some (c ∷ x)) h d e =
    elim (Bool-cases (constant_time_equal (c ∷ x) key)) [
      | inl p ↦ (
        allowed-injective s t (ground arith),
        record {
          is_enabled = h;
          expected = c ∷ x;
          determined = d;
          matches = inr (cons-is_some c x, constant_time_equal_sound (c ∷ x) key p);
        },
      )
      | inr p ↦ elim (unauthorized-allowed t (ground arith)) [ ]
    ]

check_system_allowed :
    (getenv : Bytes → Bytes) (route : Route) (t : System) (key : Bytes) (o : Option System)
    → check_system getenv route key o ≡ allowed t
    → (o ≡ some t) × Shown getenv route key t
unfolding check_system
check_system_allowed getenv route t key none e = elim (forbidden-allowed t e) [ ]
check_system_allowed getenv route t key (some s) e = elim (Bool-cases s.enabled) [
  | inl p ↦
      let (same, shown) =
        check_key_allowed getenv route s t key (expected_key getenv s) p refl (ground arith) in
      (ap some same, subst (Shown getenv route key) same shown)
  | inr p ↦ elim (forbidden-allowed t (ground arith)) [ ]
]

-- A request is let in as a system only if the configuration has that system under the id sent (or the
-- default's, on `/process` alone), the system is enabled, its key could be determined, and the request
-- shows that key; a system without a key is let in on `/process` alone.
pub authenticate_allowed :
    (systems : List System) (default : Bytes) (getenv : Bytes → Bytes) (route : Route)
    (id key : Bytes) (s : System)
    → authenticate systems default getenv route id key ≡ allowed s
    → (system_by_id systems (system_id default route id) ≡ some s) × Shown getenv route key s
unfolding authenticate
authenticate_allowed systems default getenv route id key s e =
    elim (Bool-cases (is_empty (system_id default route id))) [
      | inl p ↦ elim (forbidden-allowed s (ground arith)) [ ]
      | inr p ↦
          check_system_allowed getenv route s key
            (system_by_id systems (system_id default route id)) (ground arith)
    ]

-- Away from `/process` nobody is let in without a key: the request shows a key that is not empty and
-- that the system expects.
pub authenticate_needs_key :
    (systems : List System) (default : Bytes) (getenv : Bytes → Bytes) (route : Route)
    (id key : Bytes) (s : System)
    → is_process route ≡ false
    → authenticate systems default getenv route id key ≡ allowed s
    → (key ≢ []) × (expected_key getenv s ≡ some key)
authenticate_needs_key systems default getenv route id key s away e =
    let (found, shown) = authenticate_allowed systems default getenv route id key s e in
    elim shown.matches [
      | inl h ↦ elim (true-false (sym h.1 ∙ away)) [ ]
      | inr h ↦ (λ k. h.0 (sym h.1 ∙ k), shown.determined ∙ ap some (sym h.1))
    ]
  where
    true-false : true ≢ false
    true-false e = cc
