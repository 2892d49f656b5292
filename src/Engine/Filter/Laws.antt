-- ===== src/Engine/Filter/Laws.antt =====
-- Which spans are masked, and how they are counted.
use alfa_hakaton.Common.{
  ℕ, ◌≢◌, ◌↔◌, ◌+◌, ◌≡◌, ◌≤◌, inl, inr, refl, Bool, true, Bool-cases, bytes_eq, bytes_eq_iff, List,
  [], ◌∷◌, All, any, if◌then◌else◌, arith,
}
use alfa_hakaton.Common.Assoc
use alfa_hakaton.Common.Assoc.{lookup-insert}
use alfa_hakaton.Mask.Doc.{or_zero}
use alfa_hakaton.Pii.Types.{Category, Span}
use alfa_hakaton.Pii.Resolve.Laws.{IsDisjoint}
use alfa_hakaton.Engine.Filter.{
  ComboRule, present, combo_allowed, kept, filter_by, filter_spans, Counts, count_one, counts_from,
  counts,
}

filter_by-All :
    (p : Span → Bool) (P : Span → Type 0) (spans : List Span)
    → All P spans
    → All (λ s. P s × (p s ≡ true)) (filter_by p spans)
unfolding filter_by
filter_by-All p P [] h = tt
filter_by-All p P (s ∷ spans) h = elim (Bool-cases (p s)) [
  | inl e ↦ rw e ((h.0, e), filter_by-All p P spans h.1)
  | inr e ↦ rw e (filter_by-All p P spans h.1)
]

filter_by-All_left :
    (p : Span → Bool) (P : Span → Type 0) (spans : List Span)
    → All P spans
    → All P (filter_by p spans)
unfolding filter_by
filter_by-All_left p P [] h = tt
filter_by-All_left p P (s ∷ spans) h = elim (Bool-cases (p s)) [
  | inl e ↦ rw e (h.0, filter_by-All_left p P spans h.1)
  | inr e ↦ rw e (filter_by-All_left p P spans h.1)
]

filter_by-IsDisjoint :
    (p : Span → Bool) (spans : List Span) → IsDisjoint spans → IsDisjoint (filter_by p spans)
unfolding filter_by
filter_by-IsDisjoint p [] h = tt
filter_by-IsDisjoint p (s ∷ spans) h = elim (Bool-cases (p s)) [
  | inl e ↦
      rw e (filter_by-All_left p (λ y. s.end ≤ y.start) spans h.0, filter_by-IsDisjoint p spans h.1)
  | inr e ↦ rw e (filter_by-IsDisjoint p spans h.1)
]

-- Filtering leaves spans that do not overlap free of overlaps.
pub filter_spans-IsDisjoint :
    (spans : List Span) (categories : List Category) (rules : List ComboRule)
    → IsDisjoint spans
    → IsDisjoint (filter_spans spans categories rules)
unfolding filter_spans
filter_spans-IsDisjoint spans categories rules h =
    filter_by-IsDisjoint (kept (present spans) categories rules) spans h

-- What a category needs of the categories present: nothing, if no rule names it, and otherwise one of
-- those that the first rule for it lists.
pub data Permits (here : Category → Bool) (cat : Category) : List ComboRule → Type 0 where
  free : Permits here cat []
  other :
      {r : ComboRule} {rules : List ComboRule}
      → r.category ≢ cat
      → Permits here cat rules
      → Permits here cat (r ∷ rules)
  met :
      {r : ComboRule} {rules : List ComboRule}
      → r.category ≡ cat
      → any here r.requires_any ≡ true
      → Permits here cat (r ∷ rules)

combo_allowed-Permits :
    (cat : Category) (here : Category → Bool) (rules : List ComboRule)
    → combo_allowed cat here rules ≡ true
    → Permits here cat rules
unfolding combo_allowed
combo_allowed-Permits cat here [] h = Permits.free
combo_allowed-Permits cat here (r ∷ rules) h = elim (Bool-cases (bytes_eq r.category cat)) [
  | inl e ↦ Permits.met ((bytes_eq_iff _ _).0 e) (rw e at h)
  | inr e ↦
      Permits.other (λ same. cc ((bytes_eq_iff r.category cat).1 same))
        (combo_allowed-Permits cat here rules (rw e at h))
]

Permits-combo_allowed :
    (cat : Category) (here : Category → Bool) (rules : List ComboRule)
    → Permits here cat rules
    → combo_allowed cat here rules ≡ true
unfolding combo_allowed
Permits-combo_allowed cat here _ Permits.free = refl
Permits-combo_allowed cat here _ (Permits.other {r = r} {rules = rules} ne p) =
    ground (arith, bytes_eq_iff r.category cat, Permits-combo_allowed cat here rules p)
Permits-combo_allowed cat here _ (Permits.met {r = r} e h) =
    ground (arith, bytes_eq_iff r.category cat)

-- A category may be masked exactly when no rule names it or the first rule that does finds one of the
-- categories that it requires.
pub combo_allowed_iff :
    (cat : Category) (here : Category → Bool) (rules : List ComboRule)
    → (combo_allowed cat here rules ≡ true) ↔ Permits here cat rules
combo_allowed_iff cat here rules =
    (combo_allowed-Permits cat here rules, Permits-combo_allowed cat here rules)

-- How often a category occurs.
abbrev pub occurs : Category → List Span → ℕ
occurs c [] = 0
occurs c (s ∷ spans) = (if bytes_eq s.category c then 1 else 0) + occurs c spans

counts_from_lem :
    (spans : List Span) (m : Counts) (c : Category)
    → or_zero (Assoc.lookup c (counts_from m spans)) ≡ or_zero (Assoc.lookup c m) + occurs c spans
unfolding counts_from count_one
counts_from_lem [] m c = omega arith
counts_from_lem (s ∷ spans) m c = ground (
  arith,
  counts_from_lem spans (count_one m s.category) c,
  lookup-insert s.category c (or_zero (Assoc.lookup s.category m) + 1) m,
  bytes_eq_iff s.category c,
)

-- The count reported for a category is the number of spans of that category.
pub counts-occurs :
    (spans : List Span) (c : Category) → or_zero (Assoc.lookup c (counts spans)) ≡ occurs c spans
unfolding counts
counts-occurs spans c = unfold Assoc.lookup in omega (arith, counts_from_lem spans [] c)
