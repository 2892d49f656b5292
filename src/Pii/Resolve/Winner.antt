-- ===== src/Pii/Resolve/Winner.antt =====
-- A span that is better than all it overlaps survives `Resolve`.
use mathlib.Core.List.{
  Mem, Mem-prop, mem-cons, mem-cons_self, mem-cons_of_mem, reverse, not-mem-nil, mem-reverse,
}
use mathlib.Core.List
use mathlib.Core.List.Perm
use native.Mathlib.Bridge.{le_prop}
use mathlib.Core.Logic.Or
use alfa_hakaton.Common.{
  ◌+◌, ◌<◌, ◌≤◌, ◌≡◌, sym, ◌⊎◌, true, false, Bool-cases, List, [], ◌∷◌, foldl, leb, All, arith, inl,
  inr, subst,
}
use alfa_hakaton.Common.Sort.{SortSlice, IsSorted, All-perm, All-Mem}
use alfa_hakaton.Pii.Types.{Span, span_less}
use alfa_hakaton.Pii.Resolve.{resolve_step, resolve, better}
use alfa_hakaton.Pii.Resolve.Laws.{
  IsRange, sorted_starts, span_less-StrictWeak, resolve_step-All, All-map,
}

-- A span that `w` does not lose to: a copy of it, one that it does not overlap, or a worse one.
abbrev pub Yields : Span → Span → Type 0
Yields w t = (t ≡ w) ⊎ ((t.end ≤ w.start) ⊎ (w.end ≤ t.start)) ⊎ (better w t ≡ true)

better_asym : (a b : Span) → better a b ≡ true → better b a ≡ true → ⊥
unfolding better
better_asym a b h k = ground arith

-- The winner on top of the stack is replaced by a copy of itself at most.
replaced :
    (w t : Span) (out : List Span)
    → IsRange t
    → Yields w t
    → w.start ≤ t.start
    → leb w.end t.start ≡ false
    → better t w ≡ true
    → Mem w (t ∷ out)
replaced w t out r (inl e) b h k = mem-cons.1 (Or.inl (sym e))
replaced w t out r (inr (inl (inl d))) b h k = absurd (omega arith)
replaced w t out r (inr (inl (inr d))) b h k = absurd (ground arith)
replaced w t out r (inr (inr l)) b h k = absurd (better_asym w t l k)

-- Where the winner is in the stack, it stays.
keeps :
    (w : Span) (out : List Span) (t : Span)
    → IsRange t
    → Yields w t
    → w.start ≤ t.start
    → Mem w out
    → Mem w (resolve_step out t)
unfolding resolve_step better
keeps w [] t r y b m = absurd (not-mem-nil m)
keeps w (last ∷ out) t r y b m = elim (Bool-cases (leb last.end t.start)) [
  | inl e ↦ rw e (mem-cons_of_mem t m)
  | inr e ↦ elim (Bool-cases (better t last)) [
    | inl f ↦
        rw (e, f)
          (Or.elim Mem-prop (mem-cons.0 m)
            (λ same.
              replaced w t out r y b (subst (λ z. leb z.end t.start ≡ false) (sym same) e)
                (subst (λ z. better t z ≡ true) (sym same) f))
            (λ later. mem-cons_of_mem t later))
    | inr f ↦ rw (e, f) m
  ]
]

stays :
    (w : Span) (spans out : List Span)
    → All IsRange spans
    → All (Yields w) spans
    → All (λ z. w.start ≤ z.start) spans
    → Mem w out
    → Mem w (foldl resolve_step out spans)
stays w [] out r y b m = m
stays w (t ∷ spans) out r y b m =
    stays w spans (resolve_step out t) r.1 y.1 b.1 (keeps w out t r.0 y.0 b.0 m)

-- What the winner meets on top of the stack and does not beat is a copy of it.
beaten :
    (w last : Span) (out : List Span)
    → IsRange w
    → Yields w last
    → last.start ≤ w.start
    → leb last.end w.start ≡ false
    → better w last ≡ false
    → Mem w (last ∷ out)
beaten w last out r (inl e) b h k = mem-cons.1 (Or.inl (sym e))
beaten w last out r (inr (inl (inl d))) b h k = absurd (ground arith)
beaten w last out r (inr (inl (inr d))) b h k = absurd (omega arith)
beaten w last out r (inr (inr l)) b h k = cc

-- It enters the stack when it is met.
enters :
    (w : Span) (out : List Span)
    → IsRange w
    → All (Yields w) out
    → All (λ y. y.start ≤ w.start) out
    → Mem w (resolve_step out w)
unfolding resolve_step better
enters w [] r y b = mem-cons_self
enters w (last ∷ out) r y b = elim (Bool-cases (leb last.end w.start)) [
  | inl e ↦ rw e mem-cons_self
  | inr e ↦ elim (Bool-cases (better w last)) [
    | inl f ↦ rw (e, f) mem-cons_self
    | inr f ↦ rw (e, f) (beaten w last out r y.0 b.0 e f)
  ]
]

-- Over the spans to come: the winner is among them, or on the stack already.
survives :
    (w : Span) (spans out : List Span)
    → IsRange w
    → All IsRange spans
    → IsSorted span_less spans
    → All (Yields w) spans
    → All (Yields w) out
    → All (λ y. All (λ s. y.start ≤ s.start) spans) out
    → Mem w spans
    → Mem w (foldl resolve_step out spans)
survives w [] out r q sorted y z b m = absurd (not-mem-nil m)
survives w (s ∷ spans) out r q sorted y z b m =
    let out' = resolve_step out s in
    let z' = resolve_step-All (Yields w) out s z y.0 in
    let here =
      All-map (λ y. All (λ z. y.start ≤ z.start) (s ∷ spans)) (λ y. y.start ≤ s.start) (λ y k. k.0)
        out b in
    let later =
      resolve_step-All (λ y. All (λ z. y.start ≤ z.start) spans) out s
        (All-map (λ y. All (λ z. y.start ≤ z.start) (s ∷ spans)) _ (λ y k. k.1) out b)
        (sorted_starts s spans sorted.0) in
    Or.elim Mem-prop (mem-cons.0 m)
      (λ e.
        stays w spans out' q.1 y.1
          (subst (λ x. All (λ z. x.start ≤ z.start) spans) (sym e) (sorted_starts s spans sorted.0))
          (subst (λ x. Mem w (resolve_step out x)) e
            (enters w out r z (subst (λ x. All (λ y. y.start ≤ x.start) out) (sym e) here))))
      (λ k. survives w spans out' r q.1 sorted.1 y.1 z' later k)

-- What gives way to `w`: a copy of it, a span that it does not overlap, one of lower confidence, or a
-- shorter one of the same confidence.
abbrev pub GivesWay : Span → Span → Type 0
GivesWay w t =
    (t ≡ w)
    ⊎ ((t.end ≤ w.start) ⊎ (w.end ≤ t.start))
    ⊎ (t.confidence < w.confidence)
    ⊎ ((t.confidence ≡ w.confidence) × (t.end + w.start < w.end + t.start))

GivesWay-Yields : (w : Span) (spans : List Span) → All (GivesWay w) spans → All (Yields w) spans
unfolding better
GivesWay-Yields w [] h = tt
GivesWay-Yields w (t ∷ spans) (inl e, h) = (inl e, GivesWay-Yields w spans h)
GivesWay-Yields w (t ∷ spans) (inr (inl e), h) = (inr (inl e), GivesWay-Yields w spans h)
GivesWay-Yields w (t ∷ spans) (inr (inr (inl e)), h) =
    (inr (inr (ground arith)), GivesWay-Yields w spans h)
GivesWay-Yields w (t ∷ spans) (inr (inr (inr e)), h) =
    (inr (inr (ground arith)), GivesWay-Yields w spans h)

keeps_winner :
    (sort : SortSlice) (spans : List Span) (w : Span)
    → All IsRange spans
    → All (Yields w) spans
    → Mem w spans
    → Mem w (resolve sort spans)
unfolding resolve
keeps_winner sort spans w r y m =
    let same = sort.sort_perm Span span_less spans in
    let back = List.Permᴰ.symm same in
    mem-reverse.1 (
      survives w (sort.sort Span span_less spans) [] (All-Mem IsRange (λ s. le_prop) spans r m)
        (All-perm IsRange back r) (sort.sort_sorted Span span_less span_less-StrictWeak spans)
        (All-perm (Yields w) back y) tt tt ((Perm.mem_iff ∣ same ∣₁).1 m))

-- A span is returned, whatever else is detected and in whatever order, if each span that it overlaps
-- has a lower confidence, or the same and is shorter (copies of it aside).
pub resolve_keeps_winner :
    (sort : SortSlice) (spans : List Span) (w : Span)
    → All IsRange spans
    → All (GivesWay w) spans
    → Mem w spans
    → Mem w (resolve sort spans)
resolve_keeps_winner sort spans w r y m = keeps_winner sort spans w r (GivesWay-Yields w spans y) m
