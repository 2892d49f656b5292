-- ===== src/Pii/Resolve/Laws.antt =====
-- What `Resolve` returns: spans of its input, in order, none of which overlap.
use mathlib.Core.List.{reverse, reverse-cons, reverse-reverse}
use mathlib.Core.List
use native.Mathlib.Nat.{ℕ_set}
use alfa_hakaton.Common.{
  ℕ, ◌≤◌, ◌<◌, ◌≡◌, refl, sym, ap, ◌∙◌, true, false, Bool-cases, List, [], ◌∷◌, ◌++◌, foldl, leb,
  le→leb, append-nil, append_assoc, All, All-append, arith, inl, inr,
}
use alfa_hakaton.Common.Sort.{
  SortSlice, StrictWeak, IsSorted, IsAscending, sort_ascending, All-perm,
}
use alfa_hakaton.Pii.Types.{Span, span_less}
use alfa_hakaton.Pii.Resolve.{resolve_step, resolve, better}

-- A span that is not empty.
abbrev pub IsRange : Span → Type 0
IsRange s = s.start < s.end

-- Each span ends before every later one starts.
abbrev pub IsDisjoint : List Span → Type 0
IsDisjoint [] = Unit
IsDisjoint (x ∷ xs) = All (λ y. x.end ≤ y.start) xs × IsDisjoint xs

-- The same of a list with its last element first.
abbrev pub IsStacked : List Span → Type 0
IsStacked [] = Unit
IsStacked (x ∷ xs) = All (λ y. y.end ≤ x.start) xs × IsStacked xs

pub span_less-StrictWeak : StrictWeak span_less
unfolding span_less
span_less-StrictWeak = record {
  asym = λ a b h. ground arith;
  neg_trans = λ a b c h k. ground arith;
}

pub sorted_starts :
    (s : Span) (xs : List Span)
    → All (λ y. span_less y s ≡ false) xs
    → All (λ y. s.start ≤ y.start) xs
unfolding span_less
sorted_starts s [] h = tt
sorted_starts s (x ∷ xs) h = (ground arith, sorted_starts s xs h.1)

pub resolve_step-All :
    (P : Span → Type 0) (out : List Span) (s : Span) → All P out → P s → All P (resolve_step out s)
unfolding resolve_step
resolve_step-All P [] s h p = (p, tt)
resolve_step-All P (last ∷ out) s h p = elim (Bool-cases (leb last.end s.start)) [
  | inl e ↦ rw e (p, h)
  | inr e ↦ elim (Bool-cases (better s last)) [ inl f ↦ rw (e, f) (p, h.1) | inr f ↦ rw (e, f) h ]
]

pub fold-All :
    (P : Span → Type 0) (spans out : List Span)
    → All P out
    → All P spans
    → All P (foldl resolve_step out spans)
fold-All P [] out h k = h
fold-All P (s ∷ spans) out h k =
    fold-All P spans (resolve_step out s) (resolve_step-All P out s h k.0) k.1

All-reverse : (P : Span → Type 0) (xs : List Span) → All P xs → All P (reverse xs)
All-reverse P [] h = tt
All-reverse P (x ∷ xs) h =
    rw (reverse-cons x xs) (All-append P (reverse xs) (x ∷ []) (All-reverse P xs h.1) (h.0, tt))

-- `Resolve` invents no span and changes none: what holds of every span that it is given holds of
-- every span that it returns.
pub resolve-All :
    (sort : SortSlice) (P : Span → Type 0) (spans : List Span)
    → All P spans
    → All P (resolve sort spans)
unfolding resolve
resolve-All sort P spans h = All-reverse P _ (
    fold-All P (sort.sort Span span_less spans) [] tt
      (All-perm P (List.Permᴰ.symm (sort.sort_perm Span span_less spans)) h))

behind_mono :
    (m n : ℕ) (out : List Span) → m ≤ n → All (λ y. y.end ≤ m) out → All (λ y. y.end ≤ n) out
behind_mono m n [] h k = tt
behind_mono m n (x ∷ xs) h k = (omega arith, behind_mono m n xs h k.1)

-- A span that starts no earlier than the top of the stack keeps the stack free of overlaps.
resolve_step-IsStacked :
    (out : List Span) (s : Span)
    → All IsRange out
    → All (λ y. y.start ≤ s.start) out
    → IsStacked out
    → IsStacked (resolve_step out s)
unfolding resolve_step
resolve_step-IsStacked [] s r b h = (tt, tt)
resolve_step-IsStacked (last ∷ out) s r b h = elim (Bool-cases (leb last.end s.start)) [
  | inl e ↦
      let fits : last.end ≤ s.start = ground arith in
      rw e ((fits, behind_mono last.start s.start out (omega arith) h.0), h)
  | inr e ↦ elim (Bool-cases (better s last)) [
    | inl f ↦ rw (e, f) (behind_mono last.start s.start out b.0 h.0, h.1)
    | inr f ↦ rw (e, f) h
  ]
]

pub All-map :
    (P Q : Span → Type 0) → ((x : Span) → P x → Q x) → (xs : List Span) → All P xs → All Q xs
All-map P Q f [] h = tt
All-map P Q f (x ∷ xs) h = (f x h.0, All-map P Q f xs h.1)

-- The spans met so far start no later than those to come.
fold-IsStacked :
    (spans out : List Span)
    → All IsRange spans
    → IsSorted span_less spans
    → All IsRange out
    → All (λ y. All (λ s. y.start ≤ s.start) spans) out
    → IsStacked out
    → IsStacked (foldl resolve_step out spans)
fold-IsStacked [] out r sorted q b h = h
fold-IsStacked (s ∷ spans) out r sorted q b h =
    fold-IsStacked spans (resolve_step out s) r.1 sorted.1 (resolve_step-All IsRange out s q r.0)
      (resolve_step-All (λ y. All (λ z. y.start ≤ z.start) spans) out s
        (All-map (λ y. All (λ z. y.start ≤ z.start) (s ∷ spans)) _ (λ y k. k.1) out b)
        (sorted_starts s spans sorted.0))
      (resolve_step-IsStacked out s q
        (All-map (λ y. All (λ z. y.start ≤ z.start) (s ∷ spans)) _ (λ y k. k.0) out b) h)

IsDisjoint-snoc :
    (xs : List Span) (s : Span)
    → IsDisjoint xs
    → All (λ y. y.end ≤ s.start) xs
    → IsDisjoint (xs ++ s ∷ [])
IsDisjoint-snoc [] s h k = (tt, tt)
IsDisjoint-snoc (x ∷ xs) s h k =
    (All-append (λ y. x.end ≤ y.start) xs (s ∷ []) h.0 (k.0, tt), IsDisjoint-snoc xs s h.1 k.1)

reverse-IsDisjoint : (xs : List Span) → IsStacked xs → IsDisjoint (reverse xs)
reverse-IsDisjoint [] h = tt
reverse-IsDisjoint (x ∷ xs) h = rw (reverse-cons x xs) (
    IsDisjoint-snoc (reverse xs) x (reverse-IsDisjoint xs h.1)
      (All-reverse (λ y. y.end ≤ x.start) xs h.0))

-- The spans that `Resolve` returns are in order and no two overlap, whatever non-empty spans it is
-- given.
pub resolve-IsDisjoint :
    (sort : SortSlice) (spans : List Span) → All IsRange spans → IsDisjoint (resolve sort spans)
unfolding resolve
resolve-IsDisjoint sort spans h = reverse-IsDisjoint _ (
    fold-IsStacked (sort.sort Span span_less spans) []
      (All-perm IsRange (List.Permᴰ.symm (sort.sort_perm Span span_less spans)) h)
      (sort.sort_sorted Span span_less span_less-StrictWeak spans) tt tt tt)

ascends_of_disjoint :
    (x : Span) (xs : List Span)
    → IsRange x
    → All (λ y. x.end ≤ y.start) xs
    → All (λ y. span_less x y ≡ true) xs
unfolding span_less
ascends_of_disjoint x [] r h = tt
ascends_of_disjoint x (y ∷ xs) r h = (ground arith, ascends_of_disjoint x xs r h.1)

IsAscending-disjoint : (xs : List Span) → All IsRange xs → IsDisjoint xs → IsAscending span_less xs
IsAscending-disjoint [] r h = tt
IsAscending-disjoint (x ∷ xs) r h =
    (ascends_of_disjoint x xs r.0 h.0, IsAscending-disjoint xs r.1 h.1)

push : (out : List Span) (s : Span) → All (λ y. y.end ≤ s.start) out → resolve_step out s ≡ s ∷ out
unfolding resolve_step
push [] s h = refl
push (last ∷ out) s h = rw (le→leb last.end s.start h.0)

-- Behind the top of a stack every span of a list free of overlaps is put on it.
fold-disjoint :
    (spans out : List Span)
    → IsDisjoint spans
    → All (λ y. All (λ s. y.end ≤ s.start) spans) out
    → foldl resolve_step out spans ≡ reverse spans ++ out
fold-disjoint [] out h k = refl
fold-disjoint (s ∷ spans) out h k =
    let after =
      All-map (λ y. All (λ z. y.end ≤ z.start) (s ∷ spans)) (λ y. All (λ z. y.end ≤ z.start) spans)
        (λ y e. e.1) out k in
    let before =
      All-map (λ y. All (λ z. y.end ≤ z.start) (s ∷ spans)) (λ y. y.end ≤ s.start) (λ y e. e.0) out
        k in
    ap (λ o. foldl resolve_step o spans) (push out s before)
    ∙ fold-disjoint spans (s ∷ out) h.1 (h.0, after)
    ∙ sym (ap (λ z. z ++ out) (reverse-cons s spans) ∙ append_assoc (reverse spans) (s ∷ []) out)

Span-set : IsSet Span
Span-set = hlevel ℕ_set

-- A list free of overlaps is its own result.
pub resolve_disjoint :
    (sort : SortSlice) (spans : List Span)
    → All IsRange spans
    → IsDisjoint spans
    → resolve sort spans ≡ spans
unfolding resolve
resolve_disjoint sort spans r h =
    ap (λ z. reverse (foldl resolve_step [] z))
      (sort_ascending sort Span-set span_less span_less-StrictWeak spans
        (IsAscending-disjoint spans r h))
    ∙ ap reverse (fold-disjoint spans [] h tt ∙ append-nil (reverse spans))
    ∙ reverse-reverse spans

-- Resolving twice changes nothing more.
pub resolve-resolve :
    (sort : SortSlice) (spans : List Span)
    → All IsRange spans
    → resolve sort (resolve sort spans) ≡ resolve sort spans
resolve-resolve sort spans h =
    resolve_disjoint sort (resolve sort spans) (resolve-All sort IsRange spans h)
      (resolve-IsDisjoint sort spans h)
