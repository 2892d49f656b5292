-- ===== src/Common/Sort.antt =====
-- `sort.Slice`. The library promises a rearrangement that is ascending where `less` is a strict weak
-- order, and no stability; every model of code that sorts takes such a `SortSlice`.
-- `insertion_sort` meets the promise.
use mathlib.Core.Path.{◌≡◌, refl, sym, ap₂, subst}
use mathlib.Core.Bool.{Bool, true, false, Bool-set}
use mathlib.Core.List.{List, [], ◌∷◌, Mem, Permᴰ, Perm, mem-cons, mem-cons_self}
use mathlib.Core.List
use mathlib.Core.List.Perm
use mathlib.Core.Logic.{inl, inr}
use mathlib.Core.Logic.Or
use alfa_hakaton.Common.Bools.{if◌then◌else◌, Bool-cases}
use alfa_hakaton.Common.Lists.{All}

pub record StrictWeak {A : Type 0} (less : A → A → Bool) : Type 0 where
  pub asym : (a b : A) → less a b ≡ true → less b a ≡ false
  pub neg_trans : (a b c : A) → less a b ≡ false → less b c ≡ false → less a c ≡ false

-- No element is below one before it.
abbrev pub IsSorted : {A : Type 0} → (A → A → Bool) → List A → Type 0
IsSorted less [] = Unit
IsSorted less (x ∷ xs) = All (λ y. less y x ≡ false) xs × IsSorted less xs

-- Each element is below all after it.
abbrev pub IsAscending : {A : Type 0} → (A → A → Bool) → List A → Type 0
IsAscending less [] = Unit
IsAscending less (x ∷ xs) = All (λ y. less x y ≡ true) xs × IsAscending less xs

pub record SortSlice : Type 1 where
  pub sort : (A : Type 0) → (A → A → Bool) → List A → List A
  pub sort_perm : (A : Type 0) (less : A → A → Bool) (xs : List A) → Permᴰ (sort A less xs) xs
  pub sort_sorted :
      (A : Type 0) (less : A → A → Bool)
      → StrictWeak less
      → (xs : List A) → IsSorted less (sort A less xs)

pub All-Mem :
    {A : Type 0} (P : A → Type 0) (P_prop : (a : A) → IsProp (P a)) (xs : List A) {a : A}
    → All P xs
    → Mem a xs
    → P a
All-Mem P P_prop [] h m = absurd (List.not-mem-nil m)
All-Mem P P_prop (x ∷ xs) h m =
    Or.elim (P_prop _) (mem-cons.0 m) (λ e. subst P (sym e) h.0) (All-Mem P P_prop xs h.1)

pub All-perm : {A : Type 0} (P : A → Type 0) {xs ys : List A} → Permᴰ xs ys → All P xs → All P ys
All-perm P Permᴰ.nil h = tt
All-perm P (Permᴰ.cons e p) h = (subst P e h.0, All-perm P p h.1)
All-perm P (Permᴰ.swap e f) h = (subst P f h.1.0, (subst P e h.0, h.1.1))
All-perm P (Permᴰ.trans p q) h = All-perm P q (All-perm P p h)

module _ {A : Type 0} (A_set : IsSet A) (less : A → A → Bool) where
  heads_eq :
      (x y : A) (xs ys : List A)
      → All (λ z. less x z ≡ true) xs
      → All (λ z. less z y ≡ false) ys
      → Perm (y ∷ ys) (x ∷ xs)
      → y ≡ x
  heads_eq x y xs ys h k p =
      Or.elim (A_set y x) (mem-cons.0 ((Perm.mem_iff p).0 mem-cons_self)) (λ e. e)
        λ m. Or.elim (A_set y x) (mem-cons.0 ((Perm.mem_iff p).1 mem-cons_self)) sym λ n.
          let below : less x y ≡ true = All-Mem (λ z. less x z ≡ true) (λ z. Bool-set _ _) xs h m in
          let above : less x y ≡ false =
            All-Mem (λ z. less z y ≡ false) (λ z. Bool-set _ _) ys k n in
          cc

  ascending_unique :
      (xs ys : List A) → IsAscending less xs → IsSorted less ys → Perm ys xs → ys ≡ xs
  ascending_unique [] ys h k p = Perm.eq-nil p
  ascending_unique (x ∷ xs) [] h k p = sym (Perm.eq-nil (Perm.symm p))
  ascending_unique (x ∷ xs) (y ∷ ys) h k p =
      let e = heads_eq x y xs ys h.0 k.0 p in
      ap₂ ◌∷◌ e
        (ascending_unique xs ys h.1 k.1 (Perm.cons_inv (subst (λ z. Perm (z ∷ ys) (x ∷ xs)) e p)))

-- A list that strictly ascends already is what every such sort returns.
pub sort_ascending :
    (s : SortSlice) {A : Type 0} (A_set : IsSet A) (less : A → A → Bool)
    → StrictWeak less
    → (xs : List A) → IsAscending less xs
    → s.sort A less xs ≡ xs
sort_ascending s {A} A_set less weak xs h =
    ascending_unique A_set less xs (s.sort A less xs) h (s.sort_sorted A less weak xs)
      ∣ s.sort_perm A less xs ∣₁

module _ (A : Type 0) (less : A → A → Bool) where
  pub insert : A → List A → List A
  insert x [] = x ∷ []
  insert x (y ∷ ys) = if less y x then y ∷ insert x ys else x ∷ y ∷ ys

  pub insert_all : List A → List A
  unfolding insert
  insert_all [] = []
  insert_all (x ∷ xs) = insert x (insert_all xs)

  insert-perm : (x : A) (ys : List A) → Permᴰ (insert x ys) (x ∷ ys)
  unfolding insert
  insert-perm x [] = Permᴰ.cons refl Permᴰ.nil
  insert-perm x (y ∷ ys) = elim (Bool-cases (less y x)) [
    | inl e ↦ rw e (Permᴰ.trans (Permᴰ.cons refl (insert-perm x ys)) (Permᴰ.swap refl refl))
    | inr e ↦ rw e (List.Permᴰ.refl (x ∷ y ∷ ys))
  ]

  pub insert_all-perm : (xs : List A) → Permᴰ (insert_all xs) xs
  unfolding insert_all
  insert_all-perm [] = Permᴰ.nil
  insert_all-perm (x ∷ xs) =
      Permᴰ.trans (insert-perm x (insert_all xs)) (Permᴰ.cons refl (insert_all-perm xs))

  module _ (weak : StrictWeak less) where
    above_trans :
        (x y : A) (zs : List A)
        → less y x ≡ false
        → All (λ z. less z y ≡ false) zs
        → All (λ z. less z x ≡ false) zs
    above_trans x y [] h k = tt
    above_trans x y (z ∷ zs) h k = (weak.neg_trans z y x k.0 h, above_trans x y zs h k.1)

    insert-IsSorted : (x : A) (ys : List A) → IsSorted less ys → IsSorted less (insert x ys)
    unfolding insert
    insert-IsSorted x [] h = (tt, tt)
    insert-IsSorted x (y ∷ ys) h = elim (Bool-cases (less y x)) [
      | inl e ↦ rw e (
          (
            All-perm (λ z. less z y ≡ false) (List.Permᴰ.symm (insert-perm x ys))
                (weak.asym y x e, h.0),
            insert-IsSorted x ys h.1,
          ))
      | inr e ↦ rw e ((e, above_trans x y ys e h.0), h)
    ]

    pub insert_all-IsSorted : (xs : List A) → IsSorted less (insert_all xs)
    unfolding insert_all
    insert_all-IsSorted [] = tt
    insert_all-IsSorted (x ∷ xs) = insert-IsSorted x (insert_all xs) (insert_all-IsSorted xs)

unfoldable pub insertion_sort : SortSlice
unfolding insert_all
insertion_sort = record {
  sort = insert_all;
  sort_perm = insert_all-perm;
  sort_sorted = insert_all-IsSorted;
}
