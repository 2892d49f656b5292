-- ===== src/Common/Lists.antt =====
-- Lists measured and indexed by native numbers, under the library's names, and predicates on them.
use Prim.Native.Nat.{ℕ, zero, suc, ◌+◌, ◌-◌, ◌≤◌, min}
use mathlib.Core.Path.{◌≡◌, refl, sym, ap, ap₂, ◌∙◌}
use mathlib.Core.Bool.{Bool, false, ◌||◌}
use mathlib.Core.List.{List, [], ◌∷◌, ◌++◌, foldl, append_assoc}
use mathlib.Core.Option.{Option, none, some}
use native.Mathlib.Omega.{arith}

module _ {ℓ} {A : Type ℓ} where
  abbrev pub length : List A → ℕ
  length [] = 0
  length (x ∷ xs) = suc (length xs)

  abbrev pub get_elem? : List A → ℕ → Option A
  get_elem? [] i = none
  get_elem? (x ∷ xs) zero = some x
  get_elem? (x ∷ xs) (suc i) = get_elem? xs i

  abbrev pub get_or : List A → ℕ → A → A
  get_or [] i d = d
  get_or (x ∷ xs) zero d = x
  get_or (x ∷ xs) (suc i) d = get_or xs i d

  abbrev pub take : ℕ → List A → List A
  take zero xs = []
  take (suc n) [] = []
  take (suc n) (x ∷ xs) = x ∷ take n xs

  abbrev pub drop : ℕ → List A → List A
  drop zero xs = xs
  drop (suc n) [] = []
  drop (suc n) (x ∷ xs) = drop n xs

  pub length-append : (xs ys : List A) → length (xs ++ ys) ≡ length xs + length ys
  length-append [] ys = omega arith
  length-append (x ∷ xs) ys = omega (arith, length-append xs ys)

  pub take-append-drop : (n : ℕ) (xs : List A) → take n xs ++ drop n xs ≡ xs
  take-append-drop zero xs = refl
  take-append-drop (suc n) [] = refl
  take-append-drop (suc n) (x ∷ xs) = ap (◌∷◌ x) (take-append-drop n xs)

  pub length-take : (n : ℕ) (xs : List A) → length (take n xs) ≡ min n (length xs)
  length-take zero xs = omega arith
  length-take (suc n) [] = omega arith
  length-take (suc n) (x ∷ xs) = omega (arith, length-take n xs)

  pub length-drop : (n : ℕ) (xs : List A) → length (drop n xs) ≡ length xs - n
  length-drop zero xs = omega arith
  length-drop (suc n) [] = omega arith
  length-drop (suc n) (x ∷ xs) = omega (arith, length-drop n xs)

  pub drop-length : (xs : List A) → drop (length xs) xs ≡ []
  drop-length [] = refl
  drop-length (x ∷ xs) = drop-length xs

  pub take-length : (xs : List A) → take (length xs) xs ≡ xs
  take-length [] = refl
  take-length (x ∷ xs) = ap (◌∷◌ x) (take-length xs)

  -- A cut inside the first list leaves the second alone.
  pub drop-append : (n : ℕ) (xs ys : List A) → n ≤ length xs → drop n (xs ++ ys) ≡ drop n xs ++ ys
  drop-append zero xs ys h = refl
  drop-append (suc n) [] ys h = absurd (omega arith)
  drop-append (suc n) (x ∷ xs) ys h = drop-append n xs ys (omega arith)

  pub take-append : (n : ℕ) (xs ys : List A) → n ≤ length xs → take n (xs ++ ys) ≡ take n xs
  take-append zero xs ys h = refl
  take-append (suc n) [] ys h = absurd (omega arith)
  take-append (suc n) (x ∷ xs) ys h = ap (◌∷◌ x) (take-append n xs ys (omega arith))

  pub drop-drop : (m n : ℕ) (xs : List A) → drop n (drop m xs) ≡ drop (m + n) xs
  drop-drop zero n xs = let e : 0 + n ≡ n = omega arith in rw e
  drop-drop (suc m) zero [] = let e : suc m + 0 ≡ suc m = omega arith in rw e
  drop-drop (suc m) (suc n) [] = let e : suc m + suc n ≡ suc (m + suc n) = omega arith in rw e
  drop-drop (suc m) n (x ∷ xs) =
      let e : suc m + n ≡ suc (m + n) = omega arith in rw e (drop-drop m n xs)

  -- The first `m + n` elements are the first `m` and the `n` after them.
  pub take-add : (m n : ℕ) (xs : List A) → take (m + n) xs ≡ take m xs ++ take n (drop m xs)
  take-add zero n xs = let e : 0 + n ≡ n = omega arith in rw e
  take-add (suc m) zero [] = let e : suc m + 0 ≡ suc m = omega arith in rw e
  take-add (suc m) (suc n) [] = let e : suc m + suc n ≡ suc (m + suc n) = omega arith in rw e
  take-add (suc m) n (x ∷ xs) =
      let e : suc m + n ≡ suc (m + n) = omega arith in rw e (ap (◌∷◌ x) (take-add m n xs))

-- `xs[a:b]`.
abbrev pub slice {ℓ} : {A : Type ℓ} → List A → ℕ → ℕ → List A
slice xs a b = take (b - a) (drop a xs)

pub length-slice {ℓ} :
    {A : Type ℓ} (xs : List A) (a b : ℕ) → a ≤ b → b ≤ length xs → length (slice xs a b) ≡ b - a
length-slice xs a b h k = omega (arith, length-take (b - a) (drop a xs), length-drop a xs)

-- `xs[:b]` is `xs[:a]` and `xs[a:b]`.
pub take-slice {ℓ} :
    {A : Type ℓ} (xs : List A) (a b : ℕ) → a ≤ b → take a xs ++ slice xs a b ≡ take b xs
take-slice xs a b h = sym (take-add a (b - a) xs) ∙ ap (λ n. take n xs) (omega arith)

-- A part of a text that is put together from three is cut out again.
pub slice_middle {ℓ} :
    {A : Type ℓ} (b r t : List A) → slice ((b ++ r) ++ t) (length b) (length (b ++ r)) ≡ r
slice_middle b r t =
    let n : length (b ++ r) - length b ≡ length r = omega (arith, length-append b r) in
    let e : drop (length b) ((b ++ r) ++ t) ≡ r ++ t =
      ap (drop (length b)) (append_assoc b r t)
      ∙ drop-append (length b) b (r ++ t) (omega arith)
      ∙ ap (λ z. z ++ (r ++ t)) (drop-length b) in
    ap₂ take n e ∙ take-append (length r) r t (omega arith) ∙ take-length r

-- `(b ++ t)[a:len(b)]` is `b[a:]`.
pub slice_to_end {ℓ} :
    {A : Type ℓ} (b t : List A) (a : ℕ) → a ≤ length b → slice (b ++ t) a (length b) ≡ drop a b
slice_to_end b t a h =
    let n : length b - a ≡ length (drop a b) = omega (arith, length-drop a b) in
    ap₂ take n (drop-append a b t h)
    ∙ take-append (length (drop a b)) (drop a b) t (omega arith)
    ∙ take-length (drop a b)

pub foldl-snoc {ℓ κ} :
    {A : Type ℓ} {B : Type κ} (f : B → A → B) (b : B) (xs : List A) (x : A)
    → foldl f b (xs ++ x ∷ []) ≡ f (foldl f b xs) x
foldl-snoc f b [] x = refl
foldl-snoc f b (y ∷ xs) x = foldl-snoc f (f b y) xs x

module _ {ℓ κ} {A : Type ℓ} (P : A → Type κ) where
  abbrev pub All : List A → Type κ
  All [] = Unit
  All (x ∷ xs) = P x × All xs

  pub All-append : (xs ys : List A) → All xs → All ys → All (xs ++ ys)
  All-append [] ys _ hy = hy
  All-append (x ∷ xs) ys (px, hx) hy = (px, All-append xs ys hx hy)

abbrev pub any {ℓ} : {A : Type ℓ} → (A → Bool) → List A → Bool
any p [] = false
any p (x ∷ xs) = p x || any p xs
