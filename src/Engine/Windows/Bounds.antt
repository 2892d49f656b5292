-- ===== src/Engine/Windows/Bounds.antt =====
-- Where the cuts fall, and how far a window reaches beyond its core.
use alfa_hakaton.Common.{
  ℕ, zero, suc, ◌+◌, ◌-◌, ◌≤◌, ◌<◌, ◌≡◌, ◌⊎◌, refl, sym, ap, le→leb, subst, true, false, Bool-cases,
  Option-cases, Bytes, List, [], ◌∷◌, ◌++◌, Option, none, some, inl, inr, length, get_or, leb, ltb,
  if◌then◌else◌, arith,
}
use alfa_hakaton.Engine.Windows.{
  chunk_size, is_boundary_byte, index_last_boundary_byte, first_boundary_in,
  index_first_boundary_byte, cut_after, cuts_from, core_boundaries, back_to_rune, on_to_rune,
  extend_before, extend_after,
}

index_last_lt :
    (text : Bytes) (lo hi : ℕ) {i : ℕ}
    → index_last_boundary_byte text lo hi ≡ some i
    → (lo ≤ i) × (i < hi) × (is_boundary_byte (get_or text i 0) ≡ true)
unfolding index_last_boundary_byte
index_last_lt text lo zero h = cc
index_last_lt text lo (suc k) {i} h = ground (arith, index_last_lt text lo k {i = i})

first_in :
    (n : ℕ) (text : Bytes) (lo : ℕ) {i : ℕ}
    → first_boundary_in n text lo ≡ some i
    → (lo ≤ i) × (i < lo + n) × (is_boundary_byte (get_or text i 0) ≡ true)
unfolding first_boundary_in
first_in zero text lo h = cc
first_in (suc n) text lo {i} h = ground (arith, first_in n text (lo + 1) {i = i})

index_first_lt :
    (text : Bytes) (lo hi : ℕ) {i : ℕ}
    → index_first_boundary_byte text lo hi ≡ some i
    → (lo ≤ i) × (i < hi) × (is_boundary_byte (get_or text i 0) ≡ true)
unfolding index_first_boundary_byte
index_first_lt text lo hi {i} h =
    let (from, below, boundary) = first_in (hi - lo) text lo {i = i} h in
    (from, omega arith, boundary)

-- A cut falls just after a boundary byte, inside the text and after the start of its core.
pub record IsCut (text : Bytes) (pos cut : ℕ) : Type 0 where
  pub after : pos < cut
  pub inside : cut ≤ length text
  pub boundary : is_boundary_byte (get_or text (cut - 1) 0) ≡ true

none-ne-some : {P : Type 0} {cut : ℕ} → ◌≡◌ {A = Option ℕ} none (some cut) → P
none-ne-some e = cc

IsCut-at :
    (text : Bytes) (pos i : ℕ) {cut : ℕ}
    → ◌≡◌ {A = Option ℕ} (some (i + 1)) (some cut)
    → pos ≤ i
    → i < length text
    → is_boundary_byte (get_or text i 0) ≡ true
    → IsCut text pos cut
IsCut-at text pos i {cut} e from below boundary =
    let same : i + 1 ≡ cut = ground arith in
    let prior : i ≡ cut - 1 = omega arith in
    record {
      after = omega arith;
      inside = omega arith;
      boundary = subst (λ n. is_boundary_byte (get_or text n 0) ≡ true) prior boundary;
    }

cut_after-IsCut :
    (text : Bytes) (pos : ℕ) {cut : ℕ}
    → pos + chunk_size < length text
    → cut_after text pos (pos + chunk_size) ≡ some cut
    → IsCut text pos cut
unfolding cut_after
cut_after-IsCut text pos {cut} h e =
    elim (Option-cases (index_last_boundary_byte text pos (pos + chunk_size))) [
      | inr (i, f) ↦
          let (from, below, boundary) = index_last_lt text pos (pos + chunk_size) {i = i} f in
          IsCut-at text pos i (rw (f, cut_after) at e) from (omega arith) boundary
      | inl f ↦
          elim (Option-cases (index_first_boundary_byte text (pos + chunk_size) (length text))) [
            | inr (i, g) ↦
                let (from, below, boundary) =
                  index_first_lt text (pos + chunk_size) (length text) {i = i} g in
                IsCut-at text pos i (rw (f, g, cut_after) at e) (omega arith) below boundary
            | inl g ↦ none-ne-some (rw (f, g, cut_after) at e)
          ]
    ]

-- Each cut belongs to the core that starts at the cut before it.
abbrev pub IsChain : Bytes → ℕ → List ℕ → Type 0
IsChain text pos [] = Unit
IsChain text pos (cut ∷ cuts) = IsCut text pos cut × IsChain text cut cuts

cuts_from-IsChain : (fuel : ℕ) (text : Bytes) (pos : ℕ) → IsChain text pos (cuts_from fuel text pos)
unfolding cuts_from
cuts_from-IsChain zero text pos = tt
cuts_from-IsChain (suc fuel) text pos = elim (Bool-cases (leb (length text) pos)) [
  | inl e ↦ rw e tt
  | inr e ↦ elim (Bool-cases (leb (length text) (pos + chunk_size))) [
    | inl f ↦ rw (e, f) tt
    | inr f ↦ elim (Option-cases (cut_after text pos (pos + chunk_size))) [
      | inl g ↦ rw (e, f, g) tt
      | inr (cut, g) ↦
          let fine = cut_after-IsCut text pos {cut = cut} (ground arith) g in
          let more : leb cut pos ≡ false = ground (arith, fine.after) in
          rw (e, f, g, more) (fine, cuts_from-IsChain fuel text cut)
    ]
  ]
]

-- The interior bounds of `coreBoundaries` ascend strictly from 0, stay inside the text, and each
-- stands just after a space, a tab or an end of line: no token is cut.
pub core_boundaries-IsChain :
    (text : Bytes)
    → (cuts : List ℕ) × (core_boundaries text ≡ 0 ∷ cuts ++ length text ∷ []) × IsChain text 0 cuts
unfolding core_boundaries
core_boundaries-IsChain text =
    (cuts_from (length text) text 0, refl, cuts_from-IsChain (length text) text 0)

past_end : (fuel : ℕ) (text : Bytes) (pos : ℕ) → length text ≤ pos → cuts_from fuel text pos ≡ []
unfolding cuts_from
past_end zero text pos h = refl
past_end (suc fuel) text pos h = rw (le→leb (length text) pos h)

-- The loop of `coreBoundaries` ends by its own tests: with a round for each byte left, more fuel
-- changes nothing.
pub cuts_from_fuel :
    (f g : ℕ) (text : Bytes) (pos : ℕ)
    → length text ≤ pos + f
    → length text ≤ pos + g
    → cuts_from f text pos ≡ cuts_from g text pos
unfolding cuts_from
cuts_from_fuel zero g text pos h k = sym (past_end g text pos (omega arith))
cuts_from_fuel (suc f) zero text pos h k = past_end (suc f) text pos (omega arith)
cuts_from_fuel (suc f) (suc g) text pos h k = elim (Bool-cases (leb (length text) pos)) [
  | inl e ↦ rw e
  | inr e ↦ elim (Bool-cases (leb (length text) (pos + chunk_size))) [
    | inl q ↦ rw (e, q)
    | inr q ↦ elim (Option-cases (cut_after text pos (pos + chunk_size))) [
      | inl r ↦ rw (e, q, r)
      | inr (cut, r) ↦
          let fine = cut_after-IsCut text pos {cut = cut} (ground arith) r in
          let rest =
            cuts_from_fuel f g text cut (omega (arith, fine.after)) (omega (arith, fine.after)) in
          rw (e, q, r) (ap (λ z. if leb cut pos then [] else cut ∷ z) rest)
    ]
  ]
]

back_to_rune-le : (text : Bytes) (lo : ℕ) → back_to_rune text lo ≤ lo
unfolding back_to_rune
back_to_rune-le text zero = omega arith
back_to_rune-le text (suc lo) = ground (arith, back_to_rune-le text lo)

-- A window starts at 0, or at least `n - 1` bytes before its core.
pub extend_before_bounds :
    (text : Bytes) (pos n : ℕ)
    → 0 < n
    → (extend_before text pos n ≡ 0) ⊎ (extend_before text pos n + n ≤ pos + 1)
unfolding extend_before
extend_before_bounds text pos n h = elim (Bool-cases (ltb pos n)) [
  | inl e ↦ rw e (inl refl)
  | inr e ↦ elim (Option-cases (index_last_boundary_byte text 0 (pos - n + 1))) [
    | inl f ↦ rw (e, f) (inr (ground (arith, back_to_rune-le text (pos - n))))
    | inr (i, f) ↦
        let (_, below, _) = index_last_lt text 0 (pos - n + 1) {i = i} f in
        rw (e, f) (inr (ground arith))
  ]
]

on_to_rune_bounds :
    (n : ℕ) (text : Bytes) (hi : ℕ) → (hi ≤ on_to_rune n text hi) × (on_to_rune n text hi ≤ hi + n)
unfolding on_to_rune
on_to_rune_bounds zero text hi = omega arith
on_to_rune_bounds (suc n) text hi = ground (arith, on_to_rune_bounds n text (hi + 1))

-- A window ends at the end of the text, or at least `n` bytes after its core, inside the text.
pub extend_after_bounds :
    (text : Bytes) (pos n : ℕ)
    → (extend_after text pos n ≡ length text)
      ⊎ ((pos + n ≤ extend_after text pos n) × (extend_after text pos n ≤ length text))
unfolding extend_after
extend_after_bounds text pos n = elim (Bool-cases (ltb (length text) (pos + n))) [
  | inl e ↦ rw e (inl refl)
  | inr e ↦ elim (Option-cases (index_first_boundary_byte text (pos + n) (length text))) [
    | inl f ↦
        rw (e, f) (inr (ground (arith, on_to_rune_bounds (length text - (pos + n)) text (pos + n))))
    | inr (i, f) ↦
        let (from, below, _) = index_first_lt text (pos + n) (length text) {i = i} f in
        rw (e, f) (inr (ground arith))
  ]
]
