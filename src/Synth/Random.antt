-- ===== src/Synth/Random.antt =====
-- `rand.Rand` of math/rand, and `randDigits` of internal/synth/synth.go.
use alfa_hakaton.Common.{
  ℕ, zero, suc, ◌+◌, ◌≤◌, ◌<◌, ◌≡◌, Bytes, [], ◌∷◌, length, All, ltb, if◌then◌else◌, arith,
}

-- `Intn n` is below `n`, where `n` is positive.
pub record Rng : Type 1 where
  pub State : Type 0
  pub intn : ℕ → State → ℕ × State
  pub intn-lt : (n : ℕ) (s : State) → 0 < n → (intn n s).0 < n

-- An ASCII digit.
abbrev pub IsDigit : ℕ → Type 0
IsDigit c = (b'0' ≤ c) × (c ≤ b'9')

module _ (r : Rng) where
  unfoldable pub rand_digits : ℕ → r.State → Bytes × r.State
  rand_digits zero s = ([], s)
  rand_digits (suc n) s =
      let (d, s1) = r.intn 10 s in
      let (rest, s2) = rand_digits n s1 in ((b'0' + (if ltb 9 d then 0 else d)) ∷ rest, s2)

  pub length-rand_digits : (n : ℕ) (s : r.State) → length (rand_digits n s).0 ≡ n
  unfolding rand_digits
  length-rand_digits zero s = omega arith
  length-rand_digits (suc n) s = omega (arith, length-rand_digits n (r.intn 10 s).1)

  pub rand_digits-IsDigit : (n : ℕ) (s : r.State) → All IsDigit (rand_digits n s).0
  unfolding rand_digits
  rand_digits-IsDigit zero s = tt
  rand_digits-IsDigit (suc n) s = (ground arith, rand_digits-IsDigit n (r.intn 10 s).1)
