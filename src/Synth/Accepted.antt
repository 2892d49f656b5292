-- ===== src/Synth/Accepted.antt =====
-- Every fake value is accepted by the validator of its kind, whatever the random source draws.
use alfa_hakaton.Common.{
  ℕ, ◌<◌, ◌≡◌, refl, ap, ◌∙◌, ◌==◌, Bool, true, Bytes, List, [], ◌∷◌, ◌++◌, length, length-append,
  All, All-append, if◌then◌else◌, arith,
}
use alfa_hakaton.Detectors.Digits.{digits}
use alfa_hakaton.Detectors.Digits
use alfa_hakaton.Detectors.Luhn.{luhn_digits, luhn}
use alfa_hakaton.Detectors.Control.{inn_digits, snils_digits}
use alfa_hakaton.Detectors.Control
use alfa_hakaton.Synth.Random.{Rng, rand_digits, IsDigit, length-rand_digits, rand_digits-IsDigit}
use alfa_hakaton.Synth.Valid.{
  digits_whole, luhn-with_check, inn10-with_control, inn12-with_controls, snils-with_number,
  length-two_digits, snils_number-lt, length-snoc,
}
use alfa_hakaton.Synth.{
  inn_control, luhn_check_digit, two_digits, control_sum, with_check, with_controls, with_control,
  with_number, snils_number, snils_weights, phone, card, inn, inn10, snils, first_weights,
  second_weights, inn10_weights,
}

IsDigit-snoc : (d : Bytes) (a : ℕ) → All IsDigit d → IsDigit a → All IsDigit (d ++ a ∷ [])
IsDigit-snoc d a h k = All-append IsDigit d (a ∷ []) h (k, tt)

luhn_check_digit-IsDigit : (d : Bytes) → IsDigit (luhn_check_digit d)
unfolding luhn_check_digit
luhn_check_digit-IsDigit d = omega arith

inn_control-IsDigit : (d : Bytes) (ws : List ℕ) → IsDigit (inn_control d ws)
unfolding inn_control
inn_control-IsDigit d ws = omega arith

two_digits-IsDigit : (n : ℕ) → n < 100 → All IsDigit (two_digits n)
unfolding two_digits
two_digits-IsDigit n h = ground arith

-- A validator of digits accepts a match that is nothing but digits it accepts.
accepted :
    (valid : Bytes → Bool) (d : Bytes) → All IsDigit d → valid d ≡ true → valid (digits d) ≡ true
accepted valid d h e = ap valid (digits_whole d h) ∙ e

with_check-IsDigit : (body : Bytes) → All IsDigit body → All IsDigit (with_check body)
unfolding with_check
with_check-IsDigit body h = IsDigit-snoc body _ h (luhn_check_digit-IsDigit body)

with_control-IsDigit : (base : Bytes) → All IsDigit base → All IsDigit (with_control base)
unfolding with_control
with_control-IsDigit base h = IsDigit-snoc base _ h (inn_control-IsDigit base inn10_weights)

with_controls-IsDigit : (base : Bytes) → All IsDigit base → All IsDigit (with_controls base)
unfolding with_controls
with_controls-IsDigit base h =
    let a = inn_control base first_weights in
    IsDigit-snoc (base ++ a ∷ []) _ (IsDigit-snoc base a h (inn_control-IsDigit base first_weights))
      (inn_control-IsDigit (base ++ a ∷ []) second_weights)

with_number-IsDigit : (base : Bytes) → All IsDigit base → All IsDigit (with_number base)
unfolding with_number
with_number-IsDigit base h =
    let n = snils_number (control_sum snils_weights base) in
    All-append IsDigit base (two_digits n) h
      (two_digits-IsDigit n (snils_number-lt (control_sum snils_weights base)))

-- A string of `n` digits that the test accepts.
abbrev pub IsPassing : ℕ → (Bytes → Bool) → Bytes → Type 0
IsPassing n valid d = All IsDigit d × (length d ≡ n) × (valid d ≡ true)

module _ (r : Rng) (s : r.State) where
  pub card-IsPassing : IsPassing 16 luhn_digits (card r s).0
  unfolding card with_check
  card-IsPassing =
      let coin = (r.intn 2 s).0 in
      let s1 = (r.intn 2 s).1 in
      let a = (rand_digits r 2 s1).0 in
      let b = (rand_digits r 12 (rand_digits r 2 s1).1).0 in
      let first = if coin == 0 then b'5' else b'4' in
      let body = first ∷ (a ++ b) in
      let size : length body ≡ 15 = omega (
        arith,
        length-append a b,
        length-rand_digits r 2 s1,
        length-rand_digits r 12 (rand_digits r 2 s1).1,
      ) in
      let lead : IsDigit first = ground arith in
      let shape : All IsDigit body = (
        lead,
        All-append IsDigit a b (rand_digits-IsDigit r 2 s1)
            (rand_digits-IsDigit r 12 (rand_digits r 2 s1).1),
      ) in
      (
        with_check-IsDigit body shape,
        omega (arith, size, length-snoc body (luhn_check_digit body)),
        luhn-with_check body size,
      )

  pub inn-IsPassing : IsPassing 12 inn_digits (inn r s).0
  unfolding inn with_controls Control.inn_digits
  inn-IsPassing =
      let base = (rand_digits r 10 s).0 in
      let a = inn_control base first_weights in
      let b = inn_control (base ++ a ∷ []) second_weights in
      let size : length (with_controls base) ≡ 12 =
        omega
          (arith, length-rand_digits r 10 s, length-snoc base a, length-snoc (base ++ a ∷ []) b) in
      (
        with_controls-IsDigit base (rand_digits-IsDigit r 10 s),
        size,
        rw size (inn12-with_controls base (length-rand_digits r 10 s)),
      )

  inn10-IsPassing : IsPassing 10 inn_digits (inn10 r s).0
  unfolding inn10 with_control Control.inn_digits
  inn10-IsPassing =
      let base = (rand_digits r 9 s).0 in
      let size : length (with_control base) ≡ 10 =
        omega
          (arith, length-rand_digits r 9 s, length-snoc base (inn_control base inn10_weights)) in
      (
        with_control-IsDigit base (rand_digits-IsDigit r 9 s),
        size,
        rw size (inn10-with_control base (length-rand_digits r 9 s)),
      )

  pub snils-IsPassing : IsPassing 11 snils_digits (snils r s).0
  unfolding snils with_number
  snils-IsPassing =
      let base = (rand_digits r 9 s).0 in
      let n = snils_number (control_sum snils_weights base) in
      (
        with_number-IsDigit base (rand_digits-IsDigit r 9 s),
        omega (
          arith,
          length-rand_digits r 9 s,
          length-append base (two_digits n),
          length-two_digits n,
        ),
        snils-with_number base (length-rand_digits r 9 s),
      )

  pub phone-IsPassing : IsPassing 11 Digits.phone_digits (phone r s).0
  unfolding Digits.phone_digits phone
  phone-IsPassing =
      let d = (rand_digits r 9 s).0 in
      let size : length (b'7' ∷ b'9' ∷ d) ≡ 11 = omega (arith, length-rand_digits r 9 s) in
      ((omega arith, (omega arith, rand_digits-IsDigit r 9 s)), size, rw size refl)

  -- Whatever the random source draws: a fake card number passes the Luhn test, a fake INN of 12 digits
  -- and one of 10 have their control digits, a fake SNILS has its control number, and a fake phone
  -- number is a phone number.
  pub fakes-accepted :
      (luhn (card r s).0 ≡ true)
      × (Control.inn (inn r s).0 ≡ true)
      × (Control.inn (inn10 r s).0 ≡ true)
      × (Control.snils (snils r s).0 ≡ true)
      × (Digits.phone (phone r s).0 ≡ true)
  unfolding luhn Control.inn Control.snils Digits.phone
  fakes-accepted =
      let c = card-IsPassing in
      let i = inn-IsPassing in
      let j = inn10-IsPassing in
      let n = snils-IsPassing in
      let p = phone-IsPassing in
      (
        accepted luhn_digits _ c.0 c.2,
        accepted inn_digits _ i.0 i.2,
        accepted inn_digits _ j.0 j.2,
        accepted snils_digits _ n.0 n.2,
        accepted Digits.phone_digits _ p.0 p.2,
      )
