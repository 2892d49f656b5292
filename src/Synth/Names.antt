-- ===== src/Synth/Names.antt =====
-- The fake names of internal/synth/synth.go. `strings.ToLower`, `strings.ToUpper` and the dictionaries,
-- which are files, are parameters.
use alfa_hakaton.Common.{
  ℕ, ◌-◌, Bool, Bytes, utf8, List, [], ◌∷◌, ◌++◌, Option, none, some, any, length, take, drop,
  get_or, if◌then◌else◌,
}
use alfa_hakaton.Common.Find.{has_suffix}
use alfa_hakaton.Pii.Utf8.{decode_rune}
use alfa_hakaton.Mask.Full.{encode}
use alfa_hakaton.Synth.Random.{Rng}

pub record Words : Type 0 where
  pub to_lower : Bytes → Bytes
  pub to_upper : Bytes → Bytes

pub record Dict : Type 0 where
  pub names : List Bytes
  pub surnames : List Bytes
  pub patr_m : List Bytes
  pub patr_f : List Bytes

abbrev pub masculine_suffixes : List Bytes
masculine_suffixes = utf8 "ов" ∷ utf8 "ев" ∷ utf8 "ёв" ∷ utf8 "ин" ∷ utf8 "ын" ∷ []

abbrev pub ends_with_any : List Bytes → Bytes → Bool
ends_with_any suffixes s = any (has_suffix s) suffixes

-- `s` without its last `n` bytes.
abbrev pub drop_end : ℕ → Bytes → Bytes
drop_end n s = take (length s - n) s

module _ (w : Words) where
  unfoldable pub is_female_name : Bytes → Bool
  is_female_name name =
      ends_with_any (utf8 "а" ∷ utf8 "я" ∷ utf8 "ия" ∷ utf8 "ья" ∷ []) (w.to_lower name)

  -- The loop of `feminize` over the suffixes.
  unfoldable pub feminize_from : List Bytes → Bytes → Bytes
  feminize_from [] s = s
  feminize_from (suf ∷ rest) s =
      if has_suffix (w.to_lower s) suf
      then drop_end (length suf) s ++ utf8 "а"
      else feminize_from rest s

  unfoldable pub feminize : Bytes → Bytes
  unfolding feminize_from
  feminize s = feminize_from masculine_suffixes s

  unfoldable pub capitalize : Bytes → Bytes
  capitalize [] = []
  capitalize (c ∷ s) =
      let (first, size) = decode_rune (c ∷ s) in w.to_upper (encode first) ++ drop size (c ∷ s)

  unfoldable pub genitive_surname : Bytes → Bool → Bytes
  genitive_surname s female =
      if female
      then (if ends_with_any (utf8 "ова" ∷ utf8 "ева" ∷ utf8 "ёва" ∷ utf8 "ина" ∷ utf8 "ына" ∷ [])
            (w.to_lower s)
          then drop_end 1 s ++ utf8 "ой"
          else s)
      else if ends_with_any masculine_suffixes (w.to_lower s)
      then s ++ utf8 "а"
      else s

  unfoldable pub replace_suffix : Bytes → Bytes → List Bytes → Bytes → ℕ → Option Bytes
  replace_suffix s lower suffixes repl n =
      if ends_with_any suffixes lower then some (drop_end n s ++ repl) else none

  abbrev or_else : Option Bytes → Bytes → Bytes
  or_else none other = other
  or_else (some s) other = s

  unfoldable pub genitive_name : Bytes → Bool → Bytes
  unfolding replace_suffix
  genitive_name s female =
      let lower = w.to_lower s in
      if female
      then or_else (replace_suffix s lower (utf8 "ия" ∷ utf8 "ья" ∷ []) (utf8 "и") 1)
          (or_else (replace_suffix s lower (utf8 "а" ∷ utf8 "я" ∷ []) (utf8 "ы") 1) s)
      else or_else (replace_suffix s lower (utf8 "ий" ∷ utf8 "ей" ∷ []) (utf8 "я") 2)
          (or_else (replace_suffix s lower (utf8 "й" ∷ []) (utf8 "я") 1) s)

  unfoldable pub genitive_patr : Bytes → Bytes
  genitive_patr p =
      let lower = w.to_lower p in
      if ends_with_any (utf8 "овна" ∷ utf8 "евна" ∷ utf8 "ична" ∷ utf8 "инична" ∷ []) lower
      then p ++ utf8 "ы"
      else if ends_with_any (utf8 "ович" ∷ utf8 "евич" ∷ utf8 "ич" ∷ []) lower
      then p ++ utf8 "а"
      else p

  module _ (r : Rng) (d : Dict) where
    -- The draws of `FullName` and `FullNameGenitive`: a first name, a surname and a patronymic of its
    -- gender, of which the feminine one is drawn after the masculine one.
    unfoldable pub draw_name : r.State → Bytes × Bytes × Bytes × r.State
    draw_name s =
        let (i, s1) = r.intn (length d.names) s in
        let (j, s2) = r.intn (length d.surnames) s1 in
        let (k, s3) = r.intn (length d.patr_m) s2 in
        let (l, s4) = r.intn (length d.patr_f) s3 in
        let first = get_or d.names i [] in
        let surname = get_or d.surnames j [] in
        if is_female_name first
        then (first, feminize surname, get_or d.patr_f l [], s4)
        else (first, surname, get_or d.patr_m k [], s3)

    unfoldable pub full_name : r.State → Bytes × r.State
    full_name s =
        let (first, surname, patr, s') = draw_name s in
        (capitalize surname ++ (b' ' ∷ (capitalize first ++ (b' ' ∷ patr))), s')
