-- ===== src/Mask/Synthetic.antt =====
-- internal/mask/synthetic.go: a value becomes a fake value of the same form, drawn from a source that is
-- seeded by the category and the value. FNV and `math/rand` are `seeded` and the `Rng`; `strings.Fields`
-- and the letter cases are parameters, and so are the name dictionaries, which are files.
pub mod Laws
use alfa_hakaton.Common.{
  ℕ, zero, suc, ◌+◌, ◌-◌, ◌%◌, ◌==◌, Bool, true, false, not, ◌&&◌, ◌||◌, Bytes, bytes_eq, codes,
  utf8, List, [], ◌∷◌, ◌++◌, any, length, get_or, ltb, if◌then◌else◌,
}
use alfa_hakaton.Common.Find.{contains, has_suffix}
use alfa_hakaton.Pii.Types.{
  Category, cat_full_name, cat_phone, cat_card_number, cat_date, cat_birth_date, cat_passport_date,
  cat_email,
}
use alfa_hakaton.Synth.Random.{Rng}
use alfa_hakaton.Synth.{two_digits, phone, card, inn, snils, passport}
use alfa_hakaton.Synth.Calendar.{draw_day, month_words}
use alfa_hakaton.Synth.Names.{Words, Dict, masculine_suffixes, drop_end, capitalize}
use alfa_hakaton.Mask.Doc.{DocState, Strategy, memo, remember, next}
use alfa_hakaton.Mask.Token.{decimal, numbered}
use alfa_hakaton.Mask.Full.{encode}

abbrev pub cat_inn : Category
cat_inn = codes "inn"

abbrev pub cat_snils : Category
cat_snils = codes "snils"

abbrev pub cat_passport : Category
cat_passport = codes "passport"

abbrev pub is_ascii_digit : ℕ → Bool
is_ascii_digit c = not (ltb c b'0') && not (ltb b'9' c)

unfoldable pub digits_only : Bytes → Bytes
digits_only [] = []
digits_only (c ∷ s) = if is_ascii_digit c then c ∷ digits_only s else digits_only s

-- The next byte for a digit, and what is left of the fake digits.
abbrev pub next_fake : ℕ → Bytes → ℕ × Bytes
next_fake c [] = (c, [])
next_fake c (x ∷ fake) = (x, fake)

-- The digits of the value are replaced one by one; when the fake ones run out, the value's are kept.
unfoldable pub apply_digits : Bytes → Bytes → Bytes
apply_digits [] fake = []
apply_digits (c ∷ value) fake =
    let (x, rest) = if is_ascii_digit c then next_fake c fake else (c, fake) in
    x ∷ apply_digits value rest

unfoldable pub token_fallback : Bytes → Category → DocState → Bytes × DocState
unfolding memo
token_fallback value cat d = numbered value cat d (memo d value)

-- The first byte that is no digit, or 0.
unfoldable pub separator : Bytes → ℕ
separator [] = 0
separator (c ∷ s) = if not (is_ascii_digit c) then c else separator s

-- `strings.IndexByte`, where the byte occurs.
unfoldable pub index_byte : Bytes → ℕ → ℕ
index_byte [] b = 0
index_byte (c ∷ s) b = if c == b then 0 else suc (index_byte s b)

abbrev pub last_word : List Bytes → Bytes
last_word [] = []
last_word (w ∷ []) = w
last_word (w ∷ x ∷ ws) = last_word (x ∷ ws)

abbrev pub is_nil {ℓ} : {A : Type ℓ} → List A → Bool
is_nil [] = true
is_nil (x ∷ xs) = false

module _ (w : Words) (fields : Bytes → List Bytes) (dict : Dict) where
  unfoldable pub is_word_date : Bytes → Bool
  is_word_date value = any (contains (w.to_lower value)) month_words

  abbrev female_endings : List Bytes
  female_endings =
      utf8 "овна"
      ∷ utf8 "евна"
      ∷ utf8 "ична"
      ∷ utf8 "инична"
      ∷ utf8 "ова"
      ∷ utf8 "ева"
      ∷ utf8 "ёва"
      ∷ utf8 "ина"
      ∷ utf8 "ына"
      ∷ utf8 "ская"
      ∷ utf8 "цкая"
      ∷ []

  unfoldable pub is_female_full_name : Bytes → Bool
  is_female_full_name value =
      if is_nil (fields value)
      then false
      else any (has_suffix (w.to_lower (last_word (fields value)))) female_endings

  -- The loop of `feminize` over the suffixes.
  unfoldable pub feminize_from : List Bytes → Bytes → Bytes
  feminize_from [] s = s
  feminize_from (suf ∷ rest) s =
      if has_suffix (w.to_lower s) suf
      then drop_end (length suf) s ++ (suf ++ utf8 "а")
      else feminize_from rest s

  unfoldable pub feminize : Bytes → Bytes
  unfolding feminize_from
  feminize s = feminize_from masculine_suffixes s

  abbrev no_dict : Bool
  no_dict =
      is_nil dict.names || (is_nil dict.surnames || (is_nil dict.patr_m || is_nil dict.patr_f))

  -- One word is a surname, two a surname and a name, more also a patronymic.
  abbrev name_of : ℕ → Bytes → Bytes → Bytes → Bytes
  name_of n surname first patr =
      if n == 1
      then surname
      else if n == 2
      then surname ++ (b' ' ∷ first)
      else surname ++ (b' ' ∷ (first ++ (b' ' ∷ patr)))

  module _ (r : Rng) where
    unfoldable pub synth_name : Bytes → Category → r.State → DocState → Bytes × DocState
    synth_name value cat s d =
        let words = fields value in
        let female = is_female_full_name value in
        let (i, s1) = r.intn (length dict.names) s in
        let (j, s2) = r.intn (length dict.surnames) s1 in
        let (k, s3) = r.intn (length dict.patr_m) s2 in
        let (l, s4) = r.intn (length dict.patr_f) s3 in
        let surname = get_or dict.surnames j [] in
        let patr = if female then get_or dict.patr_f l [] else get_or dict.patr_m k [] in
        if is_nil words || no_dict then token_fallback value cat d else (
          name_of (length words) (capitalize w (if female then feminize surname else surname))
              (capitalize w (get_or dict.names i [])) patr,
          d,
        )

    unfoldable pub synth_phone : Bytes → Category → r.State → DocState → Bytes × DocState
    unfolding token_fallback
    synth_phone value cat s d =
        if not (length (digits_only value) == 11)
        then token_fallback value cat d
        else (apply_digits value (phone r s).0, d)

    unfoldable pub synth_card : Bytes → Category → r.State → DocState → Bytes × DocState
    unfolding token_fallback
    synth_card value cat s d =
        if ltb (length (digits_only value)) 13 || ltb 19 (length (digits_only value))
        then token_fallback value cat d
        else (apply_digits value (card r s).0, d)

    unfoldable pub synth_inn : Bytes → Category → r.State → DocState → Bytes × DocState
    unfolding token_fallback
    synth_inn value cat s d =
        if not (length (digits_only value) == 12)
        then token_fallback value cat d
        else (apply_digits value (inn r s).0, d)

    unfoldable pub synth_snils : Bytes → Category → r.State → DocState → Bytes × DocState
    unfolding token_fallback
    synth_snils value cat s d =
        if not (length (digits_only value) == 11)
        then token_fallback value cat d
        else (apply_digits value (snils r s).0, d)

    unfoldable pub synth_passport : Bytes → Category → r.State → DocState → Bytes × DocState
    unfolding token_fallback
    synth_passport value cat s d =
        if not (length (digits_only value) == 10)
        then token_fallback value cat d
        else (apply_digits value (passport r s).0, d)

    unfoldable pub synth_date_word : Bytes → r.State → Bytes
    synth_date_word value s =
        let day = (draw_day r s).0 in
        let tail = if has_suffix (w.to_lower value) (utf8 "г.") then utf8 "г." else utf8 "года" in
        decimal day.day
        ++ (b' '
            ∷ (get_or month_words (day.month - 1) []
                ++ (b' ' ∷ (decimal day.year ++ (b' ' ∷ tail)))))

    unfoldable pub synth_date_numeric : Bytes → Category → r.State → DocState → Bytes × DocState
    unfolding token_fallback
    synth_date_numeric value cat s d =
        let sep = encode (separator value) in
        let day = (draw_day r s).0 in
        let dd = two_digits day.day in
        let mm = two_digits day.month in
        if separator value == 0
        then token_fallback value cat d
        else if length (digits_only value) == 6
        then (dd ++ (sep ++ (mm ++ (sep ++ decimal (day.year % 100)))), d)
        else if not (length (digits_only value) == 8)
        then token_fallback value cat d
        else if index_byte value (separator value) == 4
        then (decimal day.year ++ (sep ++ (mm ++ (sep ++ dd))), d)
        else (dd ++ (sep ++ (mm ++ (sep ++ decimal day.year))), d)

    unfoldable pub synth_date : Bytes → Category → r.State → DocState → Bytes × DocState
    synth_date value cat s d =
        if is_word_date value
        then (synth_date_word value s, d)
        else synth_date_numeric value cat s d

    module _ (hash_email : Bytes → Bytes) (seeded : Category → Bytes → r.State) where
      -- The dispatch on the category.
      unfoldable pub synth_for : Bytes → Category → r.State → DocState → Bytes × DocState
      synth_for value cat s d =
          if bytes_eq cat cat_full_name
          then synth_name value cat s d
          else if bytes_eq cat cat_phone
          then synth_phone value cat s d
          else if bytes_eq cat cat_card_number
          then synth_card value cat s d
          else if bytes_eq cat cat_inn
          then synth_inn value cat s d
          else if bytes_eq cat cat_snils
          then synth_snils value cat s d
          else if bytes_eq cat cat_passport
          then synth_passport value cat s d
          else if bytes_eq cat cat_date
              || (bytes_eq cat cat_birth_date || bytes_eq cat cat_passport_date)
          then synth_date value cat s d
          else if bytes_eq cat cat_email
          then (hash_email value, d)
          else token_fallback value cat d

      -- A value that has a replacement keeps it; what is made for another is recorded.
      abbrev pub synthesized : Bytes → Category → DocState → Bytes → Bytes × DocState
      synthesized value cat d [] =
          let (out, d') = synth_for value cat (seeded cat value) d in (out, remember d' value out)
      synthesized value cat d (c ∷ m) = (c ∷ m, d)

      unfoldable pub new_synthetic : Strategy
      new_synthetic = record {
        name = codes "synthetic";
        mask = λ value cat d. synthesized value cat d (memo d value);
      }
