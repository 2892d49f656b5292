-- ===== src/Mask/Partial.antt =====
-- internal/mask/partial.go: a value keeps a part of itself by the rule of its category. The rules are the
-- decoded partial.yaml; the tables of `unicode` and the letter cases of `strings` are parameters.
pub mod Digits
pub mod Fuel
use mathlib.Core.List.{reverse}
use alfa_hakaton.Common.{
  ℕ, zero, suc, ◌+◌, ◌-◌, ◌≤◌, ◌==◌, Bool, true, false, not, ◌&&◌, ◌||◌, Bytes, bytes_eq, codes,
  List, [], ◌∷◌, ◌++◌, Option, none, some, any, length, take, drop, leb, if◌then◌else◌,
}
use alfa_hakaton.Common.Assoc
use alfa_hakaton.Common.Find.{index}
use alfa_hakaton.Pii.Types.{Category}
use alfa_hakaton.Pii.Utf8.{decode_rune, rune_error}
use alfa_hakaton.Mask.Doc.{DocState, Strategy, memo, remember}
use alfa_hakaton.Mask.Full.{Unicode, Piece, pieces, encode, raw_of, service_words}

pub record PartialRule : Type 0 where
  pub mode : Bytes
  pub keep_head : Option ℕ
  pub keep_tail : Option ℕ
  pub char : Bytes

pub record PartialConfig : Type 0 where
  pub defaults : PartialRule
  pub categories : List (Category × PartialRule)

abbrev pub text_or : Bytes → Bytes → Bytes
text_or [] d = d
text_or (c ∷ s) d = c ∷ s

abbrev pub number_or : Option ℕ → Option ℕ → Option ℕ
number_or none d = d
number_or (some n) d = some n

-- What the file does not say of the defaults.
unfoldable pub with_defaults : PartialConfig → PartialConfig
with_defaults cfg = record cfg {
  defaults = record {
    mode = cfg.defaults.mode;
    keep_head = number_or cfg.defaults.keep_head (some 2);
    keep_tail = number_or cfg.defaults.keep_tail (some 2);
    char = text_or cfg.defaults.char (codes "*");
  };
}

abbrev pub over : PartialRule → Option PartialRule → PartialRule
over d none = d
over d (some r) = record {
  mode = text_or r.mode d.mode;
  keep_head = number_or r.keep_head d.keep_head;
  keep_tail = number_or r.keep_tail d.keep_tail;
  char = text_or r.char d.char;
}

unfoldable pub rule : PartialConfig → Category → PartialRule
unfolding Assoc.lookup
rule cfg cat = over cfg.defaults (Assoc.lookup cat cfg.categories)

-- `strings.Repeat`.
unfoldable pub repeat : Bytes → ℕ → Bytes
repeat s zero = []
repeat s (suc n) = s ++ repeat s n

-- `utf8.RuneCountInString`, and `string` of the first rune.
abbrev pub rune_count : Bytes → ℕ
rune_count s = length (pieces (length s) s)

abbrev pub first_rune : Bytes → Bytes
first_rune s = encode (decode_rune s).0

-- The first letter, and a character for each other rune.
abbrev pub first_and : Bytes → Bytes → Bytes
first_and word char = first_rune word ++ repeat char (rune_count word - 1)

abbrev pub mask_date_word : Bytes → Bytes → Bytes
mask_date_word word char = first_and word char

unfoldable pub mask_email : Bytes → Bytes → Bytes
mask_email value char = elim (index value (b'@' ∷ [])) [
  | none ↦ value
  | some zero ↦ value
  | some (suc at) ↦ first_and (take (suc at) value) char ++ drop (suc at) value
]

abbrev pub has : List ℕ → ℕ → Bool
has keep i = any (λ j. j == i) keep

abbrev pub count_or_zero : Option ℕ → ℕ
count_or_zero none = 0
count_or_zero (some n) = n

-- The parts of a word between its hyphens.
abbrev pub add_part : Piece → List (List Piece) → List (List Piece)
add_part p [] = (p ∷ []) ∷ []
add_part p (part ∷ parts) = (p ∷ part) ∷ parts

unfoldable pub split_parts : List Piece → List (List Piece)
split_parts [] = [] ∷ []
split_parts (p ∷ ps) =
    let rest = split_parts ps in if p.rune == b'-' then [] ∷ rest else add_part p rest

abbrev pub rune_of : List Piece → ℕ
rune_of [] = rune_error
rune_of (p ∷ ps) = p.rune

module _ (u : Unicode) (to_upper : Bytes → Bytes) where
  -- The offsets of the digits, of which each is a byte.
  unfoldable pub collect_digit_idx : ℕ → Bytes → List ℕ
  collect_digit_idx i [] = []
  collect_digit_idx i (c ∷ value) =
      let rest = collect_digit_idx (i + 1) value in if u.is_digit c then i ∷ rest else rest

  unfoldable pub keep_set : List ℕ → ℕ → ℕ → List ℕ
  keep_set digit_idx keep_head keep_tail =
      take keep_head digit_idx ++ take keep_tail (reverse digit_idx)

  -- The bytes from offset `i` on.
  unfoldable pub mask_digit_runs : ℕ → Bytes → List ℕ → Bytes → Bytes
  mask_digit_runs i [] keep char = []
  mask_digit_runs i (c ∷ value) keep char =
      (if u.is_digit c && not (has keep i) then char else c ∷ [])
      ++ mask_digit_runs (i + 1) value keep char

  unfoldable pub mask_digits : Bytes → ℕ → ℕ → Bytes → Bytes
  mask_digits value keep_head keep_tail char =
      let digit_idx = collect_digit_idx 0 value in
      let few = leb (length digit_idx) (keep_head + keep_tail + 1) in
      let keep = if few then keep_set digit_idx 0 0 else keep_set digit_idx keep_head keep_tail in
      if length digit_idx == 0 then value else mask_digit_runs 0 value keep char

  unfoldable pub mask_digits_by_rule : Bytes → PartialRule → Bytes
  unfolding mask_digits
  mask_digits_by_rule value r =
      mask_digits value (count_or_zero r.keep_head) (count_or_zero r.keep_tail) r.char

  -- A run of letters, and what follows it.
  unfoldable pub scan_letters : List Piece → List Piece × List Piece
  scan_letters [] = ([], [])
  scan_letters (p ∷ ps) =
      let (word, rest) = scan_letters ps in
      if u.is_letter p.rune then (p ∷ word, rest) else ([], p ∷ ps)

  unfoldable pub mask_word : Bytes → Bytes → Bytes
  mask_word word char =
      if any (bytes_eq (u.to_lower word)) service_words
      then word
      else if leb (rune_count word) 1
      then word
      else first_and word char

  -- The loop of `maskDate` and `maskWords`, which differ in what they write for a word.
  unfoldable pub mask_letters : (Bytes → Bytes) → Bytes → ℕ → List Piece → Bytes
  mask_letters write char zero ps = []
  mask_letters write char (suc fuel) [] = []
  mask_letters write char (suc fuel) (p ∷ ps) =
      let (word, rest) = scan_letters (p ∷ ps) in
      let next = mask_letters write char fuel ps in
      let behind = mask_letters write char fuel rest in
      if u.is_digit p.rune
      then char ++ next
      else if u.is_letter p.rune
      then write (raw_of word) ++ behind
      else encode p.rune ++ next

  unfoldable pub mask_date : Bytes → Bytes → Bytes
  unfolding mask_letters
  mask_date value char =
      let ps = pieces (length value) value in
      mask_letters (λ word. mask_date_word word char) char (length ps) ps

  unfoldable pub mask_words : Bytes → Bytes → Bytes
  unfolding mask_letters mask_word
  mask_words value char =
      let ps = pieces (length value) value in
      mask_letters (λ word. mask_word word char) char (length ps) ps

  abbrev pub starts_letter : List Piece → Bool
  starts_letter [] = false
  starts_letter (p ∷ ps) = u.is_letter p.rune

  -- A run of letters with single hyphens inside.
  unfoldable pub scan_letter_word : List Piece → List Piece × List Piece
  scan_letter_word [] = ([], [])
  scan_letter_word (p ∷ ps) =
      let (word, rest) = scan_letter_word ps in
      if u.is_letter p.rune || (p.rune == b'-' && starts_letter ps)
      then (p ∷ word, rest)
      else ([], p ∷ ps)

  -- The dot behind a word of one letter belongs to it.
  abbrev pub with_dot : List Piece → List Piece → List Piece × List Piece
  with_dot (w ∷ []) (p ∷ rest) = if p.rune == b'.' then (w ∷ p ∷ [], rest) else (w ∷ [], p ∷ rest)
  with_dot (w ∷ []) [] = (w ∷ [], [])
  with_dot [] rest = ([], rest)
  with_dot (w ∷ x ∷ word) rest = (w ∷ x ∷ word, rest)

  abbrev pub is_initial : List Piece → Bool
  is_initial (w ∷ p ∷ []) = u.is_letter w.rune && p.rune == b'.'
  is_initial [] = false
  is_initial (w ∷ []) = false
  is_initial (w ∷ p ∷ q ∷ word) = false

  abbrev pub write_parts : List (List Piece) → Bytes
  write_parts [] = []
  write_parts (part ∷ []) = to_upper (encode (rune_of part)) ++ b'.' ∷ []
  write_parts (part ∷ next ∷ parts) =
      to_upper (encode (rune_of part)) ++ (b'.' ∷ b'-' ∷ write_parts (next ∷ parts))

  unfoldable pub write_initial_word : List Piece → Bytes
  unfolding split_parts
  write_initial_word word = write_parts (split_parts word)

  -- A word as its initials, or as it is, if it is an initial.
  unfoldable pub write_initial : List Piece → Bytes
  unfolding write_initial_word
  write_initial word = if is_initial word then raw_of word else write_initial_word word

  unfoldable pub initials_from : ℕ → List Piece → Bytes
  unfolding write_initial
  initials_from zero ps = []
  initials_from (suc fuel) [] = []
  initials_from (suc fuel) (p ∷ ps) =
      let scanned = scan_letter_word (p ∷ ps) in
      let (word, rest) = with_dot scanned.0 scanned.1 in
      let next = initials_from fuel ps in
      let behind = initials_from fuel rest in
      if not (u.is_letter p.rune) then encode p.rune ++ next else write_initial word ++ behind

  unfoldable pub mask_initials : Bytes → Bytes
  unfolding initials_from
  mask_initials value = let ps = pieces (length value) value in initials_from (length ps) ps

  -- The value by its rule.
  unfoldable pub mask_by : PartialRule → Bytes → Bytes
  unfolding mask_initials mask_date mask_email mask_words mask_digits_by_rule
  mask_by r value =
      if bytes_eq r.mode (codes "initials")
      then mask_initials value
      else if bytes_eq r.mode (codes "date")
      then mask_date value r.char
      else if bytes_eq r.mode (codes "email")
      then mask_email value r.char
      else if bytes_eq r.mode (codes "words")
      then mask_words value r.char
      else mask_digits_by_rule value r

  abbrev pub partly_masked : PartialConfig → Bytes → Category → DocState → Bytes → Bytes × DocState
  partly_masked cfg value cat d [] =
      let out = mask_by (rule cfg cat) value in (out, remember d value out)
  partly_masked cfg value cat d (c ∷ m) = (c ∷ m, d)

  unfoldable pub new_partial : PartialConfig → Strategy
  unfolding with_defaults rule mask_by
  new_partial cfg = record {
    name = codes "partial";
    mask = λ value cat d. partly_masked (with_defaults cfg) value cat d (memo d value);
  }
