-- ===== src/Detectors/Tokens/Order.antt =====
-- Where the tokens of a text stand.
use alfa_hakaton.Common.{
  ℕ, zero, suc, ◌+◌, ◌≤◌, ◌<◌, ◌≡◌, refl, ap, Bool, true, false, Bool-cases, inl, inr, Bytes, List,
  [], ◌∷◌, length, drop, length-drop, ltb, ltb→lt, lt→ltb, le→ltb_false, slice, ◌&&◌, ◌==◌, get_or,
  if◌then◌else◌, arith,
}
use alfa_hakaton.Pii.Utf8.{decode_rune, two, three, four}
use alfa_hakaton.Mask.Full.Laws.{decode_rune_size}
use alfa_hakaton.Detectors.Runes.{is_letter}
use alfa_hakaton.Detectors.Tokens.{
  Token, word_step, consume_word, token_end, tokenize_from, tokenize,
}

-- Elements with places: none is empty, none starts before the end of the one before, the first starts at
-- `lo` or later, and the last ends at `n` at most.
abbrev pub InOrder {ℓ} : {A : Type ℓ} → (A → ℕ × ℕ) → ℕ → ℕ → List A → Type 0
InOrder at n lo [] = Unit
InOrder at n lo (x ∷ xs) =
    (lo ≤ (at x).0) × (((at x).0 < (at x).1) × (((at x).1 ≤ n) × InOrder at n (at x).1 xs))

pub InOrder-earlier {ℓ} :
    {A : Type ℓ} (at : A → ℕ × ℕ) (n lo hi : ℕ) (xs : List A)
    → lo ≤ hi
    → InOrder at n hi xs
    → InOrder at n lo xs
InOrder-earlier at n lo hi [] h k = tt
InOrder-earlier at n lo hi (x ∷ xs) h k = (omega (arith, k.0), k.1)

abbrev pub token_at : Token → ℕ × ℕ
token_at t = (t.start, t.end)

nonempty_size : (s : Bytes) → 0 < length s → 0 < (decode_rune s).1
nonempty_size [] h = elim h [ ]
nonempty_size (c ∷ s) h = decode_rune_size c s

-- Inside a text a rune takes at least one byte.
size_inside : (text : Bytes) (i : ℕ) → i < length text → 0 < (decode_rune (drop i text)).1
size_inside text i h = nonempty_size (drop i text) (omega (arith, length-drop i text))

two_fits : (c : ℕ) (s : Bytes) → (two c s).1 ≤ suc (length s)
two_fits c [] = omega arith
two_fits c (d ∷ s) = ground arith

three_fits : (lo hi c : ℕ) (s : Bytes) → (three lo hi c s).1 ≤ suc (length s)
three_fits lo hi c [] = omega arith
three_fits lo hi c (d ∷ []) = omega arith
three_fits lo hi c (d ∷ e ∷ s) = ground arith

four_fits : (lo hi c : ℕ) (s : Bytes) → (four lo hi c s).1 ≤ suc (length s)
four_fits lo hi c [] = omega arith
four_fits lo hi c (d ∷ []) = omega arith
four_fits lo hi c (d ∷ e ∷ []) = omega arith
four_fits lo hi c (d ∷ e ∷ f ∷ s) = ground arith

-- A rune takes no more bytes than there are.
decode_rune_fits : (s : Bytes) → (decode_rune s).1 ≤ length s
unfolding decode_rune
decode_rune_fits [] = omega arith
decode_rune_fits (c ∷ s) = ground (
  arith,
  two_fits c s,
  three_fits 0xA0 0xBF c s,
  three_fits 0x80 0x9F c s,
  three_fits 0x80 0xBF c s,
  four_fits 0x90 0xBF c s,
  four_fits 0x80 0xBF c s,
  four_fits 0x80 0x8F c s,
)

size_fits :
    (text : Bytes) (i : ℕ) → i ≤ length text → i + (decode_rune (drop i text)).1 ≤ length text
size_fits text i h = omega (arith, decode_rune_fits (drop i text), length-drop i text)

step_fits :
    (b c : Bool) (size i n : ℕ)
    → i ≤ n
    → i + size ≤ n
    → i + (if◌then◌else◌ {A = ℕ × ℕ} b (size, 1) (if c then (size, 0) else (0, 0))).0 ≤ n
step_fits true c size i n h k = k
step_fits false true size i n h k = k
step_fits false false size i n h k = omega arith

word_step_fits : (text : Bytes) (i : ℕ) → i ≤ length text → i + (word_step text i).0 ≤ length text
unfolding word_step
word_step_fits text i h =
    step_fits _ _ (decode_rune (drop i text)).1 i (length text) h (size_fits text i h)

word_step_letter :
    (text : Bytes) (i : ℕ)
    → is_letter (decode_rune (drop i text)).0 ≡ true
    → (word_step text i).0 ≡ (decode_rune (drop i text)).1
unfolding word_step
word_step_letter text i e = rw e refl

-- From `i` on, and not beyond `n`.
abbrev Within : ℕ → ℕ → ℕ → Type 0
Within i n j = (i ≤ j) × (j ≤ n)

walk_inside :
    (b : Bool) (rest : ℕ × ℕ) (i k n : ℕ)
    → i ≤ n
    → Within i n rest.0
    → Within i n (if b then rest else (i, k)).0
walk_inside true rest i k n h w = w
walk_inside false rest i k n h w = (omega arith, h)

consume_word-Within :
    (f : ℕ) (text : Bytes) (i k : ℕ)
    → i ≤ length text
    → Within i (length text) (consume_word f text i k).0
unfolding consume_word
consume_word-Within zero text i k h = (omega arith, h)
consume_word-Within (suc f) text i k h =
    let step = word_step text i in
    let later = consume_word-Within f text (i + step.0) (k + step.1) (word_step_fits text i h) in
    walk_inside _ (consume_word f text (i + step.0) (k + step.1)) i k (length text) h
      (omega (arith, later.0), later.1)

consume_word_moves :
    (f : ℕ) (text : Bytes) (i k : ℕ)
    → 0 < f
    → i < length text
    → is_letter (decode_rune (drop i text)).0 ≡ true
    → i < (consume_word f text i k).0
unfolding consume_word
consume_word_moves zero text i k p h e = elim p [ ]
consume_word_moves (suc f) text i k p h e =
    let step = word_step text i in
    let moved : 0 < step.0 = omega (arith, word_step_letter text i e, size_inside text i h) in
    let later =
      consume_word-Within f text (i + step.0) (k + step.1) (word_step_fits text i (omega arith)) in
    rw (lt→ltb i (length text) h, lt→ltb 0 step.0 moved) (omega (arith, later.0, moved))

dot_inside :
    (b d : Bool) (end n : ℕ)
    → end ≤ n
    → Within end n (if b && (ltb end n && d) then suc end else end)
dot_inside false d end n h = (omega arith, h)
dot_inside true d end n h = elim (Bool-cases (ltb end n)) [
  | inl e ↦ rw e (dotted d (ltb→lt end n e))
  | inr e ↦ rw e (omega arith, h)
]
  where
    dotted : (d : Bool) → end < n → Within end n (if d then suc end else end)
    dotted true k = (omega arith, k)
    dotted false k = (omega arith, omega arith)

-- A token has a first letter and lies in the text.
pub token_end_bounds :
    (text : Bytes) (i : ℕ)
    → i < length text
    → is_letter (decode_rune (drop i text)).0 ≡ true
    → (i < token_end text i) × (token_end text i ≤ length text)
unfolding token_end
token_end_bounds text i h e =
    let word = consume_word (length text) text i 0 in
    let moved = consume_word_moves (length text) text i 0 (omega arith) h e in
    let bounds = consume_word-Within (length text) text i 0 (omega arith) in
    let dotted =
      dot_inside (word.1 == 1) (get_or text word.0 0 == b'.') word.0 (length text) bounds.1 in
    (omega (arith, moved, dotted.0), dotted.1)

module _ (text : Bytes) where
  -- The tokens from `i` on are in order.
  tokenize_from-InOrder :
      (f i : ℕ) → i ≤ length text → InOrder token_at (length text) i (tokenize_from f text i)
  unfolding tokenize_from
  tokenize_from-InOrder zero i h = tt
  tokenize_from-InOrder (suc f) i h = elim (Bool-cases (ltb i (length text))) [
    | inr e ↦ rw e tt
    | inl e ↦ elim (Bool-cases (is_letter (decode_rune (drop i text)).0)) [
      | inl letter ↦
          let bounds = token_end_bounds text i (ltb→lt i (length text) e) letter in
          rw (e, letter)
            (
              omega arith,
              (bounds.0, (bounds.1, tokenize_from-InOrder f (token_end text i) bounds.1)),
            )
      | inr other ↦
          let next = i + (decode_rune (drop i text)).1 in
          let fits = size_fits text i h in
          rw (e, other)
            (InOrder-earlier token_at (length text) i next (tokenize_from f text next) (omega arith)
              (tokenize_from-InOrder f next fits))
    ]
  ]

  -- With a round for each byte the loop ends at the end of the text: more fuel changes nothing.
  tokenize_from_fuel :
      (f g i : ℕ)
      → length text ≤ f + i
      → length text ≤ g + i
      → tokenize_from f text i ≡ tokenize_from g text i
  unfolding tokenize_from
  tokenize_from_fuel zero zero i h k = refl
  tokenize_from_fuel zero (suc g) i h k = rw (le→ltb_false (length text) i (omega arith)) refl
  tokenize_from_fuel (suc f) zero i h k = rw (le→ltb_false (length text) i (omega arith)) refl
  tokenize_from_fuel (suc f) (suc g) i h k = elim (Bool-cases (ltb i (length text))) [
    | inr e ↦ rw e refl
    | inl e ↦ elim (Bool-cases (is_letter (decode_rune (drop i text)).0)) [
      | inl letter ↦
          let end = token_end text i in
          let bounds = token_end_bounds text i (ltb→lt i (length text) e) letter in
          rw (e, letter)
            (ap (λ ts. record { start = i; end = end; text = slice text i end } ∷ ts)
              (tokenize_from_fuel f g end (omega (arith, bounds.0)) (omega (arith, bounds.0))))
      | inr other ↦
          let size = (decode_rune (drop i text)).1 in
          let moved = size_inside text i (ltb→lt i (length text) e) in
          rw (e, other)
            (tokenize_from_fuel f g (i + size) (omega (arith, moved)) (omega (arith, moved)))
    ]
  ]

pub tokenize-InOrder : (text : Bytes) → InOrder token_at (length text) 0 (tokenize text)
unfolding tokenize
tokenize-InOrder text = tokenize_from-InOrder text (length text) 0 (omega arith)
