-- ===== src/Pii/Utf8.antt =====
-- The parts of Go's `unicode/utf8` and `strings` that the pipeline calls, over bytes.
use alfa_hakaton.Common.{
  ℕ, zero, suc, ◌+◌, ◌-◌, ◌*◌, ◌%◌, ◌==◌, Bool, ◌&&◌, ◌||◌, Bytes, [], ◌∷◌, length, drop, get_or,
  leb, ltb, if◌then◌else◌,
}

abbrev pub rune_error : ℕ
rune_error = 0xFFFD

abbrev pub between : ℕ → ℕ → ℕ → Bool
between lo hi c = leb lo c && leb c hi

-- A rune, and the number of bytes that it takes.
abbrev pub two : ℕ → Bytes → ℕ × ℕ
two c (d ∷ s) = if between 0x80 0xBF d then ((c % 32) * 64 + d % 64, 2) else (rune_error, 1)
two c [] = (rune_error, 1)

abbrev pub three : ℕ → ℕ → ℕ → Bytes → ℕ × ℕ
three lo hi c (d ∷ e ∷ s) =
    if between lo hi d && between 0x80 0xBF e
    then ((c % 16) * 4096 + (d % 64) * 64 + e % 64, 3)
    else (rune_error, 1)
three lo hi c _ = (rune_error, 1)

abbrev pub four : ℕ → ℕ → ℕ → Bytes → ℕ × ℕ
four lo hi c (d ∷ e ∷ f ∷ s) =
    if between lo hi d && (between 0x80 0xBF e && between 0x80 0xBF f)
    then ((c % 8) * 262144 + (d % 64) * 4096 + (e % 64) * 64 + f % 64, 4)
    else (rune_error, 1)
four lo hi c _ = (rune_error, 1)

-- `utf8.DecodeRuneInString`.
unfoldable pub decode_rune : Bytes → ℕ × ℕ
decode_rune [] = (rune_error, 0)
decode_rune (c ∷ s) =
    if ltb c 0x80
    then (c, 1)
    else if between 0xC2 0xDF c
    then two c s
    else if c == 0xE0
    then three 0xA0 0xBF c s
    else if c == 0xED
    then three 0x80 0x9F c s
    else if between 0xE1 0xEF c
    then three 0x80 0xBF c s
    else if c == 0xF0
    then four 0x90 0xBF c s
    else if between 0xF1 0xF3 c
    then four 0x80 0xBF c s
    else if c == 0xF4
    then four 0x80 0x8F c s
    else (rune_error, 1)

-- `utf8.RuneStart`.
unfoldable pub rune_start : ℕ → Bool
rune_start b = ltb b 0x80 || leb 0xC0 b

-- The start of the last rune: back over at most `n` bytes that do not start one.
unfoldable pub back_to_start : ℕ → Bytes → ℕ → ℕ
unfolding rune_start
back_to_start zero s i = i
back_to_start (suc n) s zero = 0
back_to_start (suc n) s (suc i) =
    let earlier = back_to_start n s i in if rune_start (get_or s (suc i) 0) then suc i else earlier

-- `utf8.DecodeLastRuneInString`.
unfoldable pub decode_last_rune : Bytes → ℕ × ℕ
unfolding back_to_start decode_rune
decode_last_rune [] = (rune_error, 0)
decode_last_rune (c ∷ s) =
    let n = length (c ∷ s) in
    let start = back_to_start 3 (c ∷ s) (n - 1) in
    let found = decode_rune (drop start (c ∷ s)) in
    if start + found.1 == n then found else (rune_error, 1)
