-- ===== src/Detectors/Digits.antt =====
-- internal/pii/detectors/validators.go: the digits of a match, and the validators that look at their
-- number and first digits.
use alfa_hakaton.Common.{
  ℕ, ◌==◌, Bool, false, not, ◌&&◌, ◌||◌, Bytes, bytes_eq, codes, [], ◌∷◌, length, take, drop, slice,
  get_or, leb, if◌then◌else◌,
}

-- `\d`.
abbrev pub is_digit : ℕ → Bool
is_digit c = leb b'0' c && leb c b'9'

-- What is left of a match without `[^\d]`.
unfoldable pub digits : Bytes → Bytes
digits [] = []
digits (c ∷ s) = if is_digit c then c ∷ digits s else digits s

abbrev pub toll_free_prefix : Bytes
toll_free_prefix = codes "800"

-- 8 800 and seven more digits.
abbrev is_toll_free : Bytes → Bool
is_toll_free d = length d == 11 && (get_or d 0 0 == b'8' && bytes_eq (slice d 1 4) toll_free_prefix)

unfoldable pub not_toll_free : Bytes → Bool
unfolding digits
not_toll_free match = not (is_toll_free (digits match))

unfoldable pub phone_digits : Bytes → Bool
phone_digits d =
    if not (length d == 11)
    then false
    else if get_or d 0 0 == b'8' && bytes_eq (slice d 1 4) toll_free_prefix
    then false
    else get_or d 0 0 == b'7' || get_or d 0 0 == b'8'

unfoldable pub phone : Bytes → Bool
unfolding digits phone_digits
phone match = phone_digits (digits match)

unfoldable pub phone10_digits : Bytes → Bool
phone10_digits d =
    if not (length d == 10) then false else not (bytes_eq (take 3 d) toll_free_prefix)

unfoldable pub phone10 : Bytes → Bool
unfolding digits phone10_digits
phone10 match = phone10_digits (digits match)

unfoldable pub phone_e164 : Bytes → Bool
unfolding digits
phone_e164 match = leb 10 (length (digits match)) && leb (length (digits match)) 15

abbrev passport_digits : Bytes → Bool
passport_digits d =
    if not (length d == 10)
    then false
    else not (bytes_eq (take 4 d) (codes "0000")) && not (bytes_eq (drop 4 d) (codes "000000"))

unfoldable pub passport : Bytes → Bool
unfolding digits
passport match = passport_digits (digits match)
