-- ===== src/Mask/Token.antt =====
-- internal/mask/token.go: a value becomes `[CATEGORY_N]`. Categories are ASCII, so `strings.ToUpper` is
-- that of ASCII letters.
pub mod Laws
use alfa_hakaton.Common.{
  ℕ, zero, suc, ◌+◌, ◌-◌, ◌/◌, ◌%◌, ◌&&◌, Bytes, bytes_eq, codes, List, [], ◌∷◌, ◌++◌, map, ltb,
  leb, if◌then◌else◌,
}
use alfa_hakaton.Pii.Types.{Category}
use alfa_hakaton.Mask.Doc.{DocState, Strategy, memo, remember, next}

-- `%d`: the digits of `n` before `out`, with a round for each unit of fuel.
unfoldable pub digits_before : ℕ → ℕ → Bytes → Bytes
digits_before zero n out = out
digits_before (suc fuel) n out =
    let rest = digits_before fuel (n / 10) ((b'0' + n % 10) ∷ out) in
    if ltb n 10 then (b'0' + n) ∷ out else rest

unfoldable pub decimal : ℕ → Bytes
unfolding digits_before
decimal n = digits_before (n + 1) n []

abbrev pub to_upper : ℕ → ℕ
to_upper c = if leb b'a' c && leb c b'z' then c - 32 else c

-- `fmt.Sprintf("[%s_%d]", …)`.
unfoldable pub token : Category → ℕ → Bytes
unfolding decimal
token cat n = b'[' ∷ map to_upper cat ++ b'_' ∷ decimal n ++ b']' ∷ []

-- A value that has a replacement keeps it; another takes the next number of its category.
abbrev pub numbered : Bytes → Category → DocState → Bytes → Bytes × DocState
numbered value cat d [] = let (n, d') = next d cat in (token cat n, remember d' value (token cat n))
numbered value cat d (c ∷ m) = (c ∷ m, d)

unfoldable pub mask_token : Bytes → Category → DocState → Bytes × DocState
unfolding memo
mask_token value cat d = numbered value cat d (memo d value)

unfoldable pub new_token : Strategy
new_token = record { name = codes "token"; mask = mask_token }
