-- ===== src/Pii/Types.antt =====
-- internal/pii/types.go. A category is its string. A span's offsets are byte offsets into the text,
-- so they are natural numbers. Of a confidence the code only compares values: it is kept as a number
-- of ten-thousandths.
use alfa_hakaton.Common.{ℕ, ◌==◌, Bool, Bytes, codes, ltb, if◌then◌else◌}

abbrev pub Category : Type 0
Category = Bytes

abbrev pub cat_full_name : Category
cat_full_name = codes "full_name"

abbrev pub cat_birth_date : Category
cat_birth_date = codes "birth_date"

abbrev pub cat_passport_issuer : Category
cat_passport_issuer = codes "passport_issuer"

abbrev pub cat_passport_date : Category
cat_passport_date = codes "passport_date"

abbrev pub cat_email : Category
cat_email = codes "email"

abbrev pub cat_phone : Category
cat_phone = codes "phone"

abbrev pub cat_card_number : Category
cat_card_number = codes "card_number"

abbrev pub cat_pin : Category
cat_pin = codes "pin"

abbrev pub cat_date : Category
cat_date = codes "date"

pub record Span : Type 0 where
  pub start : ℕ
  pub end : ℕ
  pub category : Category
  pub detector : Bytes
  pub confidence : ℕ

-- The order of both sorts of spans: by start, the longer one first where starts are equal.
unfoldable pub span_less : Span → Span → Bool
span_less a b = if a.start == b.start then ltb b.end a.end else ltb a.start b.start
