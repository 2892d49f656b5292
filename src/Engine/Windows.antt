-- ===== src/Engine/Windows.antt =====
-- internal/engine/chunk.go: a long text is split into overlapping detection windows. An index of -1 is
-- `none`. `runtime` and the goroutines only decide when the windows are run: the results are kept by
-- window, and joined in order.
pub mod Bounds
pub mod Cover
use alfa_hakaton.Common.{
  ℕ, zero, suc, ◌+◌, ◌-◌, ◌*◌, ◌==◌, Bool, ◌||◌, Bytes, List, [], ◌∷◌, ◌++◌, Option, none, some,
  length, slice, get_or, leb, ltb, if◌then◌else◌,
}
use alfa_hakaton.Common.Sort.{SortSlice}
use alfa_hakaton.Pii.Types.{Span}
use alfa_hakaton.Pii.Utf8.{rune_start}
use alfa_hakaton.Pii.Resolve.{resolve}
use alfa_hakaton.Pii.Pipeline.{Pipeline, run}

abbrev pub chunk_threshold : ℕ
chunk_threshold = 65536

abbrev pub chunk_size : ℕ
chunk_size = 32768

abbrev pub chunk_overlap : ℕ
chunk_overlap = 4096

pub record Window : Type 0 where
  pub start : ℕ
  pub end : ℕ

unfoldable pub is_boundary_byte : ℕ → Bool
is_boundary_byte b = b == b' ' || (b == 0x0A || (b == 0x09 || b == 0x0D))

-- The last boundary byte of text[lo:hi].
unfoldable pub index_last_boundary_byte : Bytes → ℕ → ℕ → Option ℕ
unfolding is_boundary_byte
index_last_boundary_byte text lo zero = none
index_last_boundary_byte text lo (suc i) =
    let earlier = index_last_boundary_byte text lo i in
    if ltb lo (suc i)
    then (if is_boundary_byte (get_or text i 0) then some i else earlier)
    else none

-- The first boundary byte among the `n` bytes from `lo` on.
unfoldable pub first_boundary_in : ℕ → Bytes → ℕ → Option ℕ
unfolding is_boundary_byte
first_boundary_in zero text i = none
first_boundary_in (suc n) text i =
    let later = first_boundary_in n text (i + 1) in
    if is_boundary_byte (get_or text i 0) then some i else later

unfoldable pub index_first_boundary_byte : Bytes → ℕ → ℕ → Option ℕ
unfolding first_boundary_in
index_first_boundary_byte text lo hi = first_boundary_in (hi - lo) text lo

-- Where the core that starts at `pos` is cut; `none` stands for the initial -1.
unfoldable pub cut_after : Bytes → ℕ → ℕ → Option ℕ
cut_after text pos target = elim (index_last_boundary_byte text pos target) [
  | some i ↦ some (i + 1)
  | none ↦ elim (index_first_boundary_byte text target (length text)) [
    | some i ↦ some (i + 1)
    | none ↦ none
  ]
]

-- The loop over `pos`, with a round for each unit of fuel: the cuts that it makes.
unfoldable pub cuts_from : ℕ → Bytes → ℕ → List ℕ
cuts_from zero text pos = []
cuts_from (suc fuel) text pos =
    if leb (length text) pos
    then []
    else if leb (length text) (pos + chunk_size)
    then []
    else elim (cut_after text pos (pos + chunk_size)) [
      | none ↦ []
      | some cut ↦ let rest = cuts_from fuel text cut in if leb cut pos then [] else cut ∷ rest
    ]

unfoldable pub core_boundaries : Bytes → List ℕ
core_boundaries text = 0 ∷ cuts_from (length text) text 0 ++ length text ∷ []

-- `for lo > 0 && !utf8.RuneStart(text[lo]) { lo-- }`.
unfoldable pub back_to_rune : Bytes → ℕ → ℕ
unfolding rune_start
back_to_rune text zero = 0
back_to_rune text (suc lo) =
    let earlier = back_to_rune text lo in
    if rune_start (get_or text (suc lo) 0) then suc lo else earlier

-- `for hi < len(text) && !utf8.RuneStart(text[hi]) { hi++ }`, with a round for each byte left.
unfoldable pub on_to_rune : ℕ → Bytes → ℕ → ℕ
unfolding rune_start
on_to_rune zero text hi = hi
on_to_rune (suc n) text hi =
    let later = on_to_rune n text (hi + 1) in if rune_start (get_or text hi 0) then hi else later

unfoldable pub extend_before : Bytes → ℕ → ℕ → ℕ
extend_before text pos n =
    if ltb pos n then 0 else elim (index_last_boundary_byte text 0 (pos - n + 1)) [
      | some i ↦ i + 1
      | none ↦ back_to_rune text (pos - n)
    ]

unfoldable pub extend_after : Bytes → ℕ → ℕ → ℕ
extend_after text pos n =
    if ltb (length text) (pos + n)
    then length text
    else elim (index_first_boundary_byte text (pos + n) (length text)) [
      | some i ↦ i
      | none ↦ on_to_rune (length text - (pos + n)) text (pos + n)
    ]

-- A window for each two neighbouring bounds.
unfoldable pub windows_of : Bytes → List ℕ → List Window
windows_of text [] = []
windows_of text (a ∷ []) = []
windows_of text (a ∷ b ∷ bounds) =
    record { start = extend_before text a chunk_overlap; end = extend_after text b chunk_overlap }
    ∷ windows_of text (b ∷ bounds)

unfoldable pub windows : Bytes → List Window
windows text =
    if leb (length text) (chunk_size + 2 * chunk_overlap)
    then record { start = 0; end = length text } ∷ []
    else windows_of text (core_boundaries text)

-- Offsets in a window become offsets in the text.
unfoldable pub shift : ℕ → List Span → List Span
shift n [] = []
shift n (s ∷ spans) = record s { start = s.start + n; end = s.end + n } ∷ shift n spans

unfoldable pub merge : SortSlice → Pipeline → Bytes → List Window → List Span
unfolding shift
merge sort p text [] = []
merge sort p text (w ∷ ws) =
    shift w.start (run sort p (slice text w.start w.end)) ++ merge sort p text ws

abbrev detect_in : SortSlice → Pipeline → Bytes → List Window → List Span
unfolding merge
detect_in sort p text (w ∷ []) = run sort p text
detect_in sort p text ws = resolve sort (merge sort p text ws)

unfoldable pub detect_windowed : SortSlice → Pipeline → Bytes → List Span
unfolding detect_in
detect_windowed sort p text = detect_in sort p text (windows text)
