-- ===== src/Tests/Spans.antt =====
-- Detection: the spans that are kept, the windows, and the validators.
use mathlib.Core.List.{Mem, mem-cons_self, mem-cons_of_mem}
use alfa_hakaton.Common.{
  Bytes, ℕ, ◌≡◌, ◌↔◌, refl, inl, inr, arith, codes, List, [], ◌∷◌, ◌++◌, All, true, false, length,
  Bool, bytes_eq,
}
use alfa_hakaton.Pii.Types.{Category, cat_card_number, cat_date, cat_pin}
use alfa_hakaton.Pii.Resolve.{resolve}
use alfa_hakaton.Pii.Resolve.Laws.{IsRange, IsDisjoint, resolve-IsDisjoint}
use alfa_hakaton.Pii.Resolve.Winner.{GivesWay, resolve_keeps_winner}
use alfa_hakaton.Pii.Pipeline.{run, detect_all}
use alfa_hakaton.Pii.Pipeline.Laws.{run-IsDisjoint}
use alfa_hakaton.Engine.Filter.{ComboRule, filter_spans}
use alfa_hakaton.Engine.Filter.Laws.{filter_spans-IsDisjoint}
use alfa_hakaton.Engine.Windows.{Window, windows, core_boundaries, cuts_from}
use alfa_hakaton.Engine.Windows.Cover.{Reaches, windows-Reaches}
use alfa_hakaton.Engine.Windows.Bounds.{IsChain, core_boundaries-IsChain, cuts_from_fuel}
use alfa_hakaton.Detectors.Luhn.{luhn_digits, luhn_sum, luhn_term, luhn_detects_change}
use alfa_hakaton.Detectors.Dates.{valid_ymd, IsDate, valid_ymd_iff}
use alfa_hakaton.Tests.Data.{
  sort, bob, bob_span, wide_span, late_span, spans, pipeline, words, length-words,
}

spans-IsRange : All IsRange spans
spans-IsRange = (omega arith, (omega arith, (omega arith, tt)))

resolve-IsDisjoint_example : IsDisjoint (resolve sort spans)
resolve-IsDisjoint_example = resolve-IsDisjoint sort spans spans-IsRange

bob-GivesWay : All (GivesWay bob_span) spans
bob-GivesWay = (inr (inl (inr (omega arith))), (inr (inr (inl (omega arith))), (inl refl, tt)))

resolve_keeps_winner_example : Mem bob_span (resolve sort spans)
resolve_keeps_winner_example =
    resolve_keeps_winner sort spans bob_span spans-IsRange bob-GivesWay
      (mem-cons_of_mem late_span (mem-cons_of_mem wide_span mem-cons_self))

run-IsDisjoint_example : IsDisjoint (run sort pipeline bob)
unfolding detect_all bytes_eq
run-IsDisjoint_example = run-IsDisjoint sort pipeline bob (omega arith, tt)

abbrev pin_rules : List ComboRule
pin_rules = record { category = cat_pin; requires_any = cat_card_number ∷ [] } ∷ []

abbrev card_only : Category → Bool
card_only c = bytes_eq c cat_card_number

filter_spans-IsDisjoint_example :
    IsDisjoint (filter_spans (bob_span ∷ late_span ∷ []) (cat_date ∷ []) pin_rules)
filter_spans-IsDisjoint_example =
    filter_spans-IsDisjoint (bob_span ∷ late_span ∷ []) (cat_date ∷ []) pin_rules
      ((omega arith, tt), (tt, tt))

-- A text that is longer than one window.
abbrev long : Bytes
long = words 40000

windows-Reaches_example : (w : Window) × Mem w (windows long) × Reaches long 32768 w
windows-Reaches_example = windows-Reaches long 32768 (omega (arith, length-words 40000))

core_boundaries-IsChain_example :
    (cuts : List ℕ) × (core_boundaries long ≡ 0 ∷ cuts ++ length long ∷ []) × IsChain long 0 cuts
core_boundaries-IsChain_example = core_boundaries-IsChain long

cuts_from_fuel_example : cuts_from 7 bob 0 ≡ cuts_from 9 bob 0
cuts_from_fuel_example = cuts_from_fuel 7 9 bob 0 (omega arith) (omega arith)

-- The number 4111 1111 1111 1111 with its last digit changed.
luhn_detects_change_example : luhn_digits (codes "4111111111111112") ≡ false
unfolding luhn_digits luhn_sum luhn_term
luhn_detects_change_example =
    luhn_detects_change (codes "411111111111111") [] b'1' b'2' (omega arith) (omega arith)
      (omega arith) (omega arith) (λ e. omega (arith, e)) refl

valid_ymd_iff_example : (valid_ymd 2000 2 29 ≡ true) ↔ IsDate 2000 2 29
valid_ymd_iff_example = valid_ymd_iff 2000 2 29
