-- ===== src/Mask/RoundTrip.antt =====
-- `Restore` after `Apply`: the whole text comes back.
mod Invariant
mod Emit
use native.Mathlib.Nat.{ℕ_set}
use alfa_hakaton.Common.{
  tests, ℕ, ◌+◌, ◌-◌, ◌≤◌, ◌<◌, ◌≡◌, refl, sym, ap, ◌∙◌, subst, Bool, true, false, not, ◌&&◌, ◌||◌,
  Bool-cases, Bytes, bytes_eq_refl, List, [], ◌∷◌, ◌++◌, map, foldl, append-nil, append_assoc,
  length, length-append, length-slice, take, drop, slice, slice_middle, slice_to_end,
  take-append-drop, take-append, drop-append, drop-drop, drop-length, take-length, take-slice,
  foldl-snoc, All, All-append, any, ltb, leb, if◌then◌else◌, Option, none, some, inl, inr, arith,
}
use alfa_hakaton.Common.Int.{pos, pos_part, neg_part}
use alfa_hakaton.Common.Sort.{SortSlice, StrictWeak, IsAscending, sort_ascending}
use alfa_hakaton.Pii.Types.{Span, span_less, Category}
use alfa_hakaton.Mask.Doc.{DocState, Strategy, Replacement}
use alfa_hakaton.Mask.Apply.{Masking, emit, apply_step, finish, start_masking, apply, or_new}
use alfa_hakaton.Mask.Restore.{
  Claim, claim_of, overlaps_any, in_bounds, Located, locate_step, Splicing, splice_step, rep_less,
  claim_less, locate, search_all, splice, restore,
}
pub use Invariant.{IsVisible}
use Invariant.{claims-IsAscending, Inv, start-Inv}
use Emit.{emit-Inv}

module _ (text : Bytes) (s : Strategy) (visible : IsVisible s) where
  apply_step-Inv : (m : Masking) (sp : Span) → Inv text m → Inv text (apply_step text s m sp)
  unfolding apply_step
  apply_step-Inv m sp inv = elim (Bool-cases (ltb sp.start m.at)) [
    | inl e ↦ rw e inv
    | inr e ↦
        elim (Bool-cases
          (ltb (length text) sp.start || (ltb (length text) sp.end || leb sp.end sp.start))) [
            | inl f ↦ rw (e, f) inv
            | inr f ↦
                let value = slice text sp.start sp.end in
                let legal : sp.start < sp.end = ground arith in
                let inside : sp.end ≤ length text = ground arith in
                rw (e, f)
                  (emit-Inv text sp m (s.mask value sp.category m.doc).0
                    (s.mask value sp.category m.doc).1 inv (ground arith) legal inside
                    (visible value sp.category m.doc
                      (omega (arith, length-slice text sp.start sp.end))))
          ]
  ]

  fold-Inv :
      (sps : List Span) (m : Masking) → Inv text m → Inv text (foldl (apply_step text s) m sps)
  fold-Inv [] m inv = inv
  fold-Inv (sp ∷ sps) m inv = fold-Inv sps (apply_step text s m sp) (apply_step-Inv m sp inv)

rep_less-StrictWeak : StrictWeak rep_less
unfolding rep_less
rep_less-StrictWeak = record { asym = λ a b h. ground arith; neg_trans = λ a b c h k. ground arith }

claim_less-StrictWeak : StrictWeak claim_less
unfolding claim_less
claim_less-StrictWeak = record {
  asym = λ a b h. ground arith;
  neg_trans = λ a b c h k. ground arith;
}

Replacement-set : IsSet Replacement
Replacement-set = hlevel ℕ_set

Claim-set : IsSet Claim
Claim-set = hlevel ℕ_set

-- What `finish` makes of a state that satisfies the invariant is restored to the whole text.
restore-finish :
    (sort : SortSlice) (text : Bytes) (m : Masking)
    → Inv text m
    → restore sort (finish text m).text (finish text m).replacements ≡ (text, 0)
unfolding restore finish search_all
restore-finish sort text m inv =
    let masked = m.out ++ drop m.at text in
    let claims = map claim_of m.reps in
    let p = splice masked 0 claims in
    let (fits, same, none_missed) = inv.spliced (drop m.at text) in
    let found : search_all masked (locate masked (sort.sort Replacement rep_less m.reps))
        ≡ record { claims = claims; misses = 0 } =
      ap (λ l. search_all masked (locate masked l))
        (sort_ascending sort Replacement-set rep_less rep_less-StrictWeak m.reps inv.ascends)
      ∙ ap (search_all masked) (inv.placed (drop m.at text)) in
    let sorted =
      sort_ascending sort Claim-set claim_less claim_less-StrictWeak claims
        (claims-IsAscending (length m.out) m.reps inv.fits inv.ascends) in
    rw (found, sorted) (λ i. (joined masked p fits same i, none_missed i))
  where
    joined :
        (masked : Bytes) (p : Splicing)
        → p.at ≤ length m.out
        → p.out ++ drop p.at m.out ≡ take m.at text
        → p.out ++ drop p.at (m.out ++ drop m.at text) ≡ text
    joined masked p fits same =
        ap (λ z. p.out ++ z) (drop-append p.at m.out (drop m.at text) fits)
        ∙ sym (append_assoc p.out (drop p.at m.out) (drop m.at text))
        ∙ ap (λ z. z ++ drop m.at text) same
        ∙ take-append-drop m.at text

-- Masking, and then restoring the masked text with what was recorded, gives the original text back
-- and misses nothing: for every text, every list of spans (unsorted, overlapping or out of range),
-- every document state, every sort, and every strategy that replaces no value by the empty string.
pub restore-apply :
    (sort : SortSlice) (text : Bytes) (spans : List Span) (s : Strategy) (doc : Option DocState)
    → IsVisible s
    → let masked = apply sort text spans s doc in
      restore sort masked.text masked.replacements ≡ (text, 0)
unfolding apply
restore-apply sort text spans s doc visible =
    restore-finish sort text _
      (fold-Inv text s visible (sort.sort Span span_less spans) _ (start-Inv text (or_new doc)))
