-- ===== src/Mask/Restore.antt =====
-- `Restore` of internal/mask/mask.go. Each loop is a fold over its variables. A recorded offset may be
-- any integer; a claim holds offsets that `in_bounds` has passed.
use alfa_hakaton.Common.{
  ℕ, zero, suc, ◌+◌, Bool, not, ◌&&◌, Bytes, bytes_eq, List, [], ◌∷◌, ◌++◌, foldl, length, drop,
  slice, any, ltb, if◌then◌else◌, Option, none, some,
}
use alfa_hakaton.Common.Find.{index}
use alfa_hakaton.Common.Int.{ℤ, pos, pos_part, ltb_ℤ}
use alfa_hakaton.Common.Sort.{SortSlice}
use alfa_hakaton.Mask.Doc.{Replacement}

pub record Claim : Type 0 where
  pub start : ℕ
  pub end : ℕ
  pub original : Bytes

abbrev pub in_bounds : Bytes → ℤ → ℤ → Bool
in_bounds masked start end =
    not (ltb_ℤ start (pos 0)) && (not (ltb_ℤ end start) && not (ltb_ℤ (pos (length masked)) end))

abbrev pub overlaps_any : List Claim → ℕ → ℕ → Bool
overlaps_any claims start end = any (λ c. ltb start c.end && ltb c.start end) claims

-- The search loop, a round for each unit of fuel.
unfoldable pub find_from : Bytes → Bytes → List Claim → ℕ → ℕ → Option (ℕ × ℕ)
unfolding index
find_from masked token claims zero search_from = none
find_from masked token claims (suc fuel) search_from =
    if ltb (length masked) search_from then none else elim (index (drop search_from masked) token) [
      | none ↦ none
      | some idx ↦
          let start = search_from + idx in
          let end = start + length token in
          let rest = find_from masked token claims fuel (start + 1) in
          if overlaps_any claims start end then rest else some (start, end)
    ]

-- A search starts at most `length masked + 1` rounds.
unfoldable pub find_unclaimed : Bytes → Bytes → List Claim → Option (ℕ × ℕ)
unfolding find_from
find_unclaimed masked [] claims = none
find_unclaimed masked (c ∷ token) claims = find_from masked (c ∷ token) claims (length masked + 1) 0

pub record Located : Type 0 where
  pub claims : List Claim
  pub unresolved : List Replacement

abbrev pub claim_of : Replacement → Claim
claim_of r = record { start = pos_part r.start; end = pos_part r.end; original = r.original }

-- Phase 1: a recorded position is trusted when it is in bounds, matches and is free.
unfoldable pub locate_step : Bytes → Located → Replacement → Located
locate_step masked l r =
    if in_bounds masked r.start r.end
      && (bytes_eq (slice masked (pos_part r.start) (pos_part r.end)) r.masked
          && not (overlaps_any l.claims (pos_part r.start) (pos_part r.end)))
    then record l { claims = l.claims ++ claim_of r ∷ [] }
    else record l { unresolved = l.unresolved ++ r ∷ [] }

pub record Searched : Type 0 where
  pub claims : List Claim
  pub misses : ℕ

-- Phase 2: the others are searched for in the whole text.
unfoldable pub search_step : Bytes → Searched → Replacement → Searched
unfolding find_unclaimed
search_step masked s r = elim (find_unclaimed masked r.masked s.claims) [
  | none ↦ record s { misses = s.misses + 1 }
  | some (a, b) ↦ record s {
    claims = s.claims ++ (record { start = a; end = b; original = r.original }) ∷ [];
  }
]

pub record Splicing : Type 0 where
  pub at : ℕ
  pub out : Bytes
  pub misses : ℕ

-- The output is built in the order of the claims in the masked text.
unfoldable pub splice_step : Bytes → Splicing → Claim → Splicing
splice_step masked p c =
    if ltb c.start p.at
    then record p { misses = p.misses + 1 }
    else if not (in_bounds masked (pos c.start) (pos c.end))
    then record p { misses = p.misses + 1 }
    else record {
      at = c.end;
      out = (p.out ++ slice masked p.at c.start) ++ c.original;
      misses = p.misses;
    }

unfoldable pub rep_less : Replacement → Replacement → Bool
rep_less a b = ltb_ℤ a.start b.start

unfoldable pub claim_less : Claim → Claim → Bool
claim_less a b = ltb a.start b.start

unfoldable pub locate : Bytes → List Replacement → Located
unfolding locate_step
locate masked reps = foldl (locate_step masked) (record { claims = []; unresolved = [] }) reps

unfoldable pub search_all : Bytes → Located → Searched
unfolding search_step
search_all masked l =
    foldl (search_step masked) (record { claims = l.claims; misses = 0 }) l.unresolved

unfoldable pub splice : Bytes → ℕ → List Claim → Splicing
unfolding splice_step
splice masked misses claims =
    foldl (splice_step masked) (record { at = 0; out = []; misses = misses }) claims

unfoldable pub restore : SortSlice → Bytes → List Replacement → Bytes × ℕ
unfolding locate search_all splice rep_less claim_less
restore sort masked reps =
    let found = search_all masked (locate masked (sort.sort Replacement rep_less reps)) in
    let p = splice masked found.misses (sort.sort Claim claim_less found.claims) in
    (p.out ++ drop p.at masked, p.misses)
