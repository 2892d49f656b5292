-- ===== src/Mask/RoundTrip/Invariant.antt =====
-- What holds between two rounds of `Apply`, as `Restore` will see it.
use alfa_hakaton.Common.{
  tests, ℕ, ◌≤◌, ◌<◌, ◌≡◌, refl, ap, true, false, Bytes, List, [], ◌∷◌, ◌++◌, map, length, take,
  drop, All, All-append, arith,
}
use alfa_hakaton.Common.Int.{pos, pos_part, neg_part}
use alfa_hakaton.Common.Sort.{IsAscending}
use alfa_hakaton.Pii.Types.{Category}
use alfa_hakaton.Mask.Doc.{DocState, Strategy, Replacement}
use alfa_hakaton.Mask.Apply.{Masking, start_masking}
use alfa_hakaton.Mask.Restore.{claim_of, overlaps_any, rep_less, claim_less, locate, splice}

-- A strategy never replaces a value by nothing.
abbrev pub IsVisible : Strategy → Type 0
IsVisible s = (v : Bytes) (c : Category) (d : DocState) → 0 < length v → 0 < length (s.mask v c d).0

-- What is known of a replacement when the masked text has `n` bytes.
pub record Fits (n : ℕ) (r : Replacement) : Type 0 where
  pub whole : neg_part r.start ≡ 0
  pub starts : pos_part r.start < n
  pub ends : pos_part r.end ≤ n

pub Fits-mono : (m n : ℕ) (rs : List Replacement) → m ≤ n → All (Fits m) rs → All (Fits n) rs
Fits-mono m n [] h k = tt
Fits-mono m n (r ∷ rs) h k =
    (record { whole = k.0.whole; starts = omega arith; ends = omega arith }, Fits-mono m n rs h k.1)

-- A range behind all claims overlaps none.
pub overlaps_any-Fits :
    (n e : ℕ) (rs : List Replacement) → All (Fits n) rs → overlaps_any (map claim_of rs) n e ≡ false
overlaps_any-Fits n e [] h = refl
overlaps_any-Fits n e (r ∷ rs) h = ground (arith, h.0.ends, overlaps_any-Fits n e rs h.1)

pub map-snoc :
    {A B : Type 0} (f : A → B) (xs : List A) (x : A) → map f (xs ++ x ∷ []) ≡ map f xs ++ f x ∷ []
map-snoc f [] x = refl
map-snoc f (y ∷ xs) x = ap (◌∷◌ (f y)) (map-snoc f xs x)

-- Behind replacements that ascend stands one that starts where they end.
pub IsAscending-snoc :
    (n : ℕ) (rs : List Replacement) (x : Replacement)
    → All (Fits n) rs
    → IsAscending rep_less rs
    → x.start ≡ pos n
    → IsAscending rep_less (rs ++ x ∷ [])
unfolding rep_less
IsAscending-snoc n [] x h k e = (tt, tt)
IsAscending-snoc n (r ∷ rs) x h k e = (
  All-append (λ y. rep_less r y ≡ true) rs (x ∷ []) k.0
      (rw e (omega (tests, h.0.whole, h.0.starts)), tt),
  IsAscending-snoc n rs x h.1 k.1 e,
)

claims_above :
    (n : ℕ) (r : Replacement) (rs : List Replacement)
    → Fits n r
    → All (Fits n) rs
    → All (λ y. rep_less r y ≡ true) rs
    → All (λ c. claim_less (claim_of r) c ≡ true) (map claim_of rs)
unfolding rep_less claim_less
claims_above n r [] h k l = tt
claims_above n r (x ∷ rs) h k l =
    (ground (arith, h.whole, k.0.whole), claims_above n r rs h k.1 l.1)

pub claims-IsAscending :
    (n : ℕ) (rs : List Replacement)
    → All (Fits n) rs
    → IsAscending rep_less rs
    → IsAscending claim_less (map claim_of rs)
claims-IsAscending n [] h k = tt
claims-IsAscending n (r ∷ rs) h k =
    (claims_above n r rs h.0 h.1 k.0, claims-IsAscending n rs h.1 k.1)

-- After the text before `m.at` is masked, whatever follows: every replacement is claimed where it is
-- recorded, and splicing the claims gives that text back.
pub record Inv (text : Bytes) (m : Masking) : Type 0 where
  pub at_le : m.at ≤ length text
  pub fits : All (Fits (length m.out)) m.reps
  pub ascends : IsAscending rep_less m.reps
  pub placed :
      (t : Bytes)
      → locate (m.out ++ t) m.reps ≡ record { claims = map claim_of m.reps; unresolved = [] }
  pub spliced :
      (t : Bytes)
      → let p = splice (m.out ++ t) 0 (map claim_of m.reps) in
        (p.at ≤ length m.out) × (p.out ++ drop p.at m.out ≡ take m.at text) × (p.misses ≡ 0)

pub start-Inv : (text : Bytes) (d : DocState) → Inv text (start_masking d)
unfolding start_masking locate splice
start-Inv text d = record {
  at_le = omega arith;
  fits = tt;
  ascends = tt;
  placed = λ t. refl;
  spliced = λ t. (omega arith, refl, refl);
}
