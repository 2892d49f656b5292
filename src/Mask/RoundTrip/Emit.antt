-- ===== src/Mask/RoundTrip/Emit.antt =====
-- One substitution keeps the invariant.
use alfa_hakaton.Common.{
  ℕ, ◌≤◌, ◌<◌, ◌≡◌, refl, sym, ap, ◌∙◌, Bytes, bytes_eq_refl, List, [], ◌∷◌, ◌++◌, map, append-nil,
  append_assoc, length, length-append, take, drop, slice, slice_middle, slice_to_end, drop-append,
  drop-length, take-slice, foldl-snoc, All, All-append, arith,
}
use alfa_hakaton.Common.Int.{pos}
use alfa_hakaton.Pii.Types.{Span}
use alfa_hakaton.Mask.Doc.{DocState, Replacement}
use alfa_hakaton.Mask.Apply.{Masking, emit}
use alfa_hakaton.Mask.Restore.{claim_of, locate_step, Splicing, splice_step, locate, splice}
use alfa_hakaton.Mask.RoundTrip.Invariant.{
  Fits, Fits-mono, overlaps_any-Fits, map-snoc, IsAscending-snoc, Inv,
}

-- A replacement that stands behind all others, exactly where its record says, is claimed.
module _ (b r t : Bytes) (x : Replacement) (sx : x.start ≡ pos (length b))
    (ex : x.end ≡ pos (length (b ++ r))) (mx : x.masked ≡ r) where
  pub locate_step_hit :
      (rs : List Replacement)
      → All (Fits (length b)) rs
      → locate_step ((b ++ r) ++ t) (record { claims = map claim_of rs; unresolved = [] }) x
        ≡ record { claims = map claim_of rs ++ claim_of x ∷ []; unresolved = [] }
  unfolding locate_step
  locate_step_hit rs fits =
      rw
        (
          sx,
          ex,
          mx,
          slice_middle b r t,
          bytes_eq_refl r,
          overlaps_any-Fits (length b) (length (b ++ r)) rs fits,
        )
        (ground (arith, length-append b r, length-append (b ++ r) t))

  pub splice_step_hit :
      (a k : ℕ) (o : Bytes)
      → a ≤ length b
      → splice_step ((b ++ r) ++ t) (record { at = a; out = o; misses = k }) (claim_of x)
        ≡ record { at = length (b ++ r); out = (o ++ drop a b) ++ x.original; misses = k }
  unfolding splice_step
  splice_step_hit a k o h =
      rw (sx, ex)
        (ground (
          arith,
          length-append b r,
          length-append (b ++ r) t,
          ap (λ z. z) (append_assoc b r t),
          ap (slice_of a) (append_assoc b r t),
          slice_to_end b (r ++ t) a h,
        ))
    where
      slice_of : ℕ → Bytes → Bytes
      slice_of n z = slice z n (length b)

module _ (text : Bytes) (sp : Span) (m : Masking) (r : Bytes) (d : DocState) (inv : Inv text m)
    (after : m.at ≤ sp.start) (legal : sp.start < sp.end) (inside : sp.end ≤ length text)
    (visible : 0 < length r) where
  gap : Bytes
  gap = slice text m.at sp.start

  before : Bytes
  unfolding gap
  before = m.out ++ gap

  regroup : (t : Bytes) → (before ++ r) ++ t ≡ m.out ++ (gap ++ (r ++ t))
  unfolding before
  regroup t = append_assoc (m.out ++ gap) r t ∙ append_assoc m.out gap (r ++ t)

  emit-Fits : All (Fits (length (emit text sp m (r, d)).out)) (emit text sp m (r, d)).reps
  unfolding emit
  emit-Fits =
      let b = m.out ++ slice text m.at sp.start in
      All-append (Fits (length (b ++ r))) m.reps _
        (Fits-mono (length m.out) (length (b ++ r)) m.reps
          (omega (arith, length-append m.out (slice text m.at sp.start), length-append b r))
          inv.fits)
        (record { whole = refl; starts = omega (arith, length-append b r); ends = omega arith }, tt)

  -- The record of this substitution.
  entry : Replacement
  unfolding before
  entry = record {
    category = sp.category;
    original = slice text sp.start sp.end;
    masked = r;
    start = pos (length before);
    end = pos (length (before ++ r));
  }

  emit-placed :
      (t : Bytes)
      → locate ((emit text sp m (r, d)).out ++ t) (emit text sp m (r, d)).reps
        ≡ record { claims = map claim_of (emit text sp m (r, d)).reps; unresolved = [] }
  unfolding emit locate before entry
  emit-placed t =
      foldl-snoc (locate_step ((before ++ r) ++ t)) _ m.reps entry
      ∙ ap (λ l. locate_step ((before ++ r) ++ t) l entry)
          (ap (λ z. locate z m.reps) (regroup t) ∙ inv.placed (gap ++ (r ++ t)))
      ∙ locate_step_hit before r t entry refl refl refl m.reps (
          Fits-mono (length m.out) (length before) m.reps (omega (arith, length-append m.out gap))
            inv.fits)
      ∙ ap (λ z. record { claims = z; unresolved = [] }) (sym (map-snoc claim_of m.reps entry))

  -- The splice of all but the last claim.
  earlier : Bytes → Splicing
  earlier t = splice (m.out ++ (gap ++ (r ++ t))) 0 (map claim_of m.reps)

  earlier-at-le : (t : Bytes) → (earlier t).at ≤ length before
  unfolding earlier before
  earlier-at-le t = omega (arith, inv.spliced (gap ++ (r ++ t)), length-append m.out gap)

  splice-emit :
      (t : Bytes)
      → splice ((before ++ r) ++ t) 0 (map claim_of (m.reps ++ entry ∷ [])) ≡ record {
        at = length (before ++ r);
        out = ((earlier t).out ++ drop (earlier t).at before) ++ entry.original;
        misses = (earlier t).misses;
      }
  unfolding splice earlier entry
  splice-emit t =
      ap (splice ((before ++ r) ++ t) 0) (map-snoc claim_of m.reps entry)
      ∙ foldl-snoc (splice_step ((before ++ r) ++ t)) _ (map claim_of m.reps) (claim_of entry)
      ∙ ap (λ l. splice_step ((before ++ r) ++ t) l (claim_of entry))
          (ap (λ z. splice z 0 (map claim_of m.reps)) (regroup t))
      ∙ splice_step_hit before r t entry refl refl refl (earlier t).at (earlier t).misses
          (earlier t).out (earlier-at-le t)

  restored :
      (t : Bytes)
      → ((earlier t).out ++ drop (earlier t).at before) ++ entry.original ≡ take sp.end text
  unfolding earlier before entry gap
  restored t =
      let (fits, same, _) = inv.spliced (gap ++ (r ++ t)) in
      ap (λ z. ((earlier t).out ++ z) ++ slice text sp.start sp.end)
        (drop-append (earlier t).at m.out gap fits)
      ∙ ap (λ z. z ++ slice text sp.start sp.end)
          (sym (append_assoc (earlier t).out (drop (earlier t).at m.out) gap)
            ∙ ap (λ z. z ++ gap) same
            ∙ take-slice text m.at sp.start after)
      ∙ take-slice text sp.start sp.end (omega arith)

  emit-spliced :
      (t : Bytes)
      → let n = emit text sp m (r, d) in
        let p = splice (n.out ++ t) 0 (map claim_of n.reps) in
        (p.at ≤ length n.out) × (p.out ++ drop p.at n.out ≡ take n.at text) × (p.misses ≡ 0)
  unfolding emit before entry earlier
  emit-spliced t = rw (splice-emit t) (
    omega arith,
    ap (λ z. (((earlier t).out ++ drop (earlier t).at before) ++ entry.original) ++ z)
          (drop-length (before ++ r))
        ∙ append-nil _
        ∙ restored t,
    (inv.spliced (gap ++ (r ++ t))).2,
  )

  pub emit-Inv : Inv text (emit text sp m (r, d))
  unfolding emit before
  emit-Inv = record {
    at_le = inside;
    fits = emit-Fits;
    ascends =
        IsAscending-snoc (length before) m.reps _
          (Fits-mono (length m.out) (length before) m.reps (omega (arith, length-append m.out gap))
            inv.fits)
          inv.ascends refl;
    placed = emit-placed;
    spliced = emit-spliced;
  }
