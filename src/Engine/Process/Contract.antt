-- ===== src/Engine/Process/Contract.antt =====
-- The contract of `Process` over time: the first call masks and stores, a repeated call returns the
-- stored mask, and the mask sent back returns the original. Nothing else happens to the store between
-- the calls of one request.
use alfa_hakaton.Common.{
  ℕ, ◌≤◌, ◌<◌, ◌≡◌, ap, ◌∙◌, true, false, Bytes, bytes_eq, bytes_eq_refl, [], none, some, length,
  leb, if◌then◌else◌, arith,
}
use alfa_hakaton.Common.Result.{ok}
use alfa_hakaton.Common.Sort.{SortSlice}
use alfa_hakaton.Mask.Doc.{Strategy, new_doc_state}
use alfa_hakaton.Mask.Restore.{restore}
use alfa_hakaton.Mask.RoundTrip.{restore-apply, IsVisible}
use alfa_hakaton.Store.Types.{Record, Io, expiry_for, live_at}
use alfa_hakaton.Store.Api.{Store, while_live}
use alfa_hakaton.Engine.Types.{Options, Engine}
use alfa_hakaton.Engine.Masking.{
  resolve_strategy, owns_record, run_mask, spans_of, mask_fresh_result, masked_result, Masked,
}
use alfa_hakaton.Engine.Requests.{record_of, counts_from_rec}
use alfa_hakaton.Engine.Process.{with_found, process_existing, process_found, process}

-- A request that nothing interrupts.
abbrev pub alone : {S : Type 0} → ℕ → S → S
alone n s = s

-- A system with an id owns the records that it makes.
pub owns_own :
    (hash : Bytes) (now : ℕ) (opt : Options) (strategy : Strategy) (m : Masked)
    → bytes_eq opt.system_id [] ≡ false
    → owns_record (record_of hash now opt strategy m.result.masked m.applied.replacements) opt
      ≡ true
unfolding owns_record
owns_own hash now opt strategy m h = rw (h, bytes_eq_refl opt.system_id)

-- An owner's record is restored, if nothing of it is missing.
found_restores :
    (sort : SortSlice) (hash_text : Bytes → Bytes) (e : Engine) (opt : Options) (rec : Record)
    (payload original : Bytes)
    → owns_record rec opt ≡ true
    → bytes_eq rec.hash (hash_text payload) ≡ false
    → opt.unmask ≡ true
    → restore sort payload rec.replacements ≡ (original, 0)
    → 0 < length rec.replacements
    → process_found sort hash_text e rec payload opt
      ≡ ok (record { result = original; found = none; unmasked = true; misses = 0 })
unfolding process_found process_existing with_found
found_restores sort hash_text e opt rec payload original mine differ allowed back some_reps =
    let few : leb (length rec.replacements) 0 ≡ false = ground arith in
    simp (mine, differ, allowed, back, few)

module _ (sort : SortSlice) (hash_text : Bytes → Bytes) (e : Engine) (st : Store) (id : Bytes)
    (opt : Options) where
  -- What `Process` makes of the record that is there.
  process_held :
      (io : ℕ → Io) (payload : Bytes) (s : st.State) (rec : Record)
      → st.IsSound s
      → st.view s (io 0).now (st.hash_id id) ≡ some rec
      → (s' : st.State) × (process sort hash_text e st io alone id payload opt s
          ≡ (process_found sort hash_text e rec payload opt, s'))
        × ((t : ℕ) (k : Bytes) → (io 0).now ≤ t → st.view s' t k ≡ st.view s t k)
  unfolding process
  process_held io payload s rec sound held =
      let (s', loaded, sound', same) = st.load_lem (io 0) id s sound in
      (s', rw (loaded, held), same)

  -- A payload under an id that another system's record has is masked as if there were no record, and
  -- every record stays as it is.
  pub process_foreign :
      (io : ℕ → Io) (payload : Bytes) (s : st.State) (rec : Record)
      → st.IsSound s
      → st.view s (io 0).now (st.hash_id id) ≡ some rec
      → owns_record rec opt ≡ false
      → (s' : st.State) × (process sort hash_text e st io alone id payload opt s
          ≡ (mask_fresh_result sort e payload opt, s'))
        × ((t : ℕ) (k : Bytes) → (io 0).now ≤ t → st.view s' t k ≡ st.view s t k)
  unfolding process_found
  process_foreign io payload s rec sound held foreign =
      let (s', done, same) = process_held io payload s rec sound held in
      (s', done ∙ rw (foreign, process_found), same)

module _ (sort : SortSlice) (hash_text : Bytes → Bytes) (e : Engine) (st : Store)
    (id payload : Bytes) (opt : Options) (strategy : Strategy) (io : ℕ → Io) (s : st.State) where
  abbrev pub first_mask : Masked
  first_mask = run_mask sort e payload opt strategy new_doc_state

  abbrev pub first_record : Record
  first_record =
      record_of (hash_text payload) (io 1).now opt strategy first_mask.result.masked
        first_mask.applied.replacements

  -- The first call for an id that has no record: a strategy is known, the record can be stored, and the
  -- caller has an id.
  pub record IsFirst : Type 0 where
    pub sound : st.IsSound s
    pub free : (t : ℕ) → (io 0).now ≤ t → st.view s t (st.hash_id id) ≡ none
    pub later : (io 0).now ≤ (io 1).now
    pub known : resolve_strategy e opt.strategy ≡ some strategy
    pub storable : st.IsStorable first_record
    pub ready : st.IsReady (io 1)
    pub named : bytes_eq opt.system_id [] ≡ false

  -- The first call for an id masks the payload, and stores the mask with what is needed to restore it
  -- until its time to live has passed; every other id keeps its record.
  pub process_first :
      IsFirst
      → (s' : st.State) × (process sort hash_text e st io alone id payload opt s
          ≡ (ok (masked_result first_mask.result), s'))
        × st.IsSound s'
        × ((t : ℕ) (k : Bytes)
            → (io 0).now ≤ t
            → st.view s' t k ≡ (
                if bytes_eq (st.hash_id id) k
                then while_live (expiry_for (io 1).now opt.ttl) t first_record
                else st.view s t k))
  unfolding process
  process_first f =
      let (s0, loaded, sound0, same0) = st.load_lem (io 0) id s f.sound in
      let free0 = same0 (io 1).now (st.hash_id id) f.later ∙ f.free (io 1).now f.later in
      let (s1, saved, sound1, view1) =
        st.save_new_lem (io 1) id first_record opt.ttl s0 sound0 f.storable f.ready free0 in
      (
        s1,
        rw (loaded, f.free (io 0).now (omega arith), f.known, saved),
        sound1,
        λ t k h.
            view1 t k
            ∙ ap
                (λ z.
                  if bytes_eq (st.hash_id id) k
                  then while_live (expiry_for (io 1).now opt.ttl) t first_record
                  else z)
                (same0 t k h),
      )

  module _ (first : IsFirst) (io' : ℕ → Io) (after : (io 0).now ≤ (io' 0).now)
      (live : live_at (expiry_for (io 1).now opt.ttl) (io' 0).now ≡ true) where
    stored : st.State
    stored = (process_first first).0

    held : st.view stored (io' 0).now (st.hash_id id) ≡ some first_record
    unfolding stored
    held =
        (process_first first).3 (io' 0).now (st.hash_id id) after
        ∙ rw (bytes_eq_refl (st.hash_id id), live)

    found_again :
        (payload' : Bytes)
        → (process sort hash_text e st io' alone id payload' opt
            (process sort hash_text e st io alone id payload opt s).1).0
          ≡ process_found sort hash_text e first_record payload' opt
    unfolding stored
    found_again payload' =
        let (s', done, _) =
          process_held sort hash_text e st id opt io' payload' stored first_record
            (process_first first).2 held in
        rw ((process_first first).1) (ap (λ r. r.0) done)

    -- The payload sent again, while the record is live, returns the mask that the first call returned;
    -- this needs no permission to unmask.
    pub process_again :
        (process sort hash_text e st io' alone id payload opt
          (process sort hash_text e st io alone id payload opt s).1).0
        ≡ ok (record {
          result = first_mask.result.masked;
          found = some (counts_from_rec first_record);
          unmasked = false;
          misses = 0;
        })
    unfolding process_found process_existing with_found
    process_again =
        found_again payload
        ∙ rw (
          owns_own (hash_text payload) (io 1).now opt strategy first_mask first.named,
          process_found,
          bytes_eq_refl (hash_text payload),
          with_found,
          bytes_eq_refl first_mask.result.masked,
        )

    -- The mask sent back under its id, while the record is live, returns the original payload with no
    -- miss, to a system that may unmask: if the strategy hides no value completely away, something was
    -- replaced, and the mask and the payload have different hashes.
    pub process-process :
        IsVisible strategy
        → opt.unmask ≡ true
        → 0 < length first_mask.applied.replacements
        → bytes_eq (hash_text payload) (hash_text first_mask.result.masked) ≡ false
        → (process sort hash_text e st io' alone id first_mask.result.masked opt
            (process sort hash_text e st io alone id payload opt s).1).0
          ≡ ok (record { result = payload; found = none; unmasked = true; misses = 0 })
    unfolding run_mask
    process-process visible allowed replaced differ =
        let back =
          restore-apply sort payload (spans_of sort e payload opt) strategy (some new_doc_state)
            visible in
        found_again first_mask.result.masked
        ∙ found_restores sort hash_text e opt first_record first_mask.result.masked payload
            (owns_own (hash_text payload) (io 1).now opt strategy first_mask first.named) differ
            allowed back replaced
