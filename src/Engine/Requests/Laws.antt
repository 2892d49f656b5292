-- ===== src/Engine/Requests/Laws.antt =====
-- What `Mask` and `Unmask` do with the records of the store, where nothing else happens to the store
-- between the calls of one request.
use alfa_hakaton.Common.{
  ℕ, ◌≤◌, ◌≡◌, ◌⊎◌, inl, inr, ap, ◌∙◌, true, false, Bytes, bytes_eq, bytes_eq_refl, [], none, some,
}
use alfa_hakaton.Common.Result.{ok, err}
use alfa_hakaton.Common.Sort.{SortSlice}
use alfa_hakaton.Mask.Doc.{Strategy, new_doc_state}
use alfa_hakaton.Mask.RoundTrip.{restore-apply, IsVisible}
use alfa_hakaton.Store.Types.{Record, Io, expiry_for, live_at}
use alfa_hakaton.Store.Api.{Store, while_live}
use alfa_hakaton.Engine.Types.{Options, Engine, foreign_record, not_found}
use alfa_hakaton.Engine.Masking.{resolve_strategy, owns_record, run_mask, spans_of, Masked}
use alfa_hakaton.Engine.Requests.{record_of, mask_ex, mask_loaded, mask_with_record, unmask_ex}
use alfa_hakaton.Engine.Process.Contract.{alone, owns_own}

module _ (sort : SortSlice) (hash_text : Bytes → Bytes) (st : Store) (io : ℕ → Io) (id : Bytes)
    (opt : Options) (s : st.State) where
  -- `Mask` under an id that another system's record has is refused, and every record stays as it is.
  pub mask_ex_foreign :
      (e : Engine) (text : Bytes) (rec : Record)
      → st.IsSound s
      → st.view s (io 0).now (st.hash_id id) ≡ some rec
      → owns_record rec opt ≡ false
      → (s' : st.State) × (mask_ex sort st hash_text io alone e id text opt s
          ≡ (err foreign_record, s'))
        × ((t : ℕ) (k : Bytes) → (io 0).now ≤ t → st.view s' t k ≡ st.view s t k)
  unfolding mask_ex mask_loaded
  mask_ex_foreign e text rec sound held foreign =
      let (s', loaded, sound', same) = st.load_lem (io 0) id s sound in
      (s', rw (loaded, held, mask_loaded, foreign), same)

  -- To a caller that does not own the record of an id `Unmask` answers as if there were none, and every
  -- record stays as it is.
  pub unmask_ex_hides :
      (masked : Bytes)
      → st.IsSound s
      → (st.view s (io 0).now (st.hash_id id) ≡ none)
        ⊎ ((rec : Record) × (st.view s (io 0).now (st.hash_id id) ≡ some rec)
            × (owns_record rec opt ≡ false))
      → (s' : st.State) × (unmask_ex sort st hash_text io alone id masked opt s
          ≡ (err not_found, s'))
        × ((t : ℕ) (k : Bytes) → (io 0).now ≤ t → st.view s' t k ≡ st.view s t k)
  unfolding unmask_ex
  unmask_ex_hides masked sound h =
      let (s', loaded, sound', same) = st.load_lem (io 0) id s sound in
      elim h [
        | inl gone ↦ (s', rw (loaded, gone), same)
        | inr (rec, held, foreign) ↦ (s', rw (loaded, held, foreign), same)
      ]

module _ (sort : SortSlice) (hash_text : Bytes → Bytes) (st : Store) (io : ℕ → Io) (id : Bytes)
    (opt : Options) (s : st.State) (e : Engine) (text : Bytes) (strategy : Strategy) where
  abbrev pub new_mask : Masked
  new_mask = run_mask sort e text opt strategy new_doc_state

  abbrev pub new_record : Record
  new_record =
      record_of (hash_text text) (io 1).now opt strategy new_mask.result.masked
        new_mask.applied.replacements

  -- A `Mask` that can succeed, under an id without a record.
  pub record IsFree : Type 0 where
    pub sound : st.IsSound s
    pub free : st.view s (io 0).now (st.hash_id id) ≡ none
    pub known : resolve_strategy e opt.strategy ≡ some strategy
    pub storable : st.IsStorable new_record
    pub ready : st.IsReady (io 1)
    pub named : bytes_eq opt.system_id [] ≡ false

  mask_ex_free :
      IsFree
      → (s' : st.State) × (mask_ex sort st hash_text io alone e id text opt s
          ≡ (ok new_mask.result, s'))
        × st.IsSound s'
        × ((t : ℕ)
            → st.view s' t (st.hash_id id)
              ≡ while_live (expiry_for (io 1).now opt.ttl) t new_record)
  unfolding mask_ex mask_loaded mask_with_record
  mask_ex_free f =
      let (s0, loaded, sound0, same0) = st.load_lem (io 0) id s f.sound in
      let (s1, saved, sound1, view1) =
        st.save_lem (io 1) id new_record opt.ttl s0 sound0 f.storable f.ready in
      (
        s1,
        rw (loaded, f.free, mask_loaded, mask_with_record, f.known, saved),
        sound1,
        λ t. view1 t (st.hash_id id) ∙ rw (bytes_eq_refl (st.hash_id id)),
      )

  -- A text that is masked under an id without a record comes back: `Unmask` of the mask under the same
  -- id, while the record is live, returns the text with no miss, if the strategy replaces no value by
  -- the empty string.
  pub unmask_ex-mask_ex :
      (io' : ℕ → Io)
      → IsFree
      → live_at (expiry_for (io 1).now opt.ttl) (io' 0).now ≡ true
      → IsVisible strategy
      → (unmask_ex sort st hash_text io' alone id new_mask.result.masked opt
          (mask_ex sort st hash_text io alone e id text opt s).1).0
        ≡ ok (record { restored = text; misses = 0 })
  unfolding unmask_ex run_mask
  unmask_ex-mask_ex io' f live visible =
      let (s1, masked, sound1, view1) = mask_ex_free f in
      let (s2, loaded, sound2, same2) = st.load_lem (io' 0) id s1 sound1 in
      let held : st.view s1 (io' 0).now (st.hash_id id) ≡ some new_record =
        view1 (io' 0).now ∙ rw live in
      let mine = owns_own (hash_text text) (io 1).now opt strategy new_mask f.named in
      let back =
        restore-apply sort text (spans_of sort e text opt) strategy (some new_doc_state) visible in
      rw (masked, loaded, held, mine)
        (ap (λ (p : Bytes × ℕ). ok (record { restored = p.0; misses = p.1 })) back)
