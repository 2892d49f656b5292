-- ===== src/Engine/Process/Safety.antt =====
-- Where the answers of `Process` come from: a fresh mask, the mask of an owned record, or what was restored
-- with an owned record. These hold whatever the store answers and whatever other requests do to it
-- meanwhile.
use alfa_hakaton.Common.{
  ℕ, ◌≡◌, ◌∙◌, ap, subst, ◌<◌, ◌⊎◌, refl, Bool, true, false, not, Bytes, bytes_eq, bytes_eq_sound,
  Option, none, some, inl, inr, length, leb, if◌then◌else◌, arith,
}
use alfa_hakaton.Common.Result.{Result, ok, err}
use alfa_hakaton.Common.Sort.{SortSlice}
use alfa_hakaton.Mask.Doc.{Strategy, new_doc_state}
use alfa_hakaton.Mask.Restore.{restore}
use alfa_hakaton.Store.Types.{Record, Io, StoreError}
use alfa_hakaton.Store.Api.{Store}
use alfa_hakaton.Engine.Types.{Options, Engine, EngineError, ProcessResult, MaskResult}
use alfa_hakaton.Engine.Masking.{
  fresh_result, run_mask, resolve_strategy, owns_record, mask_only, mask_fresh_result,
}
use alfa_hakaton.Engine.Requests.{record_of}
use alfa_hakaton.Engine.Process.{
  with_found, process_existing, process_found, process_winner, retried, saved, reloaded, created,
  process_new, first_loaded, process,
}

with_found_same :
    (rec : Record) (r : ProcessResult)
    → ((with_found rec r).unmasked ≡ r.unmasked)
      × ((with_found rec r).result ≡ r.result)
      × ((with_found rec r).misses ≡ r.misses)
unfolding with_found
with_found_same rec r = ground arith

module _ (sort : SortSlice) (hash_text : Bytes → Bytes) (e : Engine) (payload : Bytes)
    (opt : Options) where
  -- The mask of the payload, and nothing restored.
  pub record IsFresh (res : ProcessResult) : Type 0 where
    pub keeps : res.unmasked ≡ false
    pub mask : MaskResult
    pub is_masked : mask_only sort e payload opt new_doc_state ≡ ok mask
    pub is_result : res.result ≡ mask.masked

  -- The stored mask of a record of the caller for this very text.
  pub record IsRepeated (Given : Record → Type 0) (res : ProcessResult) : Type 0 where
    pub keeps : res.unmasked ≡ false
    pub rec : Record
    pub is_given : Given rec
    pub is_owned : owns_record rec opt ≡ true
    pub is_same : rec.hash ≡ hash_text payload
    pub is_result : res.result ≡ rec.masked_text

  -- What `Restore` makes of the payload with a record of the caller, finding at least one replacement.
  pub record IsOpened (Given : Record → Type 0) (res : ProcessResult) : Type 0 where
    pub opens : res.unmasked ≡ true
    pub is_permitted : opt.unmask ≡ true
    pub rec : Record
    pub is_given : Given rec
    pub is_owned : owns_record rec opt ≡ true
    pub is_other : bytes_eq rec.hash (hash_text payload) ≡ false
    pub is_restored : restore sort payload rec.replacements ≡ (res.result, res.misses)
    pub finds : res.misses < length rec.replacements

  -- The record of a first write.
  abbrev new_record : ℕ → Strategy → Record
  new_record now strategy =
      let m = run_mask sort e payload opt strategy new_doc_state in
      record_of (hash_text payload) now opt strategy m.result.masked m.applied.replacements

  -- The record that the store answered to a call of `Process` for the id: at the first load, or, where
  -- that found none and the first write was refused, at the load after it.
  abbrev pub IsAnswered :
      (st : Store) → (ℕ → Io) → (ℕ → st.State → st.State) → Bytes → st.State → Record → Type 0
  IsAnswered st io others id s rec =
      let first = st.load (io 0) id (others 0 s) in
      (first.0 ≡ ok (some rec))
      ⊎ ((first.0 ≡ ok none)
          × ((strategy : Strategy) × (resolve_strategy e opt.strategy ≡ some strategy)
              × (let wrote =
                    st.save_new (io 1) id (new_record (io 1).now strategy) opt.ttl
                      (others 1 first.1) in
                  (wrote.0 ≡ ok false)
                  × ((st.load (io 2) id (others 2 wrote.1)).0 ≡ ok (some rec)))))

  abbrev pub IsFrom : (Record → Type 0) → ProcessResult → Type 0
  IsFrom Given res = IsFresh res ⊎ (IsRepeated Given res ⊎ IsOpened Given res)

  module _ (Given : Record → Type 0) where
    -- What is said of a request's outcome: nothing of an error.
    abbrev Fine : Result EngineError ProcessResult → Type 0
    Fine (err x) = Unit
    Fine (ok res) = IsFrom Given res

    Fine-if :
        (b : Bool) (x y : Result EngineError ProcessResult)
        → (b ≡ true → Fine x)
        → (b ≡ false → Fine y)
        → Fine (if b then x else y)
    Fine-if true x y h k = h refl
    Fine-if false x y h k = k refl

    fresh_result-Fine :
        (r : Result EngineError MaskResult)
        → mask_only sort e payload opt new_doc_state ≡ r
        → Fine (fresh_result r)
    fresh_result-Fine (err x) h = tt
    fresh_result-Fine (ok m) h =
        inl (record { keeps = refl; mask = m; is_masked = h; is_result = refl })

    fresh-Fine : Fine (mask_fresh_result sort e payload opt)
    unfolding mask_fresh_result
    fresh-Fine = fresh_result-Fine (mask_only sort e payload opt new_doc_state) refl

    existing-Fine :
        (rec : Record)
        → Given rec
        → owns_record rec opt ≡ true
        → Fine (process_existing sort hash_text e rec payload opt)
    unfolding process_existing
    existing-Fine rec given mine =
        let r = restore sort payload rec.replacements in
        Fine-if (bytes_eq rec.hash (hash_text payload)) _ _
          (λ same. inr (
            inl (record {
              keeps = refl;
              rec = rec;
              is_given = given;
              is_owned = mine;
              is_same = bytes_eq_sound rec.hash (hash_text payload) same;
              is_result = refl;
            })))
          λ other.
            Fine-if (not opt.unmask) _ _ (λ forbidden. fresh-Fine)
              λ allowed.
                Fine-if (leb (length rec.replacements) r.1) _ _ (λ none_found. fresh-Fine)
                  λ some_found. inr (
                    inr (record {
                      opens = refl;
                      is_permitted = ground arith;
                      rec = rec;
                      is_given = given;
                      is_owned = mine;
                      is_other = other;
                      is_restored = refl;
                      finds = ground arith;
                    }))

    with_found-IsFrom :
        (rec : Record) (r : ProcessResult) → IsFrom Given r → IsFrom Given (with_found rec r)
    with_found-IsFrom rec r (inl f) =
        let (a, b, c) = with_found_same rec r in
        inl (record {
          keeps = a ∙ f.keeps;
          mask = f.mask;
          is_masked = f.is_masked;
          is_result = b ∙ f.is_result;
        })
    with_found-IsFrom rec r (inr (inl f)) =
        let (a, b, c) = with_found_same rec r in
        inr (
          inl (record {
            keeps = a ∙ f.keeps;
            rec = f.rec;
            is_given = f.is_given;
            is_owned = f.is_owned;
            is_same = f.is_same;
            is_result = b ∙ f.is_result;
          }))
    with_found-IsFrom rec r (inr (inr f)) =
        let (a, b, c) = with_found_same rec r in
        inr (
          inr (record {
            opens = a ∙ f.opens;
            is_permitted = f.is_permitted;
            rec = f.rec;
            is_given = f.is_given;
            is_owned = f.is_owned;
            is_other = f.is_other;
            is_restored = rw (b, c) f.is_restored;
            finds = rw c f.finds;
          }))

    retried-Fine :
        (rec : Record) (r : Result EngineError ProcessResult) → Fine r → Fine (retried rec r)
    retried-Fine rec (err x) f = tt
    retried-Fine rec (ok res) f = with_found-IsFrom rec res f

    found-Fine : (rec : Record) → Given rec → Fine (process_found sort hash_text e rec payload opt)
    unfolding process_found
    found-Fine rec given =
        Fine-if (not (owns_record rec opt)) _ _ (λ foreign. fresh-Fine)
          λ mine.
            retried-Fine rec (process_existing sort hash_text e rec payload opt)
              (existing-Fine rec given (ground arith))

    winner-Fine :
        (rec : Record) → Given rec → Fine (process_winner sort hash_text e rec payload opt)
    unfolding process_winner
    winner-Fine rec given =
        Fine-if (not (owns_record rec opt)) _ _ (λ foreign. fresh-Fine)
          (λ mine. existing-Fine rec given (ground arith))

    -- A new mask is the one that `maskOnly` makes.
    new_mask-Fine :
        (strategy : Strategy)
        → resolve_strategy e opt.strategy ≡ some strategy
        → Fine (fresh_result (ok (run_mask sort e payload opt strategy new_doc_state).result))
    unfolding mask_only
    new_mask-Fine strategy h =
        fresh_result-Fine (ok (run_mask sort e payload opt strategy new_doc_state).result)
          (rw h refl)

  module _ (st : Store) (io : ℕ → Io) (others : ℕ → st.State → st.State) (id : Bytes)
      (s : st.State) where
    abbrev Given : Record → Type 0
    Given = IsAnswered st io others id s

    saved-Fine :
        (m : MaskResult) (r : Result StoreError (Unit {0}) × st.State)
        → Fine Given (fresh_result (ok m))
        → Fine Given (saved sort hash_text e st io others m r).0
    saved-Fine m (err x, s') h = tt
    saved-Fine m (ok u, s') h = h

    reloaded-Fine :
        (new_rec : Record) (m : MaskResult) (r : Result StoreError (Option Record) × st.State)
        → Fine Given (fresh_result (ok m))
        → ((rec : Record) → r.0 ≡ ok (some rec) → Given rec)
        → Fine Given (reloaded sort hash_text e st io others id payload opt new_rec m r).0
    reloaded-Fine new_rec m (err x, s') h given = tt
    reloaded-Fine new_rec m (ok none, s') h given =
        saved-Fine m (st.save (io 3) id new_rec opt.ttl (others 3 s')) h
    reloaded-Fine new_rec m (ok (some rec), s') h given = winner-Fine Given rec (given rec refl)

    created-Fine :
        (new_rec : Record) (m : MaskResult) (r : Result StoreError Bool × st.State)
        → Fine Given (fresh_result (ok m))
        → ((rec : Record)
            → r.0 ≡ ok false
            → (st.load (io 2) id (others 2 r.1)).0 ≡ ok (some rec)
            → Given rec)
        → Fine Given (created sort hash_text e st io others id payload opt new_rec m r).0
    created-Fine new_rec m (err x, s') h given = tt
    created-Fine new_rec m (ok true, s') h given = h
    created-Fine new_rec m (ok false, s') h given =
        reloaded-Fine new_rec m (st.load (io 2) id (others 2 s')) h (λ rec got. given rec refl got)

    new-Fine :
        (o : Option Strategy) (r : Result StoreError (Option Record) × st.State)
        → resolve_strategy e opt.strategy ≡ o
        → st.load (io 0) id (others 0 s) ≡ r
        → r.0 ≡ ok none
        → Fine Given (process_new sort hash_text e st io others id payload opt o r.1).0
    new-Fine none r h got absent = tt
    new-Fine (some strategy) r h got absent =
        let new_rec = new_record (io 1).now strategy in
        created-Fine new_rec _ (st.save_new (io 1) id new_rec opt.ttl (others 1 r.1))
          (new_mask-Fine Given strategy h)
          (subst
            (λ q.
              (rec : Record)
              → (st.save_new (io 1) id new_rec opt.ttl (others 1 q.1)).0 ≡ ok false
              → (st.load (io 2) id
                  (others 2 (st.save_new (io 1) id new_rec opt.ttl (others 1 q.1)).1)).0
                ≡ ok (some rec)
              → Given rec)
            got
            (λ rec refused won. inr (ap (λ q. q.0) got ∙ absent, (strategy, h, (refused, won)))))

    first_loaded-Fine :
        (r : Result StoreError (Option Record) × st.State)
        → st.load (io 0) id (others 0 s) ≡ r
        → Fine Given (first_loaded sort hash_text e st io others id payload opt r).0
    first_loaded-Fine (err x, s') got = tt
    first_loaded-Fine (ok none, s') got =
        new-Fine (resolve_strategy e opt.strategy) (ok none, s') refl got refl
    first_loaded-Fine (ok (some rec), s') got = found-Fine Given rec (inl (ap (λ q. q.0) got))

    process-Fine : Fine Given (process sort hash_text e st io others id payload opt s).0
    unfolding process
    process-Fine = first_loaded-Fine (st.load (io 0) id (others 0 s)) refl

-- Whatever the store answers and whatever happens to it between the calls, an answer of `Process` is one
-- of three. It restores nothing and is the mask that `maskOnly` makes of the payload; or it restores
-- nothing and is the stored mask of a record for a text of the payload's hash; or the caller has the
-- permission to unmask, and it is what `Restore` makes of the payload with a record for another text,
-- where at least one replacement was found. Either record is the caller's own, and the one that the
-- store answered for the id: to the first load, or to the load after a refused first write.
pub process-IsFrom :
    (sort : SortSlice) (hash_text : Bytes → Bytes) (e : Engine) (st : Store) (io : ℕ → Io)
    (others : ℕ → st.State → st.State) (id payload : Bytes) (opt : Options) (s : st.State)
    {res : ProcessResult}
    → (process sort hash_text e st io others id payload opt s).0 ≡ ok res
    → IsFrom sort hash_text e payload opt
        (IsAnswered sort hash_text e payload opt st io others id s)
        res
process-IsFrom sort hash_text e st io others id payload opt s {res} h =
    subst
      (Fine sort hash_text e payload opt
        (IsAnswered sort hash_text e payload opt st io others id s))
      h (process-Fine sort hash_text e payload opt st io others id s)
