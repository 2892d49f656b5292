-- ===== src/Engine/Batch/Laws.antt =====
-- What a batch of messages does to the store, and where its replacements are recorded.
use alfa_hakaton.Common.{
  ℕ, ◌+◌, ◌≤◌, ◌≡◌, refl, subst, not, Bool, true, false, Bytes, List, [], ◌∷◌, ◌++◌, length,
  length-append, Option, none, some, arith, if◌then◌else◌,
}
use alfa_hakaton.Common.Result.{Result, ok, err}
use alfa_hakaton.Common.Sort.{SortSlice}
use alfa_hakaton.Mask.Doc.{Strategy}
use alfa_hakaton.Store.Types.{Record, Io, StoreError}
use alfa_hakaton.Store.Api.{Store}
use alfa_hakaton.Engine.Types.{Options, Engine, EngineError, foreign_record}
use alfa_hakaton.Engine.Masking.{owns_record, run_mask, resolve_strategy, Masked}
use alfa_hakaton.Engine.Batch.{
  MaskBatchResult, batch_saved, batch_with, batch_loaded, join, Batch, add_message, mask_messages,
  mask_batch_ex, start_batch,
}
use alfa_hakaton.Engine.Process.Contract.{alone}

-- A batch under an id that another system's record has is refused, and every record stays as it is.
pub mask_batch_ex_foreign :
    (sort : SortSlice) (hash_text : Bytes → Bytes) (st : Store) (io : ℕ → Io) (id : Bytes)
    (opt : Options) (s : st.State) (e : Engine) (texts : List Bytes) (rec : Record)
    → st.IsSound s
    → st.view s (io 0).now (st.hash_id id) ≡ some rec
    → owns_record rec opt ≡ false
    → (s' : st.State) × (mask_batch_ex sort hash_text st io alone e id texts opt s
        ≡ (err foreign_record, s'))
      × ((t : ℕ) (k : Bytes) → (io 0).now ≤ t → st.view s' t k ≡ st.view s t k)
unfolding mask_batch_ex
mask_batch_ex_foreign sort hash_text st io id opt s e texts rec sound held foreign =
    let (s', loaded, sound', same) = st.load_lem (io 0) id s sound in
    (s', rw (loaded, held, foreign), same)

length-join :
    (ms : List Bytes) (m : Bytes) → length (join (ms ++ m ∷ [])) ≡ length (join ms) + (length m + 1)
unfolding join
length-join [] m = omega (arith, length-append m (0x0A ∷ []))
length-join (x ∷ ms) m = omega (
  arith,
  length-join ms m,
  length-append x (0x0A ∷ join (ms ++ m ∷ [])),
  length-append x (0x0A ∷ join ms),
)

add_message-offset :
    (b : Batch) (m : Masked)
    → b.offset ≡ length (join b.masked)
    → (add_message b m).offset ≡ length (join (add_message b m).masked)
unfolding add_message
add_message-offset b m h = omega (arith, h, length-join b.masked m.result.masked)

messages-offset :
    (sort : SortSlice) (e : Engine) (opt : Options) (strategy : Strategy) (b : Batch)
    (texts : List Bytes)
    → b.offset ≡ length (join b.masked)
    → (mask_messages sort e opt strategy b texts).offset
      ≡ length (join (mask_messages sort e opt strategy b texts).masked)
unfolding mask_messages
messages-offset sort e opt strategy b [] h = h
messages-offset sort e opt strategy b (t ∷ texts) h =
    messages-offset sort e opt strategy (add_message b (run_mask sort e t opt strategy b.doc)) texts
      (add_message-offset b (run_mask sort e t opt strategy b.doc) h)

-- Before each message, and at the end, the offset by which replacements are moved is the length of what
-- is stored so far: after any messages it is where the next one starts in the joined text.
pub mask_messages-offset :
    (sort : SortSlice) (e : Engine) (opt : Options) (strategy : Strategy) (texts : List Bytes)
    → let b = mask_messages sort e opt strategy start_batch texts in
      b.offset ≡ length (join b.masked)
unfolding start_batch join
mask_messages-offset sort e opt strategy texts =
    messages-offset sort e opt strategy start_batch texts refl

module _ (sort : SortSlice) (e : Engine) (opt : Options) (strategy : Strategy) where
  -- Each message is masked to one.
  length-mask_messages :
      (b : Batch) (texts : List Bytes)
      → length (mask_messages sort e opt strategy b texts).masked ≡ length b.masked + length texts
  unfolding mask_messages add_message
  length-mask_messages b [] = omega arith
  length-mask_messages b (t ∷ texts) =
      let m = run_mask sort e t opt strategy b.doc in
      omega (
        arith,
        length-mask_messages (add_message b m) texts,
        length-append b.masked (m.result.masked ∷ []),
      )

module _ (sort : SortSlice) (hash_text : Bytes → Bytes) (st : Store) (io : ℕ → Io)
    (others : ℕ → st.State → st.State) (e : Engine) (id : Bytes) (texts : List Bytes)
    (opt : Options) where
  abbrev HasAll : Result EngineError MaskBatchResult × st.State → Type 0
  HasAll (err x, s) = Unit
  HasAll (ok b, s) = length b.masked ≡ length texts

  HasAll-if :
      (c : Bool) (x : EngineError) (s : st.State)
      (o : Result EngineError MaskBatchResult × st.State)
      → HasAll o
      → HasAll (if c then (err x, s) else o)
  HasAll-if true x s o h = tt
  HasAll-if false x s o h = h

  saved-HasAll :
      (b : Batch) (o : Result StoreError (Unit {0}) × st.State)
      → length b.masked ≡ length texts
      → HasAll (batch_saved sort hash_text st io others b o)
  saved-HasAll b (err x, s) h = tt
  saved-HasAll b (ok u, s) h = h

  with-HasAll :
      (strategy : Option Strategy) (s : st.State)
      → HasAll (batch_with sort hash_text st io others e id texts opt strategy s)
  unfolding start_batch
  with-HasAll none s = tt
  with-HasAll (some strategy) s =
      saved-HasAll (mask_messages sort e opt strategy start_batch texts) _
        (omega (arith, length-mask_messages sort e opt strategy start_batch texts))

  loaded-HasAll :
      (o : Result StoreError (Option Record) × st.State)
      → HasAll (batch_loaded sort hash_text st io others e id texts opt o)
  loaded-HasAll (err x, s) = with-HasAll (resolve_strategy e opt.strategy) s
  loaded-HasAll (ok none, s) = with-HasAll (resolve_strategy e opt.strategy) s
  loaded-HasAll (ok (some rec), s) =
      HasAll-if (not (owns_record rec opt)) foreign_record s _
        (with-HasAll (resolve_strategy e opt.strategy) s)

  -- A batch that was masked has a masked text for each of its texts.
  pub mask_batch_ex-HasAll :
      (s s' : st.State) (b : MaskBatchResult)
      → mask_batch_ex sort hash_text st io others e id texts opt s ≡ (ok b, s')
      → length b.masked ≡ length texts
  unfolding mask_batch_ex
  mask_batch_ex-HasAll s s' b masked =
      subst HasAll masked (loaded-HasAll (st.load (io 0) id (others 0 s)))
