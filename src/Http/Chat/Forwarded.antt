-- ===== src/Http/Chat/Forwarded.antt =====
-- internal/httpapi/chat.go: what is sent to the gateway, and what is sent back.
use alfa_hakaton.Common.{
  suc, length, [], ◌∷◌, ℕ, false, ◌+◌, ◌==◌, ◌≡◌, ◌⊎◌, refl, sym, ap, ◌∙◌, subst, true, not, Bytes,
  List, map, Option, none, some, Bool-cases, inl, inr, arith,
}
use alfa_hakaton.Common.Result.{Result, ok, err}
use alfa_hakaton.Common.Sort.{SortSlice}
use alfa_hakaton.Mask.Restore.{restore}
use alfa_hakaton.Store.Types.{Record, Io, StoreError}
use alfa_hakaton.Store.Api.{Store}
use alfa_hakaton.Auth.{System}
use alfa_hakaton.Engine.Types.{
  Engine, EngineError, not_found, looks_like_unmask, foreign_record, no_strategy, store_failed,
}
use alfa_hakaton.Engine.Masking.{owns_record}
use alfa_hakaton.Engine.Requests.{unmask_loaded, unmask_ex}
use alfa_hakaton.Engine.Batch.Laws.{mask_batch_ex-HasAll}
use alfa_hakaton.Engine.Batch.{MaskBatchResult, mask_batch_ex}
use alfa_hakaton.Http.Types.{Reply, failed, answered, decoded, read_json, is_store_error}
use alfa_hakaton.Http.Answered.{Answered, Answered-guard, Answered-either, Answered_at, IsRestored}
use alfa_hakaton.Http.Systems.{ServerConfig, options_for, strategy_override}
use alfa_hakaton.Http.Handlers.{strategy_error}
use alfa_hakaton.Http.Llm.{
  ChatMessage, Usage, LlmError, timed_out, unreachable, read_failed, not_terminated, bad_status,
}
use alfa_hakaton.Http.Chat.{
  ChatRequest, ChatResponse, with_contents, batch_error, handle_llm_error, respond, unmask_answered,
  unmask_answer, llm_called, batch_masked, chat_with, chat_read, handle_chat,
}

-- The messages that are sent have the roles of the messages and the masked contents, if these are as
-- many.
roles-with_contents :
    (messages : List ChatMessage) (texts : List Bytes)
    → length texts ≡ length messages
    → map (λ (m : ChatMessage). m.role) (with_contents messages texts)
      ≡ map (λ (m : ChatMessage). m.role) messages
unfolding with_contents
roles-with_contents [] texts h = refl
roles-with_contents (m ∷ messages) [] h = absurd (omega arith)
roles-with_contents (m ∷ messages) (t ∷ texts) h =
    ap (◌∷◌ m.role) (roles-with_contents messages texts (omega arith))

contents-with_contents :
    (messages : List ChatMessage) (texts : List Bytes)
    → length texts ≡ length messages
    → map (λ (m : ChatMessage). m.content) (with_contents messages texts) ≡ texts
unfolding with_contents
contents-with_contents [] [] h = refl
contents-with_contents [] (t ∷ texts) h = absurd (omega arith)
contents-with_contents (m ∷ messages) [] h = absurd (omega arith)
contents-with_contents (m ∷ messages) (t ∷ texts) h =
    ap (◌∷◌ t) (contents-with_contents messages texts (omega arith))

length-contents :
    (messages : List ChatMessage)
    → length (map (λ (m : ChatMessage). m.content) messages) ≡ length messages
length-contents [] = refl
length-contents (m ∷ messages) = ap suc (length-contents messages)

-- An error is no answer.
module _ {S : Type 0} (P : ChatResponse → Type 0) (s : S) where
  strategy_error-Answered : (status : ℕ) → Answered P (strategy_error status, s)
  unfolding strategy_error
  strategy_error-Answered status = elim (Bool-cases (status == 403)) [
    | inl e ↦ rw e tt
    | inr e ↦ rw e tt
  ]

  llm_error-Answered : (x : LlmError) → Answered P (handle_llm_error x, s)
  unfolding handle_llm_error
  llm_error-Answered timed_out = tt
  llm_error-Answered unreachable = tt
  llm_error-Answered read_failed = tt
  llm_error-Answered not_terminated = tt
  llm_error-Answered (bad_status n) = tt

  batch_error-Answered : (x : EngineError) → Answered P (batch_error x, s)
  unfolding batch_error
  batch_error-Answered not_found = tt
  batch_error-Answered looks_like_unmask = tt
  batch_error-Answered foreign_record = tt
  batch_error-Answered no_strategy = tt
  batch_error-Answered (store_failed x) = tt

module _ (sort : SortSlice) (hash_text : Bytes → Bytes) (e : Engine) (cfg : ServerConfig)
    (st : Store) (io : ℕ → Io) (others : ℕ → st.State → st.State)
    (llm : List ChatMessage → Result LlmError (Bytes × Usage)) (sys : System) where
  -- Nothing is restored for a system that may not unmask, nor if the store answers no record or one of
  -- another system.
  abbrev KeepsMasks : Result StoreError (Option Record) → Type 0
  KeepsMasks answer =
      (sys.unmask ≡ false)
      ⊎ ((answer ≡ ok none)
          ⊎ ((rec : Record) × (answer ≡ ok (some rec))
              × (owns_record rec (options_for cfg sys) ≡ false)))

  -- Then what is returned is the gateway's answer; otherwise it is what was restored from it.
  abbrev IsReturned : Result StoreError (Option Record) → Bytes → Bytes → Type 0
  IsReturned answer raw content =
      (KeepsMasks answer × (content ≡ raw))
      ⊎ ((misses : ℕ) × IsRestored sort cfg sys answer raw content misses)

  abbrev Returned : Result StoreError (Option Record) → Bytes → ChatResponse → Type 0
  Returned answer raw r = (r.raw_answer ≡ raw) × IsReturned answer raw r.content

  -- The store's answer to the load behind the gateway's call.
  abbrev answer_for : Bytes → st.State → Result StoreError (Option Record)
  answer_for id s = (st.load (io 2) id (others 2 s)).0

  -- Where an answer comes from: the masked messages of a batch that has been stored, answered by the
  -- gateway.
  pub record IsForwarded (uuid : Option Bytes) (req : ChatRequest) (s : st.State) (r : ChatResponse)
      : Type 0 where
    pub id : Bytes
    pub is_id : uuid ≡ some id
    pub strategy : Bytes
    pub is_strategy : strategy_override sys req.strategy ≡ ok strategy
    pub batch : MaskBatchResult
    pub saved : st.State
    pub raw_usage : Usage
    pub is_masked :
        mask_batch_ex sort hash_text st io others e id
          (map (λ (m : ChatMessage). m.content) req.messages)
          (record (options_for cfg sys) { strategy = strategy })
          s
        ≡ (ok batch, saved)
    pub sent : List ChatMessage
    pub have_roles :
        map (λ (m : ChatMessage). m.role) sent ≡ map (λ (m : ChatMessage). m.role) req.messages
    pub have_masked : map (λ (m : ChatMessage). m.content) sent ≡ batch.masked
    pub is_answered : llm sent ≡ ok (r.raw_answer, raw_usage)
    pub is_returned : IsReturned (answer_for id saved) r.raw_answer r.content

  unmask_answered-Returned :
      (sent : List ChatMessage) (b : MaskBatchResult) (content : Bytes) (usage : Usage)
      (o : Result StoreError (Option Record) × st.State)
      → sys.unmask ≡ true
      → Answered (Returned o.0 content) (
          unmask_answered sort hash_text e cfg st io others llm sys
            (respond sort hash_text e cfg st io others llm sys sent b.found content usage)
            content
            (unmask_loaded sort st hash_text
              (λ n. io (2 + n))
              (λ n. others (2 + n))
              content
              (options_for cfg sys)
              o))
  unfolding is_store_error
  unmask_answered-Returned sent b content usage (err x, s) h = tt
  unmask_answered-Returned sent b content usage (ok none, s) h = (refl, inl (inr (inl refl), refl))
  unmask_answered-Returned sent b content usage (ok (some rec), s) h =
      elim (Bool-cases (owns_record rec (options_for cfg sys))) [
        | inl mine ↦
            let from : (misses : ℕ) × IsRestored sort cfg sys (ok (some rec)) content
                  (restore sort content rec.replacements).0 misses =
              (
                (restore sort content rec.replacements).1,
                record {
                  is_permitted = h;
                  rec = rec;
                  is_answered = refl;
                  is_owned = mine;
                  is_restored = refl;
                },
              ) in
            rw mine (refl, inr from)
        | inr other ↦ rw other (refl, inl (inr (inr (rec, refl, other)), refl))
      ]

  answer-Returned :
      (id : Bytes) (sent : List ChatMessage) (b : MaskBatchResult) (content : Bytes) (usage : Usage)
      (s : st.State)
      → Answered (Returned (answer_for id s) content) (
          unmask_answer sort hash_text e cfg st io others llm sys
            (respond sort hash_text e cfg st io others llm sys sent b.found content usage)
            id
            content
            s)
  unfolding unmask_ex
  answer-Returned id sent b content usage s =
      Answered-either (Returned (answer_for id s) content) (not sys.unmask) _ _ s _
        (λ refused. (refl, inl (inl (ground arith), refl)))
        λ allowed.
          unmask_answered-Returned sent b content usage (st.load (io 2) id (others 2 s))
            (ground arith)

  module _ (uuid : Option Bytes) (req : ChatRequest) (s : st.State) where
    abbrev messages : List ChatMessage
    messages = req.messages

    as_many :
        (texts : List Bytes)
        → length texts ≡ length (map (λ (m : ChatMessage). m.content) messages)
        → length texts ≡ length messages
    as_many texts h = h ∙ length-contents messages

    Forwarded-Returned :
        (id strategy : Bytes) (b : MaskBatchResult) (saved : st.State) (content : Bytes)
        (usage : Usage) (o : Reply ChatResponse × st.State)
        → mask_batch_ex sort hash_text st io others e id
            (map (λ (m : ChatMessage). m.content) messages)
            (record (options_for cfg sys) { strategy = strategy })
            s
          ≡ (ok b, saved)
        → llm (with_contents messages b.masked) ≡ ok (content, usage)
        → uuid ≡ some id
        → strategy_override sys req.strategy ≡ ok strategy
        → Answered (Returned (answer_for id saved) content) o
        → Answered (IsForwarded uuid req s) o
    Forwarded-Returned id strategy b saved content usage (failed status message, s') masked got
          named chosen h =
        tt
    Forwarded-Returned id strategy b saved content usage (answered r, s') masked got named chosen
          h =
        record {
          id = id;
          is_id = named;
          strategy = strategy;
          is_strategy = chosen;
          batch = b;
          saved = saved;
          raw_usage = usage;
          is_masked = masked;
          sent = with_contents messages b.masked;
          have_roles = roles-with_contents messages b.masked (
              as_many b.masked (
                mask_batch_ex-HasAll sort hash_text st io others e id
                  (map (λ (m : ChatMessage). m.content) messages)
                  (record (options_for cfg sys) { strategy = strategy }) s saved b masked));
          have_masked = contents-with_contents messages b.masked (
              as_many b.masked (
                mask_batch_ex-HasAll sort hash_text st io others e id
                  (map (λ (m : ChatMessage). m.content) messages)
                  (record (options_for cfg sys) { strategy = strategy }) s saved b masked));
          is_answered = got ∙ ap (λ c. ok (c, usage)) (sym h.0);
          is_returned = subst (λ c. IsReturned (answer_for id saved) c r.content) (sym h.0) h.1;
        }

    llm_called-Forwarded :
        (id strategy : Bytes) (b : MaskBatchResult) (saved : st.State)
        (got : Result LlmError (Bytes × Usage))
        → mask_batch_ex sort hash_text st io others e id
            (map (λ (m : ChatMessage). m.content) messages)
            (record (options_for cfg sys) { strategy = strategy })
            s
          ≡ (ok b, saved)
        → llm (with_contents messages b.masked) ≡ got
        → uuid ≡ some id
        → strategy_override sys req.strategy ≡ ok strategy
        → Answered (IsForwarded uuid req s) (
            llm_called sort hash_text e cfg st io others llm sys id
              (with_contents messages b.masked)
              b.found
              got
              saved)
    llm_called-Forwarded id strategy b saved (err x) masked sent named chosen =
        llm_error-Answered (IsForwarded uuid req s) saved x
    llm_called-Forwarded id strategy b saved (ok (content, usage)) masked sent named chosen =
        Forwarded-Returned id strategy b saved content usage _ masked sent named chosen
          (answer-Returned id (with_contents messages b.masked) b content usage saved)

    batch_masked-Forwarded :
        (id strategy : Bytes) (o : Result EngineError MaskBatchResult × st.State)
        → mask_batch_ex sort hash_text st io others e id
            (map (λ (m : ChatMessage). m.content) messages)
            (record (options_for cfg sys) { strategy = strategy })
            s
          ≡ o
        → uuid ≡ some id
        → strategy_override sys req.strategy ≡ ok strategy
        → Answered
            (IsForwarded uuid req s)
            (batch_masked sort hash_text e cfg st io others llm sys id messages o)
    batch_masked-Forwarded id strategy (err x, s') masked named chosen =
        batch_error-Answered (IsForwarded uuid req s) s' x
    batch_masked-Forwarded id strategy (ok b, s') masked named chosen =
        llm_called-Forwarded id strategy b s' (llm (with_contents messages b.masked)) masked refl
          named chosen

    chat_with-Forwarded :
        (named : Option Bytes) (strategy : Result ℕ Bytes)
        → uuid ≡ named
        → strategy_override sys req.strategy ≡ strategy
        → Answered
            (IsForwarded uuid req s)
            (chat_with sort hash_text e cfg st io others llm sys messages named strategy s)
    chat_with-Forwarded named (err status) is_id chosen =
        strategy_error-Answered (IsForwarded uuid req s) s status
    chat_with-Forwarded none (ok strategy) is_id chosen = tt
    chat_with-Forwarded (some id) (ok strategy) is_id chosen =
        batch_masked-Forwarded id strategy _ refl is_id chosen

  read-Forwarded :
      (uuid : Option Bytes) (req : ChatRequest) (s : st.State)
      → Answered
          (IsForwarded uuid req s)
          (chat_read sort hash_text e cfg st io others llm sys uuid (ok req) s)
  read-Forwarded uuid req s = search (
    Answered-guard,
    chat_with-Forwarded uuid req s uuid (strategy_override sys req.strategy) refl refl,
  )

  -- An answer to a chat request whose body decodes: the contents of its messages were masked as one
  -- batch under the new id, by a call of MaskBatchEx that succeeded before the gateway was called; the
  -- gateway was sent the masked contents under the roles of the messages, and nothing else of them; and
  -- what is sent back depends on the store's answer to a load of that id afterwards. For a system that
  -- may unmask and owns the record that was answered, it is what `Restore` makes of the gateway's answer
  -- with that record. For a system that may not, or if the record is gone or another system's, it is
  -- the gateway's answer as it came.
  pub handle_chat-IsForwarded :
      (uuid : Option Bytes) (req : ChatRequest) (s : st.State) (r : ChatResponse)
      → (handle_chat sort hash_text e cfg st io others llm sys uuid (decoded req) s).0 ≡ answered r
      → IsForwarded uuid req s r
  unfolding handle_chat read_json
  handle_chat-IsForwarded uuid req s r sent =
      Answered_at (IsForwarded uuid req s) _ r sent (read-Forwarded uuid req s)
