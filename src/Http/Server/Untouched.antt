-- ===== src/Http/Server/Untouched.antt =====
-- internal/httpapi: what a refused request leaves alone.
use alfa_hakaton.Common.{
  ℕ, ◌≡◌, refl, subst, Bool, true, false, not, ◌==◌, ◌||◌, ltb, Bytes, List, Option, none, some,
  if◌then◌else◌, Bool-cases, inl, inr,
}
use alfa_hakaton.Common.Result.{Result, ok, err}
use alfa_hakaton.Common.Sort.{SortSlice}
use alfa_hakaton.Store.Types.{Io}
use alfa_hakaton.Store.Api.{Store}
use alfa_hakaton.Auth.{
  System, process_route, mask_route, unmask_route, chat_route, AuthResult, allowed, forbidden,
  unauthorized,
}
use alfa_hakaton.Engine.Types.{
  Engine, EngineError, not_found, looks_like_unmask, foreign_record, no_strategy, store_failed,
  MaskResult, UnmaskResult, ProcessResult,
}
use alfa_hakaton.Engine.Batch.{MaskBatchResult}
use alfa_hakaton.Http.Types.{
  Reply, failed, answered, Body, too_large, invalid_json, trailing_data, decoded, read_json,
  is_store_error,
}
use alfa_hakaton.Http.Systems.{ServerConfig}
use alfa_hakaton.Http.Handlers
use alfa_hakaton.Http.Handlers.{handle_process_error, handle_mask_error}
use alfa_hakaton.Http.Llm.{
  ChatMessage, Usage, LlmError, timed_out, unreachable, read_failed, not_terminated, bad_status,
}
use alfa_hakaton.Http.Chat
use alfa_hakaton.Http.Server.{
  Request, Answer, Headers, map_reply, process_request, mask_request, unmask_request, chat_request,
  healthz_request, readyz_request, process_answer, mask_answer, unmask_answer, chat_answer, auth_of,
  admitted, handle_readyz, dispatch, serve,
}

-- The statuses of a request that is refused for its form, its system or the load: 400, 401, 403, 413
-- and 429.
abbrev pub is_early : ℕ → Bool
is_early status = ltb status 404 || (status == 413 || status == 429)

module _ {S A : Type 0} where
  -- A refusal with such a status has not touched the state.
  abbrev Keeps : S → Reply A × S → Type 0
  Keeps s (failed status message, s') = is_early status ≡ true → s' ≡ s
  Keeps s (answered a, s') = Unit

  Keeps-same : (s : S) (r : Reply A) → Keeps s (r, s)
  Keeps-same s (failed status message) = λ h. refl
  Keeps-same s (answered a) = tt

  -- A test that refuses before anything is done.
  Keeps-guard :
      (s : S) (b : Bool) (status : ℕ) (message : Bytes) (o : Reply A × S)
      → Keeps s o
      → Keeps s (if b then (failed status message, s) else o)
  Keeps-guard s true status message o h = λ k. refl
  Keeps-guard s false status message o h = h

  Keeps-refused :
      (s : S) (o : Reply A × S) (status : ℕ) (message : Bytes)
      → Keeps s o
      → o.0 ≡ failed status message
      → is_early status ≡ true
      → o.1 ≡ s
  Keeps-refused s o status message h e early = subst (λ r. Keeps s (r, o.1)) e h early

Keeps-map_reply :
    {S A B : Type 0} (f : A → B) (s : S) (o : Reply A × S) → Keeps s o → Keeps s (map_reply f o)
Keeps-map_reply f s (failed status message, s') h = h
Keeps-map_reply f s (answered a, s') h = tt

module _ {S : Type 0} (A : Type 0) (s s' : S) where
  process_error-Keeps : (x : EngineError) → Keeps {A = A} s (handle_process_error x, s')
  unfolding handle_process_error
  process_error-Keeps not_found = λ h. cc
  process_error-Keeps looks_like_unmask = λ h. cc
  process_error-Keeps foreign_record = λ h. cc
  process_error-Keeps no_strategy = λ h. cc
  process_error-Keeps (store_failed x) = λ h. cc

  mask_error-Keeps : (x : EngineError) → Keeps {A = A} s (handle_mask_error x, s')
  unfolding handle_mask_error
  mask_error-Keeps not_found = λ h. cc
  mask_error-Keeps looks_like_unmask = λ h. cc
  mask_error-Keeps foreign_record = λ h. cc
  mask_error-Keeps no_strategy = λ h. cc
  mask_error-Keeps (store_failed x) = λ h. cc

batch_error-Keeps : {S : Type 0} (s s' : S) (x : EngineError) → Keeps s (Chat.batch_error x, s')
unfolding Chat.batch_error
batch_error-Keeps s s' not_found = λ h. cc
batch_error-Keeps s s' looks_like_unmask = λ h. cc
batch_error-Keeps s s' foreign_record = λ h. cc
batch_error-Keeps s s' no_strategy = λ h. cc
batch_error-Keeps s s' (store_failed x) = λ h. cc

llm_error-Keeps : {S : Type 0} (s s' : S) (x : LlmError) → Keeps s (Chat.handle_llm_error x, s')
unfolding Chat.handle_llm_error
llm_error-Keeps s s' timed_out = λ h. cc
llm_error-Keeps s s' unreachable = λ h. cc
llm_error-Keeps s s' read_failed = λ h. cc
llm_error-Keeps s s' not_terminated = λ h. cc
llm_error-Keeps s s' (bad_status n) = λ h. cc

module _ (sort : SortSlice) (hash_text : Bytes → Bytes) (e : Engine) (cfg : ServerConfig)
    (st : Store) (io : ℕ → Io) (others : ℕ → st.State → st.State) (sys : System) where
  processed-Keeps :
      (s : st.State) (o : Result EngineError ProcessResult × st.State)
      → Keeps s (Handlers.processed sort hash_text e cfg st io others sys o)
  processed-Keeps s (err x, s') = process_error-Keeps Bytes s s' x
  processed-Keeps s (ok r, s') = tt

  payload-Keeps :
      (payload : Option Bytes) (id : Bytes) (s : st.State)
      → Keeps s (Handlers.process_payload sort hash_text e cfg st io others sys payload id s)
  payload-Keeps none id s = λ h. refl
  payload-Keeps (some payload) id s = search (Keeps-guard, processed-Keeps s)

  process-Keeps :
      (body : Body Handlers.ProcessRequest) (s : st.State)
      → Keeps s (Handlers.handle_process sort hash_text e cfg st io others sys body s)
  unfolding Handlers.handle_process read_json
  process-Keeps too_large s = λ h. refl
  process-Keeps invalid_json s = λ h. refl
  process-Keeps (trailing_data req) s = λ h. refl
  process-Keeps (decoded req) s = payload-Keeps req.payload req.payload_id s

  masked-Keeps :
      (id strategy : Bytes) (s : st.State) (o : Result EngineError MaskResult × st.State)
      → Keeps s (Handlers.masked sort hash_text e cfg st io others sys id strategy o)
  masked-Keeps id strategy s (err x, s') = mask_error-Keeps Handlers.MaskResponse s s' x
  masked-Keeps id strategy s (ok m, s') = tt

  mask_with-Keeps :
      (text : Bytes) (id : Option Bytes) (strategy : Result ℕ Bytes) (s : st.State)
      → Keeps s (Handlers.mask_with sort hash_text e cfg st io others sys text id strategy s)
  mask_with-Keeps text none strategy s = λ h. refl
  mask_with-Keeps text (some id) (err status) s = Keeps-same s _
  mask_with-Keeps text (some id) (ok strategy) s = masked-Keeps id strategy s _

  mask-Keeps :
      (uuid : Option Bytes) (body : Body Handlers.MaskRequest) (s : st.State)
      → Keeps s (Handlers.handle_mask sort hash_text e cfg st io others sys uuid body s)
  unfolding Handlers.handle_mask read_json
  mask-Keeps uuid too_large s = λ h. refl
  mask-Keeps uuid invalid_json s = λ h. refl
  mask-Keeps uuid (trailing_data req) s = λ h. refl
  mask-Keeps uuid (decoded req) s = search (Keeps-guard, mask_with-Keeps)

  unmasked-Keeps :
      (s : st.State) (o : Result EngineError UnmaskResult × st.State)
      → Keeps s (Handlers.unmasked sort hash_text e cfg st io others sys o)
  unfolding is_store_error
  unmasked-Keeps s (err not_found, s') = λ h. cc
  unmasked-Keeps s (err looks_like_unmask, s') = λ h. cc
  unmasked-Keeps s (err foreign_record, s') = λ h. cc
  unmasked-Keeps s (err no_strategy, s') = λ h. cc
  unmasked-Keeps s (err (store_failed x), s') = λ h. cc
  unmasked-Keeps s (ok u, s') = tt

  unmask-Keeps :
      (body : Body Handlers.UnmaskRequest) (s : st.State)
      → Keeps s (Handlers.handle_unmask sort hash_text e cfg st io others sys body s)
  unfolding Handlers.handle_unmask read_json
  unmask-Keeps too_large s = search Keeps-guard
  unmask-Keeps invalid_json s = search Keeps-guard
  unmask-Keeps (trailing_data req) s = search Keeps-guard
  unmask-Keeps (decoded req) s = search (Keeps-guard, unmasked-Keeps)

  module _ (llm : List ChatMessage → Result LlmError (Bytes × Usage)) where
    answered-Keeps :
        (reply : Bytes → Chat.ChatResponse) (content : Bytes) (s : st.State)
        (o : Result EngineError UnmaskResult × st.State)
        → Keeps s (Chat.unmask_answered sort hash_text e cfg st io others llm sys reply content o)
    unfolding is_store_error
    answered-Keeps reply content s (err not_found, s') = tt
    answered-Keeps reply content s (err looks_like_unmask, s') = λ h. cc
    answered-Keeps reply content s (err foreign_record, s') = λ h. cc
    answered-Keeps reply content s (err no_strategy, s') = λ h. cc
    answered-Keeps reply content s (err (store_failed x), s') = λ h. cc
    answered-Keeps reply content s (ok u, s') = tt

    answer-Keeps :
        (reply : Bytes → Chat.ChatResponse) (id content : Bytes) (s s' : st.State)
        → Keeps s (Chat.unmask_answer sort hash_text e cfg st io others llm sys reply id content s')
    answer-Keeps reply id content s s' = elim (Bool-cases sys.unmask) [
      | inl e ↦ rw e (answered-Keeps reply content s _)
      | inr e ↦ rw e tt
    ]

    llm_called-Keeps :
        (id : Bytes) (sent : List ChatMessage) (b : MaskBatchResult)
        (answer : Result LlmError (Bytes × Usage)) (s s' : st.State)
        → Keeps s
            (Chat.llm_called sort hash_text e cfg st io others llm sys id sent b.found answer s')
    llm_called-Keeps id sent b (err x) s s' = llm_error-Keeps s s' x
    llm_called-Keeps id sent b (ok (content, usage)) s s' =
        answer-Keeps
          (Chat.respond sort hash_text e cfg st io others llm sys sent b.found content usage) id
          content s s'

    batch-Keeps :
        (id : Bytes) (messages : List ChatMessage) (s : st.State)
        (o : Result EngineError MaskBatchResult × st.State)
        → Keeps s (Chat.batch_masked sort hash_text e cfg st io others llm sys id messages o)
    batch-Keeps id messages s (err x, s') = batch_error-Keeps s s' x
    batch-Keeps id messages s (ok b, s') =
        let sent = Chat.with_contents messages b.masked in
        llm_called-Keeps id sent b (llm sent) s s'

    chat_with-Keeps :
        (messages : List ChatMessage) (uuid : Option Bytes) (strategy : Result ℕ Bytes)
        (s : st.State)
        → Keeps s
            (Chat.chat_with sort hash_text e cfg st io others llm sys messages uuid strategy s)
    chat_with-Keeps messages uuid (err status) s = Keeps-same s _
    chat_with-Keeps messages none (ok strategy) s = λ h. refl
    chat_with-Keeps messages (some id) (ok strategy) s = batch-Keeps id messages s _

    chat-Keeps :
        (uuid : Option Bytes) (body : Body Chat.ChatRequest) (s : st.State)
        → Keeps s (Chat.handle_chat sort hash_text e cfg st io others llm sys uuid body s)
    unfolding Chat.handle_chat read_json
    chat-Keeps uuid too_large s = λ h. refl
    chat-Keeps uuid invalid_json s = λ h. refl
    chat-Keeps uuid (trailing_data req) s = λ h. refl
    chat-Keeps uuid (decoded req) s = search (Keeps-guard, chat_with-Keeps)

module _ (sort : SortSlice) (hash_text : Bytes → Bytes) (e : Engine) (cfg : ServerConfig)
    (getenv : Bytes → Bytes) (st : Store) (io : ℕ → Io) (others : ℕ → st.State → st.State)
    (ping : st.State → Bool) (llm : List ChatMessage → Result LlmError (Bytes × Usage))
    (uuid : Option Bytes) where
  admitted-Keeps :
      {A : Type 0} (f : A → Answer) (g : System → st.State → Reply A × st.State) (auth : AuthResult)
      (s : st.State)
      → ((sys : System) → Keeps s (g sys s))
      → Keeps s (
          admitted sort hash_text e cfg getenv st io others ping llm uuid auth
            (λ sys s'. map_reply f (g sys s'))
            s)
  admitted-Keeps f g (allowed sys) s keeps = Keeps-map_reply f s (g sys s) (keeps sys)
  admitted-Keeps f g forbidden s keeps = λ h. refl
  admitted-Keeps f g unauthorized s keeps = λ h. refl

  readyz-Keeps :
      (s : st.State)
      → Keeps s (handle_readyz sort hash_text e cfg getenv st io others ping llm uuid s)
  unfolding handle_readyz
  readyz-Keeps s = elim (Bool-cases (ping s)) [ inl up ↦ rw up tt | inr down ↦ rw down (λ h. refl) ]

  dispatch-Keeps :
      (h : Headers) (req : Request) (s : st.State)
      → Keeps s (dispatch sort hash_text e cfg getenv st io others ping llm uuid h req s)
  unfolding dispatch
  dispatch-Keeps h (process_request body) s =
      admitted-Keeps process_answer
        (λ sys. Handlers.handle_process sort hash_text e cfg st io others sys body)
        (auth_of sort hash_text e cfg getenv st io others ping llm uuid process_route h) s
        (λ sys. process-Keeps sort hash_text e cfg st io others sys body s)
  dispatch-Keeps h (mask_request body) s =
      admitted-Keeps mask_answer
        (λ sys. Handlers.handle_mask sort hash_text e cfg st io others sys uuid body)
        (auth_of sort hash_text e cfg getenv st io others ping llm uuid mask_route h) s
        (λ sys. mask-Keeps sort hash_text e cfg st io others sys uuid body s)
  dispatch-Keeps h (unmask_request body) s =
      admitted-Keeps unmask_answer
        (λ sys. Handlers.handle_unmask sort hash_text e cfg st io others sys body)
        (auth_of sort hash_text e cfg getenv st io others ping llm uuid unmask_route h) s
        (λ sys. unmask-Keeps sort hash_text e cfg st io others sys body s)
  dispatch-Keeps h (chat_request body) s =
      admitted-Keeps chat_answer
        (λ sys. Chat.handle_chat sort hash_text e cfg st io others llm sys uuid body)
        (auth_of sort hash_text e cfg getenv st io others ping llm uuid chat_route h) s
        (λ sys. chat-Keeps sort hash_text e cfg st io others sys llm uuid body s)
  dispatch-Keeps h healthz_request s = tt
  dispatch-Keeps h readyz_request s = readyz-Keeps s

  -- A request to any route that is refused with status 400, 401, 403, 413 or 429 has not touched the
  -- store, whatever it asked for and whatever other requests would have done meanwhile.
  pub serve_refused :
      (free : Bool) (h : Headers) (req : Request) (s : st.State) (status : ℕ) (message : Bytes)
      → (serve sort hash_text e cfg getenv st io others ping llm uuid free h req s).0
        ≡ failed status message
      → is_early status ≡ true
      → (serve sort hash_text e cfg getenv st io others ping llm uuid free h req s).1 ≡ s
  unfolding serve
  serve_refused free h req s status message e early =
      Keeps-refused s _ status message (Keeps-guard s (not free) _ _ _ (dispatch-Keeps h req s)) e
        early
