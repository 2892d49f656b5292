-- ===== src/Http/Server/Access.antt =====
-- internal/httpapi: who gets restored values from /unmask.
use alfa_hakaton.Common.{
  ℕ, ◌≡◌, refl, Bool, true, not, Bytes, List, Option, none, some, Bool-cases, inl, inr, arith,
}
use alfa_hakaton.Common.Result.{Result, ok, err}
use alfa_hakaton.Common.Sort.{SortSlice}
use alfa_hakaton.Store.Types.{Record, Io, StoreError}
use alfa_hakaton.Store.Api.{Store}
use alfa_hakaton.Auth.{System, unmask_route, AuthResult, allowed, forbidden, unauthorized}
use alfa_hakaton.Engine.Types.{Engine}
use alfa_hakaton.Engine.Masking.{owns_record}
use alfa_hakaton.Engine.Requests.{unmask_loaded, unmask_ex}
use alfa_hakaton.Http.Types.{
  Reply, failed, answered, Body, too_large, invalid_json, trailing_data, decoded, read_json,
  is_store_error,
}
use alfa_hakaton.Http.Answered.{Answered, Answered-guard, Answered-passed, Answered_at, IsRestored}
use alfa_hakaton.Http.Systems.{ServerConfig, options_for}
use alfa_hakaton.Http.Handlers
use alfa_hakaton.Http.Handlers.{UnmaskRequest, UnmaskResponse}
use alfa_hakaton.Http.Llm.{ChatMessage, Usage, LlmError}
use alfa_hakaton.Http.Server.{
  Answer, process_answer, mask_answer, unmask_answer, chat_answer, health_answer, Headers,
  unmask_request, map_reply, auth_of, admitted, dispatch, serve,
}

module _ (sort : SortSlice) (hash_text : Bytes → Bytes) (e : Engine) (cfg : ServerConfig)
    (st : Store) (io : ℕ → Io) (others : ℕ → st.State → st.State) (sys : System) where
  -- Restored by the answer of the store's load.
  abbrev Restored : Result StoreError (Option Record) → Bytes → UnmaskResponse → Type 0
  Restored answer text u = IsRestored sort cfg sys answer text u.text u.misses

  -- What the store answers to the load of the request.
  abbrev answer_for : UnmaskRequest → st.State → Result StoreError (Option Record)
  answer_for req s = (st.load (io 0) req.id (others 0 s)).0

  unmasked-Restored :
      (text : Bytes) (o : Result StoreError (Option Record) × st.State)
      → sys.unmask ≡ true
      → Answered (Restored o.0 text) (
          Handlers.unmasked sort hash_text e cfg st io others sys
            (unmask_loaded sort st hash_text io others text (options_for cfg sys) o))
  unfolding is_store_error
  unmasked-Restored text (err x, s) h = tt
  unmasked-Restored text (ok none, s) h = tt
  unmasked-Restored text (ok (some rec), s) h =
      elim (Bool-cases (owns_record rec (options_for cfg sys))) [
        | inl mine ↦ rw mine (record {
          is_permitted = h;
          rec = rec;
          is_answered = refl;
          is_owned = mine;
          is_restored = refl;
        })
        | inr other ↦ rw other tt
      ]

  -- Whatever the body was, an answer restores its text.
  abbrev FromBody : Body UnmaskRequest → st.State → UnmaskResponse → Type 0
  FromBody body s u =
      (req : UnmaskRequest) × (body ≡ decoded req) × Restored (answer_for req s) req.text u

  from_body :
      (req : UnmaskRequest) (s : st.State) (r : Reply UnmaskResponse × st.State)
      → Answered (Restored (answer_for req s) req.text) r
      → Answered (FromBody (decoded req) s) r
  from_body req s (failed status message, s') h = tt
  from_body req s (answered u, s') h = (req, refl, h)

  read-Restored :
      (req : UnmaskRequest) (s : st.State)
      → sys.unmask ≡ true
      → Answered
          (Restored (answer_for req s) req.text)
          (Handlers.unmask_read sort hash_text e cfg st io others sys (ok req) s)
  unfolding unmask_ex
  read-Restored req s h =
      search (Answered-guard, unmasked-Restored req.text (st.load (io 0) req.id (others 0 s)) h)

  unmask-Restored :
      (body : Body UnmaskRequest) (s : st.State)
      → sys.unmask ≡ true
      → Answered
          (FromBody body s)
          (Handlers.unmask_read sort hash_text e cfg st io others sys (read_json body) s)
  unfolding read_json
  unmask-Restored too_large s h = tt
  unmask-Restored invalid_json s h = tt
  unmask-Restored (trailing_data req) s h = tt
  unmask-Restored (decoded req) s h = from_body req s _ (read-Restored req s h)

  handle_unmask-Restored :
      (body : Body UnmaskRequest) (s : st.State)
      → Answered
          (FromBody body s)
          (Handlers.handle_unmask sort hash_text e cfg st io others sys body s)
  unfolding Handlers.handle_unmask
  handle_unmask-Restored body s =
      Answered-passed (FromBody body s) (not sys.unmask) _ _ _ _
        (λ passed. unmask-Restored body s (ground arith))

-- What is said of an answer is said of it as the server's.
Answered-map_reply :
    {A S : Type 0} (f : A → Answer) (P : A → Type 0) (Q : Answer → Type 0) (o : Reply A × S)
    → ((a : A) → P a → Q (f a))
    → Answered P o
    → Answered Q (map_reply f o)
Answered-map_reply f P Q (failed status message, s) g h = tt
Answered-map_reply f P Q (answered a, s) g h = g a h

module _ (sort : SortSlice) (hash_text : Bytes → Bytes) (e : Engine) (cfg : ServerConfig)
    (getenv : Bytes → Bytes) (st : Store) (io : ℕ → Io) (others : ℕ → st.State → st.State)
    (ping : st.State → Bool) (llm : List ChatMessage → Result LlmError (Bytes × Usage))
    (uuid : Option Bytes) where
  abbrev IsAuthorized : Headers → Body UnmaskRequest → st.State → UnmaskResponse → Type 0
  IsAuthorized h body s u =
      (sys : System) × (auth_of sort hash_text e cfg getenv st io others ping llm uuid unmask_route
          h
        ≡ allowed sys)
      × FromBody sort hash_text e cfg st io others sys body s u

  abbrev OfUnmask : Headers → Body UnmaskRequest → st.State → Answer → Type 0
  OfUnmask h body s (process_answer r) = Unit
  OfUnmask h body s (mask_answer r) = Unit
  OfUnmask h body s (unmask_answer u) = IsAuthorized h body s u
  OfUnmask h body s (chat_answer r) = Unit
  OfUnmask h body s (health_answer r) = Unit

  admitted-Authorized :
      (h : Headers) (body : Body UnmaskRequest) (s : st.State) (auth : AuthResult)
      → auth_of sort hash_text e cfg getenv st io others ping llm uuid unmask_route h ≡ auth
      → Answered (OfUnmask h body s) (
          admitted sort hash_text e cfg getenv st io others ping llm uuid auth
            (λ sys s'.
              map_reply unmask_answer
                (Handlers.handle_unmask sort hash_text e cfg st io others sys body s'))
            s)
  admitted-Authorized h body s (allowed sys) let_in =
      Answered-map_reply unmask_answer (FromBody sort hash_text e cfg st io others sys body s)
        (OfUnmask h body s) _ (λ u from. (sys, let_in, from))
        (handle_unmask-Restored sort hash_text e cfg st io others sys body s)
  admitted-Authorized h body s forbidden let_in = tt
  admitted-Authorized h body s unauthorized let_in = tt

  -- Whatever the store answers and whatever other requests do to it meanwhile: an answer of /unmask is
  -- for a system that was let in on that route and has the permission to unmask, and it is what
  -- `Restore` makes of the text of the request with the record that the store answered to the load of
  -- the id of the request, which is the system's own.
  pub serve_unmask :
      (free : Bool) (h : Headers) (body : Body UnmaskRequest) (s : st.State) (u : UnmaskResponse)
      → (serve sort hash_text e cfg getenv st io others ping llm uuid free h
          (unmask_request body)
          s).0
        ≡ answered (unmask_answer u)
      → (sys : System) × (auth_of sort hash_text e cfg getenv st io others ping llm uuid
            unmask_route h
          ≡ allowed sys)
        × ((req : UnmaskRequest) × (body ≡ decoded req)
            × IsRestored sort cfg sys
                (st.load (io 0) req.id (others 0 s)).0
                req.text
                u.text
                u.misses)
  unfolding serve dispatch
  serve_unmask free h body s u sent =
      Answered_at (OfUnmask h body s) _ (unmask_answer u) sent (
        Answered-guard (OfUnmask h body s) (not free) _ _ _ _ (admitted-Authorized h body s _ refl))
