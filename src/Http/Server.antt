-- ===== src/Http/Server.antt =====
-- internal/httpapi/server.go: `wrap` around the handlers. Whether a slot is free is an argument here
-- (Http/Slots.antt has the slots); logs and metrics are left out.
pub mod Untouched
pub mod Access
use alfa_hakaton.Common.{ℕ, Bool, not, Bytes, codes, List, Option, none, some, if◌then◌else◌}
use alfa_hakaton.Common.Result.{Result}
use alfa_hakaton.Common.Sort.{SortSlice}
use alfa_hakaton.Store.Types.{Io}
use alfa_hakaton.Store.Api.{Store}
use alfa_hakaton.Auth.{
  System, Route, process_route, mask_route, unmask_route, chat_route, healthz_route, readyz_route,
  AuthResult, allowed, forbidden, unauthorized, authenticate,
}
use alfa_hakaton.Engine.Types.{Engine}
use alfa_hakaton.Http.Types.{Reply, failed, answered, Body}
use alfa_hakaton.Http.Systems.{ServerConfig}
use alfa_hakaton.Http.Handlers.{
  ProcessRequest, MaskRequest, UnmaskRequest, MaskResponse, UnmaskResponse, handle_process,
  handle_mask, handle_unmask,
}
use alfa_hakaton.Http.Llm.{ChatMessage, Usage, LlmError}
use alfa_hakaton.Http.Chat.{ChatRequest, ChatResponse, handle_chat}

pub data Request : Type 0 where
  process_request : Body ProcessRequest → Request
  mask_request : Body MaskRequest → Request
  unmask_request : Body UnmaskRequest → Request
  chat_request : Body ChatRequest → Request
  healthz_request : Request
  readyz_request : Request

pub data Answer : Type 0 where
  process_answer : Bytes → Answer
  mask_answer : MaskResponse → Answer
  unmask_answer : UnmaskResponse → Answer
  chat_answer : ChatResponse → Answer
  health_answer : Bytes → Answer

abbrev pub map_reply : {S A B : Type 0} → (A → B) → Reply A × S → Reply B × S
map_reply f (failed status message, s) = (failed status message, s)
map_reply f (answered a, s) = (answered (f a), s)

-- The headers with the system and its key.
pub record Headers : Type 0 where
  pub system : Bytes
  pub key : Bytes

-- The label of a request in metrics and logs; `none` before a system is known.
unfoldable pub system_label : Route → Option System → Bytes
system_label route (some sys) = sys.id
system_label healthz_route none = codes "public"
system_label readyz_route none = codes "public"
system_label process_route none = codes "unknown"
system_label mask_route none = codes "unknown"
system_label unmask_route none = codes "unknown"
system_label chat_route none = codes "unknown"

module _ (sort : SortSlice) (hash_text : Bytes → Bytes) (e : Engine) (cfg : ServerConfig)
    (getenv : Bytes → Bytes) (st : Store) (io : ℕ → Io) (others : ℕ → st.State → st.State)
    (ping : st.State → Bool) (llm : List ChatMessage → Result LlmError (Bytes × Usage))
    (uuid : Option Bytes) where
  -- The handler of a route, for the system that was let in.
  abbrev pub admitted :
      AuthResult
      → (System → st.State → Reply Answer × st.State)
      → st.State
      → Reply Answer × st.State
  admitted (allowed sys) handler s = handler sys s
  admitted forbidden handler s = (failed 403 (codes "system not allowed"), s)
  admitted unauthorized handler s = (failed 401 (codes "system not allowed"), s)

  abbrev pub auth_of : Route → Headers → AuthResult
  auth_of route h = authenticate cfg.systems cfg.default_system getenv route h.system h.key

  unfoldable pub handle_readyz : st.State → Reply Answer × st.State
  handle_readyz s =
      if not (ping s)
      then (failed 503 (codes "unavailable"), s)
      else (answered (health_answer (codes "ok")), s)

  -- A request that has its slot.
  unfoldable pub dispatch : Headers → Request → st.State → Reply Answer × st.State
  unfolding handle_readyz
  dispatch h (process_request body) s =
      admitted (auth_of process_route h)
        (λ sys s'.
          map_reply process_answer (handle_process sort hash_text e cfg st io others sys body s'))
        s
  dispatch h (mask_request body) s =
      admitted (auth_of mask_route h)
        (λ sys s'.
          map_reply mask_answer (handle_mask sort hash_text e cfg st io others sys uuid body s'))
        s
  dispatch h (unmask_request body) s =
      admitted (auth_of unmask_route h)
        (λ sys s'.
          map_reply unmask_answer (handle_unmask sort hash_text e cfg st io others sys body s'))
        s
  dispatch h (chat_request body) s =
      admitted (auth_of chat_route h)
        (λ sys s'.
          map_reply chat_answer
            (handle_chat sort hash_text e cfg st io others llm sys uuid body s'))
        s
  dispatch h healthz_request s = (answered (health_answer (codes "ok")), s)
  dispatch h readyz_request s = handle_readyz s

  unfoldable pub serve : Bool → Headers → Request → st.State → Reply Answer × st.State
  unfolding dispatch
  serve free h req s =
      if not free then (failed 429 (codes "too many requests"), s) else dispatch h req s
