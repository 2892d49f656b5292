-- ===== src/Http/Chat.antt =====
-- internal/httpapi/chat.go: a chat completion is masked, answered by the gateway, and unmasked. The
-- gateway's call is Http/Llm.antt's.
pub mod Forwarded
pub mod Errors
use alfa_hakaton.Common.{
  ℕ, ◌+◌, Bool, not, ◌&&◌, ◌||◌, any, Bytes, bytes_eq, codes, List, [], ◌∷◌, map, Option, none,
  some, if◌then◌else◌,
}
use alfa_hakaton.Common.Result.{Result, ok, err}
use alfa_hakaton.Common.Sort.{SortSlice}
use alfa_hakaton.Store.Types.{Io}
use alfa_hakaton.Store.Api.{Store}
use alfa_hakaton.Auth.{System}
use alfa_hakaton.Engine.Types.{Options, Engine, EngineError, UnmaskResult}
use alfa_hakaton.Engine.Filter.{Counts}
use alfa_hakaton.Engine.Requests.{unmask_ex}
use alfa_hakaton.Engine.Batch.{MaskBatchResult, mask_batch_ex}
use alfa_hakaton.Http.Types.{
  Reply, failed, answered, Body, Refusal, read_json, is_store_error, is_foreign, store_unavailable,
}
use alfa_hakaton.Http.Systems.{ServerConfig, options_for, strategy_override}
use alfa_hakaton.Http.Handlers.{strategy_error}
use alfa_hakaton.Http.Llm.{
  ChatMessage, Usage, LlmError, timed_out, unreachable, read_failed, not_terminated, bad_status,
}

pub record ChatRequest : Type 0 where
  pub model : Bytes
  pub messages : List ChatMessage
  pub stream : Bool
  pub strategy : Bytes

-- `choices[0].message.content`, `usage` and the fields of `pdnInfo`.
pub record ChatResponse : Type 0 where
  pub content : Bytes
  pub usage : Usage
  pub masked_request : Bytes
  pub raw_answer : Bytes
  pub masked_count : ℕ
  pub unmasked : Bool

abbrev pub user_role : Bytes
user_role = codes "user"

abbrev pub allowed_roles : List Bytes
allowed_roles = codes "system" ∷ user_role ∷ codes "assistant" ∷ codes "tool" ∷ []

unfoldable pub messages_have_valid_roles : List ChatMessage → Bool
messages_have_valid_roles [] = Bool.true
messages_have_valid_roles (m ∷ messages) =
    if not (any (bytes_eq m.role) allowed_roles)
    then Bool.false
    else messages_have_valid_roles messages

-- `maskedMessages[i]` has the role of the i-th message and the i-th masked text.
unfoldable pub with_contents : List ChatMessage → List Bytes → List ChatMessage
with_contents [] texts = []
with_contents (m ∷ messages) [] = []
with_contents (m ∷ messages) (t ∷ texts) =
    (record { role = m.role; content = t }) ∷ with_contents messages texts

unfoldable pub count_found : Counts → ℕ
count_found [] = 0
count_found ((cat, n) ∷ found) = n + count_found found

-- The loop goes from the last message to the first.
unfoldable pub last_user_content : List ChatMessage → Bytes → Bytes
last_user_content [] last = last
last_user_content (m ∷ messages) last =
    last_user_content messages (if bytes_eq m.role user_role then m.content else last)

abbrev pub is_upstream_timeout : LlmError → Bool
is_upstream_timeout timed_out = Bool.true
is_upstream_timeout unreachable = Bool.false
is_upstream_timeout read_failed = Bool.false
is_upstream_timeout not_terminated = Bool.false
is_upstream_timeout (bad_status n) = Bool.false

unfoldable pub handle_llm_error : LlmError → Reply ChatResponse
handle_llm_error x =
    if is_upstream_timeout x
    then failed 504 (codes "llm timeout")
    else failed 502 (codes "llm unavailable")

-- The order of the tests is the source's.
unfoldable pub batch_error : EngineError → Reply ChatResponse
unfolding is_store_error
batch_error x =
    if is_store_error x
    then store_unavailable
    else if is_foreign x
    then failed 409 (codes "id already in use")
    else failed 500 (codes "masking failed")

module _ (sort : SortSlice) (hash_text : Bytes → Bytes) (e : Engine) (cfg : ServerConfig)
    (st : Store) (io : ℕ → Io) (others : ℕ → st.State → st.State)
    (llm : List ChatMessage → Result LlmError (Bytes × Usage)) (sys : System) where
  abbrev pub respond : List ChatMessage → Counts → Bytes → Usage → Bytes → ChatResponse
  respond sent found raw usage answer = record {
    content = answer;
    usage = usage;
    masked_request = last_user_content sent [];
    raw_answer = raw;
    masked_count = count_found found;
    unmasked = sys.unmask;
  }

  -- An error that is none of the store's leaves the answer as it came.
  abbrev pub unmask_answered :
      (Bytes → ChatResponse)
      → Bytes
      → Result EngineError UnmaskResult × st.State
      → Reply ChatResponse × st.State
  unmask_answered reply content (err x, s) =
      if is_store_error x then (store_unavailable, s) else (answered (reply content), s)
  unmask_answered reply content (ok u, s) = (answered (reply u.restored), s)

  abbrev pub unmask_answer :
      (Bytes → ChatResponse) → Bytes → Bytes → st.State → Reply ChatResponse × st.State
  unmask_answer reply id content s =
      if not sys.unmask
      then (answered (reply content), s)
      else unmask_answered reply content (
          unmask_ex sort st hash_text (λ n. io (2 + n)) (λ n. others (2 + n)) id content
            (options_for cfg sys) s)

  abbrev pub llm_called :
      Bytes
      → List ChatMessage
      → Counts
      → Result LlmError (Bytes × Usage)
      → st.State
      → Reply ChatResponse × st.State
  llm_called id sent found (err x) s = (handle_llm_error x, s)
  llm_called id sent found (ok (content, usage)) s =
      unmask_answer (respond sent found content usage) id content s

  abbrev pub batch_masked :
      Bytes
      → List ChatMessage
      → Result EngineError MaskBatchResult × st.State
      → Reply ChatResponse × st.State
  batch_masked id messages (err x, s) = (batch_error x, s)
  batch_masked id messages (ok b, s) =
      let sent = with_contents messages b.masked in llm_called id sent b.found (llm sent) s

  abbrev pub chat_with :
      List ChatMessage → Option Bytes → Result ℕ Bytes → st.State → Reply ChatResponse × st.State
  chat_with messages uuid (err status) s = (strategy_error status, s)
  chat_with messages none (ok strategy) s = (failed 500 (codes "id generation failed"), s)
  chat_with messages (some id) (ok strategy) s = batch_masked id messages (
      mask_batch_ex sort hash_text st io others e id (map (λ (m : ChatMessage). m.content) messages)
        (record (options_for cfg sys) { strategy = strategy }) s)

  abbrev no_messages : List ChatMessage → Bool
  no_messages [] = Bool.true
  no_messages (m ∷ messages) = Bool.false

  abbrev pub chat_read :
      Option Bytes → Result Refusal ChatRequest → st.State → Reply ChatResponse × st.State
  chat_read uuid (err x) s = (failed x.status x.message, s)
  chat_read uuid (ok req) s =
      if no_messages req.messages
      then (failed 400 (codes "messages are required"), s)
      else if not (messages_have_valid_roles req.messages)
      then (failed 400 (codes "unknown message role"), s)
      else chat_with req.messages uuid (strategy_override sys req.strategy) s

  unfoldable pub handle_chat :
      Option Bytes → Body ChatRequest → st.State → Reply ChatResponse × st.State
  handle_chat uuid body s = chat_read uuid (read_json body) s
