-- ===== src/Tests/Serving.antt =====
-- Requests that are served, and the slots and streams around them.
use alfa_hakaton.Common.{
  ◌≡◌, ◌≤◌, refl, true, false, Bytes, bytes_eq, bytes_eq_refl, codes, List, [], ◌∷◌, Option, none,
  some, length,
}
use alfa_hakaton.Common.Int.{pos}
use alfa_hakaton.Common.Result.{Result, ok}
use alfa_hakaton.Auth.{is_empty, System, unmask_route, allowed, authenticate}
use alfa_hakaton.Store.Memory.{Items}
use alfa_hakaton.Engine.Masking.{owns_record}
use alfa_hakaton.Engine.Requests.{mask_ex}
use alfa_hakaton.Engine.Process.Contract.{alone}
use alfa_hakaton.Http.Types.{failed, answered, invalid_json, decoded, read_json, valid_payload_id}
use alfa_hakaton.Http.Answered.{IsRestored}
use alfa_hakaton.Http.Systems.{ServerConfig, options_for, strategy_override}
use alfa_hakaton.Http.Handlers.{MaskRequest, UnmaskRequest, handle_unmask, handle_mask}
use alfa_hakaton.Http.Llm.{ChatMessage, Usage, no_usage, SseChunk, Stream, LlmError, read_sse}
use alfa_hakaton.Http.Llm.Laws.{
  chunk_contents, finished, last_usage, verdict, ending, texts, said, read_sse_lem,
}
use alfa_hakaton.Http.Chat.{ChatRequest, messages_have_valid_roles, handle_chat}
use alfa_hakaton.Http.Chat.Errors.{handle_mask_of_mask, handle_chat_foreign}
use alfa_hakaton.Http.Server.{Headers, unmask_request, unmask_answer, auth_of, dispatch, serve}
use alfa_hakaton.Http.Server.Access.{serve_unmask}
use alfa_hakaton.Http.Server.Untouched.{serve_refused}
use alfa_hakaton.Http.Slots.{
  Slots, new_slots, arrive, Step, Reach, slots-IsBounded, slots_can_drain,
}
use alfa_hakaton.Mask.Token.{new_token}
use alfa_hakaton.Mask.Token.Laws.{new_token-IsVisible}
use alfa_hakaton.Engine.Requests.Laws.{unmask_ex-mask_ex}
use alfa_hakaton.Tests.Data.{sort, bob, engine, hash_text, io, bob_masked, bob_record, opt}
use alfa_hakaton.Tests.Requests.{
  id, store, items, items-IsSound, items_held, bob_masks, empty-IsFree, bob_live,
}

abbrev pub crm : System
crm = record {
  id = codes "crm";
  enabled = true;
  api_key = codes "k";
  api_key_env = [];
  categories = [];
  strategy = codes "token";
  unmask = true;
  allow_strategy_override = false;
  combo_rules = [];
}

abbrev hr : System
hr = record crm { id = codes "hr" }

abbrev pub cfg : ServerConfig
cfg = record { systems = crm ∷ hr ∷ []; default_system = codes "checker"; ttl = pos 60 }

abbrev no_env : Bytes → Bytes
no_env name = []

abbrev pub echo : List ChatMessage → Result LlmError (Bytes × Usage)
echo messages = ok (codes "yes", no_usage)

abbrev busy : Slots
busy = arrive 8 (arrive 7 (new_slots 2))

busy-Reach : Reach (new_slots 2) busy
busy-Reach = Reach.next (Reach.next Reach.here (Step.comes _ 7)) (Step.comes _ 8)

slots-IsBounded_example : (busy.taken ≡ length busy.running) × (length busy.running ≤ 2)
slots-IsBounded_example = slots-IsBounded 2 busy busy-Reach

slots_can_drain_example : Reach busy (new_slots 2)
slots_can_drain_example = slots_can_drain 2 busy busy-Reach

-- One line with a chunk, the marker, with which a read failed, and a line that is not read.
abbrev stream : Stream
stream = record {
  lines =
      (record { text = codes "data:a"; failed = false })
      ∷ (record { text = codes "data:[DONE]"; failed = true })
      ∷ (record { text = codes "data:b"; failed = true })
      ∷ [];
  broken = true;
}

abbrev one_choice : Bytes → Option SseChunk
one_choice text =
    some (record { choices = record { content = text; finish_reason = none } ∷ []; usage = none })

read_sse_lem_example :
    read_sse (λ s. s) one_choice stream
    ≡ verdict (ending true (texts (λ s. s) one_choice stream.lines)) (record {
      content = chunk_contents (said (λ s. s) one_choice stream);
      usage = last_usage no_usage (said (λ s. s) one_choice stream);
      saw_done = finished (said (λ s. s) one_choice stream);
    })
read_sse_lem_example = read_sse_lem (λ s. s) one_choice stream

serve_refused_example :
    (serve sort hash_text engine cfg no_env store io alone
      (λ s. true)
      echo
      none
      true
      (record { system = codes "crm"; key = codes "x" })
      (unmask_request invalid_json)
      items).1
    ≡ items
unfolding serve dispatch authenticate bytes_eq
serve_refused_example =
    serve_refused sort hash_text engine cfg no_env store io alone (λ s. true) echo none true
      (record { system = codes "crm"; key = codes "x" }) (unmask_request invalid_json) items 401
      (codes "system not allowed") refl refl

-- The state in which `bob` has been masked.
abbrev kept : Items
kept = (mask_ex sort store hash_text io alone engine id bob opt []).1

abbrev masked_bob : UnmaskRequest
masked_bob = record { id = id; text = bob_masked.result.masked }

abbrev key : Headers
key = record { system = codes "crm"; key = codes "k" }

bob_visible : is_empty bob_masked.result.masked ≡ false
bob_visible = rw bob_masks refl

restored :
    (serve sort hash_text engine cfg no_env store io alone
      (λ s. true)
      echo
      none
      true
      key
      (unmask_request (decoded masked_bob))
      kept).0
    ≡ answered (unmask_answer (record { text = bob; misses = 0 }))
unfolding serve dispatch authenticate handle_unmask read_json options_for valid_payload_id bytes_eq
restored =
    let e =
      unmask_ex-mask_ex sort hash_text store io id opt [] engine bob new_token io empty-IsFree
        bob_live new_token-IsVisible in
    rw (e, bob_visible) refl

serve_unmask_example :
    (sys : System) × (auth_of sort hash_text engine cfg no_env store io alone
        (λ s. true)
        echo
        none
        unmask_route
        key
      ≡ allowed sys)
    × ((req : UnmaskRequest) × (decoded masked_bob ≡ decoded req)
        × IsRestored sort cfg sys (store.load (io 0) req.id kept).0 req.text bob 0)
serve_unmask_example =
    serve_unmask sort hash_text engine cfg no_env store io alone (λ s. true) echo none true key
      (decoded masked_bob) kept (record { text = bob; misses = 0 }) restored

abbrev mask_again : MaskRequest
mask_again = record { text = bob_masked.result.masked; id = id; strategy = [] }

handle_mask_of_mask_example :
    (handle_mask sort hash_text engine cfg store io alone crm none (decoded mask_again) items).0
    ≡ failed 503 (codes "store unavailable")
unfolding strategy_override options_for owns_record valid_payload_id bytes_eq
handle_mask_of_mask_example =
    handle_mask_of_mask sort hash_text engine cfg store io crm none items bob_record items-IsSound
      mask_again (codes "token") (rw bob_masks refl) refl refl refl items_held refl
      (rw bob_masks refl) (bytes_eq_refl bob_record.masked_text)

abbrev pub hello : ChatRequest
hello = record {
  model = codes "m";
  messages = record { role = codes "user"; content = bob } ∷ [];
  stream = false;
  strategy = [];
}

handle_chat_foreign_example :
    (handle_chat sort hash_text engine cfg store io alone echo hr (some id) (decoded hello) items).0
    ≡ failed 503 (codes "store unavailable")
unfolding messages_have_valid_roles strategy_override options_for owns_record bytes_eq
handle_chat_foreign_example =
    handle_chat_foreign sort hash_text engine cfg store io hr (some id) items bob_record
      items-IsSound hello (record { role = codes "user"; content = bob }) [] id (codes "token") refl
      refl refl refl items_held refl echo
