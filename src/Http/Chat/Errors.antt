-- ===== src/Http/Chat/Errors.antt =====
-- internal/httpapi: which statuses the engine's errors become.
use alfa_hakaton.Common.{
  ℕ, ◌≡◌, refl, ◌∙◌, true, false, Bytes, bytes_eq, codes, List, Option, ◌∷◌, some,
}
use alfa_hakaton.Common.Result.{Result, ok}
use alfa_hakaton.Common.Sort.{SortSlice}
use alfa_hakaton.Store.Types.{Record, Io}
use alfa_hakaton.Store.Api.{Store}
use alfa_hakaton.Auth.{System, is_empty}
use alfa_hakaton.Engine.Types.{Options, Engine}
use alfa_hakaton.Engine.Process.Contract.{alone}
use alfa_hakaton.Engine.Batch.{mask_batch_ex}
use alfa_hakaton.Engine.Requests.{mask_ex, mask_loaded}
use alfa_hakaton.Engine.Masking.{owns_record}
use alfa_hakaton.Http.Types.{failed, decoded, read_json, is_store_error, valid_payload_id}
use alfa_hakaton.Http.Systems.{ServerConfig, options_for, strategy_override}
use alfa_hakaton.Http.Handlers.{MaskRequest, handle_mask, handle_mask_error, resolve_mask_id}
use alfa_hakaton.Http.Llm.{ChatMessage, Usage, LlmError}
use alfa_hakaton.Http.Chat.{ChatRequest, messages_have_valid_roles, batch_error, handle_chat}

-- The strategy does not matter to the owner.
owns_record_strategy :
    (rec : Record) (opt : Options) (strategy : Bytes)
    → owns_record rec (record opt { strategy = strategy }) ≡ owns_record rec opt
unfolding owns_record
owns_record_strategy rec opt strategy = refl

module _ (sort : SortSlice) (hash_text : Bytes → Bytes) (e : Engine) (cfg : ServerConfig)
    (st : Store) (io : ℕ → Io) (sys : System) (uuid : Option Bytes) (s : st.State) (rec : Record)
    (sound : st.IsSound s) where
  -- A mask that is sent to /mask under its own id while its record is live is answered with status 503,
  -- "store unavailable", though the store has answered.
  pub handle_mask_of_mask :
      (req : MaskRequest) (strategy : Bytes)
      → is_empty req.text ≡ false
      → is_empty req.id ≡ false
      → valid_payload_id req.id ≡ true
      → strategy_override sys req.strategy ≡ ok strategy
      → st.view s (io 0).now (st.hash_id req.id) ≡ some rec
      → owns_record rec (options_for cfg sys) ≡ true
      → bytes_eq rec.hash (hash_text req.text) ≡ false
      → bytes_eq rec.masked_text req.text ≡ true
      → (handle_mask sort hash_text e cfg st io alone sys uuid (decoded req) s).0
        ≡ failed 503 (codes "store unavailable")
  unfolding handle_mask read_json resolve_mask_id mask_ex mask_loaded handle_mask_error
      is_store_error
  handle_mask_of_mask req strategy text id short chosen held mine hash mask =
      let (s', loaded, sound', same) = st.load_lem (io 0) req.id s sound in
      let mine' : owns_record rec (record (options_for cfg sys) { strategy = strategy }) ≡ true =
        owns_record_strategy rec (options_for cfg sys) strategy ∙ mine in
      rw (text, short, id, chosen, loaded, held, mask_loaded, mine', hash, mask)

  -- A chat request whose new id another system's record has is answered with status 503, "store
  -- unavailable", and not as a conflict.
  pub handle_chat_foreign :
      (req : ChatRequest) (m : ChatMessage) (messages : List ChatMessage) (id strategy : Bytes)
      → uuid ≡ some id
      → req.messages ≡ m ∷ messages
      → messages_have_valid_roles req.messages ≡ true
      → strategy_override sys req.strategy ≡ ok strategy
      → st.view s (io 0).now (st.hash_id id) ≡ some rec
      → owns_record rec (options_for cfg sys) ≡ false
      → (llm : List ChatMessage → Result LlmError (Bytes × Usage))
      → (handle_chat sort hash_text e cfg st io alone llm sys uuid (decoded req) s).0
        ≡ failed 503 (codes "store unavailable")
  unfolding handle_chat read_json mask_batch_ex batch_error is_store_error
  handle_chat_foreign req m messages id strategy new some_messages roles chosen held foreign llm =
      let (s', loaded, sound', same) = st.load_lem (io 0) id s sound in
      let foreign' : owns_record rec (record (options_for cfg sys) { strategy = strategy })
          ≡ false =
        owns_record_strategy rec (options_for cfg sys) strategy ∙ foreign in
      rw (roles, some_messages, chosen, new, loaded, held, foreign')
