-- ===== src/Tests/Chatting.antt =====
-- A chat request that is masked, answered and returned.
use alfa_hakaton.Common.{◌≡◌, refl, true, Bytes, bytes_eq, codes, List, [], ◌∷◌, some}
use alfa_hakaton.Common.Sort.{insertion_sort}
use alfa_hakaton.Common.Assoc.{lookup, insert}
use alfa_hakaton.Mask.Token.{new_token, mask_token, token, decimal, digits_before}
use alfa_hakaton.Mask.Doc.{new_doc_state, memo, remember, next}
use alfa_hakaton.Mask.Apply.{apply, finish, apply_step, start_masking, emit}
use alfa_hakaton.Pii.Types.{span_less}
use alfa_hakaton.Pii.Resolve.{resolve, resolve_step}
use alfa_hakaton.Pii.Pipeline.{run, detect_all, post_process, post_process_from, reclassify_span}
use alfa_hakaton.Engine.Filter.{filter_spans, kept, filter_by, combo_allowed, counts}
use alfa_hakaton.Engine.Masking.{run_mask, spans_of, resolve_strategy, owns_record}
use alfa_hakaton.Engine.Batch.{mask_batch_ex, mask_messages, start_batch, add_message}
use alfa_hakaton.Engine.Process.Contract.{alone}
use alfa_hakaton.Common.Result.{Result, ok, err}
use alfa_hakaton.Mask.Restore.{restore}
use alfa_hakaton.Engine.Requests.{unmask_ex}
use alfa_hakaton.Store.Types.{live_at, expiry_for}
use alfa_hakaton.Http.Types.{answered, decoded, read_json}
use alfa_hakaton.Http.Systems.{options_for, strategy_override}
use alfa_hakaton.Http.Llm.{ChatMessage, Usage, LlmError, not_terminated, no_usage}
use alfa_hakaton.Http.Chat.{
  ChatResponse, messages_have_valid_roles, with_contents, count_found, last_user_content,
  handle_chat,
}
use alfa_hakaton.Http.Chat.Forwarded.{IsForwarded, handle_chat-IsForwarded}
use alfa_hakaton.Tests.Data.{sort, bob, engine, hash_text, io}
use alfa_hakaton.Tests.Serving.{crm, cfg, hello}
use alfa_hakaton.Tests.Plain.{plain_store}

-- A gateway that says the first message again.
abbrev repeat : List ChatMessage → Result LlmError (Bytes × Usage)
repeat [] = err not_terminated
repeat (m ∷ messages) = ok (m.content, no_usage)

-- What was restored from the gateway's answer.
abbrev reply : ChatResponse
reply = record {
  content = bob;
  usage = no_usage;
  masked_request = codes "[FULL_NAME_1], hi";
  raw_answer = codes "[FULL_NAME_1], hi";
  masked_count = 1;
  unmasked = true;
}

replied :
    (handle_chat sort hash_text engine cfg plain_store io alone repeat crm
      (some (codes "1"))
      (decoded hello)
      []).0
    ≡ answered reply
unfolding handle_chat read_json messages_have_valid_roles strategy_override options_for
    mask_batch_ex mask_messages start_batch add_message with_contents count_found last_user_content
    counts resolve_strategy run_mask apply finish insertion_sort spans_of run detect_all
    resolve_step resolve post_process post_process_from reclassify_span filter_spans kept filter_by
    combo_allowed bytes_eq apply_step start_masking emit new_token mask_token memo remember next
    token decimal digits_before new_doc_state lookup insert span_less restore unmask_ex owns_record
    live_at expiry_for
replied = refl

handle_chat-IsForwarded_example :
    IsForwarded sort hash_text engine cfg plain_store io alone repeat crm
      (some (codes "1"))
      hello
      []
      reply
handle_chat-IsForwarded_example =
    handle_chat-IsForwarded sort hash_text engine cfg plain_store io alone repeat crm
      (some (codes "1")) hello [] reply replied
