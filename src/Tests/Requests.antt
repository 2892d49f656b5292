-- ===== src/Tests/Requests.antt =====
-- Payloads that are sent, sent again, and sent back.
use alfa_hakaton.Common.{
  ℕ, ◌≡◌, ◌≤◌, refl, inr, Bytes, bytes_eq, codes, [], ◌∷◌, none, some, true, false, if◌then◌else◌,
  arith, length,
}
use alfa_hakaton.Common.Sort.{insertion_sort}
use alfa_hakaton.Common.Assoc.{lookup, insert}
use alfa_hakaton.Common.Int.{pos}
use alfa_hakaton.Common.Result.{ok, err}
use alfa_hakaton.Crypto.{decrypt}
use alfa_hakaton.Mask.Token.{new_token, mask_token, token, decimal, digits_before}
use alfa_hakaton.Mask.Doc.{new_doc_state, memo, remember, next}
use alfa_hakaton.Mask.Apply.{apply, finish, apply_step, start_masking, emit}
use alfa_hakaton.Pii.Types.{span_less}
use alfa_hakaton.Pii.Resolve.{resolve, resolve_step}
use alfa_hakaton.Pii.Pipeline.{run, detect_all, post_process, post_process_from, reclassify_span}
use alfa_hakaton.Engine.Filter.{filter_spans, kept, filter_by, combo_allowed}
use alfa_hakaton.Mask.Token.Laws.{new_token-IsVisible}
use alfa_hakaton.Store.Types.{expiry_for, live_at}
use alfa_hakaton.Store.Api.{Store, while_live}
use alfa_hakaton.Store.Memory.{Items, hash_id, decode}
use alfa_hakaton.Store.Memory.Laws.{IsSound, view}
use alfa_hakaton.Store.Memory.Implements.{memory_store}
use alfa_hakaton.Engine.Masking.{
  run_mask, spans_of, resolve_strategy, owns_record, masked_result, mask_fresh_result,
}
use alfa_hakaton.Engine.Requests.{counts_from_rec}
use alfa_hakaton.Engine.Types.{foreign_record, not_found}
use alfa_hakaton.Engine.Requests.{mask_ex, unmask_ex}
use alfa_hakaton.Engine.Requests.Laws.{IsFree, mask_ex_foreign, unmask_ex_hides, unmask_ex-mask_ex}
use alfa_hakaton.Engine.Batch.{Batch, start_batch, mask_messages}
use alfa_hakaton.Engine.Process.{process}
use alfa_hakaton.Engine.Process.Contract.{
  alone, IsFirst, process_first, process_again, process_foreign, process-process,
}
use alfa_hakaton.Engine.Process.Safety.{IsFrom, IsAnswered, process-IsFrom}
use alfa_hakaton.Tests.Data.{
  sort, bob, engine, opt, other_opt, hash_text, io, bob_masked, bob_record, cipher, json, hmac,
}

abbrev pub id : Bytes
id = codes "42"

abbrev pub store : Store
store = memory_store json cipher hmac

abbrev pub items : Items
items = (id, record { ct = 7 ∷ 9 ∷ 1 ∷ []; expiry = some 9 }) ∷ []

empty-IsFirst : IsFirst sort hash_text engine store id bob opt new_token io []
unfolding view lookup resolve_strategy bytes_eq
empty-IsFirst = record {
  sound = record { unique = tt; readable = tt };
  free = λ t h. refl;
  later = omega arith;
  known = refl;
  storable = refl;
  ready = (7 ∷ 9 ∷ [], refl, refl);
  named = refl;
}

pub bob_live : live_at (expiry_for 1 (pos 60)) 1 ≡ true
unfolding live_at expiry_for
bob_live = refl

pub bob_masks : bob_masked.result.masked ≡ codes "[FULL_NAME_1], hi"
unfolding run_mask apply finish insertion_sort spans_of run detect_all resolve_step resolve
    post_process post_process_from reclassify_span filter_spans kept filter_by combo_allowed
    bytes_eq apply_step start_masking emit new_token mask_token memo remember next token decimal
    digits_before new_doc_state lookup insert span_less
bob_masks = refl

bob_replaced : length bob_masked.applied.replacements ≡ 1
unfolding run_mask apply finish insertion_sort spans_of run detect_all resolve_step resolve
    post_process post_process_from reclassify_span filter_spans kept filter_by combo_allowed
    bytes_eq apply_step start_masking emit new_token mask_token memo remember next token decimal
    digits_before new_doc_state lookup insert span_less
bob_replaced = refl

process_first_example :
    (s' : Items) × (process sort hash_text engine store io alone id bob opt []
      ≡ (ok (masked_result bob_masked.result), s'))
    × IsSound json cipher s'
    × ((t : ℕ) (k : Bytes)
        → 1 ≤ t
        → view json cipher s' t k ≡ (
            if bytes_eq (hash_id hmac cipher.key id) k
            then while_live (expiry_for 1 (pos 60)) t bob_record
            else view json cipher [] t k))
process_first_example =
    process_first sort hash_text engine store id bob opt new_token io [] empty-IsFirst

process_again_example :
    (process sort hash_text engine store io alone id bob opt
      (process sort hash_text engine store io alone id bob opt []).1).0
    ≡ ok (record {
      result = bob_masked.result.masked;
      found = some (counts_from_rec bob_record);
      unmasked = false;
      misses = 0;
    })
process_again_example =
    process_again sort hash_text engine store id bob opt new_token io [] empty-IsFirst io
      (omega arith) bob_live

process-process_example :
    (process sort hash_text engine store io alone id bob_masked.result.masked opt
      (process sort hash_text engine store io alone id bob opt []).1).0
    ≡ ok (record { result = bob; found = none; unmasked = true; misses = 0 })
unfolding bytes_eq
process-process_example =
    process-process sort hash_text engine store id bob opt new_token io [] empty-IsFirst io
      (omega arith) bob_live new_token-IsVisible refl (omega (arith, bob_replaced))
      (rw bob_masks refl)

process_foreign_example :
    (s' : Items) × (process sort hash_text engine store io alone id bob other_opt items
      ≡ (mask_fresh_result sort engine bob other_opt, s'))
    × ((t : ℕ) (k : Bytes) → 1 ≤ t → view json cipher s' t k ≡ view json cipher items t k)
unfolding hash_id view lookup bytes_eq live_at decode decrypt owns_record
process_foreign_example =
    process_foreign sort hash_text engine store id other_opt io bob items bob_record
      (record { unique = (refl, tt); readable = ((bob_record, refl), tt) }) refl refl

process-IsFrom_example :
    IsFrom sort hash_text engine bob_masked.result.masked opt
      (IsAnswered sort hash_text engine bob_masked.result.masked opt store io alone id
        (process sort hash_text engine store io alone id bob opt []).1)
      (record { result = bob; found = none; unmasked = true; misses = 0 })
process-IsFrom_example =
    process-IsFrom sort hash_text engine store io alone id bob_masked.result.masked opt
      (process sort hash_text engine store io alone id bob opt []).1
      {res = record { result = bob; found = none; unmasked = true; misses = 0 }}
      process-process_example

pub items-IsSound : IsSound json cipher items
unfolding lookup decode decrypt
items-IsSound = record { unique = (refl, tt); readable = ((bob_record, refl), tt) }

pub items_held : view json cipher items 1 (hash_id hmac cipher.key id) ≡ some bob_record
unfolding hash_id view lookup bytes_eq live_at decode decrypt
items_held = refl

not_hr : owns_record bob_record other_opt ≡ false
unfolding owns_record bytes_eq
not_hr = refl

abbrev Unchanged : Items → Type 0
Unchanged s' = (t : ℕ) (k : Bytes) → 1 ≤ t → view json cipher s' t k ≡ view json cipher items t k

mask_ex_foreign_example :
    (s' : Items) × (mask_ex sort store hash_text io alone engine id bob other_opt items
      ≡ (err foreign_record, s'))
    × Unchanged s'
mask_ex_foreign_example =
    mask_ex_foreign sort hash_text store io id other_opt items engine bob bob_record items-IsSound
      items_held not_hr

unmask_ex_hides_example :
    (s' : Items) × (unmask_ex sort store hash_text io alone id bob_masked.result.masked other_opt
        items
      ≡ (err not_found, s'))
    × Unchanged s'
unmask_ex_hides_example =
    unmask_ex_hides sort hash_text store io id other_opt items bob_masked.result.masked
      items-IsSound (inr (bob_record, items_held, not_hr))

pub empty-IsFree : IsFree sort hash_text store io id opt [] engine bob new_token
unfolding view lookup resolve_strategy bytes_eq
empty-IsFree = record {
  sound = record { unique = tt; readable = tt };
  free = refl;
  known = refl;
  storable = refl;
  ready = (7 ∷ 9 ∷ [], refl, refl);
  named = refl;
}

unmask_ex-mask_ex_example :
    (unmask_ex sort store hash_text io alone id bob_masked.result.masked opt
      (mask_ex sort store hash_text io alone engine id bob opt []).1).0
    ≡ ok (record { restored = bob; misses = 0 })
unmask_ex-mask_ex_example =
    unmask_ex-mask_ex sort hash_text store io id opt [] engine bob new_token io empty-IsFree
      bob_live new_token-IsVisible

abbrev two_messages : Batch
two_messages = mask_messages sort engine opt new_token start_batch (bob ∷ bob ∷ [])
