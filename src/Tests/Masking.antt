-- ===== src/Tests/Masking.antt =====
-- Masking, restoring and tokens.
use alfa_hakaton.Common.{
  utf8, length, ◌||◌, ◌≡◌, ◌≢◌, refl, ap, arith, codes, get_or, bytes_eq, none,
}
use alfa_hakaton.Common.Sort.{insertion_sort}
use alfa_hakaton.Common.Assoc.{lookup, insert}
use alfa_hakaton.Pii.Types.{cat_full_name}
use alfa_hakaton.Mask.Doc.{new_doc_state, memo, remember, next}
use alfa_hakaton.Mask.Apply.{apply, apply_step, emit, start_masking, finish}
use alfa_hakaton.Mask.Restore.{restore}
use alfa_hakaton.Mask.Token.{new_token, mask_token, token, decimal, digits_before}
use alfa_hakaton.Mask.Token.Laws.{new_token-IsVisible, mask_token_differs}
use alfa_hakaton.Mask.RoundTrip.{restore-apply}
use alfa_hakaton.Mask.Full.{
  Unicode, raw_of, pieces, encode, is_word_rune, is_service_word, scan_word, mask_all_letters,
  write_word, mask_words, all_service_from, all_service_words, mask_pieces, mask_full,
}
use alfa_hakaton.Mask.Full.Hides.{Hides, mask_full-Hides}
use alfa_hakaton.Pii.Utf8.{between, decode_rune}
use alfa_hakaton.Tests.Data.{sort, bob, spans}

-- The span that overlaps an earlier one is passed over.
apply-bob : (apply sort bob spans new_token none).text ≡ codes "[FULL_NAME_1], [DATE_1]"
unfolding apply apply_step emit start_masking finish new_token mask_token memo remember next token
    decimal digits_before new_doc_state insertion_sort lookup insert bytes_eq
apply-bob = refl

restore-apply_example :
    let masked = apply sort bob spans new_token none in
    restore sort masked.text masked.replacements ≡ (bob, 0)
restore-apply_example = restore-apply sort bob spans new_token none new_token-IsVisible

bob-ne-ann : codes "Bob" ≢ codes "Ann"
bob-ne-ann e = let first : b'B' ≡ b'A' = ap (λ s. get_or s 0 0) e in omega (arith, first)

mask_token_differs_example :
    (mask_token (codes "Bob") cat_full_name new_doc_state).0
    ≢ (mask_token
        (codes "Ann")
        cat_full_name
        (mask_token (codes "Bob") cat_full_name new_doc_state).1).0
unfolding memo new_doc_state lookup
mask_token_differs_example =
    mask_token_differs (codes "Bob") (codes "Ann") cat_full_name new_doc_state bob-ne-ann refl refl

abbrev letters : Unicode
letters = record {
  is_letter = λ r. between b'a' b'z' r || (between b'A' b'Z' r || between 0x400 0x4FF r);
  is_digit = λ r. between b'0' b'9' r;
  to_lower = λ s. s;
}

-- A service word is kept.
mask_full-street : mask_full letters (utf8 "ул. Юг") ≡ utf8 "ул. **"
unfolding mask_full mask_pieces pieces decode_rune all_service_words all_service_from scan_word
    is_word_rune is_service_word bytes_eq mask_words write_word mask_all_letters encode
mask_full-street = refl

mask_full-Hides_example :
    (raw_of (pieces (length (utf8 "ул. Юг")) (utf8 "ул. Юг")) ≡ utf8 "ул. Юг")
    × Hides letters
        (pieces (length (utf8 "ул. Юг")) (utf8 "ул. Юг"))
        (mask_full letters (utf8 "ул. Юг"))
mask_full-Hides_example = mask_full-Hides letters (utf8 "ул. Юг")
