-- ===== src/Tests/Data.antt =====
-- A pipeline with one detector, a store in memory with a codec and a cipher, and requests.
use alfa_hakaton.Common.{
  zero, suc, ◌*◌, arith, length, ℕ, ◌≡◌, refl, sym, ap, true, Bytes, bytes_eq, codes, List, [], ◌∷◌,
  none, some, take, if◌then◌else◌,
}
use alfa_hakaton.Common.Int.{pos}
use alfa_hakaton.Common.Sort.{SortSlice, insertion_sort}
use alfa_hakaton.Pii.Types.{Span, cat_full_name, cat_date}
use alfa_hakaton.Pii.Pipeline.{Pipeline}
use alfa_hakaton.Mask.Doc.{new_doc_state}
use alfa_hakaton.Mask.Token.{new_token}
use alfa_hakaton.Crypto.{Aead, Cipher}
use alfa_hakaton.Store.Types.{Record, Io}
use alfa_hakaton.Store.Memory.Codec.{Json}
use alfa_hakaton.Engine.Types.{Options, Engine}
use alfa_hakaton.Engine.Masking.{run_mask, Masked}
use alfa_hakaton.Engine.Requests.{record_of}

abbrev pub sort : SortSlice
sort = insertion_sort

abbrev pub bob : Bytes
bob = codes "Bob, hi"

abbrev pub bob_span : Span
bob_span = record {
  start = 0;
  end = 3;
  category = cat_full_name;
  detector = codes "names";
  confidence = 9000;
}

abbrev pub wide_span : Span
wide_span = record {
  start = 2;
  end = 7;
  category = cat_date;
  detector = codes "regex";
  confidence = 5000;
}

abbrev pub late_span : Span
late_span = record {
  start = 5;
  end = 7;
  category = cat_date;
  detector = codes "regex";
  confidence = 5000;
}

-- Three spans out of order, of which two overlap.
abbrev pub spans : List Span
spans = late_span ∷ wide_span ∷ bob_span ∷ []

abbrev find_bob : Bytes → List Span
find_bob text = if bytes_eq (take 3 text) (codes "Bob") then bob_span ∷ [] else []

abbrev pub pipeline : Pipeline
pipeline = record {
  detectors =
      record {
        name = codes "names";
        categories = cat_full_name ∷ [];
        detect = find_bob;
        detect_lower = none;
      }
      ∷ [];
  to_lower = λ s. s;
}

abbrev pub engine : Engine
engine = record { pipeline = pipeline; strategies = (codes "token", new_token) ∷ [] }

abbrev pub opt : Options
opt = record {
  categories = [];
  strategy = codes "token";
  ttl = pos 60;
  combo_rules = [];
  unmask = true;
  system_id = codes "crm";
  default_system_id = codes "checker";
}

abbrev pub other_opt : Options
other_opt = record opt { system_id = codes "hr" }

-- Hashes are the identity: different texts have different ones.
abbrev pub hash_text : Bytes → Bytes
hash_text s = s

abbrev pub io : ℕ → Io
io n = record { now = 1; nonce = some (7 ∷ 9 ∷ []) }

abbrev pub bob_masked : Masked
bob_masked = run_mask sort engine bob opt new_token new_doc_state

-- What is stored when `bob` is masked.
abbrev pub bob_record : Record
bob_record =
    record_of (hash_text bob) 1 opt new_token bob_masked.result.masked
      bob_masked.applied.replacements

-- Seals by doing nothing, with nonces of two bytes.
abbrev pub aead : Aead
aead = record {
  nonce_size = 2;
  seal = λ key nonce plain. plain;
  open_sealed = λ key nonce sealed. some sealed;
  open_sealed-seal = λ key nonce plain h. refl;
}

abbrev pub cipher : Cipher
cipher = record { aead = aead; key = codes "0123456789abcdef0123456789abcdef" }

-- Knows one record, and writes it as one byte.
abbrev pub json : Json
json = record {
  marshal = λ r. some (1 ∷ []);
  unmarshal = λ b. some bob_record;
  IsStorable = λ r. r ≡ bob_record;
  unmarshal-marshal = λ r e. (1 ∷ [], refl, ap some (sym e));
}

abbrev pub hmac : Bytes → Bytes → Bytes
hmac key id = id

-- `n` words of one letter.
pub words : ℕ → Bytes
words zero = []
words (suc n) = b'a' ∷ b' ' ∷ words n

pub length-words : (n : ℕ) → length (words n) ≡ n * 2
unfolding words
length-words zero = omega arith
length-words (suc n) = omega (arith, length-words n)
