-- ===== src/Http/Types.antt =====
-- internal/httpapi/server.go: bodies and replies. Headers, logs and metrics of a reply are left out, and
-- `encoding/json` is the outcome of its decoding.
use alfa_hakaton.Common.{ℕ, Bool, Bytes, codes, length, leb}
use alfa_hakaton.Common.Result.{Result, ok, err}
use alfa_hakaton.Engine.Types.{
  EngineError, not_found, looks_like_unmask, foreign_record, no_strategy, store_failed,
}

-- A status with its message, or what is sent with status 200.
pub data Reply (A : Type 0) : Type 0 where
  failed : ℕ → Bytes → Reply A
  answered : A → Reply A

-- What the decoder makes of a request's body.
pub data Body (A : Type 0) : Type 0 where
  too_large : Body A
  invalid_json : Body A
  trailing_data : A → Body A
  decoded : A → Body A

pub record Refusal : Type 0 where
  pub status : ℕ
  pub message : Bytes

unfoldable pub read_json : {A : Type 0} → Body A → Result Refusal A
read_json too_large = err (record { status = 413; message = codes "request body too large" })
read_json invalid_json = err (record { status = 400; message = codes "invalid json" })
read_json (trailing_data a) =
    err (record { status = 400; message = codes "trailing data after JSON body" })
read_json (decoded a) = ok a

abbrev pub max_payload_id_bytes : ℕ
max_payload_id_bytes = 256

unfoldable pub valid_payload_id : Bytes → Bool
valid_payload_id id = leb (length id) max_payload_id_bytes

-- Every error but `ErrNotFound`.
unfoldable pub is_store_error : EngineError → Bool
is_store_error not_found = Bool.false
is_store_error looks_like_unmask = Bool.true
is_store_error foreign_record = Bool.true
is_store_error no_strategy = Bool.true
is_store_error (store_failed x) = Bool.true

abbrev pub is_foreign : EngineError → Bool
is_foreign foreign_record = Bool.true
is_foreign not_found = Bool.false
is_foreign looks_like_unmask = Bool.false
is_foreign no_strategy = Bool.false
is_foreign (store_failed x) = Bool.false

abbrev pub store_unavailable : {A : Type 0} → Reply A
store_unavailable = failed 503 (codes "store unavailable")
