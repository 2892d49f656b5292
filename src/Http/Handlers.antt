-- ===== src/Http/Handlers.antt =====
-- internal/httpapi/handlers.go: `/process`, `/mask` and `/unmask` for a system that was let in. `io` and
-- `others` are those of the engine's request; `uuid` is the id that would be generated, if any.
use alfa_hakaton.Common.{
  ℕ, ◌+◌, ◌%◌, ◌==◌, not, ◌||◌, Bytes, codes, ◌∷◌, ◌++◌, Option, none, some, get_or, slice,
  if◌then◌else◌,
}
use alfa_hakaton.Common.Result.{Result, ok, err}
use alfa_hakaton.Common.Sort.{SortSlice}
use alfa_hakaton.Store.Types.{Io}
use alfa_hakaton.Store.Api.{Store}
use alfa_hakaton.Auth.{System, is_empty}
use alfa_hakaton.Engine.Types.{Engine, EngineError, MaskResult, UnmaskResult, ProcessResult}
use alfa_hakaton.Engine.Filter.{Counts}
use alfa_hakaton.Engine.Process.{process}
use alfa_hakaton.Engine.Requests.{mask_ex, unmask_ex}
use alfa_hakaton.Http.Types.{
  Reply, failed, answered, Body, Refusal, read_json, valid_payload_id, is_store_error, is_foreign,
  store_unavailable,
}
use alfa_hakaton.Http.Systems.{ServerConfig, options_for, strategy_override}

-- The payload is absent or a text, which may be empty.
pub record ProcessRequest : Type 0 where
  pub payload : Option Bytes
  pub payload_id : Bytes

pub record MaskRequest : Type 0 where
  pub text : Bytes
  pub id : Bytes
  pub strategy : Bytes

pub record UnmaskRequest : Type 0 where
  pub id : Bytes
  pub text : Bytes

pub record MaskResponse : Type 0 where
  pub id : Bytes
  pub masked : Bytes
  pub found : Counts
  pub strategy : Bytes

pub record UnmaskResponse : Type 0 where
  pub text : Bytes
  pub misses : ℕ

-- The version and the variant are written over the random bytes; `hex` is the encoder.
unfoldable pub new_uuid : (Bytes → Bytes) → Option Bytes → Option Bytes
new_uuid hex none = none
new_uuid hex (some b) =
    let version = get_or b 6 0 % 16 + 0x40 in
    let variant = get_or b 8 0 % 64 + 0x80 in
    some (
      hex (slice b 0 4)
      ++ (b'-'
          ∷ (hex (slice b 4 6)
              ++ (b'-'
                  ∷ (hex (version ∷ slice b 7 8)
                      ++ (b'-'
                          ∷ (hex (variant ∷ slice b 9 10) ++ (b'-' ∷ hex (slice b 10 16)))))))))

unfoldable pub resolve_mask_id : Option Bytes → Bytes → Option Bytes
resolve_mask_id uuid id = if not (is_empty id) then some id else uuid

unfoldable pub strategy_error : {A : Type 0} → ℕ → Reply A
strategy_error status =
    if status == 403
    then failed status (codes "strategy override not allowed")
    else failed status (codes "unknown strategy")

unfoldable pub handle_process_error : {A : Type 0} → EngineError → Reply A
unfolding is_store_error
handle_process_error x =
    if is_store_error x then store_unavailable else failed 500 (codes "processing failed")

unfoldable pub handle_mask_error : {A : Type 0} → EngineError → Reply A
unfolding is_store_error
handle_mask_error x =
    if is_foreign x
    then failed 409 (codes "id already in use")
    else if is_store_error x
    then store_unavailable
    else failed 500 (codes "masking failed")

module _ (sort : SortSlice) (hash_text : Bytes → Bytes) (e : Engine) (cfg : ServerConfig)
    (st : Store) (io : ℕ → Io) (others : ℕ → st.State → st.State) (sys : System) where
  abbrev pub processed : Result EngineError ProcessResult × st.State → Reply Bytes × st.State
  processed (err x, s) = (handle_process_error x, s)
  processed (ok r, s) = (answered r.result, s)

  -- The payload and its id.
  abbrev pub process_payload : Option Bytes → Bytes → st.State → Reply Bytes × st.State
  process_payload none id s = (failed 400 (codes "payload is required"), s)
  process_payload (some payload) id s =
      if is_empty id
      then (failed 400 (codes "payload_id is required"), s)
      else if not (valid_payload_id id)
      then (failed 400 (codes "payload_id too long"), s)
      else processed (process sort hash_text e st io others id payload (options_for cfg sys) s)

  abbrev pub process_read : Result Refusal ProcessRequest → st.State → Reply Bytes × st.State
  process_read (err x) s = (failed x.status x.message, s)
  process_read (ok req) s = process_payload req.payload req.payload_id s

  unfoldable pub handle_process : Body ProcessRequest → st.State → Reply Bytes × st.State
  handle_process body s = process_read (read_json body) s

  abbrev pub masked :
      Bytes → Bytes → Result EngineError MaskResult × st.State → Reply MaskResponse × st.State
  masked id strategy (err x, s) = (handle_mask_error x, s)
  masked id strategy (ok m, s) =
      (answered (record { id = id; masked = m.masked; found = m.found; strategy = strategy }), s)

  -- With an id and a strategy.
  abbrev pub mask_with :
      Bytes → Option Bytes → Result ℕ Bytes → st.State → Reply MaskResponse × st.State
  mask_with text none strategy s = (failed 500 (codes "id generation failed"), s)
  mask_with text (some id) (err status) s = (strategy_error status, s)
  mask_with text (some id) (ok strategy) s = masked id strategy (
      mask_ex sort st hash_text io others e id text
        (record (options_for cfg sys) { strategy = strategy }) s)

  abbrev pub mask_read :
      Option Bytes → Result Refusal MaskRequest → st.State → Reply MaskResponse × st.State
  mask_read uuid (err x) s = (failed x.status x.message, s)
  mask_read uuid (ok req) s =
      if is_empty req.text
      then (failed 400 (codes "text is required"), s)
      else if not (valid_payload_id req.id)
      then (failed 400 (codes "id too long"), s)
      else mask_with req.text (resolve_mask_id uuid req.id) (strategy_override sys req.strategy) s

  unfoldable pub handle_mask :
      Option Bytes → Body MaskRequest → st.State → Reply MaskResponse × st.State
  handle_mask uuid body s = mask_read uuid (read_json body) s

  abbrev pub unmasked : Result EngineError UnmaskResult × st.State → Reply UnmaskResponse × st.State
  unmasked (err x, s) =
      (if is_store_error x then store_unavailable else failed 404 (codes "record not found"), s)
  unmasked (ok u, s) = (answered (record { text = u.restored; misses = u.misses }), s)

  abbrev pub unmask_read : Result Refusal UnmaskRequest → st.State → Reply UnmaskResponse × st.State
  unmask_read (err x) s = (failed x.status x.message, s)
  unmask_read (ok req) s =
      if is_empty req.id || is_empty req.text
      then (failed 400 (codes "id and text are required"), s)
      else if not (valid_payload_id req.id)
      then (failed 400 (codes "id too long"), s)
      else unmasked (unmask_ex sort st hash_text io others req.id req.text (options_for cfg sys) s)

  unfoldable pub handle_unmask : Body UnmaskRequest → st.State → Reply UnmaskResponse × st.State
  handle_unmask body s =
      if not sys.unmask
      then (failed 403 (codes "unmask not allowed for this system"), s)
      else unmask_read (read_json body) s
