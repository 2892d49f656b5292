-- ===== src/Auth.antt =====
-- internal/httpapi/auth.go and `SystemByID` of internal/config/config.go: which system a request comes
-- from. The request's headers are two arguments, the environment is a function.
pub mod Laws
use alfa_hakaton.Common.{
  ℕ, Bool, true, false, not, ◌&&◌, ◌||◌, Bytes, bytes_eq, codes, List, [], ◌∷◌, Option, none, some,
  if◌then◌else◌, ◌==◌, length,
}
use alfa_hakaton.Pii.Types.{Category}
use alfa_hakaton.Engine.Filter.{ComboRule}

pub record System : Type 0 where
  pub id : Bytes
  pub enabled : Bool
  pub api_key : Bytes
  pub api_key_env : Bytes
  pub categories : List Category
  pub strategy : Bytes
  pub unmask : Bool
  pub allow_strategy_override : Bool
  pub combo_rules : List ComboRule

pub data Route : Type 0 where
  process_route : Route
  mask_route : Route
  unmask_route : Route
  chat_route : Route
  healthz_route : Route
  readyz_route : Route

abbrev pub is_process : Route → Bool
is_process process_route = true
is_process mask_route = false
is_process unmask_route = false
is_process chat_route = false
is_process healthz_route = false
is_process readyz_route = false

-- The status is the reason of a refusal.
pub data AuthResult : Type 0 where
  allowed : System → AuthResult
  forbidden : AuthResult
  unauthorized : AuthResult

abbrev pub is_empty : Bytes → Bool
is_empty [] = true
is_empty (c ∷ s) = false

unfoldable pub system_by_id : List System → Bytes → Option System
system_by_id [] id = none
system_by_id (s ∷ systems) id = if bytes_eq s.id id then some s else system_by_id systems id

-- The key that a request must show; none where the variable that should hold it is empty.
unfoldable pub expected_key : (Bytes → Bytes) → System → Option Bytes
expected_key getenv s =
    if is_empty s.api_key_env
    then some s.api_key
    else if is_empty (getenv s.api_key_env)
    then none
    else some (getenv s.api_key_env)

-- `subtle.ConstantTimeCompare` of strings of one length tells whether they are equal.
unfoldable pub constant_time_equal : Bytes → Bytes → Bool
constant_time_equal a b = if not (length a == length b) then false else bytes_eq a b

unfoldable pub check_key : Route → System → Bytes → Option Bytes → AuthResult
unfolding constant_time_equal
check_key route s key none = unauthorized
check_key route s key (some expected) =
    if is_empty expected
    then (if not (is_process route) then forbidden else allowed s)
    else if not (constant_time_equal expected key)
    then unauthorized
    else allowed s

unfoldable pub check_system : (Bytes → Bytes) → Route → Bytes → Option System → AuthResult
unfolding check_key expected_key
check_system getenv route key none = forbidden
check_system getenv route key (some s) =
    if not s.enabled then forbidden else check_key route s key (expected_key getenv s)

-- The id of the header, or the default system's where `/process` is called without.
unfoldable pub system_id : Bytes → Route → Bytes → Bytes
system_id default route id =
    if is_empty id && (is_process route && not (is_empty default)) then default else id

unfoldable pub authenticate :
    List System → Bytes → (Bytes → Bytes) → Route → Bytes → Bytes → AuthResult
unfolding check_system system_by_id system_id
authenticate systems default getenv route id key =
    if is_empty (system_id default route id)
    then forbidden
    else check_system getenv route key (system_by_id systems (system_id default route id))
