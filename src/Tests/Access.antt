-- ===== src/Tests/Access.antt =====
-- Systems and their keys, and encryption.
use alfa_hakaton.Common.{
  All, ◌≡◌, ◌≢◌, refl, Bytes, bytes_eq, codes, List, [], ◌∷◌, Option, none, some, true, false,
  length,
}
use alfa_hakaton.Common.Result.{ok, ◌>>=◌}
use alfa_hakaton.Crypto.{encrypt, decrypt, decrypt-encrypt}
use alfa_hakaton.Auth.{
  System, mask_route, allowed, system_by_id, system_id, expected_key, constant_time_equal,
  check_key, check_system, authenticate,
}
use alfa_hakaton.Auth.Laws.{Shown, authenticate_allowed, authenticate_needs_key}
use alfa_hakaton.Common.Int.{pos}
use alfa_hakaton.Config.{
  Config, validate, validate_basics, validate_systems, validate_system, validate_categories,
  validate_combo_rules, valid_strategy,
}
use alfa_hakaton.Config.Laws.{IsFound, system_by_id-validate}
use alfa_hakaton.Tests.Data.{cipher}

abbrev crm : System
crm = record {
  id = codes "crm";
  enabled = true;
  api_key = [];
  api_key_env = codes "CRM_KEY";
  categories = [];
  strategy = codes "token";
  unmask = true;
  allow_strategy_override = false;
  combo_rules = [];
}

abbrev systems : List System
systems = record crm { id = codes "checker"; api_key_env = [] } ∷ crm ∷ []

abbrev environment : Bytes → Bytes
environment name = codes "secret"

authenticate-crm :
    authenticate systems (codes "checker") environment mask_route (codes "crm") (codes "secret")
    ≡ allowed crm
unfolding authenticate check_system check_key constant_time_equal expected_key system_by_id
    system_id bytes_eq
authenticate-crm = refl

authenticate_allowed_example :
    (system_by_id systems (system_id (codes "checker") mask_route (codes "crm")) ≡ some crm)
    × Shown environment mask_route (codes "secret") crm
authenticate_allowed_example =
    authenticate_allowed systems (codes "checker") environment mask_route (codes "crm")
      (codes "secret") crm authenticate-crm

authenticate_needs_key_example :
    (codes "secret" ≢ []) × (expected_key environment crm ≡ some (codes "secret"))
authenticate_needs_key_example =
    authenticate_needs_key systems (codes "checker") environment mask_route (codes "crm")
      (codes "secret") crm refl authenticate-crm

decrypt-encrypt_example :
    (encrypt cipher (some (7 ∷ 9 ∷ [])) (codes "Bob") >>= decrypt cipher) ≡ ok (codes "Bob")
decrypt-encrypt_example = decrypt-encrypt cipher (7 ∷ 9 ∷ []) (codes "Bob") refl

abbrev raw_key : Bytes
raw_key = codes "0123456789abcdef0123456789abcdef"

no_random : (r : Bytes) → ◌≡◌ {A = Option Bytes} none (some r) → length r ≡ 32
no_random r e = cc

abbrev config : Config
config = record {
  addr = codes ":8080";
  max_inflight = pos 64;
  default_system = codes "checker";
  store_kind = codes "memory";
  redis_addr = [];
  llm_base_url = codes "http://llm";
  llm_model = codes "m";
  systems = systems;
}

config_passes : validate config ≡ ok tt
unfolding validate validate_basics validate_systems validate_system validate_categories
    validate_combo_rules valid_strategy bytes_eq
config_passes = refl

system_by_id-validate_example : All (IsFound systems) systems
system_by_id-validate_example = system_by_id-validate config config_passes
