-- ===== src/Http/Systems.antt =====
-- internal/httpapi/system.go: what a system's configuration means for a request.
use alfa_hakaton.Common.{
  ℕ, Bool, true, not, Bytes, codes, List, [], ◌∷◌, Option, none, some, if◌then◌else◌,
}
use alfa_hakaton.Common.Int.{ℤ}
use alfa_hakaton.Common.Result.{Result, ok, err}
use alfa_hakaton.Auth.{System, is_empty, system_by_id}
use alfa_hakaton.Config.{valid_strategy}
use alfa_hakaton.Engine.Types.{Options}

-- What the server reads of the configuration.
pub record ServerConfig : Type 0 where
  pub systems : List System
  pub default_system : Bytes
  pub ttl : ℤ

abbrev pub strategy_partial : Bytes
strategy_partial = codes "partial"

unfoldable pub options_for : ServerConfig → System → Options
options_for cfg sys = record {
  categories = sys.categories;
  strategy = if is_empty sys.strategy then strategy_partial else sys.strategy;
  ttl = cfg.ttl;
  combo_rules = sys.combo_rules;
  unmask = sys.unmask;
  system_id = sys.id;
  default_system_id = cfg.default_system;
}

-- The strategy, or the status of a refusal.
unfoldable pub strategy_override : System → Bytes → Result ℕ Bytes
unfolding valid_strategy
strategy_override sys override =
    if is_empty override
    then ok sys.strategy
    else if not sys.allow_strategy_override
    then err 403
    else if not (valid_strategy override)
    then err 400
    else ok override

abbrev first_enabled : List System → Option System
first_enabled [] = none
first_enabled (s ∷ systems) = if s.enabled then some s else first_enabled systems

abbrev system_or : Option System → System → System
system_or (some s) t = s
system_or none t = t

abbrev built_in : System
built_in = record {
  id = [];
  enabled = Bool.false;
  api_key = [];
  api_key_env = [];
  categories = [];
  strategy = strategy_partial;
  unmask = true;
  allow_strategy_override = Bool.false;
  combo_rules = [];
}

-- The system of the header, where a request did not pass the authentication.
unfoldable pub resolve_system : ServerConfig → Bytes → System
unfolding system_by_id
resolve_system cfg header =
    let id = if is_empty header then cfg.default_system else header in
    system_or (system_by_id cfg.systems id) (system_or (first_enabled cfg.systems) built_in)
