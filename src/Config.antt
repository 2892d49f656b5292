-- ===== src/Config.antt =====
-- internal/config/config.go: the configuration and its validation. A message names what is wrong, so an
-- error is a constructor. Durations and sizes that the validation does not read are left out.
pub mod Laws
use alfa_hakaton.Common.{
  ℕ, Bool, true, false, not, ◌&&◌, ◌||◌, Bytes, bytes_eq, codes, List, [], ◌∷◌, any, ◌==◌,
  if◌then◌else◌,
}
use alfa_hakaton.Common.Int.{ℤ, pos, negsuc}
use alfa_hakaton.Common.Result.{Result, ok, err, ◌>>=◌}
use alfa_hakaton.Pii.Types.{Category}
use alfa_hakaton.Engine.Filter.{ComboRule}
use alfa_hakaton.Auth.{System, is_empty}

pub record Config : Type 0 where
  pub addr : Bytes
  pub max_inflight : ℤ
  pub default_system : Bytes
  pub store_kind : Bytes
  pub redis_addr : Bytes
  pub llm_base_url : Bytes
  pub llm_model : Bytes
  pub systems : List System

pub data ConfigError : Type 0 where
  no_addr bad_max_inflight bad_store_kind no_redis_addr no_base_url no_model : ConfigError
  no_id duplicate_id unknown_strategy unknown_category bad_rule_category bad_rule_requirement :
      ConfigError

abbrev pub valid_strategies : List Bytes
valid_strategies = codes "partial" ∷ codes "full" ∷ codes "token" ∷ codes "synthetic" ∷ []

-- The keys of `validCategories`.
abbrev pub valid_categories : List Category
valid_categories =
    codes "full_name"
    ∷ codes "birth_date"
    ∷ codes "birth_place"
    ∷ codes "passport"
    ∷ codes "citizenship"
    ∷ codes "passport_issuer"
    ∷ codes "division_code"
    ∷ codes "passport_date"
    ∷ codes "driver_license"
    ∷ codes "address"
    ∷ codes "email"
    ∷ codes "phone"
    ∷ codes "inn"
    ∷ codes "card_number"
    ∷ codes "cvv"
    ∷ codes "pin"
    ∷ codes "card_holder"
    ∷ codes "snils"
    ∷ codes "foreign_passport"
    ∷ codes "id_document"
    ∷ codes "date"
    ∷ []

unfoldable pub valid_strategy : Bytes → Bool
valid_strategy name = any (λ s. bytes_eq s name) valid_strategies

unfoldable pub valid_category : Category → Bool
valid_category c = any (λ d. bytes_eq d c) valid_categories

abbrev pub positive : ℤ → Bool
positive (pos n) = not (n == 0)
positive (negsuc n) = false

unfoldable pub validate_basics : Config → Result ConfigError (Unit {0})
validate_basics c =
    if is_empty c.addr
    then err no_addr
    else if not (positive c.max_inflight)
    then err bad_max_inflight
    else if not (bytes_eq c.store_kind (codes "memory"))
        && not (bytes_eq c.store_kind (codes "redis"))
    then err bad_store_kind
    else if bytes_eq c.store_kind (codes "redis") && is_empty c.redis_addr
    then err no_redis_addr
    else if is_empty c.llm_base_url
    then err no_base_url
    else if is_empty c.llm_model
    then err no_model
    else ok tt

-- The loop over the requirements of a rule.
unfoldable pub validate_requirements : List Category → Result ConfigError (Unit {0})
validate_requirements [] = ok tt
validate_requirements (req ∷ reqs) =
    if not (valid_category req) then err bad_rule_requirement else validate_requirements reqs

unfoldable pub validate_combo_rule : ComboRule → Result ConfigError (Unit {0})
validate_combo_rule r =
    if not (valid_category r.category)
    then err bad_rule_category
    else validate_requirements r.requires_any

-- The two loops of `validateSystem`.
unfoldable pub validate_categories : List Category → Result ConfigError (Unit {0})
validate_categories [] = ok tt
validate_categories (c ∷ cs) =
    if not (valid_category c) then err unknown_category else validate_categories cs

unfoldable pub validate_combo_rules : List ComboRule → Result ConfigError (Unit {0})
validate_combo_rules [] = ok tt
validate_combo_rules (r ∷ rules) = do u ← validate_combo_rule r; validate_combo_rules rules

unfoldable pub validate_system : System → Result ConfigError (Unit {0})
validate_system s =
    if not (is_empty s.strategy) && not (valid_strategy s.strategy)
    then err unknown_strategy
    else do u ← validate_categories s.categories; validate_combo_rules s.combo_rules

-- The loop over the systems, with the ids seen so far.
unfoldable pub validate_systems : List Bytes → List System → Result ConfigError (Unit {0})
validate_systems seen [] = ok tt
validate_systems seen (s ∷ systems) =
    if is_empty s.id
    then err no_id
    else if any (λ k. bytes_eq k s.id) seen
    then err duplicate_id
    else do u ← validate_system s; validate_systems (s.id ∷ seen) systems

unfoldable pub validate : Config → Result ConfigError (Unit {0})
validate c = do u ← validate_basics c; validate_systems [] c.systems
