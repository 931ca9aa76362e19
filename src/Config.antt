-- ===== src/Config.antt =====
-- core/config/settings.py: the settings and the checks that `FoundationSettings` makes on itself
-- once `pydantic` has filled its fields, in the order of the class body.
pub mod Rules
use df_local_foundation.Prelude.{
  ℕ, Bool, true, false, not, ◌||◌, String, List, [], ◌∷◌, ◌++◌, codes, eqb_codes, str_eq,
  if◌then◌else◌,
}
use df_local_foundation.Contract.{AppMode}
use df_local_foundation.Text.{lower}
use df_local_foundation.Text.Number.{show}

abbrev pub foundation_version : String
foundation_version = "1.1.0"

abbrev pub reserved_namespace : String
reserved_namespace = "core"

abbrev pub forbidden_prod_credentials : List String
forbidden_prod_credentials =
    "postgres" ∷ "password" ∷ "secret" ∷ "changeme" ∷ "testpass" ∷ "localpass" ∷ []

abbrev pub forbidden_prod_hosts : List String
forbidden_prod_hosts = "0.0.0.0" ∷ "*" ∷ "::" ∷ []

pub record FoundationSettings : Type 0 where
  pub df_local_host : String
  pub df_local_port : ℕ
  pub df_local_db : String
  pub df_local_user : String
  pub df_local_password : String
  pub df_local_data_dir : String
  pub df_local_app_id : String
  pub df_local_app_mode : AppMode
  pub df_local_api_host : String
  pub df_local_api_port : ℕ
  pub df_local_profile : String

-- The `ValueError`s that the validators raise.
pub data ConfigError : Type 0 where
  reserved_app_id unknown_profile weak_user weak_password wildcard_host : ConfigError

pub data Validated : Type 0 where
  accepted : FoundationSettings → Validated
  rejected : ConfigError → Validated

infixl 5 ◌>>=◌
abbrev pub ◌>>=◌ : Validated → (FoundationSettings → Validated) → Validated
accepted s >>= f = f s
rejected e >>= f = rejected e

-- `text in words`
abbrev pub is_in : String → List String → Bool
is_in t [] = false
is_in t (w ∷ ws) = str_eq t w || is_in t ws

-- `text.lower() in words`
unfoldable pub is_lower_in : String → List String → Bool
is_lower_in t [] = false
is_lower_in t (w ∷ ws) = eqb_codes (lower (codes t)) (codes w) || is_lower_in t ws

unfoldable pub validate_app_id_not_reserved : FoundationSettings → Validated
validate_app_id_not_reserved s =
    if str_eq s.df_local_app_id reserved_namespace then rejected reserved_app_id else accepted s

unfoldable pub validate_profile : FoundationSettings → Validated
validate_profile s =
    if not (is_in s.df_local_profile ("dev" ∷ "test" ∷ "prod-local" ∷ []))
    then rejected unknown_profile
    else accepted s

unfoldable pub validate_prod_local_strict_mode : FoundationSettings → Validated
validate_prod_local_strict_mode s =
    if not (str_eq s.df_local_profile "prod-local")
    then accepted s
    else if is_lower_in s.df_local_user forbidden_prod_credentials
    then rejected weak_user
    else if is_lower_in s.df_local_password forbidden_prod_credentials
    then rejected weak_password
    else if is_in s.df_local_host forbidden_prod_hosts
    then rejected wildcard_host
    else accepted s

-- The validators, one after the other.
unfoldable pub validate : FoundationSettings → Validated
unfolding validate_app_id_not_reserved validate_profile validate_prod_local_strict_mode
validate s = validate_app_id_not_reserved s >>= validate_profile >>= validate_prod_local_strict_mode

unfoldable pub is_prod_local : FoundationSettings → Bool
is_prod_local s = str_eq s.df_local_profile "prod-local"

abbrev pub address : FoundationSettings → List ℕ
address s =
    codes s.df_local_user
    ++ (b':' ∷ codes s.df_local_password
        ++ (b'@' ∷ codes s.df_local_host
            ++ (b':' ∷ show s.df_local_port ++ (b'/' ∷ codes s.df_local_db))))

unfoldable pub connection_string : FoundationSettings → List ℕ
connection_string s = codes "postgresql://" ++ address s

unfoldable pub async_connection_string : FoundationSettings → List ℕ
async_connection_string s = codes "postgresql+asyncpg://" ++ address s
