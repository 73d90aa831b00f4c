-- ===== src/Configuration.antt =====
-- The configuration row and its reading: src/db/configuration/getConfiguration.ts and
-- updateConfiguration.ts, src/schema/config.ts and src/utils/cache/getConfig.ts.
pub mod Repaired
pub mod Secrets
pub mod Row
pub use thirdweb_engine.Configuration.Row.{
  Configuration, NativeCurrency, Network, Chain, WalletConfiguration, RestConfig, rest_config,
  ParsedConfig, local, aws_kms, gcp_kms, first_url, to_chain, mandatory_allowed_cors_urls,
  default_configuration,
}
use thirdweb_engine.Base.{
  ℕ, Bool, true, not, ◌&&◌, String, Option, none, some, List, [], ◌∷◌, is_some, str_eq, map,
  if◌then◌else◌,
}
use thirdweb_engine.Errors.{truthy}
use thirdweb_engine.Engine.{Task, Result, ok, err, pure, lift, gets, modify, ◌>>=◌, ◌>>◌}

-- The updates of a row that this file makes.
pub data Update : Type 0 where
  set_auth : String → String → Update
  set_origins : String → Update
  set_indexer_schedule : String → Update
  set_aws_secret : String → Update
  set_gcp_key : String → Update

-- The row and the variable `_config`.
pub record ConfigStore : Type 0 where
  pub row : Option Configuration
  pub cached : Option ParsedConfig

pub record ConfigEnv : Type 0 where
  pub encryption_password : String
  pub thirdweb_api_secret_key : String
  pub encrypt : String → String
  pub decrypt : String → String → Result String
  -- `JSON.parse` of the chain overrides
  pub parse_networks : String → Result (List Network)
  -- a new wallet's JSON, which is encrypted and so differs each time
  pub auth_wallet : Result String

-- `if (a)` of a text that cannot be null
abbrev pub is_text : String → Bool
is_text s = not (str_eq s "")

-- `a && b && …`, with the values
abbrev pub all_three :
    Option String → Option String → Option String → Option (String × String × String)
all_three (some i) (some s) (some r) = some (i, s, r)
all_three _ _ _ = none

abbrev pub all_five :
    Option String
    → Option String
    → Option String
    → Option String
    → Option String
    → Option (String × String × String × String × String)
all_five (some p) (some l) (some r) (some e) (some k) = some (p, l, r, e, k)
all_five _ _ _ _ _ = none

-- The fields of the wallets, where all are set: those that choose the type of the wallets.
abbrev pub aws_fields : Configuration → Option (String × String × String)
aws_fields c =
    all_three (truthy c.aws_access_key_id) (truthy c.aws_secret_access_key) (truthy c.aws_region)

abbrev pub gcp_fields : Configuration → Option (String × String × String × String × String)
gcp_fields c =
    all_five (truthy c.gcp_application_project_id) (truthy c.gcp_kms_location_id)
      (truthy c.gcp_kms_key_ring_id) (truthy c.gcp_application_credential_email)
      (truthy c.gcp_application_credential_private_key)

abbrev pub set_row : Configuration → ConfigStore → ConfigStore
set_row c s = record s { row = some c }

module _ (env : ConfigEnv) where
  -- The data of `updateConfiguration`, with secrets encrypted.
  unfoldable pub updated : Update → Configuration → Configuration
  updated (set_auth d j) c = record c { auth_domain = d; auth_wallet_encrypted_json = j }
  updated (set_origins o) c = record c { access_control_allow_origin = o }
  updated (set_indexer_schedule s) c = record c { indexer_listener_cron_schedule = some s }
  updated (set_aws_secret s) c = record c { aws_secret_access_key = some (env.encrypt s) }
  updated (set_gcp_key k) c = record c {
    gcp_application_credential_private_key = some (env.encrypt k);
  }

  -- `updateConfiguration` of the row `c`
  unfoldable pub update_configuration : Update → Configuration → Task ConfigStore Configuration
  update_configuration u c = modify (set_row (updated u c)) >> pure (updated u c)

  -- The chains of the overrides. What is thrown is logged.
  unfoldable pub parse_chain_overrides : Configuration → List Chain
  parse_chain_overrides c = read (truthy c.chain_overrides)
    where
      chains : Result (List Network) → List Chain
      chains (ok ns) = map to_chain ns
      chains (err _) = []

      read : Option String → List Chain
      read none = []
      read (some s) = chains (env.parse_networks s)

  -- A secret: it is decrypted with the password, and if the text that was decrypted, not the result, is
  -- empty, with the API key; the row is then updated with what that gives.
  unfoldable pub decrypt_secret :
      (String → Update) → String → Configuration → Task ConfigStore String
  decrypt_secret update secret c =
      lift (env.decrypt secret env.encryption_password) >>= λ decrypted.
      if is_text secret
      then pure decrypted
      else (lift (env.decrypt secret env.thirdweb_api_secret_key) >>= λ again.
          if is_text again
          then (update_configuration (update again) c >> pure again)
          else pure again)

  abbrev pub parsed : Configuration → WalletConfiguration → ParsedConfig
  parsed c w = record {
    rest = rest_config c;
    contract_subscriptions_requery_delay_seconds = c.contract_subscriptions_retry_delay_seconds;
    chain_overrides_parsed = parse_chain_overrides c;
    wallet_configuration = w;
  }

  -- `toParsedConfig`
  unfoldable pub to_parsed_config : Configuration → Task ConfigStore ParsedConfig
  to_parsed_config c = with_aws (aws_fields c)
    where
      with_gcp : Option (String × String × String × String × String) → Task ConfigStore ParsedConfig
      with_gcp none = pure (parsed c local)
      with_gcp (some (p, l, r, e, k)) =
          decrypt_secret set_gcp_key k c >>= λ key. pure (parsed c (gcp_kms p l r e key))

      with_aws : Option (String × String × String) → Task ConfigStore ParsedConfig
      with_aws none = with_gcp (gcp_fields c)
      with_aws (some (i, s, r)) =
          decrypt_secret set_aws_secret s c >>= λ key. pure (parsed c (aws_kms r i key))

  -- The row of `getConfiguration`: it is made, or the first thing that it lacks is added.
  unfoldable pub filled_row : Option Configuration → Task ConfigStore Configuration
  filled_row none = lift env.auth_wallet >>= λ json.
      modify (set_row (default_configuration json)) >> pure (default_configuration json)
  filled_row (some c) =
      if not (is_text c.auth_domain) && not (is_text c.auth_wallet_encrypted_json)
      then (lift env.auth_wallet >>= λ json. update_configuration (set_auth "thirdweb.com" json) c)
      else if not (is_text c.access_control_allow_origin)
      then update_configuration (set_origins mandatory_allowed_cors_urls) c
      else if not (is_some (truthy c.indexer_listener_cron_schedule))
      then update_configuration (set_indexer_schedule "*/5 * * * * *") c
      else pure c

  -- `getConfiguration`
  unfoldable pub get_configuration : Task ConfigStore ParsedConfig
  get_configuration = gets (λ s. s.row) >>= filled_row >>= to_parsed_config

  -- `getConfig`
  unfoldable pub get_config : Bool → Task ConfigStore ParsedConfig
  get_config retrieve_from_cache = gets (λ s. s.cached) >>= found
    where
      fresh : Task ConfigStore ParsedConfig
      fresh = get_configuration >>= λ p. modify (λ s. record s { cached = some p }) >> pure p

      found : Option ParsedConfig → Task ConfigStore ParsedConfig
      found none = fresh
      found (some p) = if retrieve_from_cache then pure p else fresh

-- `invalidateConfig`
unfoldable pub invalidate_config : Task ConfigStore (Unit {0})
invalidate_config = modify (λ s. record s { cached = none })
