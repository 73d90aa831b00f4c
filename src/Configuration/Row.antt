-- ===== src/Configuration/Row.antt =====
-- The row of the configuration and what it is read as: the table of src/prisma/schema.prisma, ParsedConfig of
-- src/schema/config.ts, and the row that src/db/configuration/getConfiguration.ts makes.
use thirdweb_engine.Base.{ℕ, Bool, true, String, Option, none, some, List, [], ◌∷◌, if◌then◌else◌}

-- A row of `configuration`.
pub record Configuration : Type 0 where
  pub chain_overrides : Option String
  pub min_txs_to_process : ℕ
  pub max_txs_to_process : ℕ
  pub mined_tx_listener_cron_schedule : Option String
  pub max_txs_to_update : ℕ
  pub retry_tx_listener_cron_schedule : Option String
  pub min_ellapsed_blocks_before_retry : ℕ
  pub max_fee_per_gas_for_retries : String
  pub max_priority_fee_per_gas_for_retries : String
  pub max_retries_per_tx : ℕ
  pub indexer_listener_cron_schedule : Option String
  pub max_blocks_to_index : ℕ
  pub cursor_delay_seconds : ℕ
  pub contract_subscriptions_retry_delay_seconds : String
  pub aws_access_key_id : Option String
  pub aws_secret_access_key : Option String
  pub aws_region : Option String
  pub gcp_application_project_id : Option String
  pub gcp_kms_location_id : Option String
  pub gcp_kms_key_ring_id : Option String
  pub gcp_application_credential_email : Option String
  pub gcp_application_credential_private_key : Option String
  pub auth_domain : String
  pub auth_wallet_encrypted_json : String
  pub webhook_url : Option String
  pub webhook_auth_bearer_token : Option String
  pub min_wallet_balance : String
  pub access_control_allow_origin : String
  pub ip_allowlist : List String
  pub clear_cache_cron_schedule : String

pub record NativeCurrency : Type 0 where
  pub name : String
  pub symbol : String
  pub decimals : ℕ

-- A network of `chainOverrides`, and the chain that is made of it.
pub record Network : Type 0 where
  pub chain_id : ℕ
  pub name : String
  pub rpc : List String
  pub native_currency : NativeCurrency
  pub testnet : Bool

pub record Chain : Type 0 where
  pub id : ℕ
  pub name : String
  pub rpc : Option String
  pub native_currency : NativeCurrency
  pub testnet : Option Bool

pub data WalletConfiguration : Type 0 where
  local : WalletConfiguration
  -- the region, the ID of the access key and its secret
  aws_kms : String → String → String → WalletConfiguration
  -- the project, the location, the key ring, the email and the private key
  gcp_kms : String → String → String → String → String → WalletConfiguration

-- The row without the secrets of the wallets and without the delays that are renamed.
pub record RestConfig : Type 0 where
  pub chain_overrides : Option String
  pub min_txs_to_process : ℕ
  pub max_txs_to_process : ℕ
  pub mined_tx_listener_cron_schedule : Option String
  pub max_txs_to_update : ℕ
  pub retry_tx_listener_cron_schedule : Option String
  pub min_ellapsed_blocks_before_retry : ℕ
  pub max_fee_per_gas_for_retries : String
  pub max_priority_fee_per_gas_for_retries : String
  pub max_retries_per_tx : ℕ
  pub indexer_listener_cron_schedule : Option String
  pub max_blocks_to_index : ℕ
  pub cursor_delay_seconds : ℕ
  pub auth_domain : String
  pub auth_wallet_encrypted_json : String
  pub webhook_url : Option String
  pub webhook_auth_bearer_token : Option String
  pub min_wallet_balance : String
  pub access_control_allow_origin : String
  pub ip_allowlist : List String
  pub clear_cache_cron_schedule : String

-- `restConfig`
abbrev pub rest_config : Configuration → RestConfig
rest_config c = record {
  chain_overrides = c.chain_overrides;
  min_txs_to_process = c.min_txs_to_process;
  max_txs_to_process = c.max_txs_to_process;
  mined_tx_listener_cron_schedule = c.mined_tx_listener_cron_schedule;
  max_txs_to_update = c.max_txs_to_update;
  retry_tx_listener_cron_schedule = c.retry_tx_listener_cron_schedule;
  min_ellapsed_blocks_before_retry = c.min_ellapsed_blocks_before_retry;
  max_fee_per_gas_for_retries = c.max_fee_per_gas_for_retries;
  max_priority_fee_per_gas_for_retries = c.max_priority_fee_per_gas_for_retries;
  max_retries_per_tx = c.max_retries_per_tx;
  indexer_listener_cron_schedule = c.indexer_listener_cron_schedule;
  max_blocks_to_index = c.max_blocks_to_index;
  cursor_delay_seconds = c.cursor_delay_seconds;
  auth_domain = c.auth_domain;
  auth_wallet_encrypted_json = c.auth_wallet_encrypted_json;
  webhook_url = c.webhook_url;
  webhook_auth_bearer_token = c.webhook_auth_bearer_token;
  min_wallet_balance = c.min_wallet_balance;
  access_control_allow_origin = c.access_control_allow_origin;
  ip_allowlist = c.ip_allowlist;
  clear_cache_cron_schedule = c.clear_cache_cron_schedule;
}

-- The configuration without the fields of the wallets, which stand in `wallet_configuration`.
pub record ParsedConfig : Type 0 where
  pub rest : RestConfig
  pub contract_subscriptions_requery_delay_seconds : String
  pub chain_overrides_parsed : List Chain
  pub wallet_configuration : WalletConfiguration

abbrev pub first_url : List String → Option String
first_url [] = none
first_url (u ∷ _) = some u

abbrev pub to_chain : Network → Chain
to_chain n = record {
  id = n.chain_id;
  name = n.name;
  rpc = first_url n.rpc;
  native_currency = n.native_currency;
  testnet = if n.testnet then some true else none;
}

abbrev pub mandatory_allowed_cors_urls : String
mandatory_allowed_cors_urls = "https://thirdweb.com,https://embed.ipfscdn.io"

-- The row that `create` makes, with the defaults of the schema where it says nothing.
abbrev pub default_configuration : String → Configuration
default_configuration json = record {
  chain_overrides = none;
  min_txs_to_process = 1;
  max_txs_to_process = 30;
  mined_tx_listener_cron_schedule = some "*/5 * * * * *";
  max_txs_to_update = 50;
  retry_tx_listener_cron_schedule = some "*/15 * * * * *";
  min_ellapsed_blocks_before_retry = 12;
  max_fee_per_gas_for_retries = "10000000000000";
  max_priority_fee_per_gas_for_retries = "10000000000000";
  max_retries_per_tx = 3;
  indexer_listener_cron_schedule = some "*/5 * * * * *";
  max_blocks_to_index = 25;
  cursor_delay_seconds = 2;
  contract_subscriptions_retry_delay_seconds = "10";
  aws_access_key_id = none;
  aws_secret_access_key = none;
  aws_region = none;
  gcp_application_project_id = none;
  gcp_kms_location_id = none;
  gcp_kms_key_ring_id = none;
  gcp_application_credential_email = none;
  gcp_application_credential_private_key = none;
  auth_domain = "thirdweb.com";
  auth_wallet_encrypted_json = json;
  webhook_url = none;
  webhook_auth_bearer_token = none;
  min_wallet_balance = "20000000000000000";
  access_control_allow_origin = mandatory_allowed_cors_urls;
  ip_allowlist = [];
  clear_cache_cron_schedule = "*/30 * * * * *";
}
