-- ===== src/Accounts.antt =====
-- The wallets and accounts that transactions are signed with, and their caches: src/utils/account.ts,
-- src/utils/cache/getWallet.ts, and getAwsKmsWallet.ts, getGcpKmsWallet.ts and getSmartWallet.ts of
-- src/server/utils/wallets/.
pub mod Keys
pub mod Cached
use thirdweb_engine.Base.{ℕ, Bool, true, false, String, Option, none, some, str_eq, if◌then◌else◌}
use thirdweb_engine.Base.Text.{to_lower, ◌+++◌}
use thirdweb_engine.Base.Decimal.{number_text}
use thirdweb_engine.Transaction.{Address}
use thirdweb_engine.Errors.{truthy}
use thirdweb_engine.Engine.{
  Task, Result, ok, err, error, bad_request, then_ok, pure, lift, gets, modify, ◌>>=◌, ◌>>◌,
}
use thirdweb_engine.Configuration.{WalletConfiguration}

-- A wallet of the SDK, as what it is made with.
pub data EvmWallet : Type 0 where
  -- the region, the ID of the access key, its secret and the ID of the key
  aws_kms_wallet : String → String → String → String → EvmWallet
  -- the project, the location, the key ring, the key, its version, the email and the private key
  gcp_kms_wallet : String → String → String → String → String → String → String → EvmWallet
  local_wallet : ℕ → Address → EvmWallet
  -- the chain, the factory, the wallet that owns it and its address
  smart_wallet : ℕ → String → EvmWallet → Address → EvmWallet

-- An account of the SDK: that of a local wallet, or a signer with the URL that it was connected to.
pub data Account : Type 0 where
  local_account : Address → Account
  signer_account : EvmWallet → Option String → Account

-- The columns of a row of `wallet_details` that are asked for.
pub record WalletDetails : Type 0 where
  pub type : String
  pub aws_kms_key_id : String
  pub gcp_kms_key_id : String
  pub gcp_kms_key_version_id : String

pub record AccountArgs : Type 0 where
  pub chain_id : ℕ
  pub from : Address
  pub account_address : Option Address

pub record AccountEnv : Type 0 where
  -- the row of an address in lower case
  pub find_wallet : Address → Option WalletDetails
  pub wallet_configuration : WalletConfiguration
  -- whether a local wallet can be loaded from its file, as a wallet on a chain or as an account
  pub load_local_wallet : ℕ → Address → Result (Unit {0})
  pub load_local_account : Address → Result (Unit {0})
  -- the answer of Redis, if it has one, and of the contract
  pub cached_factory : Address → Option String
  pub factory_of : ℕ → Address → Option String
  pub connect_smart_wallet : ℕ → String → EvmWallet → Address → Result (Unit {0})
  pub rpc_of : ℕ → Result String

-- `_accountsCache` and `walletsCache`
pub record Caches : Type 0 where
  pub accounts : String → Option Account
  pub wallets : String → Option EvmWallet

-- `getAccountCacheKey`, which is also the key that `getWallet` makes
unfoldable pub account_cache_key : AccountArgs → String
account_cache_key args = key (truthy args.account_address)
  where
    key : Option Address → String
    key none = number_text args.chain_id +++ "-" +++ args.from
    key (some a) = number_text args.chain_id +++ "-" +++ args.from +++ "-" +++ a

module _ (env : AccountEnv) where
  -- `getWalletDetails`
  unfoldable pub get_wallet_details : Address → Option WalletDetails
  get_wallet_details address = env.find_wallet (to_lower address)

  unfoldable pub get_aws_kms_wallet : String → Result EvmWallet
  get_aws_kms_wallet key = made env.wallet_configuration
    where
      made : WalletConfiguration → Result EvmWallet
      made (WalletConfiguration.aws_kms r i s) = ok (aws_kms_wallet r i s key)
      made _ = error "Server was not configured for AWS KMS wallets."

  unfoldable pub get_gcp_kms_wallet : String → String → Result EvmWallet
  get_gcp_kms_wallet key version = made env.wallet_configuration
    where
      made : WalletConfiguration → Result EvmWallet
      made (WalletConfiguration.gcp_kms p l r e k) = ok (gcp_kms_wallet p l r key version e k)
      made _ = error "Server was not configured for GCP KMS."

  -- `getLocalWallet`, of a wallet that is loaded
  abbrev pub get_local_wallet : ℕ → Address → Result EvmWallet
  get_local_wallet chain address =
      then_ok (env.load_local_wallet chain address) (λ _. ok (local_wallet chain address))

  unfoldable pub get_smart_wallet : ℕ → EvmWallet → Address → Result EvmWallet
  get_smart_wallet chain wallet address =
      with_factory (truthy (env.cached_factory (to_lower address)))
    where
      connected : String → Result EvmWallet
      connected factory =
          then_ok (env.connect_smart_wallet chain factory wallet address)
            (λ _. ok (smart_wallet chain factory wallet address))

      called : Option String → Result EvmWallet
      called none = error "Failed to find factory address for account"
      called (some factory) = connected factory

      with_factory : Option String → Result EvmWallet
      with_factory (some factory) = connected factory
      with_factory none = called (env.factory_of chain address)

  -- The wallet of a row, for `none` of a type that is not known.
  unfoldable pub backend_wallet : ℕ → Address → WalletDetails → Option (Result EvmWallet)
  backend_wallet chain address d =
      if str_eq d.type "aws-kms"
      then some (get_aws_kms_wallet d.aws_kms_key_id)
      else if str_eq d.type "gcp-kms"
      then some (get_gcp_kms_wallet d.gcp_kms_key_id d.gcp_kms_key_version_id)
      else if str_eq d.type "local"
      then some (get_local_wallet chain address)
      else none

  -- The signer of a wallet: one that is not local is connected to the chain's RPC.
  abbrev pub connected_account : ℕ → WalletDetails → EvmWallet → Result Account
  connected_account chain d wallet =
      if str_eq d.type "local"
      then ok (signer_account wallet none)
      else then_ok (env.rpc_of chain) (λ rpc. ok (signer_account wallet (some rpc)))

  -- The account that `getAccount` makes, of a chain, an address and the address of a smart account.
  unfoldable pub new_account : ℕ → Address → Option Address → Result Account
  new_account chain address account = of_details (get_wallet_details address)
    where
      of_wallet : WalletDetails → Option Address → EvmWallet → Result Account
      of_wallet d none wallet = connected_account chain d wallet
      of_wallet d (some a) wallet =
          then_ok (get_smart_wallet chain wallet a) (connected_account chain d)

      of_backend : WalletDetails → Option (Result EvmWallet) → Result Account
      of_backend d none = error "Wallet type not supported"
      of_backend d (some r) = then_ok r (of_wallet d account)

      of_type : Bool → WalletDetails → Option Address → Result Account
      of_type true d none =
          then_ok (env.load_local_account address) (λ _. ok (local_account address))
      of_type _ d _ = of_backend d (backend_wallet chain address d)

      of_details : Option WalletDetails → Result Account
      of_details none = bad_request "No configured wallet found with address" "BAD_REQUEST"
      of_details (some d) = of_type (str_eq d.type "local") d account

  -- The wallet that `getWallet` makes.
  unfoldable pub new_wallet : ℕ → Address → Option Address → Result EvmWallet
  new_wallet chain address account = of_details (get_wallet_details address)
    where
      of_wallet : Option Address → EvmWallet → Result EvmWallet
      of_wallet none wallet = ok wallet
      of_wallet (some a) wallet = get_smart_wallet chain wallet a

      of_backend : Option (Result EvmWallet) → Result EvmWallet
      of_backend none = error "Wallet was configured with unknown wallet type"
      of_backend (some r) = then_ok r (of_wallet account)

      of_details : Option WalletDetails → Result EvmWallet
      of_details none = error "No configured wallet found with address"
      of_details (some d) = of_backend (backend_wallet chain address d)

  -- `_accountsCache.set(…)` and `walletsCache.set(…)`
  abbrev pub keep_account : String → Account → Caches → Caches
  keep_account k a s = record s { accounts = λ l. if str_eq l k then some a else s.accounts l }

  abbrev pub keep_wallet : String → EvmWallet → Caches → Caches
  keep_wallet k w s = record s { wallets = λ l. if str_eq l k then some w else s.wallets l }

  -- `getAccount`
  unfoldable pub get_account : AccountArgs → Task Caches Account
  get_account args = gets (λ s. s.accounts (account_cache_key args)) >>= found
    where
      found : Option Account → Task Caches Account
      found (some a) = pure a
      found none = lift (new_account args.chain_id args.from (truthy args.account_address)) >>= λ a.
          modify (keep_account (account_cache_key args) a) >> pure a

  -- `getWallet`
  unfoldable pub get_wallet : AccountArgs → Task Caches EvmWallet
  get_wallet args = gets (λ s. s.wallets (account_cache_key args)) >>= found
    where
      found : Option EvmWallet → Task Caches EvmWallet
      found (some w) = pure w
      found none = lift (new_wallet args.chain_id args.from (truthy args.account_address)) >>= λ w.
          modify (keep_wallet (account_cache_key args) w) >> pure w
