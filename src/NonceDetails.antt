-- ===== src/NonceDetails.antt =====
-- The nonces of the wallets as the admin route shows them: getNonceDetails of
-- src/server/routes/admin/nonces.ts, with getUsedBackendWallets of src/db/wallets/walletNonce.ts.
pub mod Failing
use thirdweb_engine.Base.{
  ℕ, Bool, true, false, String, Option, none, some, List, [], ◌∷◌, ◌&&◌, ◌==◌, str_eq, map,
  if◌then◌else◌,
}
use thirdweb_engine.Base.Int.{ℤ, pred_ℕ}
use thirdweb_engine.Base.Text.{to_lower}
use thirdweb_engine.Transaction.{Address}
use thirdweb_engine.Redis.{Redis}
use thirdweb_engine.Redis.Values.{
  Wallet, Key, last_used, sent_nonces, recycled, Value, absent, members, Member, get_number,
}
use thirdweb_engine.Engine.{Result, ok, error, then_ok}
use thirdweb_engine.Env.{Env}
use thirdweb_engine.Nonce.{wallet_key}

-- SMEMBERS, whose failure leaves no result for the `map` of the source. The order, which the source
-- sorts, is left out.
abbrev pub smembers : Value → Result (Member → Bool)
smembers absent = ok (λ _. false)
smembers (members f) = ok f
smembers _ = error "Cannot read properties of undefined (reading 'map')"

pub record NonceDetails : Type 0 where
  pub wallet_address : Address
  pub chain_id : ℕ
  pub onchain_nonce : ℤ
  -- `none` stands for NaN
  pub last_used_nonce : Option ℤ
  pub sent_nonces : Member → Bool
  pub recycled_nonces : Member → Bool

abbrev pub chain_matches : Option ℕ → Wallet → Bool
chain_matches none w = true
chain_matches (some c) w = w.chain_id == c

abbrev pub address_matches : Option Address → Wallet → Bool
address_matches none w = true
address_matches (some a) w = str_eq w.address (to_lower a)

-- A wallet's chain and its address with its checksum.
abbrev pub UsedWallet : Type 0
UsedWallet = ℕ × Address

module _ (R : Redis) (env : Env) where
  open R use {Store, at, keys}

  -- `redis.keys("nonce:…:…")`, of a chain or all, and of an address or all
  unfoldable pub used_wallets : Option ℕ → Option Address → List Key → List UsedWallet
  used_wallets chain address [] = []
  used_wallets chain address (last_used w ∷ ks) =
      let rest = used_wallets chain address ks in
      if chain_matches chain w && address_matches address w
      then (w.chain_id, env.checksum w.address) ∷ rest
      else rest
  used_wallets chain address (_ ∷ ks) = used_wallets chain address ks

  -- `getUsedBackendWallets`
  unfoldable pub get_used_backend_wallets : Option ℕ → Option Address → Store → List UsedWallet
  get_used_backend_wallets chain address s = used_wallets chain address (keys s "nonce:")

  -- The details of one wallet.
  unfoldable pub wallet_details : Store → UsedWallet → Result NonceDetails
  wallet_details s (chain, address) =
      let w = wallet_key chain address in
      then_ok (env.transaction_count chain address) (λ count.
        then_ok (smembers (at s (sent_nonces w))) (λ sent.
          then_ok (smembers (at s (recycled w))) (λ given_back. ok (record {
            wallet_address = address;
            chain_id = chain;
            onchain_nonce = pred_ℕ count;
            last_used_nonce = get_number (at s (last_used w));
            sent_nonces = sent;
            recycled_nonces = given_back;
          }))))

  unfoldable pub all_details : Store → List UsedWallet → Result (List NonceDetails)
  all_details s [] = ok []
  all_details s (u ∷ us) =
      let rest = all_details s us in
      then_ok (wallet_details s u) (λ d. then_ok rest (λ ds. ok (d ∷ ds)))

  -- `getNonceDetails`. It fails if the details of one wallet do.
  unfoldable pub get_nonce_details : Option ℕ → Option Address → Store → Result (List NonceDetails)
  get_nonce_details chain address s = all_details s (get_used_backend_wallets chain address s)
