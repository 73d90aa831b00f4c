-- ===== src/Examples/Served.antt =====
-- The accounts, the nonce map and the schedules, at concrete inputs.
use thirdweb_engine.Base.{
  ◌≡◌, ◌∙◌, sym, ap, refl, eq_iff, Bool-cases, inl, inr, none, some, [], ◌∷◌, str_eq, arith,
}
use thirdweb_engine.Base.Int.{pos}
use thirdweb_engine.Base.Text.{to_lower}
use thirdweb_engine.Engine.{World, ok}
use thirdweb_engine.Configuration.{aws_kms}
use thirdweb_engine.Accounts.{AccountArgs, AccountEnv, get_account, get_wallet}
use thirdweb_engine.Accounts.Cached.{
  for_account, for_wallet, after_calls, made_account, made_wallet, no_entries, get_account_cached,
}
use thirdweb_engine.Redis.Memory.{memory, Store, at}
use thirdweb_engine.Redis.Values.{
  key_eq, wallet_eq, id_eq, details, nonce_map, json, sorted, queue_id,
}
use thirdweb_engine.Nonce.{wallet_key}
use thirdweb_engine.Delivery.Schemas.{to_transaction_schema}
use thirdweb_engine.NonceMap.{shown_transaction, shown_queue_id, get_transactions_by_nonce}
use thirdweb_engine.NonceMap.Hydrated.{IsKeyed, get_transactions_by_nonce_lem}
use thirdweb_engine.Examples.Setup.{sent_one, sender, wallet}

abbrev accounts_env : AccountEnv
accounts_env = record {
  find_wallet = λ _. some (record {
    type = "aws-kms";
    aws_kms_key_id = "k";
    gcp_kms_key_id = "";
    gcp_kms_key_version_id = "";
  });
  wallet_configuration = aws_kms "us" "id" "secret";
  load_local_wallet = λ _ _. ok tt;
  load_local_account = λ _. ok tt;
  cached_factory = λ _. some "0xf";
  factory_of = λ _ _. none;
  connect_smart_wallet = λ _ _ _ _. ok tt;
  rpc_of = λ _. ok "https://rpc.example";
}

abbrev plain : AccountArgs
plain = record { chain_id = 1; from = "0xa"; account_address = none }

abbrev smart : AccountArgs
smart = record { chain_id = 1; from = "0xa"; account_address = some "0xb" }

get_account_cached_example :
    let w = after_calls accounts_env (for_account plain ∷ for_wallet smart ∷ []) no_entries in
    ((get_account accounts_env smart w).0 ≡ made_account accounts_env smart)
    × ((get_wallet accounts_env smart w).0 ≡ made_wallet accounts_env smart)
get_account_cached_example =
    get_account_cached accounts_env (for_account plain ∷ for_wallet smart ∷ []) smart
      ((refl, tt), ((refl, refl), tt)) (refl, refl)

-- The nonces 5 and 6 of a wallet, of which one transaction is not there any more.
abbrev mapped : World Store
mapped = record {
  store =
      (details "q", json sent_one)
      ∷ (nonce_map wallet, sorted ((pos 5, queue_id "q") ∷ (pos 6, queue_id "gone") ∷ []))
      ∷ [];
  effects = [];
}

mapped-IsKeyed : IsKeyed memory mapped.store
unfolding at key_eq id_eq
mapped-IsKeyed id t h = elim (Bool-cases (str_eq id "q")) [
  | inl y ↦
      let same : sent_one ≡ t = some_inj (rw y at h) in
      let is_q : id ≡ "q" = ground (arith, y, eq_iff id "q") in
      ap (λ u. u.queue_id) (sym same) ∙ sym is_q
  | inr n ↦ absurd (none-ne-some (rw n at h))
]
  where
    some_inj : some sent_one ≡ some t → sent_one ≡ t
    some_inj e = cc

    none-ne-some : none ≡ some t → ⊥
    none-ne-some e = cc

get_transactions_by_nonce_lem_example :
    get_transactions_by_nonce memory 2 (λ _. ok 1) "mainnet" sender 5 none mapped ≡ (
      ok (
          (pos 5, shown_transaction (to_transaction_schema sent_one))
          ∷ (pos 6, shown_queue_id "gone")
          ∷ []),
      mapped,
    )
unfolding at to_lower wallet_key key_eq wallet_eq id_eq
get_transactions_by_nonce_lem_example =
    get_transactions_by_nonce_lem memory 2 (λ _. ok 1) "mainnet" sender 5 none 1 mapped
      (omega arith) refl mapped-IsKeyed
