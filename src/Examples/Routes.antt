-- ===== src/Examples/Routes.antt =====
-- Inserting, cancelling and retrying, and who may call the API, at concrete inputs.
use thirdweb_engine.Base.{◌≡◌, refl, true, false, Option, none, some, [], ◌∷◌}
use thirdweb_engine.Base.Int.{pos}
use thirdweb_engine.Redis.Memory.{memory, at}
use thirdweb_engine.Redis.Values.{key_eq, id_eq}
use thirdweb_engine.Engine.{ok, Populated}
use thirdweb_engine.Transaction.{number}
use thirdweb_engine.Insert.{insert_transaction}
use thirdweb_engine.Insert.Outcomes.{insert_transaction-new}
use thirdweb_engine.Cancel.{cancel_transaction}
use thirdweb_engine.Cancel.Outcomes.{cancel_transaction-sent}
use thirdweb_engine.SendWorker.Prepare.{no_fees}
use thirdweb_engine.Auth.{
  AuthEnv, User, valid, Keypair, handle_access_token, check_ip_in_allowlist, allowed,
}
use thirdweb_engine.Auth.Access.{IsGoodToken, handle_access_token-allowed}
use thirdweb_engine.Auth.Endpoints.{Request}
use thirdweb_engine.Examples.Setup.{env, sender, input, sent_one, holding, blank}

insert_transaction-new_example :
    (insert_transaction memory env input no_fees (some "q") false blank).0 ≡ ok "q"
unfolding at
insert_transaction-new_example =
    (insert_transaction-new memory env blank input no_fees "q" (some "q") refl refl).0

abbrev null_send : Populated
null_send = record {
  chain_id = 1;
  nonce = some (number (pos 5));
  to = some sender;
  value = some 0;
  call_data = some "0x";
  fees = record {
    gas = none;
    gas_price = none;
    max_fee_per_gas = some 100;
    max_priority_fee_per_gas = some 2;
  };
}

cancel_transaction-sent_example :
    (cancel_transaction memory env "q" (holding sent_one)).0
    ≡ ok (record { queue_id = "q"; transaction_hash = some "0xnew" })
unfolding at key_eq id_eq
cancel_transaction-sent_example =
    (cancel_transaction-sent memory env (holding sent_one) sent_one refl refl null_send refl refl
      "0xnew" refl refl).0

abbrev again : Populated
again = record null_send { to = some "0xb2" }

-- A configuration with one admin, whose token is not revoked, and one address in the allowlist.
abbrev admin : User
admin = record { address = "0xad"; permissions = some "ADMIN" }

abbrev auth_env : AuthEnv
auth_env = record {
  uuid_validate = λ _. false;
  get_jwt = λ req. req.bearer;
  decode = λ _. none;
  auth_wallet_address = ok "0xe0";
  get_access_token = λ _. ok (some none);
  get_user = λ _. ok (some admin);
  handle_siwe = λ _ _. none;
  get_permissions = λ _. ok none;
  get_keypair = λ _ _. ok none;
  verify = λ _ _. valid none;
  hash_request_body = λ _. "hash";
  ip_allowlist = "10.0.0.1" ∷ [];
  auth_webhooks = λ _. ok [];
  enable_keypair_auth = true;
  thirdweb_api_secret_key = "secret";
}

abbrev post : Request
post = record {
  method = "POST";
  url = "/transaction/cancel";
  upgrade = none;
  bearer = some "jwt";
  query_token = none;
  ip = "10.0.0.1";
  body = "{}";
}

is_let_in :
    (handle_access_token auth_env "jwt" post (record { store = false; effects = [] })).0
    ≡ ok (allowed (some admin))
unfolding handle_access_token check_ip_in_allowlist
is_let_in = refl

handle_access_token-allowed_example :
    (user : Option User) × IsGoodToken auth_env "jwt" post user × (some admin ≡ user)
handle_access_token-allowed_example =
    handle_access_token-allowed auth_env "jwt" post (record { store = false; effects = [] })
      (allowed (some admin)) is_let_in refl

abbrev keypair : Keypair
keypair = record { public_key = "key"; algorithm = "ES256" }

abbrev key_get : Request
key_get = record {
  method = "GET";
  url = "/backend-wallet/get-all";
  upgrade = none;
  bearer = none;
  query_token = none;
  ip = "10.0.0.2";
  body = "";
}
