-- ===== src/Examples/Connected.antt =====
-- The websockets and the configuration, at concrete inputs.
use thirdweb_engine.Base.{
  ℕ, ◌≡◌, refl, String, Option, none, some, [], ◌∷◌, str_eq, if◌then◌else◌, arith,
}
use thirdweb_engine.Base.Text.{◌+++◌}
use thirdweb_engine.Transaction.{Transaction}
use thirdweb_engine.Engine.{World, ok, error}
use thirdweb_engine.Websocket.{
  UserSubscription, Sockets, find_ws_connection_in_shared_state, on_message, ws_handler,
  undefined_socket,
}
use thirdweb_engine.Websocket.Unique.{IsUnique, start, more, connects, sends, Steps-IsUnique}
use thirdweb_engine.Websocket.Messages.{on_message-unlisted}
use thirdweb_engine.Configuration.{
  Configuration, ConfigStore, ConfigEnv, default_configuration, to_parsed_config,
}
use thirdweb_engine.Configuration.Secrets.{read_with_password, to_parsed_config_lem}
use thirdweb_engine.Configuration.Repaired.{lacks, after_reads, get_configuration_complete}
use thirdweb_engine.Examples.Setup.{sent_one}

abbrev follows : ℕ → UserSubscription
follows socket = record { socket = socket; request_id = "q1" }

-- Two sockets that follow a transaction, and none that does.
abbrev two_sockets : World Sockets
two_sockets = record {
  store = record { subscriptions_data = follows 1 ∷ follows 2 ∷ []; messages = []; closed = [] };
  effects = [];
}

abbrev no_sockets : World Sockets
no_sockets = record two_sockets {
  store = record { subscriptions_data = []; messages = []; closed = [] };
}

abbrev stored : String → Option Transaction
stored id = some sent_one

no_sockets-IsUnique : IsUnique no_sockets
no_sockets-IsUnique socket = omega arith

abbrev one_socket : World Sockets
one_socket = (ws_handler stored 1 "q1" no_sockets).1

Steps-IsUnique_example : IsUnique (on_message 2 one_socket).1
Steps-IsUnique_example =
    Steps-IsUnique stored no_sockets (on_message 2 one_socket).1 no_sockets-IsUnique
      (more (more start (connects 1 "q1")) (sends 2))

on_message-unlisted_example :
    let (res, w') = on_message 3 two_sockets in
    (res ≡ undefined_socket)
    × (w'.store.subscriptions_data ≡ follows 1 ∷ [])
    × (w'.store.messages ≡ [])
    × (w'.store.closed ≡ [])
unfolding find_ws_connection_in_shared_state
on_message-unlisted_example =
    on_message-unlisted 3 (follows 1 ∷ []) (follows 2) two_sockets refl refl

abbrev config_env : ConfigEnv
config_env = record {
  encryption_password = "p";
  thirdweb_api_secret_key = "k";
  encrypt = λ s. "p" +++ s;
  decrypt = λ s p. if str_eq s "psecret" then ok "secret" else error "Malformed UTF-8 data";
  parse_networks = λ _. ok [];
  auth_wallet = ok "{}";
}

-- A row of an older version: of the keys of AWS, and without the wallet of the authentication, the
-- origins and the schedule of the indexer.
abbrev old_row : Configuration
old_row = record (default_configuration "") {
  auth_domain = "";
  access_control_allow_origin = "";
  indexer_listener_cron_schedule = none;
  aws_access_key_id = some "id";
  aws_secret_access_key = some "psecret";
  aws_region = some "us";
}

abbrev old_store : World ConfigStore
old_store = record { store = record { row = some old_row; cached = none }; effects = [] }

to_parsed_config_lem_example :
    to_parsed_config config_env old_row old_store
    ≡ (read_with_password config_env old_row, old_store)
to_parsed_config_lem_example = to_parsed_config_lem config_env old_row old_store

get_configuration_complete_example : lacks (after_reads config_env 3 old_store).store.row ≡ 0
get_configuration_complete_example = get_configuration_complete config_env "{}" old_store refl
