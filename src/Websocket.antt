-- ===== src/Websocket.antt =====
-- The websockets that follow a transaction: src/server/utils/websocket.ts, the handlers of
-- src/server/routes/transaction/status.ts, and src/server/listeners/updateTxListener.ts. The state is the
-- array `subscriptionsData` of src/server/schemas/websocket, and what the sockets were sent.
pub mod Unique
pub mod Messages
use thirdweb_engine.Base.{
  ℕ, zero, suc, Bool, true, false, String, Option, none, some, List, [], ◌∷◌, ◌++◌, ◌==◌, str_eq,
  if◌then◌else◌,
}
use thirdweb_engine.Transaction.{Transaction, Status, mined, errored, sent}
use thirdweb_engine.Errors.{truthy}
use thirdweb_engine.Engine.{
  Task, Result, ok, error, bad_request, pure, lift, gets, modify, ◌>>=◌, ◌>>◌,
}
use thirdweb_engine.Delivery.Schemas.{TransactionSchema, to_transaction_schema}

-- A socket is a number.
pub record UserSubscription : Type 0 where
  pub socket : ℕ
  pub request_id : String

-- What is written to a socket as JSON: that of `formatSocketMessage`, that of an error with the ID of
-- the request, or a plain text.
pub data Message : Type 0 where
  status_message : Option TransactionSchema → Option String → String → Message
  error_message : String → String → Message
  plain_text : String → Message

pub record Sockets : Type 0 where
  pub subscriptions_data : List UserSubscription
  pub messages : List (ℕ × Message)
  pub closed : List ℕ

-- `array.findIndex(…)`. `none` stands for -1.
abbrev pub find_index : (UserSubscription → Bool) → List UserSubscription → Option ℕ
find_index p [] = none
find_index p (x ∷ xs) =
    let rest = find_index p xs in
    if p x then some zero else elim rest [ none ↦ none | some i ↦ some (suc i) ]

abbrev pub item_at : ℕ → List UserSubscription → Option UserSubscription
item_at i [] = none
item_at zero (x ∷ xs) = some x
item_at (suc i) (x ∷ xs) = item_at i xs

abbrev pub remove_at : ℕ → List UserSubscription → List UserSubscription
remove_at i [] = []
remove_at zero (x ∷ xs) = xs
remove_at (suc i) (x ∷ xs) = x ∷ remove_at i xs

abbrev pub remove_last : List UserSubscription → List UserSubscription
remove_last [] = []
remove_last (x ∷ []) = []
remove_last (x ∷ y ∷ xs) = x ∷ remove_last (y ∷ xs)

-- `array[index]`
abbrev pub at_index : Option ℕ → List UserSubscription → Option UserSubscription
at_index none xs = none
at_index (some i) xs = item_at i xs

-- `array.splice(index, 1)`, which counts from the end for -1
abbrev pub splice : Option ℕ → List UserSubscription → List UserSubscription
splice none xs = remove_last xs
splice (some i) xs = remove_at i xs

abbrev pub set_subscriptions : List UserSubscription → Sockets → Sockets
set_subscriptions l s = record s { subscriptions_data = l }

-- `socket.send(…)` and `socket.close()`
abbrev pub send : ℕ → Message → Task Sockets (Unit {0})
send socket m = modify (λ s. record s { messages = s.messages ++ (socket, m) ∷ [] })

abbrev pub close : ℕ → Task Sockets (Unit {0})
close socket = modify (λ s. record s { closed = s.closed ++ socket ∷ [] })

-- `findWSConnectionInSharedState`
unfoldable pub find_ws_connection_in_shared_state : ℕ → List UserSubscription → Option ℕ
find_ws_connection_in_shared_state socket = find_index (λ s. s.socket == socket)

-- `removeWSFromSharedState`
unfoldable pub remove_ws_from_shared_state : ℕ → Task Sockets (Option ℕ)
remove_ws_from_shared_state socket =
    gets (λ s. find_ws_connection_in_shared_state socket s.subscriptions_data) >>= remove
  where
    remove : Option ℕ → Task Sockets (Option ℕ)
    remove none = pure none
    remove (some i) =
        modify (λ s. set_subscriptions (remove_at i s.subscriptions_data) s) >> pure (some i)

abbrev pub undefined_socket {ℓ} : {A : Type ℓ} → Result A
undefined_socket = error "Cannot read properties of undefined (reading 'socket')"

-- The error that is sent to the socket of a subscription.
abbrev pub send_error : String → Option UserSubscription → Task Sockets (Unit {0})
send_error m none = lift undefined_socket
send_error m (some u) = send u.socket (error_message u.request_id m)

-- `onError`
unfoldable pub on_error : String → ℕ → Task Sockets (Unit {0})
on_error m socket =
    gets (λ s. find_ws_connection_in_shared_state socket s.subscriptions_data) >>= answer
  where
    answer : Option ℕ → Task Sockets (Unit {0})
    answer none = pure tt
    answer (some i) = do
      found ← gets (λ s. item_at i s.subscriptions_data)
      modify (λ s. set_subscriptions (remove_at i s.subscriptions_data) s)
      send_error m found
      close socket

abbrev pub close_of : Option UserSubscription → Task Sockets (Unit {0})
close_of none = lift undefined_socket
close_of (some u) = close u.socket

-- `onMessage`, which does not test the index
unfoldable pub on_message : ℕ → Task Sockets (Unit {0})
on_message socket = do
  index ← gets (λ s. find_ws_connection_in_shared_state socket s.subscriptions_data)
  found ← gets (λ s. at_index index s.subscriptions_data)
  modify (λ s. set_subscriptions (splice index s.subscriptions_data) s)
  send_error "Do not send any message. Closing Socket... Reconnect again." found
  close_of found

-- `onClose`
unfoldable pub on_close : ℕ → Task Sockets (Unit {0})
on_close socket = remove_ws_from_shared_state socket >> pure tt

-- What `wsTimeout` does when the time is over.
unfoldable pub ws_timeout : ℕ → Task Sockets (Unit {0})
ws_timeout socket =
    send socket (plain_text "Timeout exceeded. Closing connection...")
    >> remove_ws_from_shared_state socket
    >> close socket

-- `findOrAddWSConnectionInSharedState`
unfoldable pub find_or_add_ws_connection_in_shared_state : ℕ → String → Task Sockets (Unit {0})
find_or_add_ws_connection_in_shared_state socket id =
    gets (λ s. find_ws_connection_in_shared_state socket s.subscriptions_data) >>= add
  where
    add : Option ℕ → Task Sockets (Unit {0})
    add (some i) = pure tt
    add none = modify (λ s.
        set_subscriptions (s.subscriptions_data ++ record { socket = socket; request_id = id } ∷ [])
          s)

-- The message and `closeConnection` of a status.
abbrev pub message_of : Status → Option String → String × Bool
message_of mined e = ("Transaction mined. Closing connection.", true)
message_of errored e = elim (truthy e) [
  | some m ↦ (m, true)
  | none ↦ ("Transaction errored. Closing connection.", true)
]
message_of sent e =
    ("Transaction submitted to blockchain. Waiting for transaction to be mined...", false)
message_of _ e = ("Request is queued. Waiting for transaction to be picked up by worker.", false)

-- `getStatusMessageAndConnectionStatus`
unfoldable pub get_status_message_and_connection_status : Option TransactionSchema → String × Bool
get_status_message_and_connection_status none =
    ("Transaction not found. Make sure the provided ID is correct.", true)
get_status_message_and_connection_status (some d) = message_of d.status d.error_message

-- `formatSocketMessage`
unfoldable pub format_socket_message : Option TransactionSchema → String → Message
format_socket_message none m = status_message none none m
format_socket_message (some d) m = status_message (some d) (some d.queue_id) m

abbrev pub schema_of : Option Transaction → Option TransactionSchema
schema_of none = none
schema_of (some t) = some (to_transaction_schema t)

-- Both handlers send the status to a socket, and close the socket after a last one. A subscription
-- stays in the array.
unfoldable pub send_status : ℕ → Option Transaction → Task Sockets (Unit {0})
send_status socket found =
    let data_sent = schema_of found in
    let (m, close_connection) = get_status_message_and_connection_status data_sent in
    send socket (format_socket_message data_sent m)
    >> (if close_connection then close socket else pure tt)

module _ (get : String → Option Transaction) where
  -- `wsHandler`: the part that answers a new connection
  unfoldable pub ws_handler : ℕ → String → Task Sockets (Unit {0})
  ws_handler socket id =
      find_or_add_ws_connection_in_shared_state socket id >> send_status socket (get id)

  -- `handler` of the route
  unfoldable pub check_tx_status : String → Result TransactionSchema
  check_tx_status id = elim (get id) [
    | none ↦ bad_request "Transaction not found." "TRANSACTION_NOT_FOUND"
    | some t ↦ ok (to_transaction_schema t)
  ]

  -- The notification of `updateTxListener` about a queue ID.
  unfoldable pub on_notification : String → Task Sockets (Unit {0})
  on_notification id =
      gets (λ s.
        at_index (find_index (λ u. str_eq u.request_id id) s.subscriptions_data)
          s.subscriptions_data)
      >>= notify
    where
      notify : Option UserSubscription → Task Sockets (Unit {0})
      notify none = pure tt
      notify (some u) = send_status u.socket (get id)
