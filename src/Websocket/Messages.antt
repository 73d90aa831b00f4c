-- ===== src/Websocket/Messages.antt =====
-- Who is sent what over the websockets: src/server/utils/websocket.ts, src/server/routes/transaction/status.ts
-- and src/server/listeners/updateTxListener.ts.
use thirdweb_engine.Base.{
  ℕ, ◌≡◌, refl, sym, Bool, true, false, String, Option, none, some, List, [], ◌∷◌, ◌++◌, str_eq,
  any, if◌then◌else◌, Bool-cases, Option-cases, inl, inr,
}
use thirdweb_engine.Transaction.{Transaction}
use thirdweb_engine.Engine.{World, ok}
use thirdweb_engine.Websocket.{
  UserSubscription, Sockets, Message, find_index, at_index, remove_last, undefined_socket,
  find_ws_connection_in_shared_state, on_message, find_or_add_ws_connection_in_shared_state,
  send_status, schema_of, get_status_message_and_connection_status, format_socket_message,
  ws_handler, on_notification,
}

remove_last-append :
    (xs : List UserSubscription) (x : UserSubscription) → remove_last (xs ++ x ∷ []) ≡ xs
remove_last-append [] x = refl
remove_last-append (y ∷ []) x = refl
remove_last-append (y ∷ z ∷ xs) x = rw (remove_last-append (z ∷ xs) x) refl

-- A message from a socket that is not in the array takes the last subscription, which is another
-- client's, out of the array: nothing is sent and no socket is closed, and the handler throws.
pub on_message-unlisted :
    (socket : ℕ) (others : List UserSubscription) (last : UserSubscription) (w : World Sockets)
    → w.store.subscriptions_data ≡ others ++ last ∷ []
    → find_ws_connection_in_shared_state socket w.store.subscriptions_data ≡ none
    → let (res, w') = on_message socket w in
      (res ≡ undefined_socket)
      × (w'.store.subscriptions_data ≡ others)
      × (w'.store.messages ≡ w.store.messages)
      × (w'.store.closed ≡ w.store.closed)
unfolding on_message
on_message-unlisted socket others last w split_up unlisted =
    rw unlisted (refl, rw split_up (remove_last-append others last), refl, refl)

true-ne-false : true ≡ false → ⊥
true-ne-false e = cc

none-ne-some : {u : UserSubscription} → none ≡ some u → ⊥
none-ne-some e = cc

item_at-find_index :
    (p : UserSubscription → Bool) (front back : List UserSubscription) (u : UserSubscription)
    → any p front ≡ false
    → p u ≡ true
    → at_index (find_index p (front ++ u ∷ back)) (front ++ u ∷ back) ≡ some u
item_at-find_index p [] back u h k = rw k refl
item_at-find_index p (x ∷ front) back u h k = elim (Bool-cases (p x)) [
  | inl y ↦ absurd (true-ne-false (rw y at h))
  | inr n ↦ elim (Option-cases (find_index p (front ++ u ∷ back))) [
    | inl e ↦ absurd (none-ne-some (rw e at (item_at-find_index p front back u (rw n at h) k)))
    | inr (i, e) ↦ rw (n, e) (rw e at (item_at-find_index p front back u (rw n at h) k))
  ]
]

-- What a socket is sent about a transaction, and whether that closes it.
abbrev pub status_of : Option Transaction → Message
status_of t =
    format_socket_message (schema_of t) (get_status_message_and_connection_status (schema_of t)).0

abbrev pub is_last_status : Option Transaction → Bool
is_last_status t = (get_status_message_and_connection_status (schema_of t)).1

-- A world with one more message, and the socket closed after a last status.
abbrev pub told : ℕ → Option Transaction → List UserSubscription → World Sockets → World Sockets
told socket t subs w = record w {
  store = record {
    subscriptions_data = subs;
    messages = w.store.messages ++ (socket, status_of t) ∷ [];
    closed = if is_last_status t then w.store.closed ++ socket ∷ [] else w.store.closed;
  };
}

send_status_lem :
    (socket : ℕ) (t : Option Transaction) (w : World Sockets)
    → send_status socket t w ≡ (ok tt, told socket t w.store.subscriptions_data w)
unfolding send_status
send_status_lem socket t w = elim (Bool-cases (is_last_status t)) [
  | inl y ↦ rw y refl
  | inr n ↦ rw n refl
]

module _ (get : String → Option Transaction) where
  -- A notification about a queue ID sends the transaction's status to the socket of the first
  -- subscription with that ID, and to no other; the array stays as it is.
  pub on_notification-first :
      (id : String) (front back : List UserSubscription) (u : UserSubscription) (w : World Sockets)
      → w.store.subscriptions_data ≡ front ++ u ∷ back
      → any (λ v. str_eq v.request_id id) front ≡ false
      → str_eq u.request_id id ≡ true
      → on_notification get id w ≡ (ok tt, told u.socket (get id) w.store.subscriptions_data w)
  unfolding on_notification
  on_notification-first id front back u w split_up before here =
      let found = item_at-find_index (λ v. str_eq v.request_id id) front back u before here in
      rw (rw (sym split_up) at found) (send_status_lem u.socket (get id) w)

  -- A new connection is listed, and is sent the status of its transaction; its socket is closed
  -- exactly after a last status, and it is listed then too.
  pub ws_handler-listed :
      (socket : ℕ) (id : String) (w : World Sockets)
      → find_ws_connection_in_shared_state socket w.store.subscriptions_data ≡ none
      → ws_handler get socket id w ≡ (
        ok tt,
        told socket
            (get id)
            (w.store.subscriptions_data ++ record { socket = socket; request_id = id } ∷ [])
            w,
      )
  unfolding ws_handler find_or_add_ws_connection_in_shared_state
  ws_handler-listed socket id w unlisted = rw unlisted (send_status_lem socket (get id) _)
