-- ===== src/Websocket/Unique.antt =====
-- How often a socket is listed, over what happens to the sockets: src/server/utils/websocket.ts.
use thirdweb_engine.Base.{
  ℕ, zero, suc, ◌+◌, ◌≤◌, ◌≡◌, refl, String, Option, none, some, List, [], ◌∷◌, ◌++◌, ◌==◌, str_eq,
  arith, if◌then◌else◌, Bool-cases, Option-cases, inl, inr,
}
use thirdweb_engine.Transaction.{Transaction}
use thirdweb_engine.Engine.{World, ok, continue-ok}
use thirdweb_engine.Websocket.{
  UserSubscription, Sockets, find_index, item_at, remove_at, remove_last,
  find_ws_connection_in_shared_state, remove_ws_from_shared_state, on_error, on_message, on_close,
  ws_timeout, find_or_add_ws_connection_in_shared_state, send_status, at_index, schema_of,
  get_status_message_and_connection_status, ws_handler, on_notification,
}

abbrev pub count : ℕ → List UserSubscription → ℕ
count socket [] = 0
count socket (x ∷ xs) = (if x.socket == socket then 1 else 0) + count socket xs

count-remove_at :
    (socket i : ℕ) (xs : List UserSubscription) → count socket (remove_at i xs) ≤ count socket xs
count-remove_at socket zero [] = omega arith
count-remove_at socket (suc i) [] = omega arith
count-remove_at socket zero (x ∷ xs) = omega arith
count-remove_at socket (suc i) (x ∷ xs) = omega (arith, count-remove_at socket i xs)

count-remove_last :
    (socket : ℕ) (xs : List UserSubscription) → count socket (remove_last xs) ≤ count socket xs
count-remove_last socket [] = omega arith
count-remove_last socket (x ∷ []) = omega arith
count-remove_last socket (x ∷ y ∷ xs) = omega (arith, count-remove_last socket (y ∷ xs))

count-append :
    (socket : ℕ) (xs : List UserSubscription) (x : UserSubscription)
    → count socket (xs ++ x ∷ []) ≡ count socket xs + (if x.socket == socket then 1 else 0)
count-append socket [] x = omega arith
count-append socket (y ∷ xs) x = omega (arith, count-append socket xs x)

some-ne-none : {n : ℕ} → some n ≡ none → ⊥
some-ne-none e = cc

count_unlisted :
    (socket : ℕ) (xs : List UserSubscription)
    → find_ws_connection_in_shared_state socket xs ≡ none
    → count socket xs ≡ 0
unfolding find_ws_connection_in_shared_state
count_unlisted socket [] h = refl
count_unlisted socket (x ∷ xs) h = elim (Bool-cases (x.socket == socket)) [
  | inl y ↦ absurd (some-ne-none (rw y at h))
  | inr n ↦ elim (Option-cases (find_ws_connection_in_shared_state socket xs)) [
    | inl k ↦ rw (n, count_unlisted socket xs k) refl
    | inr (i, k) ↦ absurd (some-ne-none (rw (n, k) at h))
  ]
]

-- No socket is listed twice.
abbrev pub IsUnique : World Sockets → Type 0
IsUnique w = (socket : ℕ) → count socket w.store.subscriptions_data ≤ 1

-- The array loses items only.
Shrinks : World Sockets → World Sockets → Type 0
Shrinks w w' =
    (socket : ℕ)
    → count socket w'.store.subscriptions_data ≤ count socket w.store.subscriptions_data

IsUnique-Shrinks : (w w' : World Sockets) → Shrinks w w' → IsUnique w → IsUnique w'
unfolding Shrinks
IsUnique-Shrinks w w' h u socket = omega (arith, h socket, u socket)

on_error-Shrinks : (m : String) (socket : ℕ) (w : World Sockets) → Shrinks w (on_error m socket w).1
unfolding on_error Shrinks
on_error-Shrinks m socket w k =
    elim (Option-cases (find_ws_connection_in_shared_state socket w.store.subscriptions_data)) [
      | inl e ↦ rw e (omega arith)
      | inr (i, e) ↦ elim (Option-cases (item_at i w.store.subscriptions_data)) [
        | inl n ↦ rw (e, n) (count-remove_at k i _)
        | inr (u, n) ↦ rw (e, n) (count-remove_at k i _)
      ]
    ]

on_message-Shrinks : (socket : ℕ) (w : World Sockets) → Shrinks w (on_message socket w).1
unfolding on_message Shrinks
on_message-Shrinks socket w k =
    elim (Option-cases (find_ws_connection_in_shared_state socket w.store.subscriptions_data)) [
      | inl e ↦ rw e (count-remove_last k _)
      | inr (i, e) ↦ elim (Option-cases (item_at i w.store.subscriptions_data)) [
        | inl n ↦ rw (e, n) (count-remove_at k i _)
        | inr (u, n) ↦ rw (e, n) (count-remove_at k i _)
      ]
    ]

on_close-Shrinks : (socket : ℕ) (w : World Sockets) → Shrinks w (on_close socket w).1
unfolding on_close remove_ws_from_shared_state Shrinks
on_close-Shrinks socket w k =
    elim (Option-cases (find_ws_connection_in_shared_state socket w.store.subscriptions_data)) [
      | inl e ↦ rw e (omega arith)
      | inr (i, e) ↦ rw e (count-remove_at k i _)
    ]

ws_timeout-Shrinks : (socket : ℕ) (w : World Sockets) → Shrinks w (ws_timeout socket w).1
unfolding ws_timeout remove_ws_from_shared_state Shrinks
ws_timeout-Shrinks socket w k =
    elim (Option-cases (find_ws_connection_in_shared_state socket w.store.subscriptions_data)) [
      | inl e ↦ rw e (omega arith)
      | inr (i, e) ↦ rw e (count-remove_at k i _)
    ]

send_status-keeps :
    (socket : ℕ) (t : Option Transaction) (w : World Sockets)
    → (send_status socket t w).1.store.subscriptions_data ≡ w.store.subscriptions_data
unfolding send_status
send_status-keeps socket t w =
    elim (Bool-cases (get_status_message_and_connection_status (schema_of t)).1) [
      | inl y ↦ rw y refl
      | inr n ↦ rw n refl
    ]

-- What happens to the sockets, in any order.
pub data Step (get : String → Option Transaction) (w : World Sockets) : World Sockets → Type 0 where
  connects : (socket : ℕ) (id : String) → Step get w (ws_handler get socket id w).1
  notifies : (id : String) → Step get w (on_notification get id w).1
  fails : (m : String) (socket : ℕ) → Step get w (on_error m socket w).1
  sends : (socket : ℕ) → Step get w (on_message socket w).1
  closes : (socket : ℕ) → Step get w (on_close socket w).1
  expires : (socket : ℕ) → Step get w (ws_timeout socket w).1

pub data Steps (get : String → Option Transaction) (w : World Sockets)
    : World Sockets → Type 0 where
  start : Steps get w w
  more : {v w' : World Sockets} → Steps get w v → Step get v w' → Steps get w w'

add-IsUnique :
    (socket : ℕ) (id : String) (w : World Sockets)
    → IsUnique w
    → IsUnique (find_or_add_ws_connection_in_shared_state socket id w).1
unfolding find_or_add_ws_connection_in_shared_state
add-IsUnique socket id w u k =
    elim (Option-cases (find_ws_connection_in_shared_state socket w.store.subscriptions_data)) [
      | inr (i, e) ↦ rw e (u k)
      | inl e ↦
          let added =
            count-append k w.store.subscriptions_data
              (record { socket = socket; request_id = id }) in
          elim (Bool-cases (socket == k)) [
            | inl same ↦
                let is_k : socket ≡ k = ground arith in
                let gone : count k w.store.subscriptions_data ≡ 0 =
                  rw is_k at (count_unlisted socket w.store.subscriptions_data e) in
                rw e (omega (arith, rw same at added, gone))
            | inr other ↦ rw e (omega (arith, rw other at added, u k))
          ]
    ]

added-ok :
    (socket : ℕ) (id : String) (w : World Sockets)
    → (find_or_add_ws_connection_in_shared_state socket id w).0 ≡ ok tt
unfolding find_or_add_ws_connection_in_shared_state
added-ok socket id w =
    elim (Option-cases (find_ws_connection_in_shared_state socket w.store.subscriptions_data)) [
      | inl e ↦ rw e refl
      | inr (i, e) ↦ rw e refl
    ]

module _ (get : String → Option Transaction) where
  ws_handler-IsUnique :
      (socket : ℕ) (id : String) (w : World Sockets)
      → IsUnique w
      → IsUnique (ws_handler get socket id w).1
  unfolding ws_handler
  ws_handler-IsUnique socket id w u k =
      let added = find_or_add_ws_connection_in_shared_state socket id w in
      rw (continue-ok added (λ _. send_status socket (get id)) (added-ok socket id w))
        (rw (send_status-keeps socket (get id) added.1) (add-IsUnique socket id w u k))

  on_notification-keeps :
      (id : String) (w : World Sockets)
      → (on_notification get id w).1.store.subscriptions_data ≡ w.store.subscriptions_data
  unfolding on_notification
  on_notification-keeps id w =
      elim (Option-cases (
        at_index (find_index (λ u. str_eq u.request_id id) w.store.subscriptions_data)
          w.store.subscriptions_data)) [
            | inl e ↦ rw e refl
            | inr (u, e) ↦ rw e (send_status-keeps u.socket (get id) w)
          ]

  Step-IsUnique : (w w' : World Sockets) → Step get w w' → IsUnique w → IsUnique w'
  Step-IsUnique w _ (connects socket id) u = ws_handler-IsUnique socket id w u
  Step-IsUnique w _ (notifies id) u = λ k. rw (on_notification-keeps id w) (u k)
  Step-IsUnique w _ (fails m socket) u = IsUnique-Shrinks w _ (on_error-Shrinks m socket w) u
  Step-IsUnique w _ (sends socket) u = IsUnique-Shrinks w _ (on_message-Shrinks socket w) u
  Step-IsUnique w _ (closes socket) u = IsUnique-Shrinks w _ (on_close-Shrinks socket w) u
  Step-IsUnique w _ (expires socket) u = IsUnique-Shrinks w _ (ws_timeout-Shrinks socket w) u

  -- From an array in which no socket is listed twice, connections, notifications, errors, messages,
  -- closings and timeouts in any order lead to such arrays only.
  pub Steps-IsUnique : (w w' : World Sockets) → IsUnique w → Steps get w w' → IsUnique w'
  Steps-IsUnique w _ u start = u
  Steps-IsUnique w w' u (more {v} before last) =
      Step-IsUnique v w' last (Steps-IsUnique w v u before)
