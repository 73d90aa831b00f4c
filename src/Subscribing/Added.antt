-- ===== src/Subscribing/Added.antt =====
-- What a request to add a contract subscription leaves in the database:
-- src/server/routes/contract/subscriptions/addContractSubscription.ts.
use thirdweb_engine.Base.{
  List, ℕ, Bool, ◌≡◌, ◌⊎◌, inl, inr, refl, ◌∙◌, true, false, not, ◌&&◌, ◌||◌, String, Option, none,
  some, List, [], ◌∷◌, ◌++◌, Bool-cases,
}
use thirdweb_engine.Base.Text.{to_lower}
use thirdweb_engine.Errors.{truthy}
use thirdweb_engine.Engine.{World, Result, ok, err, Thrown, continue-ok, continue-err, Result-cases}
use thirdweb_engine.Subscriptions.{
  Postgres, WebhookRow, ContractSubscription, get_contract_subscriptions_unique_chain_ids,
}
use thirdweb_engine.ChainIndexer.{upsert_chain_indexer}
use thirdweb_engine.ChainIndexer.Registry.{includes_id}
use thirdweb_engine.Subscribing.{
  Writes, RouteEnv, SubscribeBody, start_indexing, webhook_for, insert_webhook,
  create_contract_subscription, check_body, add_contract_subscription,
}

not_or : (a b : Bool) → (not a && not b) ≡ not (a || b)
not_or true b = refl
not_or false b = refl

-- Whether a chain has a subscription that is not deleted.
abbrev pub is_subscribed : List ContractSubscription → ℕ → Bool
is_subscribed cs chain = includes_id (get_contract_subscriptions_unique_chain_ids cs) chain

module _ (P : Postgres) (T : Writes P) (env : RouteEnv) where
  open P use {
    Store, subscriptions, last_indexed_block, upsert, subscriptions-upsert,
    last_indexed_block-upsert,
  }

  pub start_indexing_lem :
      (chain : ℕ) (w : World Store)
      → let (res, w') = start_indexing P T env chain w in
        (res ≡ ok tt) × (subscriptions w'.store ≡ subscriptions w.store) × (w'.effects ≡ w.effects)
  unfolding start_indexing upsert_chain_indexer
  start_indexing_lem chain w = elim (Bool-cases (is_subscribed (subscriptions w.store) chain)) [
    | inl y ↦ simp y (refl, refl, refl)
    | inr n ↦ elim (Result-cases (env.indexing.block_number chain)) [
      | inr (e, h) ↦ simp (n, h) (refl, refl, refl)
      | inl (head, h) ↦ elim (Bool-cases (env.indexing.takes_update chain)) [
        | inl t ↦ simp (n, h, t, subscriptions-upsert) (refl, refl, refl)
        | inr f ↦ simp (n, h, f) (refl, refl, refl)
      ]
    ]
  ]

  pub webhook_for_lem :
      (url : Option String) (w : World Store)
      → let w' = (webhook_for P T env url w).1 in
        (subscriptions w'.store ≡ subscriptions w.store)
        × ((d : ℕ) → last_indexed_block w'.store d ≡ last_indexed_block w.store d)
  unfolding webhook_for insert_webhook
  webhook_for_lem none w = (refl, λ d. refl)
  webhook_for_lem (some u) w = elim (Bool-cases (env.is_valid_http_url u)) [
    | inr f ↦ simp f (refl, λ d. refl)
    | inl v ↦ elim (Result-cases env.webhook_id) [
      | inr (x, h) ↦ simp (v, h) (refl, λ d. refl)
      | inl (id, h) ↦
          simp (v, h)
            (T.subscriptions-create_webhook _ _, λ d. T.last_indexed_block-create_webhook _ _ d)
    ]
  ]

  pub check_body-cases :
      (b : SubscribeBody) (w : World Store)
      → ((chain : ℕ) × (check_body P T env b w ≡ (ok chain, w))
          × (env.chain_id_of b.chain ≡ ok chain)
          × ((b.process_event_logs || b.process_transaction_receipts) ≡ true))
        ⊎ ((e : Thrown) × (check_body P T env b w ≡ (err e, w)))
  unfolding check_body
  check_body-cases b w = elim (Result-cases (env.chain_id_of b.chain)) [
    | inr (e, h) ↦ inr (e, simp h)
    | inl (chain, h) ↦ elim (Bool-cases (b.process_event_logs || b.process_transaction_receipts)) [
      | inr none_set ↦ simp (h, not_or, none_set) (inr (_, refl))
      | inl some_flag ↦ elim (Result-cases (env.is_contract_deployed chain b.contract_address)) [
        | inr (e, k) ↦ inr (e, simp (h, not_or, some_flag, k))
        | inl (true, k) ↦ inl (chain, simp (h, not_or, some_flag, k), h, some_flag)
        | inl (false, k) ↦ simp (h, not_or, some_flag, k) (inr (_, refl))
      ]
    ]
  ]

  -- The row that a request gives.
  abbrev pub RowOf : SubscribeBody → ContractSubscription → Type 0
  RowOf b row =
      (env.chain_id_of b.chain ≡ ok row.chain_id)
      × (row.contract_address ≡ to_lower b.contract_address)
      × (row.process_event_logs ≡ b.process_event_logs)
      × (row.process_transaction_receipts ≡ b.process_transaction_receipts)
      × (row.filter_events ≡ b.filter_events)
      × (row.filter_functions ≡ b.filter_functions)
      × ((row.process_event_logs || row.process_transaction_receipts) ≡ true)
      × (row.deleted_at ≡ none)

  -- The two ends of a request: it is refused, or its row is one more at the end of the table.
  abbrev pub Ends : SubscribeBody → World Store → Result ContractSubscription × World Store → Type 0
  Ends b w r =
      ((e : Thrown) × (r.0 ≡ err e) × (subscriptions r.1.store ≡ subscriptions w.store))
      ⊎ ((row : ContractSubscription) × (r.0 ≡ ok row)
          × RowOf b row
          × (subscriptions r.1.store ≡ subscriptions w.store ++ row ∷ []))

  created-cases :
      (b : SubscribeBody) (chain : ℕ) (h : Option WebhookRow) (v w : World Store)
      → subscriptions w.store ≡ subscriptions v.store
      → env.chain_id_of b.chain ≡ ok chain
      → (b.process_event_logs || b.process_transaction_receipts) ≡ true
      → Ends b v (create_contract_subscription P T env b chain h w)
  unfolding create_contract_subscription
  created-cases b chain h v w same c some_flag = elim (Result-cases env.subscription_id) [
    | inr (e, k) ↦ simp k (inl (e, refl, same))
    | inl (id, k) ↦ simp k (
        inr (
          _,
          refl,
          (c, refl, refl, refl, refl, refl, some_flag, refl),
          T.subscriptions-create_subscription _ _ ∙ rw same refl,
        ))
  ]

  -- For every request, in every state of the database: it is refused and the table of subscriptions
  -- is as it was, or its row, with the values of the request and at least one of event logs and
  -- receipts asked for, is one more at the end of the table.
  pub add_contract_subscription-cases :
      (b : SubscribeBody) (w : World Store) → Ends b w (add_contract_subscription P T env b w)
  unfolding add_contract_subscription
  add_contract_subscription-cases b w = elim (check_body-cases b w) [
    | inr (e, h) ↦ inl (e, simp h refl, simp h refl)
    | inl (chain, h, c, some_flag) ↦
        let started = start_indexing P T env chain w in
        let (done, same, _) = start_indexing_lem chain w in
        let hooked = webhook_for P T env (truthy b.webhook_url) started.1 in
        let (kept, _) = webhook_for_lem (truthy b.webhook_url) started.1 in
        rw (h, continue-ok started _ done)
          (elim (Result-cases hooked.0) [
            | inr (e, k) ↦ simp (continue-err hooked _ k) (inl (e, refl, kept ∙ same))
            | inl (hook, k) ↦
                simp (continue-ok hooked _ k)
                  (created-cases b chain hook w hooked.1 (kept ∙ same) c some_flag)
          ])
  ]
