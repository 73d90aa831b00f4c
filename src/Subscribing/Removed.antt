-- ===== src/Subscribing/Removed.antt =====
-- What the removal of a contract subscription leaves in the database:
-- src/server/routes/contract/subscriptions/removeContractSubscription.ts.
use thirdweb_engine.Base.{
  ℕ, Bool, ◌≡◌, ◌⊎◌, inl, inr, refl, ◌∙◌, true, false, not, ◌&&◌, is_some, String, some, List, [],
  ◌∷◌, ◌==◌, any, map, filter, str_eq, Bool-cases, Option-cases, sym,
}
use thirdweb_engine.Engine.{World, ok, err, Thrown, Result-cases}
use thirdweb_engine.Subscriptions.{
  Postgres, WebhookRow, ContractSubscription, get_contract_subscriptions_by_chain_id,
  get_all_webhooks,
}
use thirdweb_engine.Subscribing.{
  Writes, RouteEnv, delete_row, revoke_row, revoke_joined, find_row, delete_contract_subscription,
  remove_contract_subscription,
}

-- The IDs of the subscriptions of a chain that are not deleted.
abbrev pub live_ids : ℕ → List ContractSubscription → List String
live_ids chain cs =
    map (λ (c : ContractSubscription). c.id) (get_contract_subscriptions_by_chain_id chain cs)

and_false : (b : Bool) → (b && false) ≡ false
and_false true = refl
and_false false = refl

live_ids-delete :
    (chain : ℕ) (id : String) (now : ℕ) (cs : List ContractSubscription)
    → live_ids chain (map (delete_row id now) cs)
      ≡ filter (λ i. not (str_eq i id)) (live_ids chain cs)
unfolding get_contract_subscriptions_by_chain_id
live_ids-delete chain id now [] = refl
live_ids-delete chain id now (c ∷ cs) = elim (Bool-cases (str_eq c.id id)) [
  | inl e ↦ elim (Bool-cases (c.chain_id == chain && not (is_some c.deleted_at))) [
    | inl l ↦ simp (e, l, and_false, live_ids-delete chain id now cs)
    | inr l ↦ simp (e, l, and_false, live_ids-delete chain id now cs)
  ]
  | inr e ↦ elim (Bool-cases (c.chain_id == chain && not (is_some c.deleted_at))) [
    | inl l ↦ simp (e, l, live_ids-delete chain id now cs)
    | inr l ↦ simp (e, l, live_ids-delete chain id now cs)
  ]
]

live_ids-revoke :
    (chain id now : ℕ) (cs : List ContractSubscription)
    → live_ids chain (map (revoke_joined id now) cs) ≡ live_ids chain cs
unfolding get_contract_subscriptions_by_chain_id
live_ids-revoke chain id now [] = refl
live_ids-revoke chain id now (c ∷ cs) =
    elim (Bool-cases (c.chain_id == chain && not (is_some c.deleted_at))) [
      | inl l ↦ simp (l, live_ids-revoke chain id now cs)
      | inr l ↦ simp (l, live_ids-revoke chain id now cs)
    ]

-- Whether a webhook is one of those that are not revoked.
abbrev pub is_active : ℕ → List WebhookRow → Bool
is_active id hs = any (λ h. h.id == id) (get_all_webhooks hs)

is_active-revoke :
    (id now : ℕ) (hs : List WebhookRow) → is_active id (map (revoke_row id now) hs) ≡ false
unfolding get_all_webhooks
is_active-revoke id now [] = refl
is_active-revoke id now (h ∷ hs) = elim (Bool-cases (h.id == id)) [
  | inl e ↦ simp (e, is_active-revoke id now hs)
  | inr e ↦ elim (Bool-cases (not (is_some h.revoked_at))) [
    | inl l ↦ simp (e, l, is_active-revoke id now hs)
    | inr l ↦ simp (e, l, is_active-revoke id now hs)
  ]
]

module _ (P : Postgres) (T : Writes P) (env : RouteEnv) where
  open P use {Store, subscriptions, webhooks}

  -- For every ID, in every state of the database: without a row of that ID the request fails and the
  -- database is as it was; and else it succeeds, the subscriptions of every chain that are not
  -- deleted are those from before without it, and its webhook, if it has one with an ID that is not
  -- 0, is no longer active.
  pub remove_contract_subscription-cases :
      (id : String) (w : World Store)
      → let (res, w') = remove_contract_subscription P T env id w in
        ((e : Thrown) × (find_row id (subscriptions w.store) ≡ err e) × (res ≡ err e) × (w' ≡ w))
        ⊎ ((row : ContractSubscription) × (find_row id (subscriptions w.store) ≡ ok row)
            × (res ≡ ok tt)
            × ((chain : ℕ)
                → live_ids chain (subscriptions w'.store)
                  ≡ filter (λ i. not (str_eq i id)) (live_ids chain (subscriptions w.store)))
            × ((h : WebhookRow)
                → row.webhook ≡ some h
                → (h.id == 0) ≡ false
                → is_active h.id (webhooks w'.store) ≡ false))
  unfolding remove_contract_subscription delete_contract_subscription
  remove_contract_subscription-cases id w =
      elim (Result-cases (find_row id (subscriptions w.store))) [
        | inr (e, k) ↦ inl (e, k, simp k refl, simp k refl)
        | inl (row, k) ↦ elim (Option-cases row.webhook) [
          | inl none_set ↦
              simp (k, none_set, T.subscriptions-delete_subscription)
                (inr (row, refl, refl, λ chain. live_ids-delete chain id env.now _, λ h e. cc))
          | inr (h, e) ↦ elim (Bool-cases (h.id == 0)) [
            | inl z ↦
                simp (k, e, z, T.subscriptions-delete_subscription)
                  (inr (
                    row,
                    refl,
                    refl,
                    λ chain. live_ids-delete chain id env.now _,
                    λ h' e' ne. let same : h ≡ h' = cc in cc,
                  ))
            | inr z ↦
                simp
                  (
                    k, e, z, T.subscriptions-revoke_webhook, T.subscriptions-delete_subscription,
                    T.webhooks-revoke_webhook, T.webhooks-delete_subscription,
                  )
                  (inr (
                    row,
                    refl,
                    refl,
                    λ chain.
                        live_ids-revoke chain h.id env.now _ ∙ live_ids-delete chain id env.now _,
                    λ h' e' ne.
                        let same : h ≡ h' = cc in rw (sym same) (is_active-revoke h.id env.now _),
                  ))
          ]
        ]
      ]
