-- ===== src/ChainIndexer/Registry.antt =====
-- Which chains have an indexer: src/worker/indexers/chainIndexerRegistry.ts and
-- src/worker/tasks/manageChainIndexers.ts. The settings of an indexer, which are computed in floating
-- point from the chain's block time, are a parameter.
use thirdweb_engine.Base.{
  ℕ, String, ◌≡◌, refl, ◌∙◌, sym, Bool, true, not, List, [], ◌∷◌, ◌++◌, ◌==◌, ◌&&◌, ◌||◌, any,
  filter, map, or_assoc, is_some, if◌then◌else◌, Bool-cases, inl, inr, arith,
}
use thirdweb_engine.Engine.{
  World, Task, Result, ok, start_indexer, stop_indexer, pure, lift, gets, modify, emit, when,
  continue-ok, ◌>>=◌, ◌>>◌,
}
use thirdweb_engine.Subscriptions.{
  ContractSubscription, distinct, get_contract_subscriptions_unique_chain_ids,
}

-- What a chain's indexer is made with.
pub record Settings : Type 0 where
  pub max_blocks_to_index : ℕ
  pub to_block_offset : ℕ
  pub schedule : String

-- `INDEXER_REGISTRY`
abbrev pub Registry : Type 0
Registry = List (ℕ × Settings)

-- `INDEXER_REGISTRY[chainId]`, whether there is one
unfoldable pub is_registered : ℕ → Registry → Bool
is_registered c = any (λ e. e.0 == c)

abbrev pub includes_id : List ℕ → ℕ → Bool
includes_id ids c = any (λ d. d == c) ids

module _ (settings : ℕ → Result Settings) where
  -- `addChainIndexer`
  unfoldable pub add_chain_indexer : ℕ → Task Registry (Unit {0})
  add_chain_indexer c = gets (is_registered c) >>= λ found.
      if found
      then pure tt
      else lift (settings c) >>= λ s. emit (start_indexer c) >> modify (λ r. r ++ (c, s) ∷ [])

  unfoldable pub add_missing : List ℕ → Task Registry (Unit {0})
  add_missing [] = pure tt
  add_missing (c ∷ cs) =
      (gets (is_registered c) >>= λ found. when (not found) (add_chain_indexer c)) >> add_missing cs

-- `removeChainIndexer`
unfoldable pub remove_chain_indexer : ℕ → Task Registry (Unit {0})
remove_chain_indexer c = gets (is_registered c) >>= λ found.
    if not found
    then pure tt
    else emit (stop_indexer c) >> modify (λ r. filter (λ e. not (e.0 == c)) r)

unfoldable pub remove_unsubscribed : List ℕ → List ℕ → Task Registry (Unit {0})
remove_unsubscribed ids [] = pure tt
remove_unsubscribed ids (c ∷ cs) =
    when (not (includes_id ids c)) (remove_chain_indexer c) >> remove_unsubscribed ids cs

abbrev pub chain_ids : Registry → List ℕ
chain_ids r = map (λ e. e.0) r

-- `manageChainIndexers`
unfoldable pub manage_chain_indexers :
    (ℕ → Result Settings) → List ContractSubscription → Task Registry (Unit {0})
manage_chain_indexers settings rows =
    let ids = get_contract_subscriptions_unique_chain_ids rows in
    add_missing settings ids >> (gets chain_ids >>= remove_unsubscribed ids)

is_registered-add :
    (c d : ℕ) (s : Settings) (r : Registry)
    → is_registered c (r ++ (d, s) ∷ []) ≡ (is_registered c r || d == c)
unfolding is_registered
is_registered-add c d s [] = ground arith
is_registered-add c d s (e ∷ r) = rw (is_registered-add c d s r) (or_assoc (e.0 == c) _ _)

is_registered-remove :
    (c d : ℕ) (r : Registry)
    → is_registered c (filter (λ e. not (e.0 == d)) r) ≡ (is_registered c r && not (d == c))
unfolding is_registered
is_registered-remove c d [] = refl
is_registered-remove c d (e ∷ r) = ground (arith, is_registered-remove c d r)

includes_id-filter :
    (c d : ℕ) (ids : List ℕ)
    → includes_id (filter (λ e. not (e == d)) ids) c ≡ (includes_id ids c && not (d == c))
includes_id-filter c d [] = refl
includes_id-filter c d (e ∷ ids) = ground (arith, includes_id-filter c d ids)

includes_id-same :
    (ids : List ℕ) (c d : ℕ) → (c == d) ≡ true → includes_id ids c ≡ includes_id ids d
includes_id-same ids c d e = let same : c ≡ d = ground arith in rw same

is_registered-same :
    (c d : ℕ) (r : Registry) → (c == d) ≡ true → is_registered c r ≡ is_registered d r
is_registered-same c d r e = let same : c ≡ d = ground arith in rw same

module _ (settings : ℕ → Result Settings) (given : ℕ → Settings)
    (known : (c : ℕ) → settings c ≡ ok (given c)) where
  add_missing_lem :
      (ids : List ℕ) (w : World Registry)
      → let (res, w') = add_missing settings ids w in
        (res ≡ ok tt)
        × ((c : ℕ) → is_registered c w'.store ≡ (is_registered c w.store || includes_id ids c))
  unfolding add_missing add_chain_indexer
  add_missing_lem [] w = (refl, λ c. ground arith)
  add_missing_lem (d ∷ ids) w = elim (Bool-cases (is_registered d w.store)) [
    | inl there ↦
        let (a, b) = add_missing_lem ids w in
        simp there (a, λ c. rw (b c) (ground (arith, is_registered-same d c w.store)))
    | inr missing ↦
        let (a, b) = add_missing_lem ids (record w {
          store = w.store ++ (d, given d) ∷ [];
          effects = w.effects ++ start_indexer d ∷ [];
        }) in
        simp (missing, known)
          (
            a,
            λ c.
                rw (b c, is_registered-add)
                  (sym (or_assoc (is_registered c w.store) (d == c) (includes_id ids c))),
          )
  ]

remove_unsubscribed_lem :
    (ids cs : List ℕ) (w : World Registry)
    → let (res, w') = remove_unsubscribed ids cs w in
      (res ≡ ok tt)
      × ((c : ℕ)
          → is_registered c w'.store
            ≡ (is_registered c w.store && (not (includes_id cs c) || includes_id ids c)))
unfolding remove_unsubscribed remove_chain_indexer
remove_unsubscribed_lem ids [] w = (refl, λ c. ground arith)
remove_unsubscribed_lem ids (d ∷ cs) w = elim (Bool-cases (includes_id ids d)) [
  | inl keep ↦
      let (a, b) = remove_unsubscribed_lem ids cs w in
      simp keep (a, λ c. rw (b c) (ground (arith, keep, includes_id-same ids d c)))
  | inr out ↦ elim (Bool-cases (is_registered d w.store)) [
    | inl there ↦
        let (a, b) = remove_unsubscribed_lem ids cs (record w {
          store = filter (λ e. not (e.0 == d)) w.store;
          effects = w.effects ++ stop_indexer d ∷ [];
        }) in
        simp (out, there)
          (
            a,
            λ c.
                rw (b c, is_registered-remove c d w.store)
                  (ground (arith, out, includes_id-same ids d c)),
          )
    | inr missing ↦
        let (a, b) = remove_unsubscribed_lem ids cs w in
        simp (out, missing)
          (
            a,
            λ c. rw (b c) (
                ground
                  (arith, out, missing, includes_id-same ids d c, is_registered-same d c w.store)),
          )
  ]
]

includes_id-chain_ids : (c : ℕ) (r : Registry) → includes_id (chain_ids r) c ≡ is_registered c r
unfolding is_registered
includes_id-chain_ids c [] = refl
includes_id-chain_ids c (e ∷ r) = rw (includes_id-chain_ids c r)

includes_id-distinct : (c : ℕ) (ids : List ℕ) → includes_id (distinct ids) c ≡ includes_id ids c
includes_id-distinct c [] = refl
includes_id-distinct c (d ∷ ids) =
    ground (arith, includes_id-distinct c ids, includes_id-filter c d (distinct ids))

-- Whether a chain has a subscription that is not deleted.
abbrev pub is_subscribed : ℕ → List ContractSubscription → Bool
is_subscribed c = any (λ s. not (is_some s.deleted_at) && s.chain_id == c)

includes_id_unique :
    (c : ℕ) (rows : List ContractSubscription)
    → includes_id (get_contract_subscriptions_unique_chain_ids rows) c ≡ is_subscribed c rows
unfolding get_contract_subscriptions_unique_chain_ids
includes_id_unique c rows = includes_id-distinct c _ ∙ live c rows
  where
    live :
        (c : ℕ) (rows : List ContractSubscription)
        → includes_id
            (map
              (λ (r : ContractSubscription). r.chain_id)
              (filter (λ (r : ContractSubscription). not (is_some r.deleted_at)) rows))
            c
          ≡ is_subscribed c rows
    live c [] = refl
    live c (r ∷ rows) = elim (Bool-cases (is_some r.deleted_at)) [
      | inl e ↦ simp (e, live c rows)
      | inr e ↦ simp (e, live c rows)
    ]

-- The registry implements the set of the subscribed chains: if the settings of every chain can be
-- made, then after one run, from any registry, a chain has an indexer exactly if some subscription
-- to it is not deleted.
pub manage_chain_indexers_lem :
    (settings : ℕ → Result Settings) (given : ℕ → Settings)
    → ((c : ℕ) → settings c ≡ ok (given c))
    → (rows : List ContractSubscription) (w : World Registry)
    → let (res, w') = manage_chain_indexers settings rows w in
      (res ≡ ok tt) × ((c : ℕ) → is_registered c w'.store ≡ is_subscribed c rows)
unfolding manage_chain_indexers
manage_chain_indexers_lem settings given known rows w =
    let ids = get_contract_subscriptions_unique_chain_ids rows in
    let w₁ : World Registry = (add_missing settings ids w).1 in
    let (a, b) = add_missing_lem settings given known ids w in
    let (c, d) = remove_unsubscribed_lem ids (chain_ids w₁.store) w₁ in
    let e : manage_chain_indexers settings rows w
        ≡ remove_unsubscribed ids (chain_ids w₁.store) w₁ =
      continue-ok (add_missing settings ids w) _ a in
    rw e (
      c,
      λ n.
          rw (d n, includes_id-chain_ids n w₁.store, b n, ← includes_id_unique n rows)
            (ground arith),
    )
