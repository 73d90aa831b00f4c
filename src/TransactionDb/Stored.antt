-- ===== src/TransactionDb/Stored.antt =====
-- What `set_transaction` leaves in the store: src/db/transactions/db.ts.
use thirdweb_engine.Base.{ℕ, ◌≡◌, refl, arith, String, Option, none, some, if◌then◌else◌}
use thirdweb_engine.Base.Int.{pos}
use thirdweb_engine.Transaction.{Transaction, Status, queued, sent, mined, cancelled, errored}
use thirdweb_engine.Redis.{Redis}
use thirdweb_engine.Redis.Values.{
  Key, Wallet, key_eq, id_eq, id_eq_refl, recycled, sent_nonces, details, queue_id, json,
}
use thirdweb_engine.Engine.{World, ok, pure, modify, ◌>>◌}
use thirdweb_engine.TransactionDb.{listing, set_transaction, get_transaction}

module _ (R : Redis) where
  open R use {Store, at, set, zadd, at-set, at-zadd}

  -- The store with a transaction in it, and in the list of its status.
  abbrev put_listed : Option (Key × ℕ) → Transaction → Store → Store
  put_listed none t s = set s (details t.queue_id) (json t)
  put_listed (some (k, time)) t s =
      zadd (set s (details t.queue_id) (json t)) k (pos time) (queue_id t.queue_id)

  unfoldable pub put : ℕ → Transaction → Store → Store
  put now t s = put_listed (listing now t.status t) t s

  set_listed :
      (o : Option (Key × ℕ)) (t : Transaction) (w : World Store)
      → (modify (λ s. set s (details t.queue_id) (json t)) >> elim o [
        | none ↦ pure tt
        | some (k, time) ↦ modify (λ s. zadd s k (pos time) (queue_id t.queue_id))
      ])
          w
        ≡ (ok tt, record w { store = put_listed o t w.store })
  set_listed none t w = refl
  set_listed (some _) t w = refl

  pub set_transaction_lem :
      (now : ℕ) (t : Transaction) (w : World Store)
      → set_transaction R now t w ≡ (ok tt, record w { store = put now t w.store })
  unfolding set_transaction put
  set_transaction_lem now t w = set_listed (listing now t.status t) t w

  at-put_listed :
      (now : ℕ) (st : Status) (t : Transaction) (s : Store) (j : String)
      → at (put_listed (listing now st t) t s) (details j)
        ≡ (if id_eq j t.queue_id then json t else at s (details j))
  unfolding listing key_eq
  at-put_listed now queued t s j = simp (at-set, at-zadd)
  at-put_listed now sent t s j = simp (at-set, at-zadd)
  at-put_listed now mined t s j = simp (at-set, at-zadd)
  at-put_listed now cancelled t s j = simp (at-set, at-zadd)
  at-put_listed now errored t s j = simp (at-set, at-zadd)

  pub at-put :
      (now : ℕ) (t : Transaction) (s : Store) (j : String)
      → at (put now t s) (details j) ≡ (if id_eq j t.queue_id then json t else at s (details j))
  unfolding put
  at-put now t s j = at-put_listed now t.status t s j

  -- A transaction that is stored is found again.
  pub at-put_self :
      (now : ℕ) (t : Transaction) (s : Store) → at (put now t s) (details t.queue_id) ≡ json t
  at-put_self now t s = rw (at-put now t s t.queue_id, id_eq_refl t.queue_id)

  nonces-put_listed :
      (now : ℕ) (st : Status) (t : Transaction) (s : Store) (v : Wallet)
      → (at (put_listed (listing now st t) t s) (recycled v) ≡ at s (recycled v))
        × (at (put_listed (listing now st t) t s) (sent_nonces v) ≡ at s (sent_nonces v))
  unfolding listing key_eq
  nonces-put_listed now queued t s v = simp (at-set, at-zadd) (refl, refl)
  nonces-put_listed now sent t s v = simp (at-set, at-zadd) (refl, refl)
  nonces-put_listed now mined t s v = simp (at-set, at-zadd) (refl, refl)
  nonces-put_listed now cancelled t s v = simp (at-set, at-zadd) (refl, refl)
  nonces-put_listed now errored t s v = simp (at-set, at-zadd) (refl, refl)

  pub recycled-put :
      (now : ℕ) (t : Transaction) (s : Store) (v : Wallet)
      → at (put now t s) (recycled v) ≡ at s (recycled v)
  unfolding put
  recycled-put now t s v = (nonces-put_listed now t.status t s v).0

  pub sent_nonces-put :
      (now : ℕ) (t : Transaction) (s : Store) (v : Wallet)
      → at (put now t s) (sent_nonces v) ≡ at s (sent_nonces v)
  unfolding put
  sent_nonces-put now t s v = (nonces-put_listed now t.status t s v).1

  -- `set` then `get` gives the transaction back; what is stored under another queue ID stays; and no
  -- set of recycled or of sent nonces is written.
  pub get-set_transaction :
      (now : ℕ) (t : Transaction) (w : World Store)
      → let (r, w') = set_transaction R now t w in
        (r ≡ ok tt)
        × ((get_transaction R t.queue_id w').0 ≡ ok (some t))
        × ((j : String)
            → (get_transaction R j w').0
              ≡ (if id_eq j t.queue_id then ok (some t) else (get_transaction R j w).0))
        × ((v : Wallet) → at w'.store (recycled v) ≡ at w.store (recycled v))
        × ((v : Wallet) → at w'.store (sent_nonces v) ≡ at w.store (sent_nonces v))
  unfolding get_transaction
  get-set_transaction now t w = rw (set_transaction_lem now t w) (
    refl,
    rw (at-put_self now t w.store),
    λ j. rw (at-put now t w.store j) (ground arith),
    recycled-put now t w.store,
    sent_nonces-put now t w.store,
  )
