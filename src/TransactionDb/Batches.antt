-- ===== src/TransactionDb/Batches.antt =====
-- The batched reads and deletes of many transactions: `bulkGet` and `bulkDelete` of
-- src/db/transactions/db.ts.
use thirdweb_engine.Base.{
  ℕ, zero, suc, ◌+◌, ◌≤◌, ◌<◌, ◌≡◌, refl, ap, sym, ◌∙◌, String, Option, none, some, List, [], ◌∷◌,
  ◌++◌, take, drop, length, any, arith, if◌then◌else◌, take-drop, shorter,
}
use thirdweb_engine.Transaction.{Transaction}
use thirdweb_engine.Redis.{Redis}
use thirdweb_engine.Redis.Values.{key_eq, id_eq, details, absent}
use thirdweb_engine.Engine.{World, ok}
use thirdweb_engine.TransactionDb.{
  keep_found, mget, bulk_get_from, bulk_get, unlink, bulk_delete_from, bulk_delete, get_transaction,
}

keep_found-append :
    (xs ys : List (Option Transaction)) → keep_found (xs ++ ys) ≡ keep_found xs ++ keep_found ys
keep_found-append [] ys = refl
keep_found-append (none ∷ xs) ys = keep_found-append xs ys
keep_found-append (some t ∷ xs) ys = rw (keep_found-append xs ys)

pair_path : {A B : Type 0} (x : A × B) (a : A) (b : B) → a ≡ x.0 → b ≡ x.1 → (a, b) ≡ x
pair_path x a b h k = cc

module _ (R : Redis) where
  open R use {Store, at, del, at-del}

  mget-append : (s : Store) (xs ys : List String) → mget R s (xs ++ ys) ≡ mget R s xs ++ mget R s ys
  unfolding mget
  mget-append s [] ys = refl
  mget-append s (x ∷ xs) ys = rw (mget-append s xs ys)

  bulk_get_from_lem :
      (fuel batch : ℕ) (s : Store) (ids : List String)
      → 0 < batch
      → length ids ≤ fuel
      → bulk_get_from R fuel batch s ids ≡ keep_found (mget R s ids)
  unfolding bulk_get_from mget
  bulk_get_from_lem zero batch s [] h le = refl
  bulk_get_from_lem zero batch s (x ∷ ids) h le = absurd (omega arith)
  bulk_get_from_lem (suc fuel) batch s [] h le = refl
  bulk_get_from_lem (suc fuel) batch s (x ∷ ids) h le =
      let rest =
        bulk_get_from_lem fuel batch s (drop batch (x ∷ ids)) h (shorter fuel batch x ids h le) in
      let now = mget R s (take batch (x ∷ ids)) in
      let later = mget R s (drop batch (x ∷ ids)) in
      ap (λ l. keep_found now ++ l) rest
      ∙ sym (keep_found-append now later)
      ∙ ap keep_found (sym (mget-append s (take batch (x ∷ ids)) (drop batch (x ∷ ids))))
      ∙ ap (λ l. keep_found (mget R s l)) (take-drop batch (x ∷ ids))

  unlink-append_store :
      (s : Store) (xs ys : List String)
      → (unlink R s (xs ++ ys)).1 ≡ (unlink R (unlink R s xs).1 ys).1
  unfolding unlink
  unlink-append_store s [] ys = refl
  unlink-append_store s (x ∷ xs) ys = unlink-append_store (del s (details x)) xs ys

  unlink-append_count :
      (s : Store) (xs ys : List String)
      → (unlink R s (xs ++ ys)).0 ≡ (unlink R s xs).0 + (unlink R (unlink R s xs).1 ys).0
  unfolding unlink
  unlink-append_count s [] ys = omega arith
  unlink-append_count s (x ∷ xs) ys = ground (arith, unlink-append_count (del s (details x)) xs ys)

  bulk_delete_from_lem :
      (fuel batch : ℕ) (s : Store) (ids : List String)
      → 0 < batch
      → length ids ≤ fuel
      → bulk_delete_from R fuel batch s ids ≡ unlink R s ids
  unfolding bulk_delete_from unlink
  bulk_delete_from_lem zero batch s [] h le = refl
  bulk_delete_from_lem zero batch s (x ∷ ids) h le = absurd (omega arith)
  bulk_delete_from_lem (suc fuel) batch s [] h le = refl
  bulk_delete_from_lem (suc fuel) batch s (x ∷ ids) h le =
      let l = x ∷ ids in
      let s' = (unlink R s (take batch l)).1 in
      let rest =
        bulk_delete_from_lem fuel batch s' (drop batch l) h (shorter fuel batch x ids h le) in
      ap (λ r. ((unlink R s (take batch l)).0 + r.0, r.1)) rest
      ∙ pair_path (unlink R s (take batch l ++ drop batch l)) _ _
          (sym (unlink-append_count s (take batch l) (drop batch l)))
          (sym (unlink-append_store s (take batch l) (drop batch l)))
      ∙ ap (unlink R s) (take-drop batch l)

  at-unlink :
      (s : Store) (ids : List String) (j : String)
      → at (unlink R s ids).1 (details j) ≡ (if any (id_eq j) ids then absent else at s (details j))
  unfolding unlink key_eq
  at-unlink s [] j = refl
  at-unlink s (x ∷ ids) j = rw (at-unlink (del s (details x)) ids j, at-del) (ground arith)

  pub bulk_get_lem :
      (batch : ℕ) (ids : List String) (w : World Store)
      → 0 < batch
      → bulk_get R batch ids w ≡ (ok (keep_found (mget R w.store ids)), w)
  unfolding bulk_get
  bulk_get_lem batch ids w h = rw (bulk_get_from_lem (length ids) batch w.store ids h (omega arith))

  -- `bulkDelete` with batches of one or more deletes the transactions of exactly the given IDs, and
  -- counts them as one UNLINK of all the IDs does: the size of a batch makes no difference.
  pub bulk_delete_lem :
      (batch : ℕ) (ids : List String) (w : World Store)
      → 0 < batch
      → let (r, w') = bulk_delete R batch ids w in
        (r ≡ ok (unlink R w.store ids).0)
        × ((j : String)
            → (get_transaction R j w').0
              ≡ (if any (id_eq j) ids then ok none else (get_transaction R j w).0))
  unfolding bulk_delete get_transaction
  bulk_delete_lem batch ids w h =
      rw (bulk_delete_from_lem (length ids) batch w.store ids h (omega arith))
        (refl, λ j. rw (at-unlink w.store ids j) (ground arith))
