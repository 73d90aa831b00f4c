-- ===== src/NonceResync/Missing.antt =====
-- Which nonces the resync of a wallet recycles: src/worker/tasks/nonceResyncWorker.ts.
use thirdweb_engine.Base.{
  ℕ, zero, suc, ◌+◌, ◌≡◌, refl, ◌∙◌, Bool, true, false, not, ◌&&◌, arith, leb, ltb, if◌then◌else◌,
  Bool-cases, inl, inr,
}
use thirdweb_engine.Base.Int.{pos}
use thirdweb_engine.Redis.{Redis}
use thirdweb_engine.Redis.Values.{
  key_eq, wallet_eq_refl, Wallet, recycled, sent_nonces, nonce, entries, has, Value,
}
use thirdweb_engine.Engine.{World, ok}
use thirdweb_engine.Nonce.{is_sent_nonce, recycle_nonce}
use thirdweb_engine.NonceResync.{recycle_missing}
use thirdweb_engine.NoncePool.Tokens.{
  IsNonceList, count_entries, count_entries-zadd_value, zadd_value-IsNonceList,
}

same_has :
    (m n : ℕ) (s : Value) (b : Bool) → m ≡ n → has (nonce (pos n)) s ≡ b → has (nonce (pos m)) s ≡ b
same_has m n s b e h = rw e h

module _ (R : Redis) (v : Wallet) where
  open R use {Store, at, at-zadd, lex}

  -- Whether the loop over `rounds` nonces from `n` on recycles the nonce `m`.
  abbrev is_missing : Store → ℕ → ℕ → ℕ → Bool
  is_missing s rounds n m =
      leb n m && (ltb m (n + rounds) && not (has (nonce (pos m)) (at s (sent_nonces v))))

  -- After the loop over the nonces from `n` up to `n + rounds`, each of them that is not among the
  -- sent nonces stands among the recycled ones exactly once, whether it stood there before or not;
  -- any other nonce stands there as often as before; and the sent nonces are as they were. The
  -- recycled nonces are a sorted set of nonces before and after.
  pub recycle_missing_lem :
      (rounds n : ℕ) (w : World Store)
      → IsNonceList (at w.store (recycled v))
      → let (r, w') = recycle_missing R v rounds n w in
        (r ≡ ok tt)
        × (IsNonceList (at w'.store (recycled v)))
        × (at w'.store (sent_nonces v) ≡ at w.store (sent_nonces v))
        × ((m : ℕ)
            → count_entries (pos m) (entries (at w'.store (recycled v))) ≡ (
                if is_missing w.store rounds n m
                then 1
                else count_entries (pos m) (entries (at w.store (recycled v)))))
  unfolding recycle_missing is_sent_nonce recycle_nonce key_eq
  recycle_missing_lem zero n w l = (refl, l, refl, λ m. ground arith)
  recycle_missing_lem (suc rounds) n w l =
      elim (Bool-cases (has (nonce (pos n)) (at w.store (sent_nonces v)))) [
        | inl there ↦
            let (a, b, c, d) = recycle_missing_lem rounds (suc n) w l in
            simp there (
              a,
              b,
              c,
              λ m. rw (d m) (
                  ground
                    (arith, λ (e : m ≡ n). same_has m n (at w.store (sent_nonces v)) true e there)),
            )
        | inr missing ↦
            let w₁ : World Store = record w {
              store = R.zadd w.store (recycled v) (pos n) (nonce (pos n));
            } in
            let l₁ : IsNonceList (at w₁.store (recycled v)) =
              simp (at-zadd, wallet_eq_refl) (zadd_value-IsNonceList lex (pos n) (pos n) _ l) in
            let (a, b, c, d) = recycle_missing_lem rounds (suc n) w₁ l₁ in
            simp missing (
              a,
              b,
              c ∙ simp at-zadd,
              λ m. rw (d m) (
                  simp
                    (
                      at-zadd,
                      wallet_eq_refl,
                      count_entries-zadd_value lex (pos n) (pos m) (pos n) _ l,
                    )
                    (ground (
                      arith,
                      λ (e : m ≡ n). same_has m n (at w.store (sent_nonces v)) false e missing,
                    ))),
            )
      ]
