-- ===== src/NoncePool/Runs.antt =====
-- The pool of a wallet's nonces over any number of steps.
use thirdweb_engine.Base.{
  ℕ, suc, ◌≡◌, refl, ap, ◌∙◌, sym, Bool, String, List, ◌∷◌, false, inl, inr, arith,
}
use mathlib.Core.Path.{subst}
use thirdweb_engine.Base.Int.{ℤ, ==ℤ_refl}
use thirdweb_engine.Redis.{Redis}
use thirdweb_engine.Redis.Values.{Wallet, sent_nonces, recycled, nonce, entries, has}
use thirdweb_engine.Engine.{World, ok}
use thirdweb_engine.Transaction.{Address}
use thirdweb_engine.Env.{Env}
use thirdweb_engine.Nonce.{wallet_key, acquire_nonce}
use thirdweb_engine.NoncePool.{
  IsPool, Step, acquires, sends, gives_back, drops, mines, times_out, takes_recycled, Run, done,
  then,
}
use thirdweb_engine.NoncePool.Tokens.{count, count_entries}
use thirdweb_engine.NoncePool.Steps.{
  sends-IsPool, gives_back-IsPool, mines-IsPool, times_out-IsPool, takes_recycled-IsPool,
  drops-InOrder,
}
use thirdweb_engine.NoncePool.Acquires.{
  IsNonceList-cases, acquires_recycled, acquires_next, positive_pred,
}
use thirdweb_engine.Nonce.Acquire.{acquire_nonce-recycled, acquire_nonce-next}

ok-first : {A B : Type 0} (x y : A × B) → ok x ≡ ok y → x.0 ≡ y.0
ok-first x y h = cc

module _ (R : Redis) (env : Env) (chain : ℕ) (from : Address) where
  open R use {Store, at}

  abbrev key : Wallet
  key = wallet_key chain from

  -- The pool is in order under some counter.
  abbrev InOrder : World Store → List ℤ → Type 0
  InOrder w held = (top : ℕ) × IsPool R key top w.store held

  acquires-InOrder :
      (w w' : World Store) (held : List ℤ) (id : String) (n : ℤ) (flag : Bool)
      → InOrder w held
      → acquire_nonce R env id chain from w ≡ (ok (n, flag), w')
      → InOrder w' (n ∷ held)
  acquires-InOrder w w' held id n flag (top, p) e =
      let (k, counted) = positive_pred top p.positive in
      let q = subst (λ t. IsPool R key t w.store held) counted p in
      let given = ap (λ r. r.0) e in
      let reached = ap (λ r. r.1) e in
      let move : (top' : ℕ) (m : ℤ)
          → m ≡ n
          → IsPool R key top' (acquire_nonce R env id chain from w).1.store (m ∷ held)
          → InOrder w' (n ∷ held) =
        λ top' m same pool. (top', rw (← same, ← reached) pool) in
      elim (IsNonceList-cases (at w.store (recycled key)) p.nonce_list) [
        | inl empty ↦
            let first = (acquire_nonce-next R env id chain from w k empty q.counter).0 in
            move (suc (suc k)) _ (ok-first (_, false) (n, flag) (sym first ∙ given))
              (acquires_next R env id chain from w held k q empty)
        | inr (c, m, rest, found) ↦
            let first = (acquire_nonce-recycled R env id chain from w c m rest found).0 in
            move top m (ok-first (m, false) (n, flag) (sym first ∙ given))
              (acquires_recycled R env id chain from w held top c m rest p found)
      ]

  Step-InOrder :
      (w w' : World Store) (held held' : List ℤ)
      → InOrder w held
      → Step R env chain from w held w' held'
      → InOrder w' held'
  Step-InOrder w w' held held' o (acquires id n flag e h) =
      rw h (acquires-InOrder w w' held id n flag o e)
  Step-InOrder w w' held held' (top, p) (sends n c e h) =
      rw (e, h) (top, sends-IsPool R key top w held p n c)
  Step-InOrder w w' held held' (top, p) (gives_back n c e h) =
      rw (e, h) (top, gives_back-IsPool R key top w held p n c)
  Step-InOrder w w' held held' o (drops n m c e h) =
      rw h (drops-InOrder R env chain from w w' held n m o c e)
  Step-InOrder w w' held held' (top, p) (mines n e h) =
      rw (e, h) (top, mines-IsPool R key top w held p n)
  Step-InOrder w w' held held' (top, p) (times_out n c e h) =
      rw (e, h) (top, times_out-IsPool R key top w held p n c)
  Step-InOrder w w' held held' (top, p) (takes_recycled e h) =
      rw (e, h) (top, takes_recycled-IsPool R key top w held p env)

  Run-InOrder :
      (w : World Store) (held : List ℤ) (w' : World Store) (held' : List ℤ)
      → InOrder w held
      → Run R env chain from w held w' held'
      → InOrder w' held'
  Run-InOrder w held w' held' o done = o
  Run-InOrder w held w' held' o (then r s) =
      Step-InOrder _ w' _ held' (Run-InOrder w held _ _ o r) s

  -- From a pool in order, whose counter is 1 or more, the workers' steps on the nonces of a wallet,
  -- in any order and any number, lead to a pool in order: no nonce is held by two jobs, or stands
  -- among the recycled or the sent nonces besides, and none above the counter has an owner. The
  -- steps are those of `Step`: the resync worker's are not among them.
  pub Run-IsPool :
      (w : World Store) (held : List ℤ) (w' : World Store) (held' : List ℤ) (top : ℕ)
      → IsPool R key top w.store held
      → Run R env chain from w held w' held'
      → (top' : ℕ) × IsPool R key top' w'.store held'
  Run-IsPool w held w' held' top p r = Run-InOrder w held w' held' (top, p) r

  -- The nonce that a job acquires after such steps, from a pool in order, is held by no other job,
  -- is not among the sent nonces, and is not left among the recycled ones.
  pub acquires_unused :
      (w : World Store) (held : List ℤ) (w₁ : World Store) (held₁ : List ℤ) (top : ℕ) (id : String)
      (n : ℤ) (flag : Bool) (w₂ : World Store)
      → IsPool R key top w.store held
      → Run R env chain from w held w₁ held₁
      → acquire_nonce R env id chain from w₁ ≡ (ok (n, flag), w₂)
      → (count n held₁ ≡ 0)
        × (count_entries n (entries (at w₂.store (recycled key))) ≡ 0)
        × (has (nonce n) (at w₂.store (sent_nonces key)) ≡ false)
  unfolding count
  acquires_unused w held w₁ held₁ top id n flag w₂ p r e =
      let (top', pool) =
        Run-InOrder w held w₂ (n ∷ held₁) (top, p) (then r (acquires id n flag e refl)) in
      ground (arith, pool.single n, ==ℤ_refl n)
