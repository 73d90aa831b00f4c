-- ===== src/Middleware/Limits.antt =====
-- How many requests pass in a minute, and the replies to the errors that the program throws:
-- src/server/middleware/rateLimit.ts and error.ts.
use thirdweb_engine.Base.{
  ℕ, zero, suc, ◌+◌, ◌-◌, ◌/◌, ◌≡◌, refl, true, false, String, some, ◌||◌, str_eq, ◌==◌,
  if◌then◌else◌, ltb, arith, Bool-cases, inl, inr,
}
use thirdweb_engine.Base.Int.{pos}
use thirdweb_engine.Redis.{Redis}
use thirdweb_engine.Redis.Values.{Key, rate_limit, key_eq, number, incr_value}
use thirdweb_engine.Engine.{World, Result, ok, err}
use thirdweb_engine.Middleware.{rate_limit_request, over}

abbrev pub passes : Result (Unit {0}) → ℕ
passes (ok _) = 1
passes (err _) = 0

over_lem : (n limit : ℕ) → over (some (pos n)) limit ≡ ltb limit n
over_lem n limit = ground arith

module _ (R : Redis) (limit : ℕ) (message : String) (now : ℕ) (url : String)
    (counted : (str_eq url "/" || str_eq url "/json") ≡ false) where
  open R use {Store, at, incr, at-incr}

  abbrev minute : Key
  minute = rate_limit (now / 60000)

  -- One request, where an INCR of the counter gives `n + 1`.
  rate_limit_request_lem :
      (n : ℕ) (w : World Store)
      → incr_value (at w.store minute) ≡ number (pos (suc n))
      → let (r, w') = rate_limit_request R limit message now url w in
        (passes r ≡ (if ltb limit (suc n) then 0 else 1))
        × (incr_value (at w'.store minute) ≡ number (pos (suc (suc n))))
  unfolding rate_limit_request key_eq
  rate_limit_request_lem n w h =
      let same : ((now / 60000) == (now / 60000)) ≡ true = ground arith in
      elim (Bool-cases (ltb limit (suc n))) [
        | inl e ↦ simp (counted, at-incr, same, h, e, over_lem) (refl, refl)
        | inr e ↦ simp (counted, at-incr, same, h, e, over_lem) (refl, refl)
      ]

  -- `n` requests in the same minute: how many pass.
  abbrev pub passing : ℕ → World Store → ℕ
  passing zero w = 0
  passing (suc n) w =
      let (r, w') = rate_limit_request R limit message now url w in passes r + passing n w'

  -- Of `n` requests in one minute to a URL that is counted, when `k` were counted in it before, the
  -- limit less `k` pass, or all `n` if they are fewer.
  pub passing_lem :
      (n k : ℕ) (w : World Store)
      → incr_value (at w.store (rate_limit (now / 60000))) ≡ number (pos (suc k))
      → passing n w ≡ (if ltb n (limit - k) then n else limit - k)
  passing_lem zero k w h = ground arith
  passing_lem (suc n) k w h =
      let (a, b) = rate_limit_request_lem k w h in
      let rest = passing_lem n (suc k) (rate_limit_request R limit message now url w).1 b in
      rw (a, rest) (ground arith)
