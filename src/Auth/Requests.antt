-- ===== src/Auth/Requests.antt =====
-- Requests without a JWT: `onRequest` of src/server/middleware/auth.ts.
use thirdweb_engine.Base.{
  ◌≡◌, refl, Bool, false, String, Option, none, some, List, [], ◌∷◌, ◌||◌, all, str_eq, Bool-cases,
  Option-cases, sym, inl, inr, arith,
}
use thirdweb_engine.Engine.{World, ok}
use thirdweb_engine.Errors.{truthy}
use thirdweb_engine.Auth.{
  denied, allowed, AuthEnv, AuthResponse, is_websocket, on_request, by_secret_or_webhooks,
  handle_secret_key, handle_auth_webhooks,
}
use thirdweb_engine.Auth.Endpoints.{Request, handle_public_endpoints}

-- The bearer text is the secret key.
abbrev pub bears : Option String → String → Bool
bears none key = false
bears (some b) key = str_eq b key

-- There is a webhook, and all of them answered `ok`.
abbrev pub all_agree : List Bool → Bool
all_agree [] = false
all_agree (x ∷ xs) = all (λ b. b) (x ∷ xs)

module _ (env : AuthEnv) (req : Request) (w : World Bool) where
  handle_secret_key_lem :
      (a : String)
      → env.auth_wallet_address ≡ ok a
      → (r : AuthResponse) × (handle_secret_key env req w ≡ (ok r, w))
        × (r.is_authed ≡ bears req.bearer env.thirdweb_api_secret_key)
  unfolding handle_secret_key
  handle_secret_key_lem a wallet = elim (Option-cases req.bearer) [
    | inl none_given ↦ (denied, rw (handle_secret_key, none_given), rw none_given)
    | inr (b, given) ↦ elim (Bool-cases (str_eq b env.thirdweb_api_secret_key)) [
      | inl same ↦ (
        allowed (some (record { address = a; permissions = some "ADMIN" })),
        rw (handle_secret_key, given, same, wallet),
        rw (given, same),
      )
      | inr other ↦ (denied, rw (handle_secret_key, given, other), rw (given, other))
    ]
  ]

  handle_auth_webhooks_lem :
      (answers : List Bool)
      → env.auth_webhooks req ≡ ok answers
      → (r : AuthResponse) × (handle_auth_webhooks env req w ≡ (ok r, w))
        × (r.is_authed ≡ all_agree answers)
  unfolding handle_auth_webhooks
  handle_auth_webhooks_lem [] answered = (denied, rw answered, refl)
  handle_auth_webhooks_lem (x ∷ xs) answered = elim (Bool-cases (all (λ b. b) (x ∷ xs))) [
    | inl agree ↦ (allowed none, simp (answered, agree), sym agree)
    | inr disagree ↦ (denied, simp (answered, disagree), sym disagree)
  ]

  by_secret_or_webhooks_lem :
      (a : String) (answers : List Bool)
      → env.auth_wallet_address ≡ ok a
      → env.auth_webhooks req ≡ ok answers
      → (r : AuthResponse) × (by_secret_or_webhooks env req w ≡ (ok r, w))
        × (r.is_authed ≡ (bears req.bearer env.thirdweb_api_secret_key || all_agree answers))
  unfolding by_secret_or_webhooks
  by_secret_or_webhooks_lem a answers wallet answered =
      let (key, run, by_key) = handle_secret_key_lem a wallet in
      let (hook, run', by_hook) = handle_auth_webhooks_lem answers answered in
      elim (Bool-cases key.is_authed) [
        | inl has_key ↦ (key, simp (run, has_key), ground (arith, has_key, by_key))
        | inr no_key ↦ elim (Bool-cases hook.is_authed) [
          | inl agree ↦ (
            hook,
            simp (run, no_key, run', agree),
            ground (arith, no_key, agree, by_key, by_hook),
          )
          | inr disagree ↦ (
            denied,
            simp (run, no_key, run', disagree),
            ground (arith, no_key, disagree, by_key, by_hook),
          )
        ]
      ]

  -- A request that asks for no websocket and has no JWT, when the wallet's address and the webhooks'
  -- answers are had, is answered, and is let in exactly if its endpoint is public, or it bears the
  -- secret key, or there is an auth webhook and all of them agree.
  pub on_request-without_jwt :
      (a : String) (answers : List Bool)
      → is_websocket req.upgrade ≡ false
      → truthy (env.get_jwt req) ≡ none
      → env.auth_wallet_address ≡ ok a
      → env.auth_webhooks req ≡ ok answers
      → (r : AuthResponse) × (on_request env req w ≡ (ok r, w))
        × (r.is_authed ≡ (
            handle_public_endpoints env.uuid_validate req
            || (bears req.bearer env.thirdweb_api_secret_key || all_agree answers)))
  unfolding on_request
  on_request-without_jwt a answers plain missing wallet answered =
      elim (Bool-cases (handle_public_endpoints env.uuid_validate req)) [
        | inl open_to_all ↦ (allowed none, simp (plain, open_to_all), rw open_to_all)
        | inr closed ↦
            let (r, run, authed) = by_secret_or_webhooks_lem a answers wallet answered in
            (r, simp (on_request, plain, closed, missing, run), rw closed authed)
      ]
