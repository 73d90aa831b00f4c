-- ===== src/Auth.antt =====
-- Who may call the API: `onRequest` and the ways to authenticate of src/server/middleware/auth.ts. A
-- run may destroy the request's websocket, which is the state of the task.
pub mod Endpoints
pub mod Access
pub mod Requests
use thirdweb_engine.Base.{
  ℕ, Bool, true, false, String, Option, none, some, List, [], ◌∷◌, ◌&&◌, ◌||◌, not, is_some, str_eq,
  any, all, or_else, if◌then◌else◌,
}
use thirdweb_engine.Base.Text.{to_lower}
use thirdweb_engine.Engine.{
  Task, Thrown, Result, ok, err, pure, lift, modify, try_catch, ◌>>=◌, ◌>>◌,
}
use thirdweb_engine.Errors.{truthy}
use Endpoints.{Request, handle_public_endpoints}

pub record User : Type 0 where
  pub address : String
  pub permissions : Option String

pub record AuthResponse : Type 0 where
  pub is_authed : Bool
  pub user : Option User
  pub error : Option String

abbrev pub denied : AuthResponse
denied = record { is_authed = false; user = none; error = none }

abbrev pub denied_with : String → AuthResponse
denied_with m = record { is_authed = false; user = none; error = some m }

abbrev pub allowed : Option User → AuthResponse
allowed u = record { is_authed = true; user = u; error = none }

-- `iss` of the payload and `kid` of the header of a decoded JWT.
pub record Decoded : Type 0 where
  pub iss : Option String
  pub kid : Option String

pub record Keypair : Type 0 where
  pub public_key : String
  pub algorithm : String

-- What `jsonwebtoken.verify` gives: the `bodyHash` of a valid payload, or why it threw.
pub data Verified : Type 0 where
  valid : Option String → Verified
  expired invalid : Verified

-- What the middleware asks of the JWT libraries, the database and its caches, the configuration and
-- the environment.
pub record AuthEnv : Type 0 where
  pub uuid_validate : String → Bool
  pub get_jwt : Request → Option String
  pub decode : String → Option Decoded
  pub auth_wallet_address : Result String
  -- the token's `revokedAt`, of a token that is found
  pub get_access_token : Option String → Result (Option (Option ℕ))
  pub get_user : Request → Result (Option User)
  -- `handleSiwe` of a JWT and a domain, by the dashboard's issuer: the address
  pub handle_siwe : String → String → Option String
  pub get_permissions : String → Result (Option String)
  pub get_keypair : Option String → Option String → Result (Option Keypair)
  pub verify : String → Keypair → Verified
  pub hash_request_body : Request → String
  pub ip_allowlist : List String
  -- whether each auth webhook answered `ok`
  pub auth_webhooks : Request → Result (List Bool)
  pub enable_keypair_auth : Bool
  pub thirdweb_api_secret_key : String

-- `Permission.Owner` and `Permission.Admin`
abbrev pub is_owner_or_admin : Option String → Bool
is_owner_or_admin none = false
is_owner_or_admin (some p) = str_eq p "OWNER" || str_eq p "ADMIN"

abbrev pub permissions_of : Option User → Option String
permissions_of none = none
permissions_of (some u) = u.permissions

abbrev pub thirdweb_dashboard_issuer : String
thirdweb_dashboard_issuer = "0x016757dDf2Ab6a998a4729A80a091308d9059E17"

abbrev pub ip_message : String
ip_message = "Unauthorized IP Address. See: https://portal.thirdweb.com/engine/features/security"

abbrev pub is_websocket : Option String → Bool
is_websocket none = false
is_websocket (some u) = str_eq (to_lower u) "websocket"

abbrev pub differs : Option String → String → Bool
differs none h = false
differs (some b) h = not (str_eq b h)

module _ (env : AuthEnv) where
  open env use {get_access_token, get_user, ip_allowlist}

  -- `checkIpInAllowlist`: an empty list allows every address.
  unfoldable pub check_ip_in_allowlist : Request → Bool
  check_ip_in_allowlist req = elim ip_allowlist [
    | [] ↦ true
    | x ∷ xs ↦ any (λ ip. str_eq ip req.ip) (x ∷ xs)
  ]

  unfoldable pub handle_websocket_auth : Request → Task Bool AuthResponse
  handle_websocket_auth req =
      let destroy : Task Bool AuthResponse = modify (λ _. true) >> pure denied in
      let by_user : Option User → Task Bool AuthResponse = λ user.
        if not (check_ip_in_allowlist req)
        then pure (denied_with ip_message)
        else if is_owner_or_admin (permissions_of user)
        then pure (allowed user)
        else destroy in
      lift (get_access_token req.query_token) >>= λ token. elim token [
        | some none ↦ lift (get_user (record req { bearer = req.query_token })) >>= by_user
        | _ ↦ destroy
      ]

  -- A token that cannot be read is no access token.
  unfoldable pub handle_access_token : String → Request → Task Bool AuthResponse
  handle_access_token jwt req =
      let by_user : Option User → Task Bool AuthResponse = λ user.
        if not (is_owner_or_admin (permissions_of user))
        then pure denied
        else if not (check_ip_in_allowlist req)
        then pure (denied_with ip_message)
        else pure (allowed user) in
      try_catch (lift (get_access_token (some jwt))) (λ _. pure denied)
        λ token. elim token [ some none ↦ lift (get_user req) >>= by_user | _ ↦ pure denied ]

  -- The JWT of a known keypair whose body hash, if it has one, is that of the request.
  unfoldable pub check_keypair : String → Request → Keypair → AuthResponse
  check_keypair jwt req keypair = elim (env.verify jwt keypair) [
    | expired ↦ denied_with "Keypair token is expired."
    | invalid ↦
        denied_with
          "Error parsing \"Authorization\" header. See: https://portal.thirdweb.com/engine/features/access-tokens"
    | valid body_hash ↦
        if str_eq req.method "POST" && differs (truthy body_hash) (env.hash_request_body req)
        then denied_with
            "The request body does not match the hash in the access token. See: https://portal.thirdweb.com/engine/features/keypair-authentication"
        else if not (check_ip_in_allowlist req)
        then denied_with ip_message
        else allowed none
  ]

  unfoldable pub handle_keypair_auth :
      String → Request → Option String → Option String → Task Bool AuthResponse
  handle_keypair_auth jwt req public_key public_key_hash =
      let checked : Task Bool AuthResponse =
        try_catch (lift (env.get_keypair public_key public_key_hash))
          (λ _. pure (
            denied_with
              "Error parsing \"Authorization\" header. See: https://portal.thirdweb.com/engine/features/access-tokens"))
          λ found. elim found [
            | none ↦
                pure (denied_with "The provided public key is incorrect or not added to Engine.")
            | some keypair ↦ pure (check_keypair jwt req keypair)
          ] in
      if env.enable_keypair_auth then checked else pure denied

  -- A dashboard user needs a permission in the database.
  unfoldable pub handle_dashboard_auth : String → Task Bool AuthResponse
  handle_dashboard_auth jwt =
      let by_address : String → Task Bool AuthResponse = λ a. lift (env.get_permissions a) >>= λ p.
      if is_owner_or_admin p
      then pure (allowed (some (record { address = a; permissions = p })))
      else pure denied in
      elim (or_else (env.handle_siwe jwt "thirdweb.com")
        (env.handle_siwe jwt "thirdweb-preview.com")) [ none ↦ pure denied | some a ↦ by_address a ]

  unfoldable pub handle_secret_key : Request → Task Bool AuthResponse
  handle_secret_key req =
      let as_admin : Task Bool AuthResponse = lift env.auth_wallet_address >>= λ a.
      pure (allowed (some (record { address = a; permissions = some "ADMIN" }))) in
      elim req.bearer [
        | none ↦ pure denied
        | some key ↦ if str_eq key env.thirdweb_api_secret_key then as_admin else pure denied
      ]

  unfoldable pub handle_auth_webhooks : Request → Task Bool AuthResponse
  handle_auth_webhooks req = lift (env.auth_webhooks req) >>= λ answers. elim answers [
    | [] ↦ pure denied
    | x ∷ xs ↦ if all (λ b. b) (x ∷ xs) then pure (allowed none) else pure denied
  ]

  -- The last two ways: the secret key, then the webhooks.
  unfoldable pub by_secret_or_webhooks : Request → Task Bool AuthResponse
  by_secret_or_webhooks req = handle_secret_key req >>= λ by_key.
      let rest : Task Bool AuthResponse =
        handle_auth_webhooks req >>= λ r. if r.is_authed then pure r else pure denied in
      if by_key.is_authed then pure by_key else rest

  -- The way that the issuer of a JWT asks for.
  unfoldable pub by_issuer : String → Request → String → Task Bool AuthResponse
  by_issuer jwt req issuer = lift env.auth_wallet_address >>= λ wallet.
      if str_eq issuer wallet
      then handle_access_token jwt req
      else if str_eq issuer thirdweb_dashboard_issuer
      then handle_dashboard_auth jwt
      else handle_keypair_auth jwt req (some issuer) none

  unfoldable pub by_jwt : String → Request → Decoded → Task Bool AuthResponse
  by_jwt jwt req d = elim (truthy d.iss) [
    | some issuer ↦ by_issuer jwt req issuer
    | none ↦ elim (truthy d.kid) [
      | some kid ↦ handle_keypair_auth jwt req none (some kid)
      | none ↦ by_secret_or_webhooks req
    ]
  ]

  -- `onRequest`
  unfoldable pub on_request : Request → Task Bool AuthResponse
  on_request req =
      let by_token : String → Task Bool AuthResponse = λ jwt. elim (env.decode jwt) [
        | none ↦ by_secret_or_webhooks req
        | some d ↦ by_jwt jwt req d
      ] in
      if is_websocket req.upgrade
      then handle_websocket_auth req
      else if handle_public_endpoints env.uuid_validate req
      then pure (allowed none)
      else elim (truthy (env.get_jwt req)) [
        | none ↦ by_secret_or_webhooks req
        | some jwt ↦ by_token jwt
      ]

  -- The `preValidation` hook: whether the request goes on. A thrown error is a 401.
  unfoldable pub pre_validation : Bool → Request → Bool → Bool
  pre_validation sandbox req destroyed =
      let (r, _) = on_request req (record { store = destroyed; effects = [] }) in
      if sandbox then true else elim r [ ok response ↦ response.is_authed | err _ ↦ false ]
