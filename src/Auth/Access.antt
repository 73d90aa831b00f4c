-- ===== src/Auth/Access.antt =====
-- Whom an access token or a keypair lets in: `handleAccessToken` and `handleKeypairAuth` of
-- src/server/middleware/auth.ts.
use thirdweb_engine.Base.{
  ℕ, ◌≡◌, refl, Bool, true, false, String, Option, none, some, inl, inr, Bool-cases, not, str_eq,
  ◌&&◌, ◌⊎◌, List, [], ◌∷◌, any, eq_iff, ap, subst, arith,
}
use mathlib.Core.List.{Mem, mem-cons_self, mem-cons_of_mem}
use thirdweb_engine.Engine.{World, Thrown, ok, err, Result-cases}
use thirdweb_engine.Errors.{truthy}
use thirdweb_engine.Auth.{
  AuthEnv, allowed, denied, denied_with, ip_message, AuthResponse, User, Keypair, valid,
  is_owner_or_admin, permissions_of, differs, check_ip_in_allowlist, handle_access_token,
  check_keypair,
}
use thirdweb_engine.Auth.Endpoints.{Request}

not_authed :
    (d response : AuthResponse)
    → d.is_authed ≡ false
    → ok d ≡ ok response
    → response.is_authed ≡ true
    → ⊥
not_authed d response denied h authed = cc

thrown : (e : Thrown) (response : AuthResponse) → err e ≡ ok response → ⊥
thrown e response h = cc

user_of :
    (u : Option User) (response : AuthResponse) → ok (allowed u) ≡ ok response → response.user ≡ u
user_of u response h = cc

-- An owner or an admin.
abbrev pub IsOwnerOrAdmin : Option User → Type 0
IsOwnerOrAdmin none = ⊥
IsOwnerOrAdmin (some u) = (u.permissions ≡ some "OWNER") ⊎ (u.permissions ≡ some "ADMIN")

permitted_sound :
    (o : Option String) → is_owner_or_admin o ≡ true → (o ≡ some "OWNER") ⊎ (o ≡ some "ADMIN")
permitted_sound none h = cc
permitted_sound (some p) h = elim (Bool-cases (str_eq p "OWNER")) [
  | inl y ↦ inl (ap some ((eq_iff p "OWNER").0 y))
  | inr n ↦ inr (ap some ((eq_iff p "ADMIN").0 (rw n at h)))
]

strong_user :
    (user : Option User) → is_owner_or_admin (permissions_of user) ≡ true → IsOwnerOrAdmin user
strong_user none h = cc
strong_user (some u) h = permitted_sound u.permissions h

listed_sound : (ip : String) (ips : List String) → any (λ i. str_eq i ip) ips ≡ true → Mem ip ips
listed_sound ip [] h = cc
listed_sound ip (i ∷ ips) h = elim (Bool-cases (str_eq i ip)) [
  | inl y ↦ let same : i ≡ ip = (eq_iff i ip).0 y in subst (λ j. Mem j (i ∷ ips)) same mem-cons_self
  | inr n ↦ mem-cons_of_mem i (listed_sound ip ips (rw n at h))
]

module _ (env : AuthEnv) where
  near_address :
      (req : Request)
      → check_ip_in_allowlist env req ≡ true
      → (env.ip_allowlist ≡ []) ⊎ Mem req.ip env.ip_allowlist
  unfolding check_ip_in_allowlist
  near_address req h = by_list env.ip_allowlist refl
    where
      by_list :
          (ips : List String)
          → env.ip_allowlist ≡ ips
          → (env.ip_allowlist ≡ []) ⊎ Mem req.ip env.ip_allowlist
      by_list [] e = inl e
      by_list (i ∷ ips) e =
          inr (rw e (listed_sound req.ip (i ∷ ips) (rw (check_ip_in_allowlist, e) at h)))

  -- The JWT of a keypair that is valid lets a request in exactly if its body hash is that of the
  -- request, in case that is a POST and there is a hash, and the address is in the allowlist.
  pub check_keypair_allowed :
      (jwt : String) (req : Request) (k : Keypair) (body_hash : Option String)
      → env.verify jwt k ≡ valid body_hash
      → (check_keypair env jwt req k).is_authed ≡ (
          not (str_eq req.method "POST" && differs (truthy body_hash) (env.hash_request_body req))
          && check_ip_in_allowlist env req)
  unfolding check_keypair
  check_keypair_allowed jwt req k body_hash verified = rw (check_keypair, verified) (ground arith)

  -- What it means that an access token is good for a request.
  abbrev pub IsGoodToken : String → Request → Option User → Type 0
  IsGoodToken jwt req user =
      (env.get_access_token (some jwt) ≡ ok (some none))
      × (env.get_user req ≡ ok user)
      × IsOwnerOrAdmin user
      × ((env.ip_allowlist ≡ []) ⊎ Mem req.ip env.ip_allowlist)

  -- The part that reads the user.
  good_of_user :
      (jwt : String) (req : Request) (w : World Bool) (response : AuthResponse) (user : Option User)
      → env.get_access_token (some jwt) ≡ ok (some none)
      → env.get_user req ≡ ok user
      → (handle_access_token env jwt req w).0 ≡ ok response
      → response.is_authed ≡ true
      → IsGoodToken jwt req user × (response.user ≡ user)
  unfolding handle_access_token
  good_of_user jwt req w response user found by h authed =
      elim (Bool-cases (is_owner_or_admin (permissions_of user))) [
        | inr weak ↦ absurd (not_authed denied response refl (simp (found, by, weak) at h) authed)
        | inl strong ↦ elim (Bool-cases (check_ip_in_allowlist env req)) [
          | inr far ↦ absurd (
              not_authed (denied_with ip_message) response refl (simp (found, by, strong, far) at h)
                authed)
          | inl near ↦ (
            (found, by, strong_user user strong, near_address req near),
            user_of user response (simp (found, by, strong, near) at h),
          )
        ]
      ]

  good_of_token :
      (jwt : String) (req : Request) (w : World Bool) (response : AuthResponse)
      (token : Option (Option ℕ))
      → env.get_access_token (some jwt) ≡ ok token
      → (handle_access_token env jwt req w).0 ≡ ok response
      → response.is_authed ≡ true
      → (user : Option User) × IsGoodToken jwt req user × (response.user ≡ user)
  unfolding handle_access_token
  good_of_token jwt req w response none found h authed =
      absurd (not_authed denied response refl (simp found at h) authed)
  good_of_token jwt req w response (some (some revoked)) found h authed =
      absurd (not_authed denied response refl (simp found at h) authed)
  good_of_token jwt req w response (some none) found h authed =
      elim (Result-cases (env.get_user req)) [
        | inl (user, by) ↦
            let (good, same) = good_of_user jwt req w response user found by h authed in
            (user, good, same)
        | inr (e, failed) ↦ absurd (thrown e response (simp (found, failed) at h))
      ]

  -- If an access token lets a request in, then the token is known and not revoked, the permissions
  -- of its user are those of an owner or of an admin, the allowlist is empty or has the address of
  -- the request, and the response is for that user.
  pub handle_access_token-allowed :
      (jwt : String) (req : Request) (w : World Bool) (response : AuthResponse)
      → (handle_access_token env jwt req w).0 ≡ ok response
      → response.is_authed ≡ true
      → (user : Option User) × IsGoodToken jwt req user × (response.user ≡ user)
  unfolding handle_access_token
  handle_access_token-allowed jwt req w response h authed =
      elim (Result-cases (env.get_access_token (some jwt))) [
        | inr (e, failed) ↦ absurd (not_authed denied response refl (simp failed at h) authed)
        | inl (token, found) ↦ good_of_token jwt req w response token found h authed
      ]
