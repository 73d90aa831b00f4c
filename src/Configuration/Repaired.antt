-- ===== src/Configuration/Repaired.antt =====
-- How a row that lacks something is completed: `getConfiguration` of
-- src/db/configuration/getConfiguration.ts.
use thirdweb_engine.Base.{
  ◌≡◌, refl, ◌∙◌, ap, ℕ, ◌+◌, ◌-◌, ◌≤◌, Bool, true, false, not, ◌&&◌, String, Option, none, some,
  is_some, Bool-cases, suc, zero, arith, inl, inr,
}
use thirdweb_engine.Errors.{truthy}
use thirdweb_engine.Engine.{World, Result, ok, err, ◌>>=◌}
use thirdweb_engine.Configuration.{
  Configuration, ConfigStore, ConfigEnv, is_text, to_parsed_config, filled_row, get_configuration,
  updated, update_configuration,
}
use thirdweb_engine.Configuration.Secrets.{to_parsed_config_lem}

abbrev pub one_if : Bool → ℕ
one_if true = 1
one_if false = 0

abbrev pub lacks_auth : Configuration → Bool
lacks_auth c = not (is_text c.auth_domain) && not (is_text c.auth_wallet_encrypted_json)

abbrev pub lacks_origins : Configuration → Bool
lacks_origins c = not (is_text c.access_control_allow_origin)

abbrev pub lacks_schedule : Configuration → Bool
lacks_schedule c = not (is_some (truthy c.indexer_listener_cron_schedule))

-- How many of the things that `getConfiguration` looks for are not there; a missing row is one.
abbrev pub lacks : Option Configuration → ℕ
lacks none = 1
lacks (some c) = one_if (lacks_auth c) + (one_if (lacks_origins c) + one_if (lacks_schedule c))

-- What `n` calls of `getConfiguration` leave, one after the other.
abbrev pub after_reads : ConfigEnv → ℕ → World ConfigStore → World ConfigStore
after_reads env zero w = w
after_reads env (suc n) w = after_reads env n (get_configuration env w).1

one_if_le : (b : Bool) → one_if b ≤ 1
one_if_le true = omega arith
one_if_le false = omega arith

lacks_le : (o : Option Configuration) → lacks o ≤ 3
lacks_le none = omega arith
lacks_le (some c) =
    let a = one_if_le (lacks_auth c) in
    let o = one_if_le (lacks_origins c) in let s = one_if_le (lacks_schedule c) in omega arith

module _ (env : ConfigEnv) where
  get_configuration_world :
      (w : World ConfigStore) → (get_configuration env w).1 ≡ (filled_row env w.store.row w).1
  unfolding get_configuration
  get_configuration_world w = after (filled_row env w.store.row w)
    where
      after :
          (r : Result Configuration × World ConfigStore)
          → (((λ (_ : World ConfigStore). r) >>= to_parsed_config env) w).1 ≡ r.1
      after (ok c, v) = rw (to_parsed_config_lem env c v) refl
      after (err e, v) = refl

  filled_row-lacks :
      (json : String) (c : Option Configuration) (w : World ConfigStore)
      → env.auth_wallet ≡ ok json
      → w.store.row ≡ c
      → lacks (filled_row env c w).1.store.row ≡ lacks c - 1
  unfolding filled_row update_configuration updated
  filled_row-lacks json none w j h = rw (j) refl
  filled_row-lacks json (some c) w j h = elim (Bool-cases (lacks_auth c)) [
    | inl a ↦ rw (a, j) (omega arith)
    | inr a ↦ elim (Bool-cases (lacks_origins c)) [
      | inl o ↦ rw (a, o) (rw a (omega arith))
      | inr o ↦ elim (Bool-cases (lacks_schedule c)) [
        | inl s ↦ rw (a, o, s) (rw (a, o) refl)
        | inr s ↦ rw (a, o, s, h) (rw (a, o, s) refl)
      ]
    ]
  ]

  after_reads_lem :
      (json : String) (n : ℕ) (w : World ConfigStore)
      → env.auth_wallet ≡ ok json
      → lacks w.store.row ≤ n
      → lacks (after_reads env n w).store.row ≡ 0
  after_reads_lem json zero w j h = omega arith
  after_reads_lem json (suc n) w j h =
      let less =
        ap (λ v. lacks v.store.row) (get_configuration_world w)
        ∙ filled_row-lacks json w.store.row w j refl in
      after_reads_lem json n (get_configuration env w).1 j (omega arith)

  -- When a new wallet for the authentication can be made, three calls of `getConfiguration` leave a
  -- row to which nothing that it looks for is missing, be there a row before or not, and whether the
  -- calls themselves return or throw.
  pub get_configuration_complete :
      (json : String) (w : World ConfigStore)
      → env.auth_wallet ≡ ok json
      → lacks (after_reads env 3 w).store.row ≡ 0
  get_configuration_complete json w j = after_reads_lem json 3 w j (lacks_le w.store.row)
