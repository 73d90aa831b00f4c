-- ===== src/Configuration/Secrets.antt =====
-- How the secrets of the wallets are read: `toParsedConfig` of src/db/configuration/getConfiguration.ts.
use thirdweb_engine.Base.{
  ◌≡◌, refl, sym, true, String, Option, none, some, str_eq, Bool-cases, Option-cases, inl, inr,
}
use thirdweb_engine.Errors.{truthy}
use thirdweb_engine.Engine.{World, Result, ok, err, lift, pure, ◌>>=◌, Result-cases}
use thirdweb_engine.Configuration.{
  Configuration, Update, ConfigStore, ConfigEnv, ParsedConfig, aws_kms, gcp_kms, local,
  set_aws_secret, set_gcp_key, all_three, all_five, aws_fields, gcp_fields, is_text, decrypt_secret,
  parsed, to_parsed_config,
}

is_text-truthy : (o : Option String) (s : String) → truthy o ≡ some s → is_text s ≡ true
is_text-truthy none s h = cc
is_text-truthy (some t) s h = elim (Bool-cases (str_eq t "")) [
  | inl y ↦ absurd (none-ne-some (rw y at h))
  | inr n ↦ let same : t ≡ s = some_inj (rw n at h) in rw (sym same, n) refl
]
  where
    none-ne-some : none ≡ some s → ⊥
    none-ne-some e = cc

    some_inj : some t ≡ some s → t ≡ s
    some_inj e = cc

all_three_second :
    (a b c : Option String) (i s r : String) → all_three a b c ≡ some (i, s, r) → b ≡ some s
all_three_second (some _) (some _) (some _) i s r h = cc
all_three_second none b c i s r h = cc
all_three_second (some _) none c i s r h = cc
all_three_second (some _) (some _) none i s r h = cc

all_five_last :
    (a b c d e : Option String) (p l r m k : String)
    → all_five a b c d e ≡ some (p, l, r, m, k)
    → e ≡ some k
all_five_last (some _) (some _) (some _) (some _) (some _) p l r m k h = cc
all_five_last none b c d e p l r m k h = cc
all_five_last (some _) none c d e p l r m k h = cc
all_five_last (some _) (some _) none d e p l r m k h = cc
all_five_last (some _) (some _) (some _) none e p l r m k h = cc
all_five_last (some _) (some _) (some _) (some _) none p l r m k h = cc

decrypt_secret_once :
    (env : ConfigEnv) (update : String → Update) (secret : String) (c : Configuration)
    (w : World ConfigStore)
    → is_text secret ≡ true
    → decrypt_secret env update secret c w ≡ (env.decrypt secret env.encryption_password, w)
unfolding decrypt_secret
decrypt_secret_once env update secret c w h =
    elim (Result-cases (env.decrypt secret env.encryption_password)) [
      | inl (d, k) ↦ rw (k, h) refl
      | inr (e, k) ↦ rw k refl
    ]

-- What a row is read as with nothing but the password: the wallets' secret, if there is one, is what the
-- password decrypts it to.
module _ (env : ConfigEnv) where
  abbrev pub with_secret : Result String → (String → ParsedConfig) → Result ParsedConfig
  with_secret (ok s) f = ok (f s)
  with_secret (err e) f = err e

  abbrev pub wallets_gcp :
      Configuration → Option (String × String × String × String × String) → Result ParsedConfig
  wallets_gcp c none = ok (parsed env c local)
  wallets_gcp c (some (p, l, r, m, k)) =
      with_secret (env.decrypt k env.encryption_password)
        (λ key. parsed env c (gcp_kms p l r m key))

  abbrev pub wallets_aws : Configuration → Option (String × String × String) → Result ParsedConfig
  wallets_aws c none = wallets_gcp c (gcp_fields c)
  wallets_aws c (some (i, s, r)) =
      with_secret (env.decrypt s env.encryption_password) (λ key. parsed env c (aws_kms r i key))

  abbrev pub read_with_password : Configuration → Result ParsedConfig
  read_with_password c = wallets_aws c (aws_fields c)

  lift-with_secret :
      (r : Result String) (w : World ConfigStore) (f : String → ParsedConfig)
      → (lift r >>= λ key. pure (f key)) w ≡ (with_secret r f, w)
  lift-with_secret (ok s) w f = refl
  lift-with_secret (err e) w f = refl

  to_parsed_config_aws :
      (c : Configuration) (w : World ConfigStore) (i s r : String)
      → aws_fields c ≡ some (i, s, r)
      → to_parsed_config env c w ≡ (read_with_password c, w)
  unfolding to_parsed_config
  to_parsed_config_aws c w i s r h =
      let text =
        is_text-truthy c.aws_secret_access_key s
          (all_three_second (truthy c.aws_access_key_id) _ (truthy c.aws_region) i s r h) in
      rw (h, decrypt_secret_once env set_aws_secret s c w text)
        (lift-with_secret (env.decrypt s env.encryption_password) w _)

  to_parsed_config_gcp :
      (c : Configuration) (w : World ConfigStore) (p l r m k : String)
      → aws_fields c ≡ none
      → gcp_fields c ≡ some (p, l, r, m, k)
      → to_parsed_config env c w ≡ (read_with_password c, w)
  unfolding to_parsed_config
  to_parsed_config_gcp c w p l r m k n h =
      let text = is_text-truthy c.gcp_application_credential_private_key k (
        all_five_last (truthy c.gcp_application_project_id) (truthy c.gcp_kms_location_id)
          (truthy c.gcp_kms_key_ring_id) (truthy c.gcp_application_credential_email) _ p l r m k
          h) in
      rw (n, h, decrypt_secret_once env set_gcp_key k c w text)
        (lift-with_secret (env.decrypt k env.encryption_password) w _)

  to_parsed_config_local :
      (c : Configuration) (w : World ConfigStore)
      → aws_fields c ≡ none
      → gcp_fields c ≡ none
      → to_parsed_config env c w ≡ (read_with_password c, w)
  unfolding to_parsed_config
  to_parsed_config_local c w n h = rw (n, h) refl

  -- For every row and store, `toParsedConfig` gives what a reading with the password alone gives,
  -- and leaves the store as it is: the secret is never decrypted with the API key, and the row is
  -- never updated.
  pub to_parsed_config_lem :
      (c : Configuration) (w : World ConfigStore)
      → to_parsed_config env c w ≡ (read_with_password c, w)
  to_parsed_config_lem c w = elim (Option-cases (aws_fields c)) [
    | inr ((i, s, r), h) ↦ to_parsed_config_aws c w i s r h
    | inl n ↦ elim (Option-cases (gcp_fields c)) [
      | inr ((p, l, r, m, k), h) ↦ to_parsed_config_gcp c w p l r m k n h
      | inl m ↦ to_parsed_config_local c w n m
    ]
  ]
