-- ===== src/Accounts/Keys.antt =====
-- The keys of wallets in the caches: `getAccountCacheKey` of src/utils/account.ts.
use thirdweb_engine.Base.{
  ◌≡◌, refl, sym, ◌∙◌, ap, true, String, Option, none, some, List, [], ◌∷◌, Option-cases, inl, inr,
}
use thirdweb_engine.Base.Decimal.{
  number_text, parse_int, parse_int-number_text, all_digits-number_text, split, split-digits,
  no_dash, split-no_dash, split-no_dash_alone,
}
use thirdweb_engine.Transaction.{Address}
use thirdweb_engine.Errors.{truthy}
use thirdweb_engine.Accounts.{AccountArgs, account_cache_key}

abbrev NoDashIn : Option Address → Type 0
NoDashIn none = Unit
NoDashIn (some a) = no_dash a ≡ true

-- The addresses have no dash, as hexadecimal texts have none.
abbrev pub IsAddressed : AccountArgs → Type 0
IsAddressed args = (no_dash args.from ≡ true) × NoDashIn (truthy args.account_address)

abbrev account_part : Option Address → List String
account_part none = []
account_part (some a) = a ∷ []

split-account_cache_key :
    (args : AccountArgs)
    → IsAddressed args
    → split b'-' (account_cache_key args)
      ≡ number_text args.chain_id ∷ args.from ∷ account_part (truthy args.account_address)
unfolding account_cache_key
split-account_cache_key args (f, a) = elim (Option-cases (truthy args.account_address)) [
  | inl n ↦
      rw
        (
          n,
          split-digits (number_text args.chain_id) args.from (all_digits-number_text _),
          split-no_dash_alone args.from f,
        )
        refl
  | inr (b, e) ↦
      let d : no_dash b ≡ true = rw e at a in
      rw
        (
          e,
          split-digits (number_text args.chain_id) _ (all_digits-number_text _),
          split-no_dash args.from b f,
          split-no_dash_alone b d,
        )
        refl
]

account_part_inj : (a b : Option Address) → account_part a ≡ account_part b → a ≡ b
account_part_inj none none e = refl
account_part_inj none (some b) e = cc
account_part_inj (some a) none e = cc
account_part_inj (some a) (some b) e = cc

-- Equal keys are of the same chain, address and smart account.
pub account_cache_key_inj :
    (a b : AccountArgs)
    → IsAddressed a
    → IsAddressed b
    → account_cache_key a ≡ account_cache_key b
    → (a.chain_id ≡ b.chain_id)
      × (a.from ≡ b.from)
      × (truthy a.account_address ≡ truthy b.account_address)
account_cache_key_inj a b h k e =
    let same =
      sym (split-account_cache_key a h) ∙ ap (split b'-') e ∙ split-account_cache_key b k in
    let chain : number_text a.chain_id ≡ number_text b.chain_id = cc in
    let from : a.from ≡ b.from = cc in
    let account : account_part (truthy a.account_address)
        ≡ account_part (truthy b.account_address) =
      cc in
    let number : some a.chain_id ≡ some b.chain_id =
      sym (parse_int-number_text a.chain_id)
      ∙ ap parse_int chain
      ∙ parse_int-number_text b.chain_id in
    (cc, from, account_part_inj _ _ account)
