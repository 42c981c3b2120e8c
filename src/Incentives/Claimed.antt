-- ===== src/Incentives/Claimed.antt =====
-- The stakes of the pools, as the claims of rewards leave them
-- (contracts/tokenomics/incentives/src/execute.rs).
use astroport_core.Common.{
  ℕ, List, [], ◌∷◌, not, ◌≡◌, refl, sym, ap, ◌∙◌, arith, Bool-cases, inl, inr,
}
use astroport_core.Cosmwasm.{exact, or_err, map_err, not_found}
use astroport_core.Cosmwasm.Inversion.{or_err-some}
use astroport_core.Cosmwasm.Outcome.{Gives, bind-Gives, of-Gives, fail_if-Gives}
use astroport_core.Asset.{Addr, Text, AssetInfo, equal, Chain, Env, MessageInfo}
use astroport_core.Asset.Equality.{eq_of_equal}
use astroport_core.Incentives.Types.{
  std, duplicated_pool_found, position_doesnt_exist, PoolInfo, UserInfo,
}
use astroport_core.Incentives.Storage.{Store, Iteration, save, determine_asset_info}
use astroport_core.Incentives.Stakes.{position_of, amount_of, sum_amounts, position_of-put_position}
use astroport_core.Incentives.Rewards.{
  Claim, Gathered, claim_position, claim_positions, pay_rewards,
}
use astroport_core.Incentives.Kept.{
  of_map_err, total_of, SameStakes, Saves, save-Saves, pay_rewards-SameStakes,
}
use astroport_core.Incentives.Staking.{
  save_position, save_claims_of, all_unique_texts, load_claims, claim,
}
use astroport_core.Incentives.Staked.{
  IsBacked, Settled, claim_position-Settled, save_position-IsBacked,
}

-- What is loaded for a claim has the amounts of the storage.
abbrev IsOf : Addr → Store → Claim → Type 0
IsOf user store claim =
    (claim.1.0.total_lp ≡ total_of (store.pools claim.0))
    × (claim.1.1.amount ≡ amount_of (position_of user (store.positions claim.0)))

abbrev AllOf : Addr → Store → List Claim → Type 0
AllOf user store [] = Unit
AllOf user store (claim ∷ rest) = IsOf user store claim × AllOf user store rest

-- The pools count what they counted, and the user has staked what it had.
abbrev SameAmounts : Addr → Store → Store → Type 0
SameAmounts user s t =
    (lp : AssetInfo)
    → (total_of (t.pools lp) ≡ total_of (s.pools lp))
      × (amount_of (position_of user (t.positions lp))
          ≡ amount_of (position_of user (s.positions lp)))

AllOf-later :
    (user : Addr) (s t : Store) (claims : List Claim)
    → SameAmounts user s t
    → AllOf user s claims
    → AllOf user t claims
AllOf-later user s t [] same all = tt
AllOf-later user s t ((lp, (pool, info)) ∷ rest) same all =
    ((all.0.0 ∙ sym (same lp).0, all.0.1 ∙ sym (same lp).1), AllOf-later user s t rest same all.1)

load_claims-AllOf :
    (chain : Chain) (user : Addr) (store : Store) (lp_tokens : List Text)
    → Gives (AllOf user store) (load_claims chain user store lp_tokens)
unfolding load_claims
load_claims-AllOf chain user store [] = tt
load_claims-AllOf chain user store (lp_token ∷ rest) =
    bind-Gives _ (map_err std (determine_asset_info chain lp_token)) _ λ lp _.
      bind-Gives _ (or_err (std not_found) (store.pools lp)) _ λ pool there.
        bind-Gives _ (or_err position_doesnt_exist (position_of user (store.positions lp))) _
          λ info found. bind-Gives _ (load_claims chain user store rest) _ λ more loads. (
            (
              sym (ap total_of (or_err-some _ _ pool there)),
              sym (ap amount_of (or_err-some _ _ info found)),
            ),
            of-Gives (AllOf user store) _ more (load_claims-AllOf chain user store rest) loads,
          )

claim_positions-AllOf :
    (order : Iteration) (now : ℕ) (user : Addr) (store : Store) (claims : List Claim)
    (gathered : Gathered)
    → AllOf user store claims
    → Gives (λ x. AllOf user store x.0) (claim_positions exact order now store claims gathered)
unfolding claim_positions
claim_positions-AllOf order now user store [] gathered all = tt
claim_positions-AllOf order now user store (claim ∷ rest) gathered all =
    bind-Gives _ (claim_position exact order now store claim gathered) _ λ x settles.
      bind-Gives _ (claim_positions exact order now store rest x.1) _ λ y more.
        let same =
          of-Gives (λ x. Settled claim x.0) _ x
            (claim_position-Settled order now store claim gathered) settles in
        (
          (
            same.1 ∙ all.0.0 ∙ ap (λ lp. total_of (store.pools lp)) (sym same.0),
            same.2
                ∙ all.0.1
                ∙ ap (λ lp. amount_of (position_of user (store.positions lp))) (sym same.0),
          ),
          of-Gives (λ y. AllOf user store y.0) _ y
              (claim_positions-AllOf order now user store rest x.1 all.1) more,
        )

-- A pool and a position that were loaded are saved with the amounts that they had.
module _ (user : Addr) (s saved : Store) (lp : AssetInfo) (pool : PoolInfo) (info : UserInfo)
    (is : IsOf user s (lp, (pool, info))) (saves : Saves lp pool.total_lp s saved) where
  saved-SameAmounts : SameAmounts user s (save_position lp user info saved)
  unfolding save_position
  saved-SameAmounts a = elim (Bool-cases (equal a lp)) [
    | inr e ↦ (saves.1 a ∙ rw e refl, rw e (ap (λ p. amount_of (position_of user (p a))) saves.0))
    | inl e ↦ (
      saves.1 a ∙ rw e (is.0 ∙ ap (λ b. total_of (s.pools b)) (sym (eq_of_equal a lp e))),
      rw e (
          ap amount_of (position_of-put_position user info (saved.positions a))
          ∙ is.1
          ∙ ap (λ b. amount_of (position_of user (s.positions b))) (sym (eq_of_equal a lp e))),
    )
  ]

save_claims_of-IsBacked :
    (order : Iteration) (now : ℕ) (user : Addr) (claims : List Claim) (store : Store)
    → IsBacked store
    → AllOf user store claims
    → Gives IsBacked (save_claims_of exact order now user claims store)
unfolding save_claims_of
save_claims_of-IsBacked order now user [] store backed all = backed
save_claims_of-IsBacked order now user ((lp, (pool, info)) ∷ rest) store backed all =
    bind-Gives _ (map_err std (save exact order lp pool store)) _ λ saved made.
      let saves =
        of_map_err (Saves lp pool.total_lp store) std (save exact order lp pool store) saved
          (save-Saves exact order lp pool store) made in
      save_claims_of-IsBacked order now user rest (save_position lp user info saved)
        (save_position-IsBacked store store saved lp user pool.total_lp info.amount backed
          (refl, refl) saves (omega (arith, all.0.0, all.0.1)) info refl)
        (AllOf-later user store (save_position lp user info saved) rest
          (saved-SameAmounts user store saved lp pool info all.0 saves) all.1)

pub claim-IsBacked :
    (chain : Chain) (order : Iteration) (env : Env) (info : MessageInfo) (lp_tokens : List Text)
    (store : Store)
    → IsBacked store
    → Gives (λ x. IsBacked x.0) (claim exact chain order env info lp_tokens store)
unfolding claim
claim-IsBacked chain order env info lp_tokens store backed =
    fail_if-Gives _ (not (all_unique_texts lp_tokens)) duplicated_pool_found _ λ _.
      bind-Gives _ (load_claims chain info.sender store lp_tokens) _ λ claims loads.
        bind-Gives _ (claim_positions exact order env.seconds store claims ([], 0)) _ λ x claimed.
          bind-Gives _ (pay_rewards exact store.config info.sender x.1 store) _ λ paid pays.
            bind-Gives _ (save_claims_of exact order env.seconds info.sender x.0 paid.0) _
              λ saved saves.
                let same =
                  of-Gives (λ y. SameStakes store y.0) _ paid
                    (pay_rewards-SameStakes exact store.config info.sender x.1 store) pays in
                let loaded =
                  of-Gives (AllOf info.sender store) _ claims
                    (load_claims-AllOf chain info.sender store lp_tokens) loads in
                let all =
                  of-Gives (λ y. AllOf info.sender store y.0) _ x
                    (claim_positions-AllOf order env.seconds info.sender store claims ([], 0)
                      loaded)
                    claimed in
                of-Gives IsBacked _ saved
                  (save_claims_of-IsBacked order env.seconds info.sender x.0 paid.0
                    (λ lp.
                      ap (λ p. sum_amounts (p lp)) same.0
                      ∙ backed lp
                      ∙ sym (ap (λ p. total_of (p lp)) same.1))
                    (AllOf-later info.sender store paid.0 x.0
                      (λ lp. (
                        ap (λ p. total_of (p lp)) same.1,
                        ap (λ p. amount_of (position_of info.sender (p lp))) same.0,
                      ))
                      all))
                  saves
