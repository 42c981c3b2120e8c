-- ===== src/Incentives/Backing.antt =====
-- The calls of the stakers keep what the pools count (contracts/tokenomics/incentives/src/execute.rs).
use astroport_core.Common.{
  ℕ, Bool, true, false, Option, none, some, ◌==◌, if◌then◌else◌, ltb, ◌+◌, ◌≡◌, refl, ap, arith,
  ==_iff,
}
use astroport_core.Cosmwasm.{exact, or_err, map_err, unwrap_or, not_found}
use astroport_core.Cosmwasm.Inversion.{or_err-some}
use astroport_core.Cosmwasm.Outcome.{Gives, bind-Gives, of-Gives, fail_if-Gives}
use astroport_core.Asset.{
  Addr, Text, Asset, AssetInfo, Chain, Env, MessageInfo, addr_opt_validate, into_msg,
}
use astroport_core.Incentives.Types.{
  std, amount_exceeds_balance, position_doesnt_exist, UserInfo, add, sub,
}
use astroport_core.Incentives.Positions.{new_position}
use astroport_core.Incentives.Storage.{Store, Iteration, save, determine_asset_info}
use astroport_core.Incentives.Stakes.{position_of, amount_of}
use astroport_core.Incentives.Blocklist.{Registry}
use astroport_core.Incentives.Activation.{FactoryQueries, is_valid_pool, or_new}
use astroport_core.Incentives.Kept.{of_map_err, total_of, SameStakes, Saves, save-Saves}
use astroport_core.Incentives.Staking.{
  or_position, save_position, remove_position, claim_and_change, deposit, withdraw,
}
use astroport_core.Incentives.Untouched.{total_of-or_new}
use astroport_core.Incentives.Staked.{
  IsBacked, Changed, claim_and_change-Changed, save_position-IsBacked, remove_position-IsBacked,
}

amount_of-or_position :
    (now : ℕ) (info : Option UserInfo) → (or_position now info).amount ≡ amount_of info
unfolding or_position new_position
amount_of-or_position now none = refl
amount_of-or_position now (some info) = refl

module _ (chain : Chain) (registry : Registry) (factory : FactoryQueries) (order : Iteration)
    (env : Env) where
  pub deposit-IsBacked :
      (maybe_lp : Asset) (sender : Addr) (recipient : Option Text) (store : Store)
      → IsBacked store
      → Gives
          (λ x. IsBacked x.0)
          (deposit exact chain registry factory order env maybe_lp sender recipient store)
  unfolding deposit
  deposit-IsBacked maybe_lp sender recipient store backed =
      bind-Gives _ (map_err std (addr_opt_validate chain recipient)) _ λ to _.
        let staker = unwrap_or to sender in
        let lp = maybe_lp.info in
        let pool = or_new (store.pools lp) in
        let info = or_position env.seconds (position_of staker (store.positions lp)) in
        bind-Gives _ (map_err std (is_valid_pool chain registry factory store.config lp)) _
          λ valid _.
            bind-Gives _
              (claim_and_change exact order env.seconds (add maybe_lp.amount) staker
                (lp, (pool, info)) store)
              _
              λ x changes.
                bind-Gives _ (map_err std (save exact order lp x.0.1 x.1.0)) _ λ saved saves.
                  let (changed, same) =
                    of-Gives
                      (λ x.
                        Changed (add maybe_lp.amount) info pool x.0.0 x.0.1
                        × SameStakes store x.1.0)
                      _ x
                      (claim_and_change-Changed order env.seconds store (add maybe_lp.amount) staker
                        lp pool info)
                      changes in
                  let is_saved =
                    of_map_err (Saves lp x.0.1.total_lp x.1.0) std (save exact order lp x.0.1 x.1.0)
                      saved (save-Saves exact order lp x.0.1 x.1.0) saves in
                  save_position-IsBacked store x.1.0 saved lp staker x.0.1.total_lp x.0.0.amount
                    backed same is_saved
                    (omega (
                      arith,
                      changed.0,
                      changed.1,
                      total_of-or_new (store.pools lp),
                      amount_of-or_position env.seconds (position_of staker (store.positions lp)),
                    ))
                    x.0.0 refl

  pub withdraw-IsBacked :
      (info : MessageInfo) (lp_token : Text) (amount : ℕ) (store : Store)
      → IsBacked store
      → Gives (λ x. IsBacked x.0) (withdraw exact chain order env info lp_token amount store)
  unfolding withdraw
  withdraw-IsBacked info lp_token amount store backed =
      bind-Gives _ (map_err std (determine_asset_info chain lp_token)) _ λ lp _.
        bind-Gives _ (or_err position_doesnt_exist (position_of info.sender (store.positions lp))) _
          λ user found. fail_if-Gives _ (ltb user.amount amount) amount_exceeds_balance _ λ _.
            bind-Gives _ (or_err (std not_found) (store.pools lp)) _ λ pool there.
              bind-Gives _
                (claim_and_change exact order env.seconds (sub amount) info.sender
                  (lp, (pool, user)) store)
                _
                λ x changes.
                  bind-Gives _ (map_err std (save exact order lp x.0.1 x.1.0)) _ λ saved saves.
                    bind-Gives _
                      (map_err std (into_msg (record { info = lp; amount = amount }) info.sender)) _
                      λ message _.
                        let (changed, same) =
                          of-Gives
                            (λ x.
                              Changed (sub amount) user pool x.0.0 x.0.1 × SameStakes store x.1.0)
                            _ x
                            (claim_and_change-Changed order env.seconds store (sub amount)
                              info.sender lp pool user)
                            changes in
                        let is_saved =
                          of_map_err (Saves lp x.0.1.total_lp x.1.0) std
                            (save exact order lp x.0.1 x.1.0) saved
                            (save-Saves exact order lp x.0.1 x.1.0) saves in
                        let at_pool : total_of (store.pools lp) ≡ pool.total_lp =
                          ap total_of (or_err-some _ _ pool there) in
                        let at_user : amount_of (position_of info.sender (store.positions lp))
                            ≡ user.amount =
                          ap amount_of (or_err-some _ _ user found) in
                        either x.0.0 saved lp x.1.0 x.0.1.total_lp same is_saved
                          (omega (arith, changed.0, changed.1, at_pool, at_user))
                          (x.0.0.amount == 0) refl
    where
      either :
          (left : UserInfo) (saved : Store) (lp : AssetInfo) (paid : Store) (total : ℕ)
          → SameStakes store paid
          → Saves lp total paid saved
          → total + amount_of (position_of info.sender (store.positions lp))
            ≡ total_of (store.pools lp) + left.amount
          → (b : Bool) → (left.amount == 0) ≡ b
          → IsBacked (
              if b
              then remove_position lp info.sender saved
              else save_position lp info.sender left saved)
      either left saved lp paid total same saves alike true e =
          remove_position-IsBacked store paid saved lp info.sender total left.amount backed same
            saves alike ((==_iff left.amount 0).0 e)
      either left saved lp paid total same saves alike false e =
          save_position-IsBacked store paid saved lp info.sender total left.amount backed same saves
            alike left refl
