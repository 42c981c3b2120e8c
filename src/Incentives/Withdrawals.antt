-- ===== src/Incentives/Withdrawals.antt =====
-- What a staker gets by a withdrawal (contracts/tokenomics/incentives/src/execute.rs).
use astroport_core.Common.{
  ℕ, Bool, true, false, [], ◌∷◌, ◌==◌, if◌then◌else◌, ltb, ◌+◌, ◌≡◌, ◌≤◌, refl, subst, sym, ap, ◌∙◌,
  arith, ==_iff, not_ltb,
}
use astroport_core.Cosmwasm.{ok, Math, exact, IsDocumented, eq-exact, not_found}
use astroport_core.Cosmwasm.Inversion.{bind-ok, bind_map_err-ok, fail_if-ok, ok-inj, some_err-ok}
use astroport_core.Cosmwasm.Outcome.{of-Gives}
use astroport_core.Asset.{
  Addr, Text, AssetInfo, Chain, Env, MessageInfo, into_msg, CosmosMsg, text_eq,
}
use astroport_core.Asset.Equality.{equal_refl}
use astroport_core.Incentives.Types.{
  std, amount_exceeds_balance, position_doesnt_exist, UserInfo, sub,
}
use astroport_core.Incentives.Storage.{Store, Iteration, save, determine_asset_info}
use astroport_core.Incentives.Stakes.{
  position_of, amount_of, sum_amounts, sum_amounts-put_position, sum_amounts-drop_position,
  position_of_other-put_position, position_of_other-drop_position,
}
use astroport_core.Incentives.Kept.{SameStakes, Saves, save-Saves}
use astroport_core.Incentives.Staking.{
  save_position, remove_position, claim_and_change, withdraw, Outcome,
}
use astroport_core.Incentives.Staked.{Changed, claim_and_change-Changed}

-- An amount is taken off one user's position in a pool, and off no other's.
abbrev pub TakesOff : AssetInfo → Addr → ℕ → Store → Store → Type 0
TakesOff lp user amount store store' =
    (sum_amounts (store'.positions lp) + amount ≡ sum_amounts (store.positions lp))
    × ((other : Addr)
        → text_eq user other ≡ false
        → position_of other (store'.positions lp) ≡ position_of other (store.positions lp))

-- The amount is taken off the caller, who had it, and sent to the caller.
abbrev pub Withdrawn : Chain → MessageInfo → Text → ℕ → Store → Outcome → Type 0
Withdrawn chain info lp_token amount store x =
    (lp : AssetInfo) × (message : CosmosMsg) × (determine_asset_info chain lp_token ≡ ok lp)
    × (amount ≤ amount_of (position_of info.sender (store.positions lp)))
    × (into_msg (record { info = lp; amount = amount }) info.sender ≡ ok message)
    × (x.1.1 ≡ message ∷ [])
    × TakesOff lp info.sender amount store x.0

module _ (store paid saved : Store) (lp : AssetInfo) (user : Addr) (total amount : ℕ)
    (left : UserInfo) (same : SameStakes store paid) (saves : Saves lp total paid saved)
    (taken : amount_of (position_of user (store.positions lp)) ≡ left.amount + amount) where
  put-TakesOff : TakesOff lp user amount store (save_position lp user left saved)
  unfolding save_position
  put-TakesOff =
      let kept : saved.positions ≡ store.positions = saves.0 ∙ same.0 in
      rw (equal_refl lp, kept)
        (
          omega (arith, taken, sum_amounts-put_position user left (store.positions lp)),
          λ other apart. position_of_other-put_position user other apart left (store.positions lp),
        )

  drop-TakesOff : left.amount ≡ 0 → TakesOff lp user amount store (remove_position lp user saved)
  unfolding remove_position
  drop-TakesOff z =
      let kept : saved.positions ≡ store.positions = saves.0 ∙ same.0 in
      rw (equal_refl lp, kept)
        (
          omega (arith, taken, z, sum_amounts-drop_position user (store.positions lp)),
          λ other apart. position_of_other-drop_position user other apart (store.positions lp),
        )

  -- The position is removed where nothing is left of it.
  left-TakesOff :
      (b : Bool)
      → (left.amount == 0) ≡ b
      → TakesOff lp user amount store
          (if b then remove_position lp user saved else save_position lp user left saved)
  left-TakesOff true e = drop-TakesOff ((==_iff left.amount 0).0 e)
  left-TakesOff false e = put-TakesOff

withdraw-exact :
    (chain : Chain) (order : Iteration) (env : Env) (info : MessageInfo) (lp_token : Text)
    (amount : ℕ) (store : Store) (x : Outcome)
    → withdraw exact chain order env info lp_token amount store ≡ ok x
    → Withdrawn chain info lp_token amount store x
unfolding withdraw
withdraw-exact chain order env info lp_token amount store x h =
    let (lp, is_lp, h1) = bind_map_err-ok std (determine_asset_info chain lp_token) _ h in
    let (user, found, h2) =
      some_err-ok position_doesnt_exist (position_of info.sender (store.positions lp)) _ h1 in
    let (enough, h3) = fail_if-ok (ltb user.amount amount) amount_exceeds_balance _ h2 in
    let (pool, _, h4) = some_err-ok (std not_found) (store.pools lp) _ h3 in
    let (y, changes, h5) =
      bind-ok
        (claim_and_change exact order env.seconds (sub amount) info.sender (lp, (pool, user)) store)
        _ h4 in
    let (saved, saves, h6) = bind_map_err-ok std (save exact order lp y.0.1 y.1.0) _ h5 in
    let (message, pays, h7) =
      bind_map_err-ok std (into_msg (record { info = lp; amount = amount }) info.sender) _ h6 in
    let (changed, same) =
      of-Gives (λ x. Changed (sub amount) user pool x.0.0 x.0.1 × SameStakes store x.1.0) _ y
        (claim_and_change-Changed order env.seconds store (sub amount) info.sender lp pool user)
        changes in
    let is_saved : Saves lp y.0.1.total_lp y.1.0 saved =
      of-Gives (Saves lp y.0.1.total_lp y.1.0) _ saved (save-Saves exact order lp y.0.1 y.1.0)
        saves in
    let had : amount_of (position_of info.sender (store.positions lp)) ≡ user.amount =
      ap amount_of found in
    let takes =
      left-TakesOff store y.1.0 saved lp info.sender y.0.1.total_lp amount y.0.0 same is_saved
        (had ∙ changed.0) (y.0.0.amount == 0) refl in
    let le = not_ltb _ _ enough in
    (
      lp,
      message,
      is_lp,
      omega (arith, had, le),
      pays,
      sym (ap (λ x. x.1.1) (ok-inj h7)),
      subst (TakesOff lp info.sender amount store) (ap (λ x. x.0) (ok-inj h7)) takes,
    )

-- A withdrawal that succeeds sends the caller exactly the amount of LP tokens that it asked for, which
-- the caller had staked; it takes that amount off what is staked in the pool, and the position of no
-- other user changes.
pub withdraw-Withdrawn :
    {m : Math}
    → IsDocumented m
    → (chain : Chain) (order : Iteration) (env : Env) (info : MessageInfo) (lp_token : Text)
      (amount : ℕ) (store : Store) (x : Outcome)
    → withdraw m chain order env info lp_token amount store ≡ ok x
    → Withdrawn chain info lp_token amount store x
withdraw-Withdrawn d = rw (eq-exact d) withdraw-exact
