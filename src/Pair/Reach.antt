-- ===== src/Pair/Reach.antt =====
-- The configs that the entry points of the pair can reach (contracts/pair/src/contract.rs).
use astroport_core.Common.{
  ℕ, ◌≤◌, ◌<◌, ◌≡◌, sym, false, Option, none, some, List, [], ◌∷◌, arith, subst, ◌==◌, ltb, ◌||◌,
  get_elem?, length, not,
}
use astroport_core.Cosmwasm.{Math, ok, map_err, fail_if, or_panic}
use astroport_core.Cosmwasm.Inversion.{fail_if-passed, or_panic-some}
use astroport_core.Cosmwasm.Outcome.{Gives, bind-Gives, of-Gives, Gives-map}
use astroport_core.Asset.{Asset, AssetInfo, Addr, Env, MessageInfo, Chain, equal, check}
use astroport_core.Pair.Types.{
  std, Config, Store, Response, FeeShareConfig, fee_share_out_of_bounds, doubling_assets,
}
use astroport_core.Pair.SwapSteps.{max_fee_share_bps}
use astroport_core.Pair.Handlers.{
  InstantiateMsg, XykPoolUpdateParams, enable_fee_share, disable_fee_share, ExecuteMsg, receive,
  provide, withdraw, swap_native, update, not_handled, swap,
}
use astroport_core.Pair.Entry.{
  Reply, read_params, denom_created, tracker_instantiated, instantiate, reply, update_config,
  apply_change, receive_cw20, execute,
}
use astroport_core.Pair.Setup.{Kept, swap-Kept, provide_liquidity-Kept, withdraw_liquidity-Kept}

-- A fee share is positive and at most 10%.
abbrev pub ValidShare : Option FeeShareConfig → Type 0
ValidShare none = Unit
ValidShare (some share) = (0 < share.bps) × (share.bps ≤ max_fee_share_bps)

abbrev pub Distinct : List AssetInfo → Type 0
Distinct (a ∷ b ∷ []) = equal a b ≡ false
Distinct _ = ⊥

pub record WellFormed (config : Config) : Type 0 where
  pub distinct : Distinct config.pair_info.asset_infos
  pub valid_share : ValidShare config.fee_share

abbrev GivesWellFormed : Response → Type 0
GivesWellFormed r = WellFormed r.store.config

Kept-WellFormed : (before after : Config) → WellFormed before → Kept before after → WellFormed after
Kept-WellFormed before after w k = record {
  distinct = subst (λ x. Distinct x.asset_infos) (sym k.pair_info_eq) w.distinct;
  valid_share = subst ValidShare (sym k.fee_share_eq) w.valid_share;
}

bounds-ValidShare :
    (bps : ℕ) (recipient : Addr)
    → (bps == 0 || ltb max_fee_share_bps bps) ≡ false
    → ValidShare (some (record { bps = bps; recipient = recipient }))
bounds-ValidShare bps recipient h = ground arith

module _ (m : Math) (chain : Chain) where
  apply_change-WellFormed :
      (store : Store) (change : XykPoolUpdateParams)
      → WellFormed store.config
      → Gives GivesWellFormed (apply_change chain store change)
  unfolding apply_change
  apply_change-WellFormed store (enable_fee_share bps address) w =
      bind-Gives GivesWellFormed
        (fail_if (bps == 0 || ltb max_fee_share_bps bps) fee_share_out_of_bounds) _
        λ _ inside.
          bind-Gives GivesWellFormed (map_err std (chain.addr_validate address)) _ λ recipient _.
            record {
              distinct = w.distinct;
              valid_share = bounds-ValidShare bps recipient (fail_if-passed _ _ inside);
            }
  apply_change-WellFormed store disable_fee_share w = record {
    distinct = w.distinct;
    valid_share = tt;
  }

  swap-WellFormed :
      (env : Env) (info : MessageInfo) (store : Store) (sender : Addr) (offer : Asset)
      (belief_price max_spread : Option ℕ) (to : Option Addr)
      → WellFormed store.config
      → Gives GivesWellFormed (swap m chain env info store sender offer belief_price max_spread to)
  swap-WellFormed env info store sender offer belief_price max_spread to w =
      Gives-map (λ r. Kept-WellFormed store.config r.store.config w) _
        (swap-Kept m chain env info store sender offer belief_price max_spread to)

  execute-Gives :
      (env : Env) (info : MessageInfo) (store : Store) (msg : ExecuteMsg)
      → WellFormed store.config
      → Gives GivesWellFormed (execute m chain env info store msg)
  unfolding execute receive_cw20 update_config
  execute-Gives env info store (receive msg) w = search (bind-Gives, swap-WellFormed) depth 20
  execute-Gives env info store (provide assets slippage auto receiver min) w =
      Gives-map (λ r. Kept-WellFormed store.config r.store.config w) _
        (provide_liquidity-Kept m chain env info store assets slippage auto receiver min)
  execute-Gives env info store (withdraw assets minimums) w =
      Gives-map (λ r. Kept-WellFormed store.config r.store.config w) _
        (withdraw_liquidity-Kept m chain env info store assets minimums)
  execute-Gives env info store (swap_native offer belief spread to) w =
      search (bind-Gives, swap-WellFormed) depth 20
  execute-Gives env info store (update params) w =
      search (bind-Gives, apply_change-WellFormed) depth 20
  execute-Gives env info store not_handled w = tt

two_infos-Distinct :
    (infos : List AssetInfo) (a b : AssetInfo)
    → not (length infos == 2) ≡ false
    → get_elem? infos 0 ≡ some a
    → get_elem? infos 1 ≡ some b
    → equal a b ≡ false
    → Distinct infos
two_infos-Distinct [] a b two first second d = cc
two_infos-Distinct (x ∷ []) a b two first second d = cc
two_infos-Distinct (x ∷ y ∷ []) a b two first second d =
    let same : (x ≡ a) × (y ≡ b) = (cc, cc) in rw (same.0, same.1) d
two_infos-Distinct (x ∷ y ∷ z ∷ rest) a b two first second d = ground arith

module _ (chain : Chain) where
  instantiate-Gives :
      (env : Env) (msg : InstantiateMsg) → Gives GivesWellFormed (instantiate chain env msg)
  unfolding instantiate
  instantiate-Gives env msg =
      bind-Gives GivesWellFormed (fail_if (not (length msg.infos == 2)) _) _ λ _ two.
        bind-Gives GivesWellFormed (or_panic (get_elem? msg.infos 0)) _ λ a first.
          bind-Gives GivesWellFormed (or_panic (get_elem? msg.infos 1)) _ λ b second.
            bind-Gives GivesWellFormed (map_err std (check chain a)) _ λ _ _.
              bind-Gives GivesWellFormed (map_err std (check chain b)) _ λ _ _.
                bind-Gives GivesWellFormed (fail_if (equal a b) doubling_assets) _ λ _ apart.
                  bind-Gives GivesWellFormed (read_params msg.init_params) _ λ params _.
                    bind-Gives GivesWellFormed (map_err std (chain.addr_validate msg.factory)) _
                      λ factory_addr _. record {
                        distinct =
                            two_infos-Distinct msg.infos a b (fail_if-passed _ _ two)
                              (or_panic-some _ a first) (or_panic-some _ b second)
                              (fail_if-passed _ _ apart);
                        valid_share = tt;
                      }

  same_setup :
      (store : Store) (after : Config)
      → WellFormed store.config
      → after.pair_info.asset_infos ≡ store.config.pair_info.asset_infos
      → after.fee_share ≡ store.config.fee_share
      → WellFormed after
  same_setup store after w h k = record {
    distinct = subst Distinct (sym h) w.distinct;
    valid_share = subst ValidShare (sym k) w.valid_share;
  }

  reply-Gives :
      (env : Env) (store : Store) (msg : Reply)
      → WellFormed store.config
      → Gives GivesWellFormed (reply chain env store msg)
  unfolding reply
  reply-Gives env store (denom_created none) w = tt
  reply-Gives env store (denom_created (some denom)) w = search (bind-Gives, same_setup) depth 20
  reply-Gives env store (tracker_instantiated none) w = tt
  reply-Gives env store (tracker_instantiated (some contract)) w =
      search (bind-Gives, same_setup) depth 20

-- The storages that the contract can hold: each entry point that succeeds moves to the next one, on
-- whatever chain it meets then.
pub data Reachable (m : Math) : Store → Type 0 where
  instantiated :
      (chain : Chain) (env : Env) (msg : InstantiateMsg) (r : Response)
      → instantiate chain env msg ≡ ok r
      → Reachable m r.store
  executed :
      (chain : Chain) (env : Env) (info : MessageInfo) (store : Store) (msg : ExecuteMsg)
      (r : Response)
      → Reachable m store
      → execute m chain env info store msg ≡ ok r
      → Reachable m r.store
  replied :
      (chain : Chain) (env : Env) (store : Store) (msg : Reply) (r : Response)
      → Reachable m store
      → reply chain env store msg ≡ ok r
      → Reachable m r.store

-- However the entry points are called, in whatever order, by whomever and on whatever chain, the
-- pair's config names exactly two assets, which differ, and a fee share that is set is positive and
-- at most 10%.
pub Reachable-WellFormed : (m : Math) (store : Store) → Reachable m store → WellFormed store.config
Reachable-WellFormed m _ (instantiated chain env msg r h) =
    of-Gives GivesWellFormed (instantiate chain env msg) r (instantiate-Gives chain env msg) h
Reachable-WellFormed m _ (executed chain env info store msg r reach h) =
    of-Gives GivesWellFormed (execute m chain env info store msg) r
      (execute-Gives m chain env info store msg (Reachable-WellFormed m store reach)) h
Reachable-WellFormed m _ (replied chain env store msg r reach h) =
    of-Gives GivesWellFormed (reply chain env store msg) r
      (reply-Gives chain env store msg (Reachable-WellFormed m store reach)) h
