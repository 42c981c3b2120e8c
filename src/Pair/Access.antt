-- ===== src/Pair/Access.antt =====
-- Who may do what, and when: the pause, the tokens that may be swapped through a hook, the owner's
-- config, and the liquidity token (contracts/pair/src/contract.rs).
use astroport_core.Common.{
  not-false, ℕ, ◌<◌, ◌≡◌, refl, Bool, true, false, Option, some, [], ◌∷◌, lt→ltb, not, length, ◌==◌,
  arith, if◌then◌else◌,
}
use astroport_core.Cosmwasm.{Math, ok, map_err, fail_if}
use astroport_core.Cosmwasm.Inversion.{fail_if-passed, map_err-ok}
use astroport_core.Cosmwasm.Outcome.{Gives, bind-Gives, of-Gives, Gives-map, Gives-all}
use astroport_core.Asset.{
  Asset, Addr, Text, Env, MessageInfo, Chain, FactoryConfig, text_eq, addr_opt_validate,
  assert_sent_native_token_balance,
}
use astroport_core.Asset.Equality.{eq_of_text_eq}
use astroport_core.Pair.Types.{std, unauthorized, Config, Store, Response}
use astroport_core.Pair.SwapSteps.{check_unpaused}
use astroport_core.Pair.Handlers.{
  XykPoolUpdateParams, enable_fee_share, disable_fee_share, Cw20ReceiveMsg, ExecuteMsg, receive,
  provide, withdraw, swap_native, update, not_handled, swap, parse,
}
use astroport_core.Pair.Entry.{
  denom_created, is_pool_token, update_config, apply_change, receive_cw20, execute, reply,
}
use astroport_core.Pair.Setup.{Kept, swap-Kept, provide_liquidity-Kept, withdraw_liquidity-Kept}

-- Whether a message asks for a swap.
abbrev pub asks_swap : ExecuteMsg → Bool
asks_swap (receive msg) = true
asks_swap (swap_native offer belief spread to) = true
asks_swap _ = false

-- How a message may change the config: an update is the factory owner's and sets the fee share
-- only; any other message touches the prices only.
abbrev pub ConfigRule : Chain → MessageInfo → ExecuteMsg → Config → Config → Type 0
ConfigRule chain info (update params) before after =
    (factory : FactoryConfig) × (chain.factory_config before.factory_addr ≡ ok factory)
    × (info.sender ≡ factory.owner)
    × (record after { fee_share = before.fee_share } ≡ before)
ConfigRule chain info _ before after = Kept before after

abbrev Never : Response → Type 0
Never r = ⊥

module _ (m : Math) (chain : Chain) where
  swap-Never :
      (env : Env) (info : MessageInfo) (store : Store) (sender : Addr) (offer : Asset)
      (belief_price max_spread : Option ℕ) (to : Option Addr) (until : ℕ)
      → store.config.pool_unpause_at ≡ some until
      → env.time < until
      → Gives Never (swap m chain env info store sender offer belief_price max_spread to)
  unfolding swap check_unpaused
  swap-Never env info store sender offer belief_price max_spread to until at early =
      bind-Gives Never (map_err std (assert_sent_native_token_balance chain offer info)) _
        λ _ _. rw (at, lt→ltb env.time until early) tt

  execute-Never :
      (env : Env) (info : MessageInfo) (store : Store) (msg : ExecuteMsg) (until : ℕ)
      → store.config.pool_unpause_at ≡ some until
      → env.time < until
      → asks_swap msg ≡ true
      → Gives Never (execute m chain env info store msg)
  unfolding execute receive_cw20
  execute-Never env info store (receive msg) until at early asks =
      search (bind-Gives, swap-Never) depth 20
  execute-Never env info store (swap_native offer belief spread to) until at early asks =
      search (bind-Gives, swap-Never) depth 20
  execute-Never env info store (provide a b c d e) until at early asks = cc
  execute-Never env info store (withdraw a b) until at early asks = cc
  execute-Never env info store (update a) until at early asks = cc
  execute-Never env info store not_handled until at early asks = cc

  -- Before the time at which the pool unpauses, no message swaps: neither a native swap nor the
  -- swap hook of a cw20 token succeeds.
  pub execute_paused :
      (env : Env) (info : MessageInfo) (store : Store) (msg : ExecuteMsg) (until : ℕ) (r : Response)
      → store.config.pool_unpause_at ≡ some until
      → env.time < until
      → asks_swap msg ≡ true
      → ¬ (execute m chain env info store msg ≡ ok r)
  execute_paused env info store msg until r at early asks =
      of-Gives Never (execute m chain env info store msg) r
        (execute-Never env info store msg until at early asks)

  FromPool : Store → MessageInfo → Response → Type 0
  FromPool store info r = is_pool_token store.config.pair_info.asset_infos info.sender ≡ true

  receive_cw20-FromPool :
      (env : Env) (info : MessageInfo) (store : Store) (msg : Cw20ReceiveMsg)
      → Gives (FromPool store info) (receive_cw20 m chain env info store msg)
  unfolding receive_cw20 FromPool
  receive_cw20-FromPool env info store msg = bind-Gives _ (parse msg.hook) _ λ hook _.
      bind-Gives _
        (fail_if (not (is_pool_token store.config.pair_info.asset_infos info.sender)) unauthorized)
        _
        λ _ h.
          bind-Gives _ (map_err std (addr_opt_validate chain hook.hook_to)) _
            λ to _. Gives-all {P = FromPool store info} (λ r. not-false _ (fail_if-passed _ _ h)) _

  -- A cw20 contract can have a swap made through its hook only where it is one of the pool's assets.
  receive_cw20_from_pool :
      (env : Env) (info : MessageInfo) (store : Store) (msg : Cw20ReceiveMsg) (r : Response)
      → receive_cw20 m chain env info store msg ≡ ok r
      → is_pool_token store.config.pair_info.asset_infos info.sender ≡ true
  unfolding FromPool
  receive_cw20_from_pool env info store msg r =
      of-Gives (FromPool store info) (receive_cw20 m chain env info store msg) r
        (receive_cw20-FromPool env info store msg)

  SharesOnly : Config → Response → Type 0
  SharesOnly before r = record (r.store.config) { fee_share = before.fee_share } ≡ before

  apply_change-SharesOnly :
      (store : Store) (change : XykPoolUpdateParams)
      → Gives (SharesOnly store.config) (apply_change chain store change)
  unfolding apply_change SharesOnly
  apply_change-SharesOnly store (enable_fee_share bps address) = search bind-Gives depth 20
  apply_change-SharesOnly store disable_fee_share = refl

  GivesRule : MessageInfo → ExecuteMsg → Config → Response → Type 0
  GivesRule info msg before r = ConfigRule chain info msg before r.store.config

  execute-Gives :
      (env : Env) (info : MessageInfo) (store : Store) (msg : ExecuteMsg)
      → Gives (GivesRule info msg store.config) (execute m chain env info store msg)
  unfolding execute receive_cw20 update_config GivesRule SharesOnly
  execute-Gives env info store (receive msg) = search (bind-Gives, swap-Kept) depth 20
  execute-Gives env info store (provide assets slippage auto receiver min) =
      provide_liquidity-Kept m chain env info store assets slippage auto receiver min
  execute-Gives env info store (withdraw assets minimums) =
      withdraw_liquidity-Kept m chain env info store assets minimums
  execute-Gives env info store (swap_native offer belief spread to) =
      search (bind-Gives, swap-Kept) depth 20
  execute-Gives env info store (update params) =
      bind-Gives _ (map_err std (chain.factory_config store.config.factory_addr)) _ λ factory given.
        bind-Gives _ (fail_if (not (text_eq info.sender factory.owner)) unauthorized) _ λ _ same.
          bind-Gives _ (parse params) _ λ change _.
            Gives-map {P = SharesOnly store.config}
              {Q = GivesRule info (update params) store.config}
              (λ r shares. (
                factory,
                map_err-ok std _ given,
                eq_of_text_eq _ _ (not-false _ (fail_if-passed _ _ same)),
                shares,
              ))
              _ (apply_change-SharesOnly store change)
  execute-Gives env info store not_handled = tt

  -- Of a message that succeeds, an update of the config comes from the owner of the factory and
  -- changes the fee share only, and any other message leaves the whole config but the cumulative
  -- prices, whose time does not go back.
  pub execute-ConfigRule :
      (env : Env) (info : MessageInfo) (store : Store) (msg : ExecuteMsg) (r : Response)
      → execute m chain env info store msg ≡ ok r
      → ConfigRule chain info msg store.config r.store.config
  unfolding GivesRule
  execute-ConfigRule env info store msg r =
      of-Gives (GivesRule info msg store.config) (execute m chain env info store msg) r
        (execute-Gives env info store msg)

empty_of_length : (xs : Text) → not (length xs == 0) ≡ false → xs ≡ []
empty_of_length [] h = refl
empty_of_length (x ∷ xs) h = ground arith

SetsOnce : Store → Text → Response → Type 0
SetsOnce store denom r =
    (store.config.pair_info.liquidity_token ≡ [])
    × (r.store.config.pair_info.liquidity_token ≡ denom)

reply-SetsOnce :
    (chain : Chain) (env : Env) (store : Store) (denom : Text)
    → Gives (SetsOnce store denom) (reply chain env store (denom_created (some denom)))
unfolding reply SetsOnce
reply-SetsOnce chain env store denom =
    bind-Gives _ (if store.config.track_asset_balances then _ else ok []) _ λ messages _.
      bind-Gives _ (fail_if (not (length store.config.pair_info.liquidity_token == 0)) _) _
        λ _ h. (empty_of_length _ (fail_if-passed _ _ h), refl)

-- The reply that names the created denomination succeeds only while the liquidity token is not set,
-- and sets it to that denomination: it is set once.
reply_sets_token_once :
    (chain : Chain) (env : Env) (store : Store) (denom : Text) (r : Response)
    → reply chain env store (denom_created (some denom)) ≡ ok r
    → (store.config.pair_info.liquidity_token ≡ [])
      × (r.store.config.pair_info.liquidity_token ≡ denom)
unfolding SetsOnce
reply_sets_token_once chain env store denom r =
    of-Gives (SetsOnce store denom) (reply chain env store (denom_created (some denom))) r
      (reply-SetsOnce chain env store denom)
