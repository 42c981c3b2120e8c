-- ===== src/Incentives/Transfers.antt =====
-- Where orphaned rewards are counted: with the removal of a reward, and with a failed transfer.
use astroport_core.Common.{
  ℕ, Bool, true, false, none, some, [], ◌∷◌, ◌==◌, if◌then◌else◌, ◌+◌, ◌/◌, ◌≤◌, ◌<◌, ◌≡◌, refl,
  sym, ap, ◌∙◌, arith, le→leb, subst, ==_of_pos,
}
use astroport_core.Cosmwasm.{
  ok, conversion_overflow, generic_err, Math, exact, IsDocumented, eq-exact, ◌>>=◌, fractional,
  unwrap_or,
}
use astroport_core.Cosmwasm.Inversion.{bind-ok, fits-ok, fits_err-ok, ok-inj}
use astroport_core.Asset.{AssetInfo, native_token, token}
use astroport_core.Asset.Types.{equal, text_eq}
use astroport_core.Asset.Equality.{text_eq_refl}
use astroport_core.Texts.Dict.{lookup-insert}
use astroport_core.Incentives.Types.{
  std, ext, asset_info, RewardInfo, PoolInfo, Schedules, RewardType,
}
use astroport_core.Incentives.Accrual.{insert_entry}
use astroport_core.Incentives.Schedules.{find_ext, deregister_reward}
use astroport_core.Incentives.Funding.{outstanding_in}
use astroport_core.Incentives.Extension.{eq_refl}
use astroport_core.Incentives.Deregistration.{deregister-exact}
use astroport_core.Incentives.Storage.{
  Store, Iteration, asset_info_key, orphaned_of, put_orphan, add_orphan, save_claims, save_groups,
  save_finished, save, register_pending_transfer, first_dynamic_reply_id, reply,
}

orphaned_of-put_orphan :
    (info : AssetInfo) (total : ℕ) (store : Store)
    → orphaned_of (put_orphan info total store) info ≡ total
unfolding orphaned_of put_orphan
orphaned_of-put_orphan info total store =
    let k = asset_info_key info in
    ap (λ o. unwrap_or o 0) (lookup-insert k k total store.orphaned_rewards)
    ∙ rw (text_eq_refl k) refl

add_orphan-exact :
    (info : AssetInfo) (amount : ℕ) (store store' : Store)
    → add_orphan exact info amount store ≡ ok store'
    → orphaned_of store' info ≡ orphaned_of store info + amount / fractional
unfolding add_orphan
add_orphan-exact info amount store store' run =
    let (_, h1) = fits_err-ok _ 128 (amount / fractional) conversion_overflow run in
    let (_, h2) = fits-ok _ 128 (orphaned_of store info + amount / fractional) h1 in
    sym (ap (λ s. orphaned_of s info) (ok-inj h2)) ∙ orphaned_of-put_orphan info _ store

-- Saving a pool from which one reward with orphaned rewards was taken.
save_removed :
    (order : Iteration) (lp : AssetInfo) (pool : PoolInfo) (store store' : Store)
    (reward : RewardType) (index orphaned : ℕ)
    → order.of_orphaned [] ≡ []
    → order.of_removed ((reward, (index, orphaned)) ∷ []) ≡ (reward, (index, orphaned)) ∷ []
    → pool.orphaned_rewards_to_claim ≡ []
    → pool.rewards_to_remove ≡ (reward, (index, orphaned)) ∷ []
    → (orphaned == 0) ≡ false
    → save exact order lp pool store ≡ ok store'
    → orphaned_of store' (asset_info reward)
      ≡ orphaned_of store (asset_info reward) + orphaned / fractional
unfolding save save_claims save_groups save_finished
save_removed order lp pool store store' reward index orphaned o1 o2 e1 e2 some_left run =
    let h1 = rw (e1, o1, e2, o2, some_left, save, save_claims, save_groups) at run in
    let (s1, grouped, h2) =
      bind-ok (add_orphan exact (asset_info reward) orphaned store >>= λ s. ok s) _ h1 in
    let (s0, added, h3) = bind-ok (add_orphan exact (asset_info reward) orphaned store) _ grouped in
    sym (ap (λ s. orphaned_of s (asset_info reward)) (ok-inj h2))
    ∙ (sym (ap (λ s. orphaned_of s (asset_info reward)) (ok-inj h3))
        ∙ add_orphan-exact (asset_info reward) orphaned store s0 added)

deregister-save-exact :
    (order : Iteration) (lp asset : AssetInfo) (next_ts : ℕ) (schedules schedules' : Schedules)
    (pool pool' : PoolInfo) (store store' : Store) (r : RewardInfo) (amount : ℕ)
    → order.of_orphaned [] ≡ []
    → order.of_removed ((r.reward, (r.index, r.orphaned)) ∷ [])
      ≡ (r.reward, (r.index, r.orphaned)) ∷ []
    → pool.rewards_to_remove ≡ []
    → pool.orphaned_rewards_to_claim ≡ []
    → find_ext asset pool.rewards ≡ some r
    → r.reward ≡ ext asset next_ts
    → pool.last_update_ts < next_ts
    → 0 < r.orphaned
    → deregister_reward exact schedules pool asset false ≡ ok (pool', (schedules', amount))
    → save exact order lp pool' store ≡ ok store'
    → (amount
        ≡ (outstanding_in pool.last_update_ts schedules pool.rewards asset + r.orphaned)
          / fractional)
      × (orphaned_of store' asset ≡ orphaned_of store asset + r.orphaned / fractional)
unfolding insert_entry asset_info
deregister-save-exact order lp asset next_ts schedules schedules' pool pool' store store' r amount
      o1 o2 none_removed none_held found type h pos run saves =
    let (sent, removed, held) =
      deregister-exact next_ts schedules schedules' pool pool' asset r amount found type h run in
    let entries : pool'.rewards_to_remove ≡ (r.reward, (r.index, r.orphaned)) ∷ [] =
      removed ∙ ap (insert_entry r.reward (r.index, r.orphaned)) none_removed in
    let counted =
      save_removed order lp pool' store store' r.reward r.index r.orphaned o1 o2 (held ∙ none_held)
        entries (==_of_pos r.orphaned pos) saves in
    (
      sent,
      subst
          (λ t.
            orphaned_of store' (asset_info t)
            ≡ orphaned_of store (asset_info t) + r.orphaned / fractional)
          type counted,
    )

-- The orphaned rewards of a reward that is taken off its pool are counted twice: they are part of the
-- amount that is sent back, and saving the pool adds them to the orphaned rewards, which can be claimed
-- once more. It is about a removal that does not bypass upcoming schedules, of a reward that runs and has
-- orphaned rewards, in a pool with nothing else to save; a hash map with one entry or none is iterated
-- as it is.
pub deregister_reward-save :
    {m : Math}
    → IsDocumented m
    → (order : Iteration) (lp asset : AssetInfo) (next_ts : ℕ) (schedules schedules' : Schedules)
      (pool pool' : PoolInfo) (store store' : Store) (r : RewardInfo) (amount : ℕ)
    → order.of_orphaned [] ≡ []
    → order.of_removed ((r.reward, (r.index, r.orphaned)) ∷ [])
      ≡ (r.reward, (r.index, r.orphaned)) ∷ []
    → pool.rewards_to_remove ≡ []
    → pool.orphaned_rewards_to_claim ≡ []
    → find_ext asset pool.rewards ≡ some r
    → r.reward ≡ ext asset next_ts
    → pool.last_update_ts < next_ts
    → 0 < r.orphaned
    → deregister_reward m schedules pool asset false ≡ ok (pool', (schedules', amount))
    → save m order lp pool' store ≡ ok store'
    → (amount
        ≡ (outstanding_in pool.last_update_ts schedules pool.rewards asset + r.orphaned)
          / fractional)
      × (orphaned_of store' asset ≡ orphaned_of store asset + r.orphaned / fractional)
deregister_reward-save d = rw (eq-exact d) deregister-save-exact

asset_info_key-equal :
    (a b : AssetInfo) → equal a b ≡ false → text_eq (asset_info_key a) (asset_info_key b) ≡ false
unfolding asset_info_key equal text_eq
asset_info_key-equal (native_token d) (native_token e) h = ground arith
asset_info_key-equal (token c) (token e) h = ground arith
asset_info_key-equal (native_token d) (token e) h = ground arith
asset_info_key-equal (token c) (native_token e) h = ground arith

orphaned_of_other-put_orphan :
    (info other : AssetInfo) (total : ℕ) (store : Store)
    → equal info other ≡ false
    → orphaned_of (put_orphan info total store) other ≡ orphaned_of store other
unfolding orphaned_of put_orphan
orphaned_of_other-put_orphan info other total store apart =
    rw (lookup-insert (asset_info_key info) (asset_info_key other) total store.orphaned_rewards)
      (rw (asset_info_key-equal info other apart) refl)

-- What the reply to a transfer of an asset leaves: nothing waits under the id any more, the amount is
-- added to the orphaned rewards of the asset just when the transfer failed, and neither another
-- transfer that waits nor the orphaned rewards of another asset change.
abbrev pub Settles : ℕ → Bool → AssetInfo → ℕ → Store → Store → Type 0
Settles id success reward amount store store' =
    (store'.pending id ≡ none)
    × (orphaned_of store' reward ≡ orphaned_of store reward + (if success then 0 else amount))
    × ((other : ℕ) → (other == id) ≡ false → store'.pending other ≡ store.pending other)
    × ((other : AssetInfo)
        → equal reward other ≡ false
        → orphaned_of store' other ≡ orphaned_of store other)

reply-Settles :
    (id : ℕ) (success : Bool) (reward : AssetInfo) (amount : ℕ) (store store' : Store)
    → first_dynamic_reply_id ≤ id
    → store.pending id ≡ some (record { reward_key = reward; pending_amount = amount })
    → reply exact id success store ≡ ok store'
    → Settles id success reward amount store store'
unfolding reply
reply-Settles id true reward amount store store' h waits run =
    let same = ok-inj (rw (le→leb _ _ h, waits, reply) at run) in
    (
      sym (ap (λ s. s.pending id) same) ∙ rw (eq_refl id) refl,
      sym (ap (λ s. orphaned_of s reward) same) ∙ omega arith,
      λ other apart. sym (ap (λ s. s.pending other) same) ∙ rw apart refl,
      λ other apart. sym (ap (λ s. orphaned_of s other) same),
    )
reply-Settles id false reward amount store store' h waits run =
    let (_, h1) =
      fits-ok _ 128 (orphaned_of store reward + amount) (rw (le→leb _ _ h, waits, reply) at run) in
    let same = ok-inj h1 in
    (
      sym (ap (λ s. s.pending id) same) ∙ rw (eq_refl id) refl,
      sym (ap (λ s. orphaned_of s reward) same) ∙ orphaned_of-put_orphan reward _ store,
      λ other apart. sym (ap (λ s. s.pending other) same) ∙ rw apart refl,
      λ other apart.
          sym (ap (λ s. orphaned_of s other) same)
          ∙ orphaned_of_other-put_orphan reward other _ store apart,
    )

-- What registering a transfer leaves: it waits under its own id, the next transfer has another one, and
-- neither what waits under other ids nor orphaned rewards change.
abbrev pub Waits : ℕ → AssetInfo → ℕ → Store → Store → Type 0
Waits id reward amount store store' =
    (store'.pending id ≡ some (record { reward_key = reward; pending_amount = amount }))
    × (store.next_reply_id ≡ id)
    × (store'.next_reply_id ≡ id + 1)
    × ((other : ℕ) → (other == id) ≡ false → store'.pending other ≡ store.pending other)
    × ((other : AssetInfo) → orphaned_of store' other ≡ orphaned_of store other)

register_pending_transfer-Waits :
    (reward : AssetInfo) (amount id : ℕ) (store waiting : Store)
    → register_pending_transfer exact reward amount store ≡ ok (id, waiting)
    → Waits id reward amount store waiting
unfolding register_pending_transfer orphaned_of
register_pending_transfer-Waits reward amount id store waiting sends =
    let (_, made) =
      fits_err-ok _ 64 (store.next_reply_id + 1) (std (generic_err "reply id counter overflow"))
        sends in
    let same = ok-inj made in
    let is : store.next_reply_id ≡ id = ap (λ x. x.0) same in
    (
      sym (ap (λ x. x.1.pending id) same) ∙ rw is (rw (eq_refl id) refl),
      is,
      sym (ap (λ x. x.1.next_reply_id) same) ∙ ap (λ n. n + 1) is,
      λ other apart. sym (ap (λ x. x.1.pending other) same) ∙ rw is (rw apart refl),
      λ other. sym (ap (λ x. orphaned_of x.1 other) same),
    )

replied-exact :
    (reward : AssetInfo) (amount id : ℕ) (success : Bool) (store waiting later store' : Store)
    → first_dynamic_reply_id ≤ store.next_reply_id
    → register_pending_transfer exact reward amount store ≡ ok (id, waiting)
    → later.pending id ≡ waiting.pending id
    → reply exact id success later ≡ ok store'
    → Waits id reward amount store waiting × Settles id success reward amount later store'
replied-exact reward amount id success store waiting later store' h sends kept run =
    let waits = register_pending_transfer-Waits reward amount id store waiting sends in
    let is = waits.1 in
    (
      waits,
      reply-Settles id success reward amount later store' (omega (arith, is, h)) (kept ∙ waits.0)
          run,
    )

-- A transfer of a reward is accounted for once. Registering it, where the next reply id is at least the
-- first one, 1000, leaves it waiting under that id, which moves on by one, and changes neither what
-- waits under other ids nor orphaned rewards. Whatever the contract does before the reply to it comes,
-- as long as the entry of the id stays: a reply that succeeds removes that entry and no other, adds the
-- amount to the orphaned rewards of the asset just when the transfer failed, and nothing to those of
-- other assets.
pub register_pending_transfer-reply :
    {m : Math}
    → IsDocumented m
    → (reward : AssetInfo) (amount id : ℕ) (success : Bool) (store waiting later store' : Store)
    → first_dynamic_reply_id ≤ store.next_reply_id
    → register_pending_transfer m reward amount store ≡ ok (id, waiting)
    → later.pending id ≡ waiting.pending id
    → reply m id success later ≡ ok store'
    → Waits id reward amount store waiting × Settles id success reward amount later store'
register_pending_transfer-reply d = rw (eq-exact d) replied-exact
