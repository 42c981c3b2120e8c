-- ===== src/Incentives/Collection.antt =====
-- What an update collects of a reward, and where it goes.
use astroport_core.Common.{
  ℕ, Bool, true, false, leb, if◌then◌else◌, ◌+◌, ◌-◌, ◌*◌, ◌≤◌, ◌<◌, ◌≡◌, refl, sym, ap, ◌∙◌, subst,
  inl, inr, arith, Bool-cases, leb→le, not_leb, le→leb,
}
use astroport_core.Cosmwasm.{Result, ok, StdError, exact, ◌>>=◌, or_panic}
use astroport_core.Cosmwasm.Inversion.{bind-ok, fits-ok, sub?-ok, ok-inj}
use astroport_core.Asset.{AssetInfo}
use astroport_core.Incentives.Types.{
  RewardType, int, ext, asset_info, RewardInfo, Schedule, Schedules, after,
}
use astroport_core.Incentives.Accrual.{
  accrued, Progress, process_schedules, pass_schedules, Collected, collect,
}
use astroport_core.Incentives.Conservation.{
  Walked, Ascends, after-Ascends, after-after, future, unpaid, accrued-exact,
  process_schedules-Walked, split_span,
}

pub lt→not_leb : (a b : ℕ) → b < a → leb a b ≡ false
lt→not_leb a b h = ground arith

-- What a reward of a type is still to pay after a time: nothing once its last schedule has ended.
unfoldable pub outstanding_of : ℕ → Schedules → ℕ → RewardType → ℕ
unfolding unpaid
outstanding_of now schedules rps (int info) = 0
outstanding_of now schedules rps (ext info next_ts) =
    if leb next_ts now then 0 else unpaid now (schedules info) rps next_ts

abbrev pub outstanding : ℕ → Schedules → RewardInfo → ℕ
outstanding now schedules r = outstanding_of now schedules r.rps r.reward

pub outstanding_running :
    (now : ℕ) (schedules : Schedules) (rps : ℕ) (info : AssetInfo) (next_ts : ℕ)
    → now < next_ts
    → outstanding_of now schedules rps (ext info next_ts) ≡ unpaid now (schedules info) rps next_ts
unfolding outstanding_of
outstanding_running now schedules rps info next_ts h = rw (lt→not_leb next_ts now h) refl

outstanding_ended :
    (now : ℕ) (schedules : Schedules) (rps : ℕ) (info : AssetInfo) (next_ts : ℕ)
    → next_ts ≤ now
    → outstanding_of now schedules rps (ext info next_ts) ≡ 0
unfolding outstanding_of
outstanding_ended now schedules rps info next_ts h = rw (le→leb next_ts now h) refl

unpaid-after :
    (now t : ℕ) (l : Schedule) (rps n : ℕ)
    → t ≤ n
    → unpaid now (after t l) rps n ≡ unpaid now l rps n
unfolding unpaid
unpaid-after now t l rps n h = rw (after-after t n l h) refl

-- What an update does to an external reward, apart from the distribution.
abbrev pub Kept : ℕ → ℕ → Schedules → RewardInfo → RewardInfo → ℕ → Type 0
Kept block last schedules r r' collected =
    (r'.index ≡ r.index)
    × (r'.orphaned ≡ r.orphaned)
    × (asset_info r'.reward ≡ asset_info r.reward)
    × (collected + outstanding block schedules r' ≡ outstanding last schedules r)

module _ (block last : ℕ) (schedules : Schedules) (info : AssetInfo) (r : RewardInfo) (next_ts : ℕ)
    (type : r.reward ≡ ext info next_ts) (h : last < next_ts) where
  before : outstanding last schedules r ≡ unpaid last (schedules info) r.rps next_ts
  before = rw type (outstanding_running last schedules r.rps info next_ts h)

  -- All schedules ended.
  ended-Kept :
      (q : Progress) (c0 : ℕ)
      → next_ts ≤ block
      → c0 ≡ r.rps * (next_ts - last)
      → q.reward_info.index ≡ r.index
      → q.reward_info.orphaned ≡ r.orphaned
      → q.reward_info.reward ≡ r.reward
      → q.collected_rewards ≡ c0 + future next_ts (after next_ts (schedules info))
      → Kept block last schedules r (record (q.reward_info) { rps = 0 }) q.collected_rewards
  unfolding unpaid
  ended-Kept q c0 k first same kept is sum =
      let none_left : outstanding_of block schedules 0 q.reward_info.reward ≡ 0 =
        rw (is, type) (outstanding_ended block schedules 0 info next_ts k) in
      (same, kept, ap asset_info is, omega (arith, before))

  -- One of them runs.
  runs-Kept :
      (q : Progress) (c0 : ℕ)
      → next_ts ≤ block
      → c0 ≡ r.rps * (next_ts - last)
      → q.reward_info.index ≡ r.index
      → q.reward_info.orphaned ≡ r.orphaned
      → block < q.next_ts
      → q.reward_info.reward ≡ ext info q.next_ts
      → q.collected_rewards
          + (q.reward_info.rps * q.time_passed
              + unpaid block (after next_ts (schedules info)) q.reward_info.rps q.next_ts)
        ≡ c0 + future next_ts (after next_ts (schedules info))
      → Kept block last schedules r q.reward_info
          (q.collected_rewards + q.reward_info.rps * q.time_passed)
  unfolding unpaid asset_info
  runs-Kept q c0 k first same kept runs is sum =
      let left : outstanding_of block schedules q.reward_info.rps q.reward_info.reward
          ≡ unpaid block (schedules info) q.reward_info.rps q.next_ts =
        rw is (outstanding_running block schedules q.reward_info.rps info q.next_ts runs) in
      let shorter =
        unpaid-after block next_ts (schedules info) q.reward_info.rps q.next_ts (omega arith) in
      (same, kept, ap asset_info is ∙ sym (ap asset_info type), omega (arith, before))

  -- The loop as it is called.
  pass_schedules-ok :
      (passed : ℕ) (result : Progress × Bool)
      → leb next_ts block ≡ true
      → pass_schedules exact block last schedules passed r (ext info next_ts) ≡ ok result
      → (c0 : ℕ) × (q : Progress) × (c0 ≡ r.rps * (next_ts - last))
        × (process_schedules exact block info (after next_ts (schedules info)) (record {
          collected_rewards = c0;
          next_ts = next_ts;
          time_passed = passed;
          reward_info = r;
        })
            ≡ ok q)
        × (result ≡ (
          (if leb q.next_ts block
              then record q { reward_info = record (q.reward_info) { rps = 0 } }
              else q),
          leb q.next_ts block,
        ))
  unfolding pass_schedules
  pass_schedules-ok passed result ended run =
      let (_, h1) = sub?-ok _ next_ts last (rw (ended, pass_schedules) at run) in
      let (c0, is, h2) = bind-ok (accrued exact r.rps (next_ts - last)) _ h1 in
      let (q, walked, h3) =
        bind-ok
          (process_schedules exact block info (after next_ts (schedules info)) (record {
            collected_rewards = c0;
            next_ts = next_ts;
            time_passed = passed;
            reward_info = r;
          }))
          _ h2 in
      (c0, q, accrued-exact r.rps (next_ts - last) c0 is, walked, sym (ok-inj h3))

  -- What the rest of the update makes of where the loop ended.
  finish : Progress × Bool → Result StdError Collected
  finish (p, need_remove) = do
    current ← accrued exact p.reward_info.rps p.time_passed
    collected ← or_panic (exact.checked_add 256 p.collected_rewards current)
    ok (record { collected = collected; updated = p.reward_info; need_remove = need_remove })

  finish-ok :
      (p : Progress) (b : Bool) (c : Collected)
      → finish (p, b) ≡ ok c
      → (c.updated ≡ p.reward_info)
        × (c.collected ≡ p.collected_rewards + p.reward_info.rps * p.time_passed)
  unfolding finish
  finish-ok p b c run =
      let (current, is, h1) = bind-ok (accrued exact p.reward_info.rps p.time_passed) _ run in
      let (_, h2) = fits-ok _ 256 (p.collected_rewards + current) h1 in
      let exactly = accrued-exact p.reward_info.rps p.time_passed current is in
      rw⁻¹ (ok-inj h2) (refl, omega arith)

  -- The current schedule runs on.
  unpassed :
      last ≤ block
      → block < next_ts
      → 0 + r.rps * (block - last) + outstanding block schedules r ≡ outstanding last schedules r
  unfolding unpaid
  unpassed k later =
      let left : outstanding block schedules r ≡ unpaid block (schedules info) r.rps next_ts =
        rw type (outstanding_running block schedules r.rps info next_ts later) in
      let span = split_span r.rps last block next_ts k (omega (arith, later)) in
      omega (arith, before)

  finish_ended :
      (q : Progress) (c0 : ℕ) (c : Collected)
      → next_ts ≤ block
      → c0 ≡ r.rps * (next_ts - last)
      → Walked block info (after next_ts (schedules info)) r next_ts c0 q
      → finish (
        (if leb q.next_ts block
            then record q { reward_info = record (q.reward_info) { rps = 0 } }
            else q),
        leb q.next_ts block,
      )
        ≡ ok c
      → Kept block last schedules r c.updated c.collected
  finish_ended q c0 c k first (same, kept, inl (late, type', sum)) run =
      let done =
        finish-ok (record q { reward_info = record (q.reward_info) { rps = 0 } }) true c
          (rw (le→leb q.next_ts block late) at run) in
      let nothing : c.collected ≡ q.collected_rewards = omega (arith, done.1) in
      rw (done.0, nothing) (ended-Kept q c0 k first same kept type' sum)
  finish_ended q c0 c k first (same, kept, inr (runs, type', sum)) run =
      let done = finish-ok q false c (rw (lt→not_leb q.next_ts block runs) at run) in
      rw (done.0, done.1) (runs-Kept q c0 k first same kept runs type' sum)

  pub collect-Kept :
      (start : ℕ) (c : Collected)
      → Ascends start (schedules info)
      → last ≤ block
      → collect exact block last schedules (block - last) r ≡ ok c
      → Kept block last schedules r c.updated c.collected
  unfolding collect pass_schedules finish
  collect-Kept start c a k run =
      let staged =
        subst
          (λ t. (pass_schedules exact block last schedules (block - last) r t >>= finish) ≡ ok c)
          type run in
      elim (Bool-cases (leb next_ts block)) [
        | inl ended ↦
            let (result, passed, h1) =
              bind-ok
                (pass_schedules exact block last schedules (block - last) r (ext info next_ts))
                finish staged in
            let (c0, q, first, walked, is) = pass_schedules-ok (block - last) result ended passed in
            finish_ended q c0 c (leb→le _ _ ended) first
              (process_schedules-Walked block info (after next_ts (schedules info)) _ q
                (leb→le _ _ ended) (after-Ascends start next_ts (schedules info) a) walked)
              (subst (λ x. finish x ≡ ok c) is h1)
        | inr runs ↦
            let done =
              finish-ok
                (record {
                  collected_rewards = 0;
                  next_ts = next_ts;
                  time_passed = block - last;
                  reward_info = r;
                })
                false c (rw (runs, pass_schedules) at staged) in
            rw (done.0, done.1) (refl, refl, refl, unpassed k (not_leb _ _ runs))
      ]
