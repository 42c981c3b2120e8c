-- ===== src/Incentives/Conservation.antt =====
-- What is still to pay of an external reward, and that passing time only turns it into collected
-- rewards.
use astroport_core.Common.{
  ℕ, false, [], ◌∷◌, ltb, ◌+◌, ◌-◌, ◌*◌, ◌/◌, ◌≤◌, ◌<◌, ◌^◌, ◌≡◌, refl, sym, ap, ◌∙◌, ◌⊎◌, inl, inr,
  arith, Bool-cases, ltb→lt, not_ltb, lt→ltb,
}
use astroport_core.Cosmwasm.{Result, ok, panic, exact, or_panic, fits, fractional}
use astroport_core.Cosmwasm.Inversion.{bind-ok, fits-ok, sub?-ok, ratio?-ok, ok-inj}
use native.Mathlib.Nat.{mul_assoc}
use astroport_core.Asset.{AssetInfo}
use astroport_core.Incentives.Types.{ext, RewardInfo, Schedule, after}
use astroport_core.Incentives.Accrual.{accrued, Progress, process_schedules}

-- The end of each schedule is later than the one before.
abbrev pub Ascends : ℕ → Schedule → Type 0
Ascends t [] = Unit
Ascends t ((end_ts, rps) ∷ rest) = (t < end_ts) × Ascends end_ts rest

-- What schedules pay from a time on.
unfoldable pub future : ℕ → Schedule → ℕ
future t [] = 0
future t ((end_ts, rps) ∷ rest) = rps * (end_ts - t) + future end_ts rest

-- What a reward is still to pay after a time, of the current schedule and of those to come.
unfoldable pub unpaid : ℕ → Schedule → ℕ → ℕ → ℕ
unfolding future
unpaid now schedule rps next_ts = rps * (next_ts - now) + future next_ts (after next_ts schedule)

-- All are kept that end later.
pub after_all : (s t : ℕ) (l : Schedule) → t ≤ s → Ascends s l → after t l ≡ l
unfolding after
after_all s t [] h a = refl
after_all s t ((e, r) ∷ l) h a =
    rw (lt→ltb t e (omega (arith, a.0)))
      (ap (λ x. (e, r) ∷ x) (after_all e t l (omega (arith, a.0)) a.1))

pub after-Ascends : (s t : ℕ) (l : Schedule) → Ascends s l → Ascends t (after t l)
unfolding after
after-Ascends s t [] a = tt
after-Ascends s t ((e, r) ∷ l) a = elim (Bool-cases (ltb t e)) [
  | inl late ↦
      let rest = after_all e t l (omega (arith, ltb→lt t e late)) a.1 in
      rw (late, rest) (ltb→lt t e late, a.1)
  | inr soon ↦ rw soon (after-Ascends e t l a.1)
]

pub after-after : (s t : ℕ) (l : Schedule) → s ≤ t → after t (after s l) ≡ after t l
unfolding after
after-after s t [] h = refl
after-after s t ((e, r) ∷ l) h = ground (arith, after-after s t l h)

fits-value : {E : Type 0} (w a v : ℕ) → ◌≡◌ {A = Result E ℕ} (or_panic (fits w a)) (ok v) → v ≡ a
fits-value w a v h = elim (Bool-cases (ltb a (2 ^ w))) [
  | inl e ↦ sym (ok-inj (rw e at h))
  | inr e ↦ let h' : panic ≡ ok v = rw e at h in cc
]

pub div_one : (a : ℕ) → a / 1 ≡ a
div_one a = omega arith

mul-div : (a d : ℕ) → 0 < d → a * d / d ≡ a
mul-div a d h = grind arith

pub accrued-exact :
    {E : Type 0} (rps seconds v : ℕ)
    → ◌≡◌ {A = Result E ℕ} (accrued exact rps seconds) (ok v)
    → v ≡ rps * seconds
unfolding accrued
accrued-exact rps seconds v h =
    let (_, _, h1) = ratio?-ok _ 256 seconds fractional 1 h in
    fits-value 256 _ v h1
    ∙ (ap (λ x. rps * x / fractional) (div_one (seconds * fractional))
        ∙ (ap (λ x. x / fractional) (sym (mul_assoc rps seconds fractional))
            ∙ mul-div (rps * seconds) fractional (omega arith)))

pub split_span : (r n b e : ℕ) → n ≤ b → b ≤ e → r * (b - n) + r * (e - b) ≡ r * (e - n)
split_span r n b e h k = grind arith

pub le→not_ltb : (a b : ℕ) → b ≤ a → ltb a b ≡ false
le→not_ltb a b h = ground arith

pub unpaid_all :
    (now : ℕ) (l : Schedule) (rps n : ℕ)
    → Ascends n l
    → unpaid now l rps n ≡ rps * (n - now) + future n l
unfolding unpaid
unpaid_all now l rps n a = rw (after_all n n l (omega arith) a) refl

-- A schedule that ended before the next one counts for nothing.
unpaid_skip :
    (now e r : ℕ) (l : Schedule) (rps n : ℕ)
    → e ≤ n
    → unpaid now ((e, r) ∷ l) rps n ≡ unpaid now l rps n
unfolding unpaid after
unpaid_skip now e r l rps n h = rw (le→not_ltb n e h) refl

unpaid_found :
    (now e r n : ℕ) (l : Schedule)
    → n ≤ now
    → now < e
    → Ascends e l
    → r * (now - n) + unpaid now ((e, r) ∷ l) r e ≡ future n ((e, r) ∷ l)
unfolding future
unpaid_found now e r n l h k a =
    let rest : unpaid now l r e ≡ r * (e - now) + future e l = unpaid_all now l r e a in
    let span = split_span r n now e h (omega (arith, k)) in
    let skip = unpaid_skip now e r l r e (omega arith) in omega arith

-- Where the loop over the schedules ends: all of them passed, or one runs now.
abbrev pub Walked : ℕ → AssetInfo → Schedule → RewardInfo → ℕ → ℕ → Progress → Type 0
Walked block info l r next_ts collected q =
    (q.reward_info.index ≡ r.index)
    × (q.reward_info.orphaned ≡ r.orphaned)
    × (((q.next_ts ≤ block)
          × (q.reward_info.reward ≡ r.reward)
          × (q.collected_rewards ≡ collected + future next_ts l))
        ⊎ ((block < q.next_ts)
            × (q.reward_info.reward ≡ ext info q.next_ts)
            × (q.collected_rewards
                  + (q.reward_info.rps * q.time_passed + unpaid block l q.reward_info.rps q.next_ts)
                ≡ collected + future next_ts l)))

module _ (block : ℕ) (info : AssetInfo) where
  pass-Walked :
      (l : Schedule) (e r n c gained : ℕ) (r0 : RewardInfo) (q : Progress)
      → e ≤ block
      → gained ≡ r * (e - n)
      → Walked block info l r0 e (c + gained) q
      → Walked block info ((e, r) ∷ l) r0 n c q
  unfolding future
  pass-Walked l e r n c gained r0 q h g (same, kept, inl (late, type, sum)) =
      (same, kept, inl (late, type, omega arith))
  pass-Walked l e r n c gained r0 q h g (same, kept, inr (runs, type, sum)) =
      let skip = unpaid_skip block e r l q.reward_info.rps q.next_ts (omega arith) in
      (same, kept, inr (runs, type, omega arith))

  pub process_schedules-Walked :
      (l : Schedule) (p q : Progress)
      → p.next_ts ≤ block
      → Ascends p.next_ts l
      → process_schedules exact block info l p ≡ ok q
      → Walked block info l p.reward_info p.next_ts p.collected_rewards q
  unfolding process_schedules future
  process_schedules-Walked [] p q h a run =
      rw⁻¹ (ok-inj run) (refl, refl, inl (h, refl, omega arith))
  process_schedules-Walked ((e, r) ∷ l) p q h a run = elim (Bool-cases (ltb block e)) [
    | inl late ↦
        let (_, made) = sub?-ok _ block p.next_ts (rw (late, process_schedules) at run) in
        let all = unpaid_found block e r p.next_ts l h (ltb→lt _ _ late) a.1 in
        rw⁻¹ (ok-inj made)
          (refl, refl, inr (ltb→lt _ _ late, refl, ap (λ x. p.collected_rewards + x) all))
    | inr soon ↦
        let (_, h1) = sub?-ok _ e p.next_ts (rw (soon, process_schedules) at run) in
        let (gained, is, h2) = bind-ok (accrued exact r (e - p.next_ts)) _ h1 in
        let (_, h3) = fits-ok _ 256 (p.collected_rewards + gained) h2 in
        pass-Walked l e r p.next_ts p.collected_rewards gained p.reward_info q (not_ltb _ _ soon)
          (accrued-exact r (e - p.next_ts) gained is)
          (process_schedules-Walked l _ q (not_ltb _ _ soon) a.1 h3)
  ]
