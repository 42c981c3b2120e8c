-- ===== src/Incentives/Extension.antt =====
-- What the schedules of a reward pay after another one is laid over them.
use astroport_core.Common.{
  ℕ, true, false, [], ◌∷◌, ltb, leb, ◌==◌, if◌then◌else◌, ◌+◌, ◌-◌, ◌*◌, ◌≤◌, ◌<◌, ◌≡◌, refl, sym,
  ap, ◌∙◌, ◌⊎◌, inl, inr, arith, Bool-cases, ltb→lt, not_ltb, leb→le, not_leb, lt→ltb, ==_iff,
}
use astroport_core.Cosmwasm.{ok, exact}
use astroport_core.Cosmwasm.Inversion.{bind-ok, fits-ok, ok-inj}
use astroport_core.Incentives.Types.{Schedule, after}
use astroport_core.Incentives.Schedules.{save_rps, save_each, overlap}
use astroport_core.Incentives.Conservation.{
  Ascends, after_all, after-after, after-Ascends, future, unpaid, split_span, le→not_ltb,
}

pub mul_sum : (a b c : ℕ) → (a + b) * c ≡ a * c + b * c
mul_sum a b c = grind arith

-- The schedules that the loop saves.
unfoldable pub overlaid : ℕ → ℕ → Schedule → Schedule
overlaid end_ts rps [] = (end_ts, rps) ∷ []
overlaid end_ts rps ((e, r) ∷ rest) =
    let more = overlaid end_ts rps rest in
    if leb end_ts e then (end_ts, r + rps) ∷ [] else (e, r + rps) ∷ more

pub overlap-overlaid :
    (end_ts rps : ℕ) (l ks : Schedule)
    → overlap exact end_ts rps l ≡ ok ks
    → ks ≡ overlaid end_ts rps l
unfolding overlap overlaid
overlap-overlaid end_ts rps [] ks h = sym (ok-inj h)
overlap-overlaid end_ts rps ((e, r) ∷ l) ks h = elim (Bool-cases (leb end_ts e)) [
  | inl c ↦ let (_, h1) = fits-ok _ 256 (r + rps) (rw (c, overlap) at h) in rw c (sym (ok-inj h1))
  | inr c ↦
      let (_, h1) = fits-ok _ 256 (r + rps) (rw (c, overlap) at h) in
      let (more, is, h2) = bind-ok (overlap exact end_ts rps l) _ h1 in
      rw c (sym (ok-inj h2) ∙ ap (λ x. (e, r + rps) ∷ x) (overlap-overlaid end_ts rps l more is))
]

-- A saved schedule counts after a time just when it ends later.
after-save_rps :
    (t ts rps : ℕ) (l : Schedule)
    → after t (save_rps ts rps l) ≡ (if ltb t ts then save_rps ts rps (after t l) else after t l)
unfolding after save_rps
after-save_rps t ts rps [] = refl
after-save_rps t ts rps ((e, r) ∷ l) = ground (arith, after-save_rps t ts rps l)

after-save_each :
    (t end_ts rps : ℕ) (l stored : Schedule)
    → t < end_ts
    → after t (save_each (overlaid end_ts rps l) stored)
      ≡ save_each (overlaid end_ts rps (after t l)) (after t stored)
unfolding after save_each overlaid
after-save_each t end_ts rps [] stored h =
    after-save_rps t end_ts rps stored ∙ rw (lt→ltb _ _ h) refl
after-save_each t end_ts rps ((e, r) ∷ l) stored h = elim (Bool-cases (leb end_ts e)) [
  | inl c ↦
      let late : ltb t e ≡ true = lt→ltb t e (omega (arith, leb→le _ _ c)) in
      rw (c, late) (rw c (after-save_rps t end_ts (r + rps) stored ∙ rw (lt→ltb _ _ h) refl))
  | inr c ↦
      let rest = after-save_each t end_ts rps l (save_rps e (r + rps) stored) h in
      let first = after-save_rps t e (r + rps) stored in
      elim (Bool-cases (ltb t e)) [
        | inl late ↦
            rw (c, late)
              (rw c (
                rest
                ∙ ap (λ x. save_each (overlaid end_ts rps (after t l)) x) (first ∙ rw late refl)))
        | inr soon ↦
            rw (c, soon)
              (rest
                ∙ ap (λ x. save_each (overlaid end_ts rps (after t l)) x) (first ∙ rw soon refl))
      ]
]

neq : (a b : ℕ) → a < b → (a == b) ≡ false
neq a b h = ground arith

less : (a b : ℕ) → a ≤ b → (b == a) ≡ false → a < b
less a b h e = ground arith

pub eq_refl : (a : ℕ) → (a == a) ≡ true
eq_refl a = ground arith

abbrev Above : ℕ → Schedule → Type 0
Above t [] = Unit
Above t ((e, r) ∷ l) = (t < e) × Above t l

overlaid-Above :
    (t end_ts rps : ℕ) (l : Schedule) → t < end_ts → Above t l → Above t (overlaid end_ts rps l)
unfolding overlaid
overlaid-Above t end_ts rps [] h a = (h, tt)
overlaid-Above t end_ts rps ((e, r) ∷ l) h a = elim (Bool-cases (leb end_ts e)) [
  | inl c ↦ rw c (h, tt)
  | inr c ↦ rw c (a.0, overlaid-Above t end_ts rps l h a.1)
]

Above-Ascends : (t s : ℕ) (l : Schedule) → t ≤ s → Ascends s l → Above t l
Above-Ascends t s [] h a = tt
Above-Ascends t s ((e, r) ∷ l) h a =
    (omega (arith, a.0), Above-Ascends t e l (omega (arith, a.0)) a.1)

save_each_past :
    (e r : ℕ) (ks l : Schedule) → Above e ks → save_each ks ((e, r) ∷ l) ≡ (e, r) ∷ save_each ks l
unfolding save_each save_rps
save_each_past e r [] l a = refl
save_each_past e r ((k, v) ∷ ks) l a =
    rw (neq e k a.0, le→not_ltb k e (omega (arith, a.0)))
      (save_each_past e r ks (save_rps k v l) a.1)

save_each_first :
    (e r v : ℕ) (ks l : Schedule)
    → Above e ks
    → save_each ((e, v) ∷ ks) ((e, r) ∷ l) ≡ (e, v) ∷ save_each ks l
unfolding save_each save_rps
save_each_first e r v ks l a = rw (eq_refl e) (save_each_past e v ks l a)

-- A schedule laid over others pays its rate on top of them until it ends.
pub future-save_each :
    (t end_ts rps : ℕ) (l : Schedule)
    → t ≤ end_ts
    → Ascends t l
    → future t (save_each (overlaid end_ts rps l) l) ≡ future t l + rps * (end_ts - t)
unfolding future save_each save_rps overlaid
future-save_each t end_ts rps [] h a = omega arith
future-save_each t end_ts rps ((e, r) ∷ l) h a = elim (Bool-cases (leb end_ts e)) [
  | inl c ↦ elim (Bool-cases (e == end_ts)) [
    | inl same ↦
        rw (c, same)
          (let is = (==_iff e end_ts).0 same in
            let sum = mul_sum r rps (end_ts - t) in rw is (omega arith))
    | inr other ↦
        rw (c, other, lt→ltb end_ts e (less end_ts e (leb→le _ _ c) other))
          (let sum = mul_sum r rps (end_ts - t) in
            let span = split_span r t end_ts e h (leb→le _ _ c) in omega arith)
  ]
  | inr c ↦
      let below = not_leb _ _ c in
      let rest = future-save_each e end_ts rps l (omega (arith, below)) a.1 in
      let above = overlaid-Above e end_ts rps l below (Above-Ascends e e l (omega arith) a.1) in
      rw (c, save_each_first e r (r + rps) (overlaid end_ts rps l) l above)
        (let sum = mul_sum r rps (e - t) in
          let span = split_span rps t e end_ts (omega (arith, a.0)) (omega (arith, below)) in
          omega arith)
]

-- No schedule ends after now and before the next update.
abbrev pub Clear : ℕ → ℕ → Schedule → Type 0
Clear now next_ts [] = Unit
Clear now next_ts ((e, r) ∷ l) = ((e ≤ now) ⊎ (next_ts ≤ e)) × Clear now next_ts l

abbrev AtLeast : ℕ → Schedule → Type 0
AtLeast t [] = Unit
AtLeast t ((e, r) ∷ l) = (t ≤ e) × AtLeast t l

after-AtLeast :
    (now t next_ts : ℕ) (l : Schedule) → now ≤ t → Clear now next_ts l → AtLeast next_ts (after t l)
unfolding after
after-AtLeast now t next_ts [] h c = tt
after-AtLeast now t next_ts ((e, r) ∷ l) h (here, c) = elim (Bool-cases (ltb t e)) [
  | inl late ↦ rw late (omega (arith, here, ltb→lt _ _ late), after-AtLeast now t next_ts l h c)
  | inr soon ↦ rw soon (after-AtLeast now t next_ts l h c)
]

-- A break put before all schedules that are left.
future-save_rps :
    (t next_ts q : ℕ) (l : Schedule)
    → t ≤ next_ts
    → Ascends t l
    → AtLeast next_ts l
    → future t (save_rps next_ts q l) ≡ q * (next_ts - t) + future next_ts (after next_ts l)
unfolding future save_rps after
future-save_rps t next_ts q [] h a b = refl
future-save_rps t next_ts q ((e, r) ∷ l) h a b = elim (Bool-cases (e == next_ts)) [
  | inl same ↦
      let is = (==_iff e next_ts).0 same in
      let rest = after_all e next_ts l (omega (arith, is)) a.1 in
      rw same (rw (le→not_ltb next_ts e (omega (arith, is)), rest) refl)
  | inr other ↦
      let late = less next_ts e b.0 other in
      let rest = after_all e next_ts l (omega (arith, late)) a.1 in
      rw (other, lt→ltb _ _ late, rest) refl
]

module _ (now next_ts end_ts q rps start : ℕ) (l : Schedule) (h : now < end_ts) (k : now < next_ts)
    (a : Ascends start l) where
  -- The new schedule ends within the current one.
  pub unpaid_within :
      end_ts ≤ next_ts
      → Clear now next_ts l
      → unpaid now
          (save_each (if ltb end_ts next_ts then (next_ts, q) ∷ [] else []) l)
          (q + rps)
          end_ts
        ≡ unpaid now l q next_ts + rps * (end_ts - now)
  unfolding unpaid save_each
  unpaid_within w c = elim (Bool-cases (ltb end_ts next_ts)) [
    | inl less ↦
        let saved = after-save_rps end_ts next_ts q l in
        let left =
          future-save_rps end_ts next_ts q (after end_ts l) w (after-Ascends start end_ts l a)
            (after-AtLeast now end_ts next_ts l (omega arith) c) in
        let sum = mul_sum q rps (end_ts - now) in
        let span = split_span q now end_ts next_ts (omega arith) w in
        let later = rw (after-after end_ts next_ts l w) at left in
        rw (less, save_each) (rw saved (rw less (omega arith)))
    | inr same ↦
        let is : end_ts ≡ next_ts = omega (arith, not_ltb _ _ same) in
        let sum = mul_sum q rps (end_ts - now) in rw (same, sym is) (omega arith)
  ]

  -- It ends later.
  pub unpaid_beyond :
      (epoch : ℕ)
      → next_ts < end_ts
      → epoch ≤ next_ts
      → unpaid now (save_each (overlaid end_ts rps (after epoch l)) l) (q + rps) next_ts
        ≡ unpaid now l q next_ts + rps * (end_ts - now)
  unfolding unpaid
  unpaid_beyond epoch w e =
      let kept = after-save_each next_ts end_ts rps (after epoch l) l w in
      let later =
        future-save_each next_ts end_ts rps (after next_ts l) (omega (arith, w))
          (after-Ascends start next_ts l a) in
      let sum = mul_sum q rps (next_ts - now) in
      let span = split_span rps now next_ts end_ts (omega arith) (omega (arith, w)) in
      rw (kept, after-after epoch next_ts l e) (omega arith)
