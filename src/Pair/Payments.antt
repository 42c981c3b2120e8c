-- ===== src/Pair/Payments.antt =====
-- What the messages of a swap pay out, asset by asset.
use astroport_core.Common.{
  ℕ, ◌+◌, ◌*◌, ◌/◌, ◌≤◌, ◌≡◌, refl, sym, ◌∙◌, Option, none, some, List, [], ◌∷◌, ◌++◌, arith, ◌==◌,
  Bool-cases, inl, inr, if◌then◌else◌, ==_iff, subst,
}
use astroport_core.Common.Arith.{mul_mono, div-le_of_le-mul}
use astroport_core.Cosmwasm.{ok, exact, fractional}
use astroport_core.Cosmwasm.Inversion.{fits-ok, ratio?-ok, bind_map_err-ok, ok-inj}
use astroport_core.Asset.{
  AssetInfo, token, native_token, Asset, Addr, Env, Chain, CosmosMsg, bank_send, cw20_transfer,
  equal, into_msg,
}
use astroport_core.Pair.Types.{std, Store, Response, FeeShareConfig}
use astroport_core.Pair.SwapRun.{Settled}
use astroport_core.Pair.Calc.{calculate_maker_fee}
use astroport_core.Pair.SwapSteps.{share_fee, pay_maker, pay_receiver}

-- The amount of an asset that one message sends out of the contract.
abbrev pub amount_sent : AssetInfo → CosmosMsg → ℕ
amount_sent i (bank_send to coin) =
    if equal i (native_token coin.denom) then coin.coin_amount else 0
amount_sent i (cw20_transfer contract to amount) = if equal i (token contract) then amount else 0
amount_sent i _ = 0

-- The amount that a list of messages sends.
abbrev pub paid_out : AssetInfo → List CosmosMsg → ℕ
paid_out i [] = 0
paid_out i (msg ∷ rest) = amount_sent i msg + paid_out i rest

paid_out-append :
    (i : AssetInfo) (xs ys : List CosmosMsg) → paid_out i (xs ++ ys) ≡ paid_out i xs + paid_out i ys
paid_out-append i [] ys = omega arith
paid_out-append i (x ∷ xs) ys = omega (arith, paid_out-append i xs ys)

-- The part of an amount of one asset that counts for another.
abbrev pub counted : AssetInfo → AssetInfo → ℕ → ℕ
counted i info amount = if equal i info then amount else 0

into_msg-counted :
    (i info : AssetInfo) (amount : ℕ) (to : Addr) (msg : CosmosMsg)
    → into_msg (record { info = info; amount = amount }) to ≡ ok msg
    → amount_sent i msg ≡ counted i info amount
unfolding into_msg
into_msg-counted i (token contract) amount to msg h =
    subst (λ x. amount_sent i x ≡ counted i (token contract) amount) (ok-inj h) refl
into_msg-counted i (native_token denom) amount to msg h =
    subst (λ x. amount_sent i x ≡ counted i (native_token denom) amount) (ok-inj h) refl

counted-zero : (i info : AssetInfo) → counted i info 0 ≡ 0
counted-zero i info = ground arith

counted-add :
    (i info : AssetInfo) (a b : ℕ) → counted i info (a + b) ≡ counted i info a + counted i info b
counted-add i info a b = ground arith

-- A part at a rate of at most 1.
commission_part : (amount rate : ℕ) → rate ≤ fractional → amount * rate / fractional ≤ amount
commission_part amount rate h =
    div-le_of_le-mul (amount * rate) fractional amount (omega arith)
      (mul_mono amount amount rate fractional (omega arith) h)

-- A fee share is at most the whole commission.
abbrev pub SharesAtMostAll : Option FeeShareConfig → Type 0
SharesAtMostAll none = Unit
SharesAtMostAll (some share) = share.bps ≤ 10_000

calculate_maker_fee-exact :
    (ask : AssetInfo) (fees rate : ℕ) (fee : Option Asset)
    → calculate_maker_fee exact ask fees rate ≡ ok fee
    → fee ≡ (
        if fees * rate / fractional == 0
        then none
        else some (record { info = ask; amount = fees * rate / fractional }))
unfolding calculate_maker_fee
calculate_maker_fee-exact ask fees rate fee h =
    let (_, h1) = fits-ok _ 128 (fees * rate / fractional) h in sym (ok-inj h1)

module _ (chain : Chain) (i ask : AssetInfo) where
  pay_receiver-counted :
      (amount : ℕ) (to : Addr) (messages : List CosmosMsg)
      → pay_receiver exact chain ask amount to ≡ ok messages
      → paid_out i messages ≡ counted i ask amount
  unfolding pay_receiver
  pay_receiver-counted amount to messages h = elim (Bool-cases (amount == 0)) [
    | inl e ↦
        let h' : ok [] ≡ ok messages = rw e at h in
        let zero_amount = (==_iff amount 0).0 e in
        rw (← ok-inj h', zero_amount) (sym (counted-zero i ask))
    | inr e ↦
        let (msg, sent, h1) =
          bind_map_err-ok std (into_msg (record { info = ask; amount = amount }) to) _
            (rw e at h) in
        rw (← ok-inj h1) (omega (arith, into_msg-counted i ask amount to msg sent))
  ]

  -- The shared part and the rest make up the commission.
  share_fee-counted :
      (given : Option FeeShareConfig) (amount : ℕ) (shared : ℕ × ℕ × List CosmosMsg)
      → SharesAtMostAll given
      → share_fee exact chain given ask amount ≡ ok shared
      → (shared.0 + shared.1 ≡ amount) × (paid_out i shared.2 ≡ counted i ask shared.0)
  unfolding share_fee
  share_fee-counted none amount shared small h =
      subst
        (λ (x : ℕ × ℕ × List CosmosMsg).
          (x.0 + x.1 ≡ amount) × (paid_out i x.2 ≡ counted i ask x.0))
        (ok-inj h) (omega arith, sym (counted-zero i ask))
  share_fee-counted (some share) amount shared small h =
      let rate = share.bps * fractional / 10_000 in
      let part = amount * rate / fractional in
      let (_, _, h1) = ratio?-ok _ 128 share.bps fractional 10_000 h in
      let (_, h2) = fits-ok _ 128 part h1 in
      let part_le = commission_part amount rate (omega (arith, small)) in
      elim (Bool-cases (part == 0)) [
        | inl e ↦
            let h' : ok (0, amount, []) ≡ ok shared = rw e at h2 in
            subst
              (λ (x : ℕ × ℕ × List CosmosMsg).
                (x.0 + x.1 ≡ amount) × (paid_out i x.2 ≡ counted i ask x.0))
              (ok-inj h') (omega arith, sym (counted-zero i ask))
        | inr e ↦
            let (msg, sent, h3) =
              bind_map_err-ok std (into_msg (record { info = ask; amount = part }) share.recipient)
                _ (rw e at h2) in
            subst
              (λ (x : ℕ × ℕ × List CosmosMsg).
                (x.0 + x.1 ≡ amount) × (paid_out i x.2 ≡ counted i ask x.0))
              (ok-inj h3)
              (omega arith, omega (arith, into_msg-counted i ask part share.recipient msg sent))
      ]

  pay_maker-counted :
      (fee_address : Option Addr) (fees rate : ℕ) (maker : ℕ × List CosmosMsg)
      → rate ≤ fractional
      → pay_maker exact chain fee_address ask fees rate ≡ ok maker
      → (maker.0 ≤ fees) × (paid_out i maker.1 ≡ counted i ask maker.0)
  unfolding pay_maker
  pay_maker-counted none fees rate maker small h =
      subst (λ (x : ℕ × List CosmosMsg). (x.0 ≤ fees) × (paid_out i x.1 ≡ counted i ask x.0))
        (ok-inj h) (omega arith, sym (counted-zero i ask))
  pay_maker-counted (some fee_address) fees rate maker small h =
      let part = fees * rate / fractional in
      let part_le = commission_part fees rate small in
      let (fee, fee_eq, h1) = bind_map_err-ok std (calculate_maker_fee exact ask fees rate) _ h in
      let fee_is = calculate_maker_fee-exact ask fees rate fee fee_eq in
      elim (Bool-cases (part == 0)) [
        | inl e ↦
            let nothing : fee ≡ none = fee_is ∙ rw e in
            let h2 : ok (0, []) ≡ ok maker = rw nothing at h1 in
            subst (λ (x : ℕ × List CosmosMsg). (x.0 ≤ fees) × (paid_out i x.1 ≡ counted i ask x.0))
              (ok-inj h2) (omega arith, sym (counted-zero i ask))
        | inr e ↦
            let something : fee ≡ some (record { info = ask; amount = part }) = fee_is ∙ rw e in
            let (msg, sent, h2) =
              bind_map_err-ok std (into_msg (record { info = ask; amount = part }) fee_address) _
                (rw something at h1) in
            subst (λ (x : ℕ × List CosmosMsg). (x.0 ≤ fees) × (paid_out i x.1 ≡ counted i ask x.0))
              (ok-inj h2) (part_le, omega (arith, into_msg-counted i ask part fee_address msg sent))
      ]

-- The payments of a settled swap add up.
module _ (chain : Chain) (env : Env) (store : Store) (p0 p1 : Asset) (picked : Asset × Asset)
    (offer_amount : ℕ) (amounts : ℕ × ℕ × ℕ) (fee_address : Option Addr) (maker_rate : ℕ)
    (to : Addr) (r : Response) where
  payments_of_asset :
      (i : AssetInfo)
      (s : Settled chain env store p0 p1 picked offer_amount amounts fee_address maker_rate to r)
      → SharesAtMostAll store.config.fee_share
      → maker_rate ≤ fractional
      → (paid_out i r.messages ≡ counted i picked.1.info (amounts.0 + (s.shared.0 + s.maker.0)))
        × (s.shared.0 + s.maker.0 ≤ amounts.2)
  payments_of_asset i s small_share small_rate =
      let ask = picked.1.info in
      let to_receiver =
        pay_receiver-counted chain i ask amounts.0 to s.receiver_messages s.receiver_eq in
      let to_sharer =
        share_fee-counted chain i ask store.config.fee_share amounts.2 s.shared small_share
          s.shared_eq in
      let to_maker =
        pay_maker-counted chain i ask fee_address s.shared.1 maker_rate s.maker small_rate
          s.maker_eq in
      let in_two = paid_out-append i s.receiver_messages (s.shared.2 ++ s.maker.1) in
      let in_three = paid_out-append i s.shared.2 s.maker.1 in
      let whole = counted-add i ask amounts.0 (s.shared.0 + s.maker.0) in
      let rest = counted-add i ask s.shared.0 s.maker.0 in
      (
        rw (s.messages_eq) (omega (arith, to_sharer.1, to_maker.1)),
        omega (arith, to_sharer.0, to_maker.0),
      )

  pub payments_sum :
      Settled chain env store p0 p1 picked offer_amount amounts fee_address maker_rate to r
      → SharesAtMostAll store.config.fee_share
      → maker_rate ≤ fractional
      → (paid : ℕ) × ((i : AssetInfo) → paid_out i r.messages ≡ counted i picked.1.info paid)
        × (amounts.0 ≤ paid)
        × (paid ≤ amounts.0 + amounts.2)
  payments_sum s small_share small_rate = (
    amounts.0 + (s.shared.0 + s.maker.0),
    λ i. (payments_of_asset i s small_share small_rate).0,
    omega arith,
    omega (arith, (payments_of_asset picked.1.info s small_share small_rate).1),
  )
