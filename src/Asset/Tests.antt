-- ===== src/Asset/Tests.antt =====
-- A call that sends its coins properly (packages/astroport/src/asset.rs).
use astroport_core.Common.{map, length, ◌<◌, ◌≡◌, refl, List, [], ◌∷◌}
use astroport_core.Cosmwasm.{ok}
use astroport_core.Asset.Types.{
  AssetInfo, token, native_token, Asset, Coin, contains, equal, text_eq,
}
use astroport_core.Asset.Funds.{
  assert_coins_properly_sent, all_unique, infos_of, is_empty, check_input, check_coin, try_for_each,
  amount_of,
}
use astroport_core.Asset.Sent.{Each, OfPool, Held, Distinct, assert_coins_properly_sent-Each}

abbrev luna : AssetInfo
luna = native_token (b'l' ∷ [])

abbrev astro : AssetInfo
astro = token (b'a' ∷ [])

abbrev sent : List Coin
sent = record { denom = b'l' ∷ []; coin_amount = 5 } ∷ []

abbrev provided : List Asset
provided = record { info = astro; amount = 7 } ∷ record { info = luna; amount = 5 } ∷ []

properly : assert_coins_properly_sent sent provided (luna ∷ astro ∷ []) ≡ ok tt
unfolding assert_coins_properly_sent contains equal text_eq all_unique infos_of is_empty check_input
    check_coin try_for_each amount_of
properly = refl

assert_coins_properly_sent-Each_example :
    Each (OfPool (luna ∷ astro ∷ [])) sent
    × Each (Held sent (luna ∷ astro ∷ [])) provided
    × Distinct (map (λ a. a.info) provided)
    × (0 < length provided)
assert_coins_properly_sent-Each_example =
    assert_coins_properly_sent-Each sent provided (luna ∷ astro ∷ []) (tt, tt) properly
