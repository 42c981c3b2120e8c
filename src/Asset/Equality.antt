-- ===== src/Asset/Equality.antt =====
-- The Boolean equalities decide equality.
use astroport_core.Common.{◌≡◌, ◌≢◌, refl, ap, ◌↔◌, true, false, [], ◌∷◌, arith}
use astroport_core.Asset.Types.{Text, text_eq, AssetInfo, token, native_token, equal}

pub text_eq_refl : (s : Text) → text_eq s s ≡ true
unfolding text_eq
text_eq_refl [] = refl
text_eq_refl (x ∷ xs) = ground (arith, text_eq_refl xs)

pub eq_of_text_eq : (s t : Text) → text_eq s t ≡ true → s ≡ t
unfolding text_eq
eq_of_text_eq [] [] h = refl
eq_of_text_eq [] (y ∷ ys) h = cc
eq_of_text_eq (x ∷ xs) [] h = cc
eq_of_text_eq (x ∷ xs) (y ∷ ys) h = ground (arith, eq_of_text_eq xs ys)

pub ne_of_text_eq : (s t : Text) → text_eq s t ≡ false → s ≢ t
ne_of_text_eq s t h e = ground (arith, h, ap (text_eq s) e, text_eq_refl s)

pub equal_refl : (a : AssetInfo) → equal a a ≡ true
unfolding equal
equal_refl (token c) = text_eq_refl c
equal_refl (native_token d) = text_eq_refl d

pub eq_of_equal : (a b : AssetInfo) → equal a b ≡ true → a ≡ b
unfolding equal
eq_of_equal (token c) (token d) h = ap token (eq_of_text_eq c d h)
eq_of_equal (native_token c) (native_token d) h = ap native_token (eq_of_text_eq c d h)
eq_of_equal (token c) (native_token d) h = cc
eq_of_equal (native_token c) (token d) h = cc

-- `AssetInfo::equal` answers true exactly on equal infos.
pub equal_iff : (a b : AssetInfo) → (equal a b ≡ true) ↔ (a ≡ b)
equal_iff a b = (eq_of_equal a b, λ e. ground (arith, ap (equal a) e, equal_refl a))

pub ne_of_equal : (a b : AssetInfo) → equal a b ≡ false → a ≢ b
ne_of_equal a b h e = ground (arith, h, ap (equal a) e, equal_refl a)
