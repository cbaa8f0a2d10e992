-- ===== src/Wallet/Laws.antt =====
-- What normalization guarantees.
use pod_backend.Common.{◌≡◌, refl, Text, [], ◌∷◌, eqb, text_eq}
use pod_backend.Wallet.{AddressLib, normalize_reservation_wallet, same_reservation_wallet}

-- The comparison is equality of the normal form with the given text, the empty one included.
pub same_reservation_wallet_lem :
    (lib : AddressLib) (w n : Text)
    → same_reservation_wallet lib w n ≡ eqb (normalize_reservation_wallet lib w) n
unfolding same_reservation_wallet
same_reservation_wallet_lem lib w [] = refl
same_reservation_wallet_lem lib w (c ∷ n) = refl
