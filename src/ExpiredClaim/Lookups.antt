-- ===== src/ExpiredClaim/Lookups.antt =====
-- Reading a claim fails only if the lookup of its game does.
use pod_backend.Common.{◌≡◌, Option, ℤ, Outcome-cases, ok, inl, inr, int_eq, arith}
use pod_backend.Entity.Game.{Game}
use pod_backend.Entity.Reservation.{GameReservation}
use pod_backend.ExpiredClaim.{get, is_claim_game_actionable}
use pod_backend.Ledger.{World, Ledger}
use pod_backend.Wallet.{AddressLib}

pub get_ok :
    (lib : AddressLib) (w : World) (st : Ledger) (g : ℤ) (o : Option Game)
    → w.get_by_id g ≡ ok o
    → (r : Option GameReservation) × ((get lib w st g).1 ≡ ok r)
unfolding get is_claim_game_actionable
get_ok lib w st g o h = elim (Outcome-cases (get lib w st g).1) [
  | inl found ↦ found
  | inr (e, p) ↦ absurd (ground arith)
]
