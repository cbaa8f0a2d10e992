-- ===== src/RevealReservation/Safety.antt =====
-- Histories of calls on the reveal use case.
use pod_backend.Common.{ℕ, ◌≤◌, List, [], ◌∷◌, Text, ℤ, arith, Option-cases, inl, inr, refl, Bool}
use pod_backend.Entity.Reservation.{released}
use pod_backend.Ledger.{World, Ledger, Config, get_active}
use pod_backend.Ledger.Limit.{Safe, Safe-later, new_ledger-Safe, close_found-Safe}
use pod_backend.Ledger.Sweep.{cleanup_deleting-Safe}
use pod_backend.RevealReservation.{
  new_reveal_reservation_use_case, reserve, reserve_batch, cancel, release_on_terminal,
  cleanup_expired,
}
use pod_backend.RevealReservation.Batch.{reserve_batch-Safe}
use pod_backend.Wallet.{AddressLib}

module _ (lib : AddressLib) (w : World) where
  cancel-Safe :
      (st : Ledger) (g : ℤ) (wallet : Text)
      → Safe lib w.now st
      → Safe lib w.now (cancel lib w st g wallet).0
  unfolding cancel
  cancel-Safe st g wallet s = elim (Option-cases (get_active w.now st g)) [
    | inl e ↦ rw (e, cancel) s
    | inr (r, e) ↦ ground (arith, close_found-Safe lib released w.now st g r e refl s)
  ]

  release_on_terminal-Safe :
      (st : Ledger) (g : ℤ) → Safe lib w.now st → Safe lib w.now (release_on_terminal lib w st g).0
  unfolding release_on_terminal
  release_on_terminal-Safe st g s = elim (Option-cases (get_active w.now st g)) [
    | inl e ↦ rw (e, release_on_terminal) s
    | inr (r, e) ↦ rw (e, release_on_terminal) (close_found-Safe lib released w.now st g r e refl s)
  ]

-- The calls that change the ledger.
pub data Call : Type 0 where
  reserves : ℤ → Text → Call
  reserves_all : List ℤ → Text → Call
  cancels_by : ℤ → Text → Call
  terminates : ℤ → Call
  cleans : Call

unfoldable pub step : AddressLib → World → Ledger → Call → Ledger
step lib w st (reserves g wallet) = (reserve lib w st g wallet).0
step lib w st (reserves_all gs wallet) = (reserve_batch lib w st gs wallet).0
step lib w st (cancels_by g wallet) = (cancel lib w st g wallet).0
step lib w st (terminates g) = (release_on_terminal lib w st g).0
step lib w st cleans = (cleanup_expired lib w.now st).0

step-Safe :
    (lib : AddressLib) (w : World) (st : Ledger) (c : Call)
    → Safe lib w.now st
    → Safe lib w.now (step lib w st c)
unfolding step reserve cleanup_expired
step-Safe lib w st (reserves g wallet) s = reserve_batch-Safe lib w st (g ∷ []) wallet s
step-Safe lib w st (reserves_all gs wallet) s = reserve_batch-Safe lib w st gs wallet s
step-Safe lib w st (cancels_by g wallet) s = cancel-Safe lib w st g wallet s
step-Safe lib w st (terminates g) s = release_on_terminal-Safe lib w st g s
step-Safe lib w st cleans s = cleanup_deleting-Safe lib w.now st s

-- What calls can make of a ledger, in the order of time: the family holds of the time and the ledger
-- after the last one.
pub data Reaches (lib : AddressLib) (start : Ledger) : ℕ → Ledger → Type 0 where
  begins : (now : ℕ) → Reaches lib start now start
  calls :
      {now : ℕ} {st : Ledger} (w : World) (c : Call)
      → Reaches lib start now st
      → now ≤ w.now
      → Reaches lib start w.now (step lib w st c)

-- In every ledger that calls in the order of time make of a new reveal use case, games have one entry,
-- under their own id, each entry with the status `active` stands in the index of its wallet, and no
-- wallet holds more active reservations than the configured limit.
pub Reaches-Safe :
    (lib : AddressLib) (broadcast : Bool) (cfg : Config) {now : ℕ} {st : Ledger}
    → Reaches lib (new_reveal_reservation_use_case broadcast cfg) now st
    → Safe lib now st
unfolding new_reveal_reservation_use_case
Reaches-Safe lib broadcast cfg (begins now) = new_ledger-Safe lib now _ _ broadcast cfg
Reaches-Safe lib broadcast cfg (calls w c r h) =
    step-Safe lib w _ c (Safe-later lib h (Reaches-Safe lib broadcast cfg r))
