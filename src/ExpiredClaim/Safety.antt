-- ===== src/ExpiredClaim/Safety.antt =====
-- Histories of calls on the claims of ended games.
use pod_backend.Common.{
  ℕ, ◌≤◌, List, [], ◌∷◌, Text, ℤ, arith, Option-cases, inl, inr, refl, Bool, text_eq,
}
use pod_backend.Entity.Reservation.{GameReservation, released}
use pod_backend.Ledger.{
  World, Ledger, Config, index_of, collect_active, get_active, new_reservation,
}
use pod_backend.Ledger.Limit.{Safe, Safe-later, new_ledger-Safe, put-Safe, close_found-Safe}
use pod_backend.Ledger.Sweep.{cleanup_deleting-Safe}
use pod_backend.ExpiredClaim.{
  new_expired_claim_use_case, commit, claim, release_on_resolved, get, keep_actionable,
  list_by_wallet, release, cleanup_expired,
}
use pod_backend.Wallet.{AddressLib, normalize_reservation_wallet}

module _ (lib : AddressLib) (w : World) where
  claim-Safe :
      (st : Ledger) (g : ℤ) (wallet : Text)
      → Safe lib w.now st
      → Safe lib w.now (claim lib w st g wallet).0
  unfolding claim commit new_reservation
  claim-Safe st g wallet s =
      ground (arith, put-Safe lib w.now st g (new_reservation lib w.now st.timeout g wallet) refl)

  release_on_resolved-Safe :
      (st : Ledger) (g : ℤ) → Safe lib w.now st → Safe lib w.now (release_on_resolved lib w st g).0
  unfolding release_on_resolved
  release_on_resolved-Safe st g s = elim (Option-cases (get_active w.now st g)) [
    | inl e ↦ rw (e, release_on_resolved) s
    | inr (r, e) ↦ rw (e, release_on_resolved) (close_found-Safe lib released w.now st g r e refl s)
  ]

  get-Safe : (st : Ledger) (g : ℤ) → Safe lib w.now st → Safe lib w.now (get lib w st g).0
  unfolding get
  get-Safe st g s = ground (arith, release_on_resolved-Safe st g s)

  keep_actionable-Safe :
      (st : Ledger) (rs : List GameReservation)
      → Safe lib w.now st
      → Safe lib w.now (keep_actionable lib w st rs).0
  unfolding keep_actionable
  keep_actionable-Safe st [] s = s
  keep_actionable-Safe st (r ∷ rs) s = ground (
    arith,
    keep_actionable-Safe st rs s,
    keep_actionable-Safe (release_on_resolved lib w st r.game_id).0 rs
        (release_on_resolved-Safe st r.game_id s),
  )

  list_by_wallet-Safe :
      (st : Ledger) (wallet : Text)
      → Safe lib w.now st
      → Safe lib w.now (list_by_wallet lib w st wallet).0
  unfolding list_by_wallet
  list_by_wallet-Safe st wallet s =
      let ids = index_of (normalize_reservation_wallet lib wallet) st.wallet_reservations in
      ground (arith, keep_actionable-Safe st (collect_active w.now st.reservations ids) s)

  release-Safe :
      (st : Ledger) (g : ℤ) (wallet : Text)
      → Safe lib w.now st
      → Safe lib w.now (release lib w st g wallet).0
  unfolding release
  release-Safe st g wallet s = elim (Option-cases (get_active w.now st g)) [
    | inl e ↦ ground arith
    | inr (r, e) ↦ ground (arith, close_found-Safe lib released w.now st g r e refl s)
  ]

pub data Call : Type 0 where
  claims releases : ℤ → Text → Call
  resolves gets : ℤ → Call
  lists : Text → Call
  cleans : Call

unfoldable pub step : AddressLib → World → Ledger → Call → Ledger
step lib w st (claims g wallet) = (claim lib w st g wallet).0
step lib w st (releases g wallet) = (release lib w st g wallet).0
step lib w st (resolves g) = (release_on_resolved lib w st g).0
step lib w st (gets g) = (get lib w st g).0
step lib w st (lists wallet) = (list_by_wallet lib w st wallet).0
step lib w st cleans = (cleanup_expired lib w.now st).0

step-Safe :
    (lib : AddressLib) (w : World) (st : Ledger) (c : Call)
    → Safe lib w.now st
    → Safe lib w.now (step lib w st c)
unfolding step cleanup_expired
step-Safe lib w st (claims g wallet) s = claim-Safe lib w st g wallet s
step-Safe lib w st (releases g wallet) s = release-Safe lib w st g wallet s
step-Safe lib w st (resolves g) s = release_on_resolved-Safe lib w st g s
step-Safe lib w st (gets g) s = get-Safe lib w st g s
step-Safe lib w st (lists wallet) s = list_by_wallet-Safe lib w st wallet s
step-Safe lib w st cleans s = cleanup_deleting-Safe lib w.now st s

-- What calls can make of a ledger, in the order of time.
pub data Reaches (lib : AddressLib) (start : Ledger) : ℕ → Ledger → Type 0 where
  begins : (now : ℕ) → Reaches lib start now start
  calls :
      {now : ℕ} {st : Ledger} (w : World) (c : Call)
      → Reaches lib start now st
      → now ≤ w.now
      → Reaches lib start w.now (step lib w st c)

-- In every ledger that calls in the order of time make of a new expired-claim use case, games have one
-- entry, under their own id, each entry with the status `active` stands in the index of its wallet,
-- and no wallet holds more active claims than the configured limit.
pub claims_reached-Safe :
    (lib : AddressLib) (broadcast : Bool) (cfg : Config) {now : ℕ} {st : Ledger}
    → Reaches lib (new_expired_claim_use_case broadcast cfg) now st
    → Safe lib now st
unfolding new_expired_claim_use_case
claims_reached-Safe lib broadcast cfg (begins now) = new_ledger-Safe lib now _ _ broadcast cfg
claims_reached-Safe lib broadcast cfg (calls w c r h) =
    step-Safe lib w _ c (Safe-later lib h (claims_reached-Safe lib broadcast cfg r))
