-- ===== src/Ledger/Reads.antt =====
-- What `get_active` reads after each step on a ledger.
use pod_backend.Common.{
  ℕ, leb, ◌+◌, ◌≤◌, ◌≡◌, true, false, none, some, ite, ◌≟◌, if◌then◌else◌, ℤ, int_eq, Text, arith,
}
use pod_backend.Common.Dict.{lookup-insert, lookup-delete}
use pod_backend.Entity.Reservation.{
  GameReservation, ReservationStatus, is_active, is_expired, is_active_status,
}
use pod_backend.Ledger.{
  Ledger, peer_holds, get_active, holds_active, new_reservation, put, close, forget,
}
use pod_backend.Wallet.{AddressLib}

pub holds_active-get_active :
    (now : ℕ) (st : Ledger) (g : ℤ)
    → get_active now st g ≡ none
    → holds_active now st.reservations g ≡ false
unfolding holds_active get_active
holds_active-get_active now st g h = ground arith

pub get_active_of_holds :
    (now : ℕ) (st : Ledger) (g : ℤ)
    → holds_active now st.reservations g ≡ false
    → get_active now st g ≡ none
unfolding holds_active get_active
get_active_of_holds now st g h = ground arith

module _ (lib : AddressLib) where
  -- A new reservation is active when it is made.
  pub new_reservation-is_active :
      (now timeout : ℕ) (g : ℤ) (wallet : Text)
      → is_active now (new_reservation lib now timeout g wallet) ≡ true
  unfolding new_reservation is_active is_expired
  new_reservation-is_active now timeout g wallet = ground arith

  -- It is active up to the end of the timeout.
  pub new_reservation-is_active_until :
      (now timeout at : ℕ) (g : ℤ) (wallet : Text)
      → is_active at (new_reservation lib now timeout g wallet) ≡ leb at (now + timeout)
  unfolding new_reservation is_active is_expired
  new_reservation-is_active_until now timeout at g wallet = ground arith

  pub get_active-put :
      (now : ℕ) (st : Ledger) (g j : ℤ) (r : GameReservation)
      → is_active now r ≡ true
      → get_active now (put lib st g r) j ≡ ite (g ≟ j) (some r) (get_active now st j)
  unfolding get_active put
  get_active-put now st g j r a = ground (arith, lookup-insert g j r st.reservations)

  -- What is put is read as long as it is active, and hides what was there before.
  pub get_active-put_any :
      (now : ℕ) (st : Ledger) (g j : ℤ) (r : GameReservation)
      → get_active now (put lib st g r) j
        ≡ ite (g ≟ j) (if is_active now r then some r else none) (get_active now st j)
  unfolding get_active put
  get_active-put_any now st g j r = ground (arith, lookup-insert g j r st.reservations)

  pub get_active-close :
      (status : ReservationStatus) (now : ℕ) (st : Ledger) (g j : ℤ) (r : GameReservation)
      → is_active_status status ≡ false
      → get_active now (close lib status st g r) j ≡ ite (g ≟ j) none (get_active now st j)
  unfolding get_active close is_active
  get_active-close status now st g j r off =
      ground (arith, lookup-insert g j (record r { status = status }) st.reservations)

  pub get_active-forget :
      (now : ℕ) (st : Ledger) (g j : ℤ) (r : GameReservation)
      → get_active now (forget lib st g r) j ≡ ite (g ≟ j) none (get_active now st j)
  unfolding get_active forget
  get_active-forget now st g j r = ground (arith, lookup-delete g j st.reservations)

-- At a later time a reservation is still active, or there is none.
pub get_active-later :
    (now later : ℕ) (st : Ledger) (g : ℤ) (r : GameReservation)
    → now ≤ later
    → get_active now st g ≡ some r
    → later ≤ r.expires_at
    → get_active later st g ≡ some r
unfolding get_active is_active is_expired
get_active-later now later st g r h e b = ground arith

-- What is not active now is not active later.
pub get_active-none-later :
    (now later : ℕ) (st : Ledger) (g : ℤ)
    → now ≤ later
    → get_active now st g ≡ none
    → get_active later st g ≡ none
unfolding get_active is_active is_expired
get_active-none-later now later st g h e = ground arith

pub peer_holds-none :
    (now : ℕ) (p : Ledger) (g : ℤ) → peer_holds now (some p) g ≡ false → get_active now p g ≡ none
unfolding peer_holds
peer_holds-none now p g h = ground arith

-- Nothing is active in the second ledger that is not active in the first.
abbrev pub Shrinks : ℕ → Ledger → Ledger → Type 0
Shrinks now st st' = (j : ℤ) → get_active now st j ≡ none → get_active now st' j ≡ none

module _ (lib : AddressLib) (now : ℕ) where
  pub close-Shrinks :
      (status : ReservationStatus) (st : Ledger) (g : ℤ) (r : GameReservation)
      → is_active_status status ≡ false
      → Shrinks now st (close lib status st g r)
  close-Shrinks status st g r off j h = ground (arith, get_active-close lib status now st g j r off)

  pub forget-Shrinks :
      (st : Ledger) (g : ℤ) (r : GameReservation) → Shrinks now st (forget lib st g r)
  forget-Shrinks st g r j h = ground (arith, get_active-forget lib now st g j r)
