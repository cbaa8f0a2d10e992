-- ===== src/Reservation/Cleanup.antt =====
-- `CleanupExpired` of internal/usecase/reservation.go: what is left in the ledger after the loop.
use pod_backend.Common.{
  ℕ, ◌≡◌, refl, Option, none, some, List, [], ◌∷◌, ℤ, ite, ◌≟◌, int_eq, contains, contains-append,
  arith, if◌then◌else◌,
}
use pod_backend.Common.Dict.{Dict, lookup, delete, lookup-insert, lookup-delete, Unique}
use pod_backend.Entity.Reservation.{GameReservation, expired, is_active}
use pod_backend.Ledger.{Ledger, get_active, close}
use pod_backend.Ledger.Invariant.{Inv}
use pod_backend.Ledger.Sweep.{Keyed, Keyed-of_lookup}
use pod_backend.Ledger.Limit.{Safe, close-Safe, delete-Safe}
use pod_backend.Reservation.{Sweep, visit, sweep, delete_all, cleanup_expired}
use pod_backend.Wallet.{AddressLib}

-- What the map will hold for a game once the stale entries are deleted.
after_delete : Sweep → ℤ → Option GameReservation
after_delete sw j = if contains j sw.stale then none else lookup j sw.ledger.reservations

lookup-delete_all :
    (st : Ledger) (gs : List ℤ) (j : ℤ)
    → lookup j (delete_all st gs).reservations
      ≡ (if contains j gs then none else lookup j st.reservations)
unfolding delete_all contains
lookup-delete_all st [] j = refl
lookup-delete_all st (g ∷ gs) j = ground (
  arith,
  lookup-delete_all (record st { reservations = delete g st.reservations }) gs j,
  lookup-delete g j st.reservations,
)

keep_if_active : ℕ → GameReservation → Option GameReservation → Option GameReservation
keep_if_active now r o = if is_active now r then o else none

module _ (lib : AddressLib) (now : ℕ) where
  after_delete-visit :
      (sw : Sweep) (g : ℤ) (r : GameReservation) (j : ℤ)
      → after_delete (visit lib now sw g r) j
        ≡ ite (g ≟ j) (keep_if_active now r (after_delete sw j)) (after_delete sw j)
  unfolding after_delete visit keep_if_active is_active close contains
  after_delete-visit sw g r j = ground (
    arith,
    contains-append j sw.stale (g ∷ []),
    lookup-insert g j (record r { status = expired }) sw.ledger.reservations,
  )

  after_delete-sweep :
      (sw : Sweep) (m : Dict ℤ GameReservation) (j : ℤ)
      → Unique m
      → after_delete (sweep lib now sw m) j ≡ elim (lookup j m) [
        | none ↦ after_delete sw j
        | some r ↦ keep_if_active now r (after_delete sw j)
      ]
  unfolding sweep lookup
  after_delete-sweep sw [] j u = refl
  after_delete-sweep sw ((g, r) ∷ m) j u =
      ground (arith, after_delete-sweep (visit lib now sw g r) m j u.1, after_delete-visit sw g r j)

  -- After a cleanup the map holds, for every game, its reservation if that is active, unchanged, and
  -- nothing otherwise.
  pub lookup-cleanup_expired :
      (st : Ledger) (j : ℤ)
      → Inv lib st
      → lookup j (cleanup_expired lib now st).0.reservations ≡ get_active now st j
  unfolding cleanup_expired get_active after_delete keep_if_active contains
  lookup-cleanup_expired st j v =
      let start : Sweep = record { ledger = st; expired_games = []; stale = [] } in
      let done = sweep lib now start st.reservations in
      ground (
        arith,
        lookup-delete_all done.ledger done.stale j,
        after_delete-sweep start st.reservations j v.unique,
      )

module _ (lib : AddressLib) (now : ℕ) where
  visit-Safe :
      (sw : Sweep) (g : ℤ) (r : GameReservation)
      → r.game_id ≡ g
      → Safe lib now sw.ledger
      → Safe lib now (visit lib now sw g r).ledger
  unfolding visit
  visit-Safe sw g r e s = ground (arith, close-Safe lib expired now sw.ledger g r e refl s)

  sweep-Safe :
      (sw : Sweep) (m : Dict ℤ GameReservation)
      → Keyed m
      → Safe lib now sw.ledger
      → Safe lib now (sweep lib now sw m).ledger
  unfolding sweep
  sweep-Safe sw [] k s = s
  sweep-Safe sw ((g, r) ∷ m) k s = sweep-Safe (visit lib now sw g r) m k.1 (visit-Safe sw g r k.0 s)

  delete_all-Safe : (st : Ledger) (gs : List ℤ) → Safe lib now st → Safe lib now (delete_all st gs)
  unfolding delete_all
  delete_all-Safe st [] s = s
  delete_all-Safe st (g ∷ gs) s =
      delete_all-Safe (record st { reservations = delete g st.reservations }) gs
        (delete-Safe lib now st g s)

  pub cleanup_expired-Safe :
      (st : Ledger) → Safe lib now st → Safe lib now (cleanup_expired lib now st).0
  unfolding cleanup_expired
  cleanup_expired-Safe st s =
      delete_all-Safe _ _
        (sweep-Safe _ st.reservations (Keyed-of_lookup st.reservations s.inv.unique s.inv.keyed) s)
