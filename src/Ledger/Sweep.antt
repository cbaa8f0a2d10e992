-- ===== src/Ledger/Sweep.antt =====
-- The cleanup loop that deletes as it goes: `CleanupExpired` of expired_claim.go and `cleanupExpired`
-- of reveal_reservation.go.
use pod_backend.Common.{
  ℕ, ◌≡◌, refl, not, ◌&&◌, Option, none, some, List, [], ◌∷◌, ◌++◌, ℤ, ite, ◌≟◌, int_eq,
  if◌then◌else◌, arith,
}
use pod_backend.Common.Dict.{
  Dict, lookup, lookup-head, lookup-tail, delete, Unique, lookup-insert, lookup-delete,
}
use pod_backend.Entity.Reservation.{
  GameReservation, expired, is_active, is_expired, is_active_status,
}
use pod_backend.Ledger.{
  Ledger, Effect, record_expired, broadcast_released, get_active, close, notify,
}
use pod_backend.Ledger.Invariant.{Inv}
use pod_backend.Ledger.Limit.{Safe, close-Safe, delete-Safe}
use pod_backend.Wallet.{AddressLib}

pub record Swept : Type 0 where
  pub ledger : Ledger
  pub expired_games : List ℤ

module _ (lib : AddressLib) (now : ℕ) where
  -- The second `if` of a round: a reservation that is not active is deleted.
  reclaim : Ledger → ℤ → GameReservation → Ledger
  reclaim st g r =
      if not (is_active now r) then record st { reservations = delete g st.reservations } else st

  -- One round. The second test reads the status that the first branch has written.
  unfoldable pub visit_deleting : Swept → ℤ → GameReservation → Swept
  unfolding reclaim
  visit_deleting sw g r =
      if is_active_status r.status && is_expired now r
      then record {
        ledger = reclaim (close lib expired sw.ledger g r) g (record r { status = expired });
        expired_games = sw.expired_games ++ g ∷ [];
      }
      else record sw { ledger = reclaim sw.ledger g r }

  unfoldable pub sweep_deleting : Swept → Dict ℤ GameReservation → Swept
  sweep_deleting sw [] = sw
  sweep_deleting sw ((g, r) ∷ m) = sweep_deleting (visit_deleting sw g r) m

-- Counter and broadcast for each game whose reservation has expired.
unfoldable pub announce_expired : Ledger → List ℤ → List Effect
announce_expired st [] = []
announce_expired st (g ∷ gs) =
    notify st record_expired (broadcast_released g "expired") ++ announce_expired st gs

unfoldable pub cleanup_deleting : AddressLib → ℕ → Ledger → Ledger × List Effect
cleanup_deleting lib now st =
    let sw = sweep_deleting lib now (record { ledger = st; expired_games = [] }) st.reservations in
    (sw.ledger, announce_expired st sw.expired_games)

keep_if_active : ℕ → GameReservation → Option GameReservation → Option GameReservation
keep_if_active now r o = if is_active now r then o else none

-- Every entry stands under its own id.
abbrev pub Keyed : Dict ℤ GameReservation → Type 0
Keyed [] = Unit
Keyed ((g, r) ∷ m) = (r.game_id ≡ g) × Keyed m

pub Keyed-of_lookup :
    (m : Dict ℤ GameReservation)
    → Unique m
    → ((g : ℤ) (r : GameReservation) → lookup g m ≡ some r → r.game_id ≡ g)
    → Keyed m
Keyed-of_lookup [] u h = tt
Keyed-of_lookup ((g, r) ∷ m) u h = (
  h g r (lookup-head g r m),
  Keyed-of_lookup m u.1 (λ j s e. h j s (lookup-tail g r m j s u.0 e).1),
)

module _ (lib : AddressLib) (now : ℕ) where
  lookup-visit :
      (sw : Swept) (g : ℤ) (r : GameReservation) (j : ℤ)
      → lookup j (visit_deleting lib now sw g r).ledger.reservations
        ≡ ite
            (g ≟ j)
            (keep_if_active now r (lookup j sw.ledger.reservations))
            (lookup j sw.ledger.reservations)
  unfolding visit_deleting keep_if_active is_active close
  lookup-visit sw g r j = ground (
    arith,
    lookup-insert g j (record r { status = expired }) sw.ledger.reservations,
    lookup-delete g j (close lib expired sw.ledger g r).reservations,
    lookup-delete g j sw.ledger.reservations,
  )

  lookup-sweep :
      (sw : Swept) (m : Dict ℤ GameReservation) (j : ℤ)
      → Unique m
      → lookup j (sweep_deleting lib now sw m).ledger.reservations ≡ elim (lookup j m) [
        | none ↦ lookup j sw.ledger.reservations
        | some r ↦ keep_if_active now r (lookup j sw.ledger.reservations)
      ]
  unfolding sweep_deleting lookup
  lookup-sweep sw [] j u = refl
  lookup-sweep sw ((g, r) ∷ m) j u =
      ground (arith, lookup-sweep (visit_deleting lib now sw g r) m j u.1, lookup-visit sw g r j)

  -- After the loop the map holds, for every game, its reservation if that is active, unchanged, and
  -- nothing otherwise.
  pub lookup-cleanup_deleting :
      (st : Ledger) (j : ℤ)
      → Inv lib st
      → lookup j (cleanup_deleting lib now st).0.reservations ≡ get_active now st j
  unfolding cleanup_deleting get_active keep_if_active
  lookup-cleanup_deleting st j v =
      ground (
        arith,
        lookup-sweep (record { ledger = st; expired_games = [] }) st.reservations j v.unique,
      )

  visit_deleting-Safe :
      (sw : Swept) (g : ℤ) (r : GameReservation)
      → r.game_id ≡ g
      → Safe lib now sw.ledger
      → Safe lib now (visit_deleting lib now sw g r).ledger
  unfolding visit_deleting
  visit_deleting-Safe sw g r e s =
      let c = close-Safe lib expired now sw.ledger g r e refl s in
      ground (
        arith,
        c,
        delete-Safe lib now (close lib expired sw.ledger g r) g c,
        delete-Safe lib now sw.ledger g s,
      )

  sweep_deleting-Safe :
      (sw : Swept) (m : Dict ℤ GameReservation)
      → Keyed m
      → Safe lib now sw.ledger
      → Safe lib now (sweep_deleting lib now sw m).ledger
  unfolding sweep_deleting
  sweep_deleting-Safe sw [] k s = s
  sweep_deleting-Safe sw ((g, r) ∷ m) k s =
      sweep_deleting-Safe (visit_deleting lib now sw g r) m k.1 (visit_deleting-Safe sw g r k.0 s)

  pub cleanup_deleting-Safe :
      (st : Ledger) → Safe lib now st → Safe lib now (cleanup_deleting lib now st).0
  unfolding cleanup_deleting
  cleanup_deleting-Safe st s =
      sweep_deleting-Safe _ st.reservations
        (Keyed-of_lookup st.reservations s.inv.unique s.inv.keyed) s
