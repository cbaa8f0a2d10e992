-- ===== src/Reservation/StaleIndex.antt =====
-- A reservation that has run out, and that no cleanup has reached yet, is overwritten by the next one
-- of its game. The index entry of the wallet that held it stays behind.
use pod_backend.Common.{
  ℕ, ◌≤◌, ◌<◌, ◌≡◌, refl, ◌≢◌, ◌∙◌, subst, true, some, Text, ℤ, ok, arith, int_eq, text_eq, ◌≟◌,
  ite, contains, contains-erase_ne, count-erase, count_if, erase, ◌++◌, [], ◌∷◌,
}
use pod_backend.Common.Dict.{lookup, lookup-insert, count-le}
use pod_backend.Entity.Reservation.{GameReservation, is_active, is_active_status}
use pod_backend.Ledger.{World, Ledger, index_of, holds_active, active_count, new_reservation, put}
use pod_backend.Ledger.Invariant.{Inv, put-Inv, index_of-insert}
use pod_backend.Ledger.Limit.{held, counts_for, counts_for-parts}
use pod_backend.Ledger.Reads.{new_reservation-is_active}
use pod_backend.Reservation.{reserve, commit}
use pod_backend.Wallet.{AddressLib, normalize_reservation_wallet}

module _ (lib : AddressLib) (now : ℕ) (st : Ledger) (g : ℤ) (old r : GameReservation) where
  abbrev key_of : GameReservation → Text
  key_of s = normalize_reservation_wallet lib s.wallet_address

  -- An entry for the game is overwritten by one of another wallet.
  record Overwrites : Type 0 where
    well_formed : Inv lib st
    was_there : lookup g st.reservations ≡ some old
    was_active : is_active_status old.status ≡ true
    own_id : r.game_id ≡ g
    is_new : is_active now r ≡ true
    others : key_of old ≢ key_of r

  index_kept :
      Overwrites
      → index_of (key_of old) (put lib st g r).wallet_reservations
        ≡ index_of (key_of old) st.wallet_reservations
  unfolding put
  index_kept o = ground (
    arith,
    o.others,
    index_of-insert (key_of r) (key_of old) (index_of (key_of r) st.wallet_reservations ++ g ∷ [])
        st.wallet_reservations,
  )

  lookup-put :
      (j : ℤ)
      → lookup j (put lib st g r).reservations ≡ ite (g ≟ j) (some r) (lookup j st.reservations)
  unfolding put
  lookup-put j = lookup-insert g j r st.reservations

  other_game :
      Overwrites
      → (j : ℤ) (s : GameReservation) → lookup j (put lib st g r).reservations ≡ some s
      → counts_for lib now (key_of old) s ≡ true
      → ¬ (g ≡ j)
  other_game o j s h t p =
      o.others (ground (arith, lookup-put j, (counts_for-parts lib now (key_of old) s t).2))

  game_taken : Overwrites → holds_active now (put lib st g r).reservations g ≡ true
  unfolding holds_active
  game_taken o = ground (arith, lookup-put g, o.is_new)

  held-le-rest :
      Overwrites
      → held lib now (put lib st g r) (key_of old)
        ≤ count_if
            (holds_active now (put lib st g r).reservations)
            (erase g (index_of (key_of old) (put lib st g r).wallet_reservations))
  unfolding held holds_active
  held-le-rest o =
      let v = put-Inv lib st g r o.own_id o.well_formed in
      count-le (counts_for lib now (key_of old)) _ (put lib st g r).reservations _ v.unique
        (λ j s h t.
          let (a, b, e) = counts_for-parts lib now (key_of old) s t in
          (
            contains-erase_ne g j _ (other_game o j s h t)
                ∙ subst (λ k. contains j (index_of k (put lib st g r).wallet_reservations) ≡ true) e
                    (v.indexed j s h a),
            rw (h, holds_active) b,
          ))

  overcounts :
      Overwrites
      → held lib now (put lib st g r) (key_of old) < active_count now (put lib st g r) (key_of old)
  unfolding active_count
  overcounts o =
      let ids = index_of (key_of old) st.wallet_reservations in
      let q = holds_active now (put lib st g r).reservations in
      let e = index_kept o in
      let rest = held-le-rest o in
      rw e (
        omega (
          arith,
          rw e at rest,
          count-erase q g ids (o.well_formed.indexed g old o.was_there o.was_active) (game_taken o),
        ))

overwrites :
    (lib : AddressLib) (w : World) (st : Ledger) (g : ℤ) (wallet : Text) (old : GameReservation)
    → Inv lib st
    → lookup g st.reservations ≡ some old
    → is_active_status old.status ≡ true
    → normalize_reservation_wallet lib old.wallet_address ≢ normalize_reservation_wallet lib wallet
    → Overwrites lib w.now st g old (new_reservation lib w.now st.timeout g wallet)
unfolding new_reservation
overwrites lib w st g wallet old v there on other = record {
  well_formed = v;
  was_there = there;
  was_active = on;
  own_id = refl;
  is_new = new_reservation-is_active lib w.now st.timeout g wallet;
  others = other;
}

-- The code's count for a wallet can be too high: when another wallet reserves a game whose earlier
-- reservation still says `active`, the holder of the earlier one is counted for the new one too, on
-- top of all that it holds.
pub reserve_overcounts :
    (lib : AddressLib) (w : World) (st : Ledger) (g : ℤ) (wallet : Text) (old r : GameReservation)
    → Inv lib st
    → lookup g st.reservations ≡ some old
    → is_active_status old.status ≡ true
    → normalize_reservation_wallet lib old.wallet_address ≢ normalize_reservation_wallet lib wallet
    → (reserve lib w st g wallet).1 ≡ ok r
    → let key = normalize_reservation_wallet lib old.wallet_address in
      held lib w.now (reserve lib w st g wallet).0 key
      < active_count w.now (reserve lib w st g wallet).0 key
unfolding reserve commit
reserve_overcounts lib w st g wallet old r v there on other h =
    let n = new_reservation lib w.now st.timeout g wallet in
    ground
      (arith, overcounts lib w.now st g old n (overwrites lib w st g wallet old v there on other))
