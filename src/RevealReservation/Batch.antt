-- ===== src/RevealReservation/Batch.antt =====
-- A batch of reveal reservations is taken as a whole or not at all.
use pod_backend.Common.{
  ◌+◌, ◌≤◌, ◌≡◌, refl, ◌⊎◌, inl, inr, true, false, none, some, List, [], ◌∷◌, Text, ℤ, ok, err,
  arith, int_eq, text_eq, contains, length, if◌then◌else◌, eqb, Outcome, Outcome-cases, Bool-cases,
  ltb,
}
use pod_backend.Entity.Errors.{Error, too_many_reveal_reservations, reveal_already_reserved}
use pod_backend.Entity.Reservation.{GameReservation}
use pod_backend.Ledger.{World, Effect, Ledger, get_active, new_reservation, put, active_count}
use pod_backend.Ledger.Invariant.{Inv, put-Inv}
use pod_backend.Ledger.Limit.{Safe, held, held-put-le, held-le-active_count}
use pod_backend.Ledger.Reads.{get_active-put, get_active_of_holds, new_reservation-is_active}
use pod_backend.RevealReservation.{any_active, put_all, commit, guard_batch, reserve_batch}
use pod_backend.Wallet.{AddressLib, normalize_reservation_wallet}

module _ (lib : AddressLib) (w : World) where
  put_all-timeout :
      (st : Ledger) (g : ℤ) (r : GameReservation) → (put lib st g r).timeout ≡ st.timeout
  unfolding put
  put_all-timeout st g r = refl

  get_active-put_all :
      (st : Ledger) (gs : List ℤ) (wallet : Text) (j : ℤ)
      → get_active w.now (put_all lib w st gs wallet).0 j ≡ (
          if contains j gs
          then some (new_reservation lib w.now st.timeout j wallet)
          else get_active w.now st j)
  unfolding put_all contains
  get_active-put_all st [] wallet j = refl
  get_active-put_all st (g ∷ gs) wallet j =
      let r = new_reservation lib w.now st.timeout g wallet in
      ground (
        arith,
        get_active-put_all (put lib st g r) gs wallet j,
        put_all-timeout st g r,
        get_active-put lib w.now st g j r (new_reservation-is_active lib w.now st.timeout g wallet),
      )

  free_of_any_active :
      (st : Ledger) (gs : List ℤ) (j : ℤ)
      → any_active lib w st gs ≡ false
      → contains j gs ≡ true
      → get_active w.now st j ≡ none
  unfolding any_active contains
  free_of_any_active st [] j h c = cc
  free_of_any_active st (g ∷ gs) j h c =
      ground (arith, free_of_any_active st gs j, get_active_of_holds w.now st j)

  free_or_absent :
      (st : Ledger) (gs : List ℤ) (j : ℤ)
      → any_active lib w st gs ≡ false
      → (contains j gs ≡ false) ⊎ (get_active w.now st j ≡ none)
  free_or_absent st gs j h = elim (Bool-cases (contains j gs)) [
    | inl c ↦ inr (free_of_any_active st gs j h c)
    | inr c ↦ inl c
  ]

  -- The two ways in which a batch may end, and what game `j` reads as afterwards.
  abbrev pub AllOrNothing :
      Ledger
      → List ℤ
      → Text
      → ℤ
      → Ledger × Outcome Error (List GameReservation) × List Effect
      → Type 0
  AllOrNothing st gs wallet j (st', result, _) =
      ((e : Error) × (result ≡ err e) × (st' ≡ st))
      ⊎ ((created : List GameReservation) × (result ≡ ok created)
          × ((contains j gs ≡ false) ⊎ (get_active w.now st j ≡ none))
          × (get_active w.now st' j ≡ (
              if contains j gs
              then some (new_reservation lib w.now st.timeout j wallet)
              else get_active w.now st j)))

  commit-AllOrNothing :
      (st : Ledger) (gs : List ℤ) (wallet : Text) (j : ℤ)
      → AllOrNothing st gs wallet j (commit lib w st gs wallet)
  unfolding commit
  commit-AllOrNothing st gs wallet j =
      elim (Bool-cases (
        ltb st.max_per_wallet
          (active_count w.now st (normalize_reservation_wallet lib wallet) + length gs))) [
            | inl h ↦ rw h (inl (too_many_reveal_reservations, refl, refl))
            | inr h ↦ elim (Bool-cases (any_active lib w st gs)) [
              | inl k ↦ rw (h, k) (inl (reveal_already_reserved, refl, refl))
              | inr k ↦
                  rw (h, k)
                    (inr (
                      (put_all lib w st gs wallet).1,
                      refl,
                      free_or_absent st gs j k,
                      get_active-put_all st gs wallet j,
                    ))
            ]
          ]

  -- `ReserveBatch` either fails and leaves the ledger as it was, or succeeds, and then each game of
  -- the batch was free, and now has an active reservation of the caller that starts now, while every
  -- other game reads as before.
  pub reserve_batch-AllOrNothing :
      (st : Ledger) (gs : List ℤ) (wallet : Text) (j : ℤ)
      → AllOrNothing st gs wallet j (reserve_batch lib w st gs wallet)
  unfolding reserve_batch
  reserve_batch-AllOrNothing st gs wallet j =
      elim (Outcome-cases (guard_batch lib w gs (normalize_reservation_wallet lib wallet))) [
        | inr (e, h) ↦ rw (h, reserve_batch) (inl (e, refl, refl))
        | inl (_, h) ↦ rw (h, reserve_batch) (commit-AllOrNothing st gs wallet j)
      ]

  put_all-Inv :
      (st : Ledger) (gs : List ℤ) (wallet : Text)
      → Inv lib st
      → Inv lib (put_all lib w st gs wallet).0
  unfolding put_all new_reservation
  put_all-Inv st [] wallet v = v
  put_all-Inv st (g ∷ gs) wallet v =
      put_all-Inv (put lib st g (new_reservation lib w.now st.timeout g wallet)) gs wallet
        (put-Inv lib st g (new_reservation lib w.now st.timeout g wallet) refl v)

  held-put_all-le :
      (st : Ledger) (gs : List ℤ) (wallet key : Text)
      → held lib w.now (put_all lib w st gs wallet).0 key
        ≤ held lib w.now st key
          + (if eqb (normalize_reservation_wallet lib wallet) key then length gs else 0)
  unfolding put_all new_reservation
  held-put_all-le st [] wallet key = ground arith
  held-put_all-le st (g ∷ gs) wallet key =
      let r = new_reservation lib w.now st.timeout g wallet in
      ground
        (arith, held-put_all-le (put lib st g r) gs wallet key, held-put-le lib w.now st g r key)

  put_all-max :
      (st : Ledger) (gs : List ℤ) (wallet : Text)
      → (put_all lib w st gs wallet).0.max_per_wallet ≡ st.max_per_wallet
  unfolding put_all put
  put_all-max st [] wallet = refl
  put_all-max st (g ∷ gs) wallet =
      put_all-max (put lib st g (new_reservation lib w.now st.timeout g wallet)) gs wallet

  put_all-Safe :
      (st : Ledger) (gs : List ℤ) (wallet : Text)
      → active_count w.now st (normalize_reservation_wallet lib wallet) + length gs
        ≤ st.max_per_wallet
      → Safe lib w.now st
      → Safe lib w.now (put_all lib w st gs wallet).0
  put_all-Safe st gs wallet room s = record {
    inv = put_all-Inv st gs wallet s.inv;
    within = λ key. ground (
      arith,
      s.within key,
      held-put_all-le st gs wallet key,
      put_all-max st gs wallet,
      held-le-active_count lib w.now st key s.inv,
    );
  }

  -- A batch keeps every wallet within its limit, however its games are chosen.
  pub reserve_batch-Safe :
      (st : Ledger) (gs : List ℤ) (wallet : Text)
      → Safe lib w.now st
      → Safe lib w.now (reserve_batch lib w st gs wallet).0
  unfolding reserve_batch commit
  reserve_batch-Safe st gs wallet s = ground (arith, put_all-Safe st gs wallet)
