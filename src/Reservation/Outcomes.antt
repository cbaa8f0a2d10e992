-- ===== src/Reservation/Outcomes.antt =====
-- When `Reserve` and `Cancel` of the join use case succeed, and what they leave.
use pod_backend.Common.{
  ℕ, leb, ◌+◌, if◌then◌else◌, ◌<◌, ◌≡◌, refl, ◌≢◌, ◌↔◌, false, Option, none, some, [], Text, ℤ, ok,
  err, arith, ite, ◌≟◌, int_eq, text_eq, eqb_ℤ_iff, Option-cases, Outcome-cases, inl, inr, ◌⊎◌,
}
use pod_backend.Entity.Game.{Game, status_waiting_for_opponent}
use pod_backend.Entity.Errors.{
  Error, game_cancellation_pending, reservation_not_found, not_reservation_holder,
}
use pod_backend.Entity.Reservation.{GameReservation, released}
use pod_backend.Ledger.{
  peer_holds, World, Ledger, get_active, new_reservation, active_count, notify_error,
}
use pod_backend.Ledger.Reads.{
  holds_active-get_active, get_active_of_holds, get_active-put, get_active-put_any,
  get_active-close, new_reservation-is_active, new_reservation-is_active_until,
}
use pod_backend.Reservation.{check_game, admit, commit, reserve, cancel}
use pod_backend.Wallet.{AddressLib, normalize_reservation_wallet}
use pod_backend.Wallet.Laws.{same_reservation_wallet_lem}

-- The active cancel reservation of a game, if the cancel use case is wired.
abbrev pub cancel_in_progress : World → ℤ → Option GameReservation
cancel_in_progress w g = elim w.peer [ none ↦ none | some c ↦ get_active w.now c g ]

-- The conditions of a reservation, in the terms of the domain.
pub record MayReserve (lib : AddressLib) (w : World) (st : Ledger) (g : ℤ) (wallet : Text)
    : Type 0 where
  pub game : Game
  pub found : w.get_by_id g ≡ ok (some game)
  pub waiting : game.status ≡ status_waiting_for_opponent
  pub not_own :
      normalize_reservation_wallet lib game.player_one_address
      ≢ normalize_reservation_wallet lib wallet
  pub not_cancelling : cancel_in_progress w g ≡ none
  pub free : get_active w.now st g ≡ none
  pub room : active_count w.now st (normalize_reservation_wallet lib wallet) < st.max_per_wallet

module _ (lib : AddressLib) (w : World) where
  peer_holds-false : (g : ℤ) → cancel_in_progress w g ≡ none → peer_holds w.now w.peer g ≡ false
  unfolding peer_holds
  peer_holds-false g h = ground arith

  cancel_in_progress-none :
      (g : ℤ) → peer_holds w.now w.peer g ≡ false → cancel_in_progress w g ≡ none
  unfolding peer_holds
  cancel_in_progress-none g h = ground arith

  reserve_of_MayReserve :
      (st : Ledger) (g : ℤ) (wallet : Text)
      → MayReserve lib w st g wallet
      → (reserve lib w st g wallet).1 ≡ ok (new_reservation lib w.now st.timeout g wallet)
  unfolding reserve admit check_game commit
  reserve_of_MayReserve st g wallet m =
      let key = normalize_reservation_wallet lib wallet in
      ground (
        arith,
        m.found,
        eqb_ℤ_iff m.game.status status_waiting_for_opponent,
        same_reservation_wallet_lem lib m.game.player_one_address key,
        peer_holds-false g m.not_cancelling,
        holds_active-get_active w.now st g m.free,
      )

  -- What a successful call says of the game that it has found.
  MayReserve-of_found :
      (st : Ledger) (g : ℤ) (wallet : Text) (r : GameReservation) (game : Game)
      → w.get_by_id g ≡ ok (some game)
      → (reserve lib w st g wallet).1 ≡ ok r
      → MayReserve lib w st g wallet
  unfolding reserve admit check_game commit
  MayReserve-of_found st g wallet r game e h =
      let key = normalize_reservation_wallet lib wallet in
      record {
        game = game;
        found = e;
        waiting = ground (arith, eqb_ℤ_iff game.status status_waiting_for_opponent);
        not_own = ground (arith, same_reservation_wallet_lem lib game.player_one_address key);
        not_cancelling = ground (arith, cancel_in_progress-none g);
        free = ground (arith, get_active_of_holds w.now st g);
        room = ground arith;
      }

  MayReserve-of_ok :
      (st : Ledger) (g : ℤ) (wallet : Text) (r : GameReservation)
      → (reserve lib w st g wallet).1 ≡ ok r
      → MayReserve lib w st g wallet
  unfolding reserve admit check_game
  MayReserve-of_ok st g wallet r h = elim (Outcome-cases (w.get_by_id g)) [
    | inr (x, e) ↦ absurd (ground arith)
    | inl (o, e) ↦ elim (Option-cases o) [
      | inl n ↦ absurd (ground arith)
      | inr (game, n) ↦ MayReserve-of_found st g wallet r game (rw (← n) e) h
    ]
  ]

  -- `Reserve` succeeds exactly when the game is there and waits for an opponent, belongs to another
  -- wallet, is not being cancelled and has no active reservation, and the index shows fewer active
  -- reservations of the wallet than the limit.
  pub reserve_ok_iff :
      (st : Ledger) (g : ℤ) (wallet : Text)
      → ((r : GameReservation) × ((reserve lib w st g wallet).1 ≡ ok r))
        ↔ MayReserve lib w st g wallet
  reserve_ok_iff st g wallet = (
    λ p. MayReserve-of_ok st g wallet p.0 p.1,
    λ m. (new_reservation lib w.now st.timeout g wallet, reserve_of_MayReserve st g wallet m),
  )

  -- The reservation of a successful call is the new one, and active at once.
  pub reserve_takes :
      (st : Ledger) (g j : ℤ) (wallet : Text) (r : GameReservation)
      → (reserve lib w st g wallet).1 ≡ ok r
      → (r ≡ new_reservation lib w.now st.timeout g wallet)
        × (get_active w.now (reserve lib w st g wallet).0 j
            ≡ ite (g ≟ j) (some r) (get_active w.now st j))
  unfolding reserve commit
  reserve_takes st g j wallet r h =
      let n = new_reservation lib w.now st.timeout g wallet in
      ground (
        arith,
        get_active-put lib w.now st g j n (new_reservation-is_active lib w.now st.timeout g wallet),
      )

  -- A successful `Reserve` returns a reservation of the game and the wallet, made at the time of the
  -- call. As long as nothing else is called, the game reads as it at each time up to the end of the
  -- timeout, and as free at each time past that; what every other game reads, at any time, is as before.
  pub reserve-get_active :
      (st : Ledger) (g j : ℤ) (wallet : Text) (r : GameReservation) (at : ℕ)
      → (reserve lib w st g wallet).1 ≡ ok r
      → (r.game_id ≡ g)
        × (r.wallet_address ≡ wallet)
        × (r.created_at ≡ w.now)
        × (get_active at (reserve lib w st g wallet).0 j
            ≡ ite
                (g ≟ j)
                (if leb at (w.now + st.timeout) then some r else none)
                (get_active at st j))
  unfolding reserve commit new_reservation
  reserve-get_active st g j wallet r at h =
      let n = new_reservation lib w.now st.timeout g wallet in
      ground (
        arith,
        get_active-put_any lib at st g j n,
        new_reservation-is_active_until lib w.now st.timeout at g wallet,
      )

  -- A call that fails leaves the ledger as it was, and announces nothing but the error counter of a
  -- cancellation that is in progress.
  pub reserve-err_unchanged :
      (st : Ledger) (g : ℤ) (wallet : Text) (e : Error)
      → (reserve lib w st g wallet).1 ≡ err e
      → ((reserve lib w st g wallet).0 ≡ st)
        × (((reserve lib w st g wallet).2 ≡ [])
            ⊎ ((e ≡ game_cancellation_pending)
                × (cancel_in_progress w g ≢ none)
                × ((reserve lib w st g wallet).2 ≡ notify_error st "cancel_pending")))
  unfolding reserve admit check_game commit
  reserve-err_unchanged st g wallet e h = ground (arith, peer_holds-false g)

  -- The three outcomes of `Cancel`, and what game `j` reads as afterwards.
  abbrev pub CancelCases : Ledger → ℤ → ℤ → Text → Type 0
  CancelCases st g j wallet =
      let (st', result, _) = cancel lib w st g wallet in
      ((get_active w.now st g ≡ none) × (st' ≡ st) × (result ≡ err reservation_not_found))
      ⊎ ((r : GameReservation) × (get_active w.now st g ≡ some r)
          × (((normalize_reservation_wallet lib r.wallet_address
                  ≢ normalize_reservation_wallet lib wallet)
                × (st' ≡ st)
                × (result ≡ err not_reservation_holder))
              ⊎ ((normalize_reservation_wallet lib r.wallet_address
                    ≡ normalize_reservation_wallet lib wallet)
                  × (result ≡ ok tt)
                  × (get_active w.now st' j ≡ ite (g ≟ j) none (get_active w.now st j)))))

  -- `Cancel` either finds no active reservation of the game and fails, or finds one of another wallet
  -- and fails, both without a change, or finds one of the caller's wallet, succeeds, and leaves that
  -- game without a reservation and every other game as before.
  pub cancel_cases : (st : Ledger) (g j : ℤ) (wallet : Text) → CancelCases st g j wallet
  unfolding cancel
  cancel_cases st g j wallet = elim (Option-cases (get_active w.now st g)) [
    | inl e ↦ inl (e, rw (e, cancel), rw (e, cancel))
    | inr (r, e) ↦ inr (
      r,
      e,
      ground (
        arith,
        same_reservation_wallet_lem lib r.wallet_address (normalize_reservation_wallet lib wallet),
        get_active-close lib released w.now st g j r refl,
      ),
    )
  ]
