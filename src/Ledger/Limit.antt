-- ===== src/Ledger/Limit.antt =====
-- The limit of active reservations for a wallet, counted over the reservations themselves, and not
-- through the index as the code counts them.
use pod_backend.Common.{
  ℕ, ◌+◌, ◌≤◌, ◌<◌, ◌≡◌, refl, none, subst, Bool, true, false, ◌&&◌, some, Text, ℤ, contains, eqb,
  text_eq, int_eq, to_count, arith,
}
use pod_backend.Common.Dict.{
  lookup, delete, count, count-le, count-insert-le, count-delete-le, count_mono, lookup-delete,
  delete-Unique,
}
use pod_backend.Entity.Reservation.{
  GameReservation, ReservationStatus, is_active, is_expired, is_active_status,
}
use pod_backend.Wallet.{AddressLib, normalize_reservation_wallet}
use pod_backend.Ledger.{
  Config, new_ledger, Ledger, index_of, holds_active, active_count, get_active, put, close, forget,
}
use pod_backend.Ledger.Invariant.{Inv, put-Inv, close-Inv, forget-Inv}

-- An entry that is active now under a wallet.
pub counts_for : AddressLib → ℕ → Text → GameReservation → Bool
counts_for lib now key r =
    is_active now r && eqb (normalize_reservation_wallet lib r.wallet_address) key

-- How many reservations a wallet holds.
unfoldable pub held : AddressLib → ℕ → Ledger → Text → ℕ
unfolding counts_for
held lib now st key = count (counts_for lib now key) st.reservations

-- A well-formed ledger in which no wallet holds more than it may.
pub record Safe (lib : AddressLib) (now : ℕ) (st : Ledger) : Type 0 where
  pub inv : Inv lib st
  pub within : (key : Text) → held lib now st key ≤ st.max_per_wallet

module _ (lib : AddressLib) where
  pub counts_for-parts :
      (now : ℕ) (key : Text) (r : GameReservation)
      → counts_for lib now key r ≡ true
      → (is_active_status r.status ≡ true)
        × (is_active now r ≡ true)
        × (normalize_reservation_wallet lib r.wallet_address ≡ key)
  unfolding counts_for is_active
  counts_for-parts now key r t = ground arith

  counts_for-later :
      (now later : ℕ) (key : Text) (r : GameReservation)
      → now ≤ later
      → counts_for lib later key r ≡ true
      → counts_for lib now key r ≡ true
  unfolding counts_for is_active is_expired
  counts_for-later now later key r h t = ground arith

  -- The code's count through the index never misses a reservation.
  pub held-le-active_count :
      (now : ℕ) (st : Ledger) (key : Text)
      → Inv lib st
      → held lib now st key ≤ active_count now st key
  unfolding held active_count holds_active
  held-le-active_count now st key v =
      count-le (counts_for lib now key) (holds_active now st.reservations) st.reservations
        (index_of key st.wallet_reservations) v.unique
        (λ g r h t.
          let (a, b, e) = counts_for-parts now key r t in
          (
            subst (λ k. contains g (index_of k st.wallet_reservations) ≡ true) e
                (v.indexed g r h a),
            rw (h, holds_active) b,
          ))

  -- Reservations only run out as time goes by.
  pub Safe-later : {now later : ℕ} {st : Ledger} → now ≤ later → Safe lib now st → Safe lib later st
  unfolding held
  Safe-later {now} {later} {st} h s = record {
    inv = s.inv;
    within = λ key. omega (
      arith,
      s.within key,
      count_mono (counts_for lib later key) (counts_for lib now key)
          (λ r. counts_for-later now later key r h) st.reservations,
    );
  }

  pub put-Safe :
      (now : ℕ) (st : Ledger) (g : ℤ) (r : GameReservation)
      → r.game_id ≡ g
      → active_count now st (normalize_reservation_wallet lib r.wallet_address) < st.max_per_wallet
      → Safe lib now st
      → Safe lib now (put lib st g r)
  unfolding put held counts_for
  put-Safe now st g r e room s = record {
    inv = put-Inv lib st g r e s.inv;
    within = λ key. ground (
      arith,
      s.within key,
      count-insert-le (counts_for lib now key) g r st.reservations,
      held-le-active_count now st key s.inv,
    );
  }

  pub close-Safe :
      (status : ReservationStatus) (now : ℕ) (st : Ledger) (g : ℤ) (r : GameReservation)
      → r.game_id ≡ g
      → is_active_status status ≡ false
      → Safe lib now st
      → Safe lib now (close lib status st g r)
  unfolding close held counts_for is_active
  close-Safe status now st g r e off s = record {
    inv = close-Inv lib status st g r e off s.inv;
    within = λ key. ground (
      arith,
      s.within key,
      count-insert-le (counts_for lib now key) g (record r { status = status }) st.reservations,
    );
  }

  pub forget-Safe :
      (now : ℕ) (st : Ledger) (g : ℤ) (r : GameReservation)
      → Safe lib now st
      → Safe lib now (forget lib st g r)
  unfolding forget held
  forget-Safe now st g r s = record {
    inv = forget-Inv lib st g r s.inv;
    within = λ key.
        omega (arith, s.within key, count-delete-le (counts_for lib now key) g st.reservations);
  }

module _ (lib : AddressLib) where
  -- Deleting an entry alone keeps the ledger safe: its index entry may stay behind.
  pub delete-Safe :
      (now : ℕ) (st : Ledger) (g : ℤ)
      → Safe lib now st
      → Safe lib now (record st { reservations = delete g st.reservations })
  unfolding held
  delete-Safe now st g s = record {
    inv = record {
      unique = delete-Unique g st.reservations s.inv.unique;
      keyed = λ j r h. ground (arith, lookup-delete g j st.reservations, s.inv.keyed j r);
      indexed = λ j r h a. ground (arith, lookup-delete g j st.reservations, s.inv.indexed j r);
    };
    within = λ key.
        omega (arith, s.within key, count-delete-le (counts_for lib now key) g st.reservations);
  }

-- A reservation that `get_active` returns stands in the map, and is active.
pub get_active-some :
    (now : ℕ) (st : Ledger) (g : ℤ) (r : GameReservation)
    → get_active now st g ≡ some r
    → (lookup g st.reservations ≡ some r) × (is_active now r ≡ true)
unfolding get_active
get_active-some now st g r h = ground arith

pub get_active_of_lookup :
    (now : ℕ) (st : Ledger) (g : ℤ) (r : GameReservation)
    → lookup g st.reservations ≡ some r
    → is_active now r ≡ true
    → get_active now st g ≡ some r
unfolding get_active
get_active_of_lookup now st g r h a = ground arith

module _ (lib : AddressLib) where
  -- Closing the reservation that was found keeps the ledger safe.
  pub close_found-Safe :
      (status : ReservationStatus) (now : ℕ) (st : Ledger) (g : ℤ) (r : GameReservation)
      → get_active now st g ≡ some r
      → is_active_status status ≡ false
      → Safe lib now st
      → Safe lib now (close lib status st g r)
  close_found-Safe status now st g r h off s =
      close-Safe lib status now st g r (s.inv.keyed g r (get_active-some now st g r h).0) off s

  pub new_ledger-Safe :
      (now timeout max : ℕ) (broadcast : Bool) (cfg : Config)
      → Safe lib now (new_ledger timeout max broadcast cfg)
  unfolding new_ledger held lookup count
  new_ledger-Safe now timeout max broadcast cfg = record {
    inv = record { unique = tt; keyed = λ g r h. cc; indexed = λ g r h a. cc };
    within = λ key. omega arith;
  }

  -- Closing the reservation of a game, if there is one.
  pub get_active-keyed :
      (now : ℕ) (st : Ledger) (g : ℤ) (r : GameReservation)
      → Inv lib st
      → get_active now st g ≡ some r
      → r.game_id ≡ g
  get_active-keyed now st g r v h = v.keyed g r (get_active-some now st g r h).0

  -- A new entry adds at most itself to what its wallet holds, and nothing to the other wallets.
  pub held-put-le :
      (now : ℕ) (st : Ledger) (g : ℤ) (r : GameReservation) (key : Text)
      → held lib now (put lib st g r) key
        ≤ held lib now st key
          + to_count (eqb (normalize_reservation_wallet lib r.wallet_address) key)
  unfolding held put counts_for
  held-put-le now st g r key =
      ground (arith, count-insert-le (counts_for lib now key) g r st.reservations)

-- A new ledger has no reservation.
pub new_ledger-free :
    (now timeout max : ℕ) (broadcast : Bool) (cfg : Config) (g : ℤ)
    → get_active now (new_ledger timeout max broadcast cfg) g ≡ none
unfolding get_active new_ledger lookup
new_ledger-free now timeout max broadcast cfg g = refl
