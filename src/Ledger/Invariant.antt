-- ===== src/Ledger/Invariant.antt =====
-- The well-formedness of a ledger, and that each step keeps it.
use pod_backend.Common.{
  ◌≡◌, ap, true, false, some, List, [], ◌∷◌, ◌++◌, Text, ℤ, ite, contains, contains-append,
  contains-append_self, contains-erase_ne, erase, ◌≟◌, text_eq, int_eq, arith,
}
use pod_backend.Common.Dict.{
  Dict, lookup, insert, lookup-insert, lookup-delete, Unique, insert-Unique, delete-Unique,
}
use pod_backend.Entity.Reservation.{GameReservation, ReservationStatus, is_active_status}
use pod_backend.Wallet.{AddressLib, normalize_reservation_wallet}
use pod_backend.Ledger.{Ledger, index_of, store_ids, remove_from_wallet_index, put, close, forget}

-- Games have one entry, stored under their own id, and every entry that still says `active` stands in
-- the index of its wallet.
pub record Inv (lib : AddressLib) (st : Ledger) : Type 0 where
  pub unique : Unique st.reservations
  pub keyed : (g : ℤ) (r : GameReservation) → lookup g st.reservations ≡ some r → r.game_id ≡ g
  pub indexed :
      (g : ℤ) (r : GameReservation)
      → lookup g st.reservations ≡ some r
      → is_active_status r.status ≡ true
      → contains g
          (index_of (normalize_reservation_wallet lib r.wallet_address) st.wallet_reservations)
        ≡ true

pub index_of-insert :
    (k j : Text) (ids : List ℤ) (m : Dict Text (List ℤ))
    → index_of j (insert k ids m) ≡ ite (k ≟ j) ids (index_of j m)
unfolding index_of
index_of-insert k j ids m = ground (arith, lookup-insert k j ids m)

index_of-store_ids :
    (k j : Text) (ids : List ℤ) (m : Dict Text (List ℤ))
    → index_of j (store_ids k ids m) ≡ ite (k ≟ j) ids (index_of j m)
unfolding index_of store_ids
index_of-store_ids k j [] m = ground (arith, lookup-delete k j m)
index_of-store_ids k j (g ∷ ids) m = ground (arith, lookup-insert k j (g ∷ ids) m)

-- Removing one game from a wallet's index keeps all other games in all indices.
pub contains-remove_ne :
    (lib : AddressLib) (wallet key : Text) (g j : ℤ) (m : Dict Text (List ℤ))
    → ¬ (g ≡ j)
    → contains j (index_of key (remove_from_wallet_index lib wallet g m))
      ≡ contains j (index_of key m)
unfolding remove_from_wallet_index
contains-remove_ne lib wallet key g j m n =
    let k = normalize_reservation_wallet lib wallet in
    ground (
      arith,
      index_of-store_ids k key (erase g (index_of k m)) m,
      contains-erase_ne g j (index_of k m) n,
      ap (λ i. index_of i m) {x = k} {y = key},
    )

module _ (lib : AddressLib) where
  pub put-Inv :
      (st : Ledger) (g : ℤ) (r : GameReservation)
      → r.game_id ≡ g
      → Inv lib st
      → Inv lib (put lib st g r)
  unfolding put
  put-Inv st g r e v = record {
    unique = insert-Unique g r st.reservations v.unique;
    keyed = λ j s h. ground (arith, lookup-insert g j r st.reservations, v.keyed j s);
    indexed = λ j s h a.
        let k = normalize_reservation_wallet lib r.wallet_address in
        let k' = normalize_reservation_wallet lib s.wallet_address in
        let ids = index_of k st.wallet_reservations in
        ground (
          arith,
          lookup-insert g j r st.reservations,
          index_of-insert k k' (ids ++ g ∷ []) st.wallet_reservations,
          contains-append_self g ids,
          contains-append j ids (g ∷ []),
          v.indexed j s,
        );
  }

  pub close-Inv :
      (status : ReservationStatus) (st : Ledger) (g : ℤ) (r : GameReservation)
      → r.game_id ≡ g
      → is_active_status status ≡ false
      → Inv lib st
      → Inv lib (close lib status st g r)
  unfolding close
  close-Inv status st g r e off v = record {
    unique = insert-Unique g (record r { status = status }) st.reservations v.unique;
    keyed = λ j s h.
        ground
          (arith, lookup-insert g j (record r { status = status }) st.reservations, v.keyed j s);
    indexed = λ j s h a. ground (
      arith,
      lookup-insert g j (record r { status = status }) st.reservations,
      contains-remove_ne lib r.wallet_address (normalize_reservation_wallet lib s.wallet_address) g
          j st.wallet_reservations,
      v.indexed j s,
    );
  }

  pub forget-Inv :
      (st : Ledger) (g : ℤ) (r : GameReservation) → Inv lib st → Inv lib (forget lib st g r)
  unfolding forget
  forget-Inv st g r v = record {
    unique = delete-Unique g st.reservations v.unique;
    keyed = λ j s h. ground (arith, lookup-delete g j st.reservations, v.keyed j s);
    indexed = λ j s h a. ground (
      arith,
      lookup-delete g j st.reservations,
      contains-remove_ne lib r.wallet_address (normalize_reservation_wallet lib s.wallet_address) g
          j st.wallet_reservations,
      v.indexed j s,
    );
  }
