-- ===== src/Exclusion/Race.antt =====
-- The checks of `Reserve` are made before its lock is taken. Calls that overlap can pass them both.
use pod_backend.Common.{◌<◌, ◌≡◌, ◌≢◌, none, some, ok, Text, ℤ, int_eq, text_eq}
use pod_backend.CancelReservation
use pod_backend.Entity.Game.{Game, status_waiting_for_opponent}
use pod_backend.Exclusion.{Pair, Moment, world}
use pod_backend.Ledger.{get_active, active_count}
use pod_backend.Reservation
use pod_backend.Wallet.{AddressLib, normalize_reservation_wallet}

module _ (lib : AddressLib) (m : Moment) (p : Pair) (g : ℤ) (creator joiner : Text) where
  -- Both calls check first, and then both take their locks.
  abbrev pub overlapped : Pair
  overlapped = record {
    join = (Reservation.commit lib (world m p.stop) p.join g joiner).0;
    stop = (CancelReservation.commit lib (world m p.join) p.stop g creator).0;
  }

  -- A game that waits, is free in both ledgers, and whose creator and another wallet both have room.
  pub record Contested (game : Game) : Type 0 where
    pub found : m.get_by_id g ≡ ok (some game)
    pub waiting : game.status ≡ status_waiting_for_opponent
    pub creator_asks :
        normalize_reservation_wallet lib game.player_one_address
        ≡ normalize_reservation_wallet lib creator
    pub other_asks :
        normalize_reservation_wallet lib game.player_one_address
        ≢ normalize_reservation_wallet lib joiner
    pub join_free : get_active m.now p.join g ≡ none
    pub stop_free : get_active m.now p.stop g ≡ none
    pub join_room :
        active_count m.now p.join (normalize_reservation_wallet lib joiner) < p.join.max_per_wallet
    pub stop_room :
        active_count m.now p.stop (normalize_reservation_wallet lib creator) < p.stop.max_per_wallet
