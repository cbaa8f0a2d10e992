-- ===== src/Exclusion/Sequential.antt =====
-- Calls one after the other keep the two kinds of reservations apart.
use pod_backend.Common.{ℕ, ◌≤◌, inl, arith, int_eq, Bool, Text}
use pod_backend.CancelReservation
use pod_backend.CancelReservation.Safety
use pod_backend.CancelReservation.Releases
use pod_backend.Exclusion.{Pair, Turn, on_join, on_stop, Moment, world, turn, Exclusive}
use pod_backend.Ledger.{Ledger, Config}
use pod_backend.Ledger.Limit.{Safe, Safe-later, held, new_ledger-Safe, new_ledger-free}
use pod_backend.Ledger.Reads.{Shrinks, get_active-none-later, peer_holds-none}
use pod_backend.Reservation
use pod_backend.Reservation.History
use pod_backend.Reservation.Releases as JoinReleases
use pod_backend.Wallet.{AddressLib}

module _ (lib : AddressLib) (m : Moment) (p : Pair) where
  shrink_join :
      (st : Ledger)
      → Shrinks m.now p.join st
      → Exclusive m.now p
      → Exclusive m.now (record p { join = st })
  shrink_join st s e g = ground (arith, s g, e g)

  shrink_stop :
      (st : Ledger)
      → Shrinks m.now p.stop st
      → Exclusive m.now p
      → Exclusive m.now (record p { stop = st })
  shrink_stop st s e g = ground (arith, s g, e g)

  join-Exclusive :
      (c : History.Call)
      → Safe lib m.now p.join
      → Exclusive m.now p
      → Exclusive m.now (turn lib m p (on_join c))
  unfolding turn History.step
  join-Exclusive (History.reserves g wallet) s e =
      λ j. ground (arith, JoinReleases.reserve_reads lib (world m p.stop) p.join g j wallet, e j)
  join-Exclusive (History.cancels_by g wallet) s e =
      shrink_join _ (JoinReleases.cancel-Shrinks lib (world m p.stop) p.join g wallet) e
  join-Exclusive (History.joins g) s e =
      shrink_join _ (JoinReleases.release_on_join-Shrinks lib (world m p.stop) p.join g) e
  join-Exclusive (History.lists wallet) s e =
      shrink_join _ (JoinReleases.list_by_wallet-Shrinks lib (world m p.stop) p.join wallet) e
  join-Exclusive History.cleans s e =
      shrink_join _ (JoinReleases.cleanup_expired-Shrinks lib (world m p.stop) p.join s.inv) e

  stop-Exclusive :
      (c : Safety.Call) → Exclusive m.now p → Exclusive m.now (turn lib m p (on_stop c))
  unfolding turn Safety.step
  stop-Exclusive (Safety.reserves g wallet) e = λ j. ground (
    arith,
    Releases.reserve_reads lib (world m p.join) p.stop g j wallet,
    peer_holds-none m.now p.join g,
    e j,
  )
  stop-Exclusive (Safety.cancels_by g wallet) e =
      shrink_stop _ (Releases.cancel-Shrinks lib (world m p.join) p.stop g wallet) e
  stop-Exclusive (Safety.releases g reason) e =
      shrink_stop _ (Releases.release_on_unavailable-Shrinks lib (world m p.join) p.stop g reason) e
  stop-Exclusive (Safety.lists wallet) e =
      shrink_stop _ (Releases.list_by_wallet-Shrinks lib (world m p.join) p.stop wallet) e
  stop-Exclusive Safety.cleans e =
      shrink_stop _ (Releases.cleanup_expired-Shrinks lib m.now p.stop) e

-- What holds between two turns.
record Good (lib : AddressLib) (now : ℕ) (p : Pair) : Type 0 where
  pub join_safe : Safe lib now p.join
  pub stop_safe : Safe lib now p.stop
  pub exclusive : Exclusive now p

turn-Good :
    (lib : AddressLib) (m : Moment) (p : Pair) (t : Turn)
    → Good lib m.now p
    → Good lib m.now (turn lib m p t)
unfolding turn
turn-Good lib m p (on_join c) s = record {
  join_safe = History.step-Safe lib (world m p.stop) p.join c s.join_safe;
  stop_safe = s.stop_safe;
  exclusive = join-Exclusive lib m p c s.join_safe s.exclusive;
}
turn-Good lib m p (on_stop c) s = record {
  join_safe = s.join_safe;
  stop_safe = Safety.step-Safe lib (world m p.join) p.stop c s.stop_safe;
  exclusive = stop-Exclusive lib m p c s.exclusive;
}

Good-later :
    {lib : AddressLib} {now later : ℕ} {p : Pair} → now ≤ later → Good lib now p → Good lib later p
Good-later {lib} {now} {later} {p} h s = record {
  join_safe = Safe-later lib h s.join_safe;
  stop_safe = Safe-later lib h s.stop_safe;
  exclusive = λ g. ground (
    arith,
    s.exclusive g,
    get_active-none-later now later p.join g h,
    get_active-none-later now later p.stop g h,
  );
}

-- The pairs that turns in the order of time make of two new use cases.
pub data Plays (lib : AddressLib) (start : Pair) : ℕ → Pair → Type 0 where
  begins : (now : ℕ) → Plays lib start now start
  turns :
      {now : ℕ} {p : Pair} (m : Moment) (t : Turn)
      → Plays lib start now p
      → now ≤ m.now
      → Plays lib start m.now (turn lib m p t)

abbrev pub fresh_pair : Bool → Config → Config → Pair
fresh_pair broadcast cfg cfg' = record {
  join = Reservation.new_reservation_use_case broadcast cfg;
  stop = CancelReservation.new_cancel_reservation_use_case broadcast cfg';
}

fresh_pair-Good :
    (lib : AddressLib) (now : ℕ) (broadcast : Bool) (cfg cfg' : Config)
    → Good lib now (fresh_pair broadcast cfg cfg')
unfolding Reservation.new_reservation_use_case CancelReservation.new_cancel_reservation_use_case
fresh_pair-Good lib now broadcast cfg cfg' = record {
  join_safe = new_ledger-Safe lib now _ _ broadcast cfg;
  stop_safe = new_ledger-Safe lib now _ _ broadcast cfg';
  exclusive = λ g. inl (new_ledger-free now _ _ broadcast cfg g);
}

Plays-Good :
    (lib : AddressLib) (broadcast : Bool) (cfg cfg' : Config) {now : ℕ} {p : Pair}
    → Plays lib (fresh_pair broadcast cfg cfg') now p
    → Good lib now p
Plays-Good lib broadcast cfg cfg' (begins now) = fresh_pair-Good lib now broadcast cfg cfg'
Plays-Good lib broadcast cfg cfg' (turns m t r h) =
    turn-Good lib m _ t (Good-later h (Plays-Good lib broadcast cfg cfg' r))

-- If the calls of the two use cases run one after the other, each from its checks to its end and in
-- the order of time, no game ever has an active join reservation and an active cancel reservation at
-- once, and no wallet holds more of either kind than its limit.
pub Plays-Exclusive :
    (lib : AddressLib) (broadcast : Bool) (cfg cfg' : Config) {now : ℕ} {p : Pair}
    → Plays lib (fresh_pair broadcast cfg cfg') now p
    → Exclusive now p
      × ((key : Text) → held lib now p.join key ≤ p.join.max_per_wallet)
      × ((key : Text) → held lib now p.stop key ≤ p.stop.max_per_wallet)
Plays-Exclusive lib broadcast cfg cfg' r =
    let g = Plays-Good lib broadcast cfg cfg' r in
    (g.exclusive, g.join_safe.within, g.stop_safe.within)
