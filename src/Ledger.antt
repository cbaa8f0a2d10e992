-- ===== src/Ledger.antt =====
-- The state that the four coordination use cases of internal/usecase share (reservation.go,
-- cancel_reservation.go, reveal_reservation.go, expired_claim.go declare the same fields and the same
-- private helpers), and the steps on it from which their operations are composed.
-- A mutex guards the two maps in the source: each function here is one critical section. The clock is
-- read once for each operation, as its argument `now`; a returned pointer is the value at that time.
pub mod Invariant
pub mod Limit
pub mod Reads
pub mod Sweep
use pod_backend.Common.{
  ℕ, ◌+◌, ◌*◌, Bool, true, false, ◌&&◌, Option, none, some, List, [], ◌∷◌, ◌++◌, Text, ℤ, pos,
  leb_ℤ, mul_int64, pos_part, count_if, erase, ltb, eqb, text_eq, int_eq, if◌then◌else◌,
}
use pod_backend.Common.Dict.{Dict, lookup, insert, delete, count}
use pod_backend.Entity.Repository.{GetById}
use pod_backend.Entity.Reservation.{
  GameReservation, ReservationStatus, active, is_active_status, is_active,
}
use pod_backend.Wallet.{AddressLib, normalize_reservation_wallet}
use Prim.Native.String.{String}

-- `metrics` and `broadcast` say whether the optional collaborators are set; `stopped` is the state
-- of `stopOnce` and `stopCleanup`. Durations are nanoseconds.
pub record Ledger : Type 0 where
  pub reservations : Dict ℤ GameReservation
  pub wallet_reservations : Dict Text (List ℤ)
  pub max_per_wallet : ℕ
  pub timeout : ℕ
  pub cleanup_interval : ℕ
  pub metrics : Bool
  pub broadcast : Bool
  pub stopped : Bool

-- What an operation does to its collaborators, in order: a counter of the metrics, or a broadcast.
pub data Effect : Type 0 where
  record_created record_cancelled record_joined record_expired : Effect
  record_resolved record_revealed : Effect
  record_error : String → Effect
  broadcast_created : GameReservation → Effect
  broadcast_released : ℤ → String → Effect

pub record Config : Type 0 where
  pub config_max_per_wallet : ℤ
  pub timeout_seconds : ℤ
  pub cleanup_interval_seconds : ℤ

abbrev pub second : ℕ
second = 1000000000

-- `time.Duration(n) * time.Second`, or a default if that is not positive.
unfoldable pub duration_or : ℕ → ℤ → ℕ
unfolding mul_int64
duration_or default n =
    let d = mul_int64 n (pos second) in if leb_ℤ d (pos 0) then default else pos_part d

unfoldable pub limit_or : ℕ → ℤ → ℕ
limit_or default n = if leb_ℤ n (pos 0) then default else pos_part n

-- The constructors: the default timeout and limit differ.
unfoldable pub new_ledger : ℕ → ℕ → Bool → Config → Ledger
unfolding duration_or limit_or
new_ledger default_timeout default_max broadcast cfg = record {
  reservations = [];
  wallet_reservations = [];
  max_per_wallet = limit_or default_max cfg.config_max_per_wallet;
  timeout = duration_or default_timeout cfg.timeout_seconds;
  cleanup_interval = duration_or (5 * second) cfg.cleanup_interval_seconds;
  metrics = false;
  broadcast = broadcast;
  stopped = false;
}

-- `SetMetrics`
unfoldable pub set_metrics : Bool → Ledger → Ledger
set_metrics m st = record st { metrics = m }

-- `StopCleanupLoop`: whether this call closes the channel, and the state after it.
unfoldable pub stop_cleanup_loop : Ledger → Ledger × Bool
stop_cleanup_loop st = if st.stopped then (st, false) else (record st { stopped = true }, true)

-- A missing key reads as the empty slice.
unfoldable pub index_of : Text → Dict Text (List ℤ) → List ℤ
index_of key m = elim (lookup key m) [ none ↦ [] | some ids ↦ ids ]

-- `res, ok := reservations[gid]; ok && res.IsActive()`
unfoldable pub holds_active : ℕ → Dict ℤ GameReservation → ℤ → Bool
holds_active now m g = elim (lookup g m) [ none ↦ false | some r ↦ is_active now r ]

-- `Get`, `GetReservation`, `peekActiveClaim`: the reservation of a game, if it is active.
unfoldable pub get_active : ℕ → Ledger → ℤ → Option GameReservation
get_active now st g = elim (lookup g st.reservations) [
  | none ↦ none
  | some r ↦ if is_active now r then some r else none
]

-- Whether the use case that is consulted, if it is wired, has an active reservation of the game.
unfoldable pub peer_holds : ℕ → Option Ledger → ℤ → Bool
unfolding get_active
peer_holds now none g = false
peer_holds now (some p) g = elim (get_active now p g) [ none ↦ false | some r ↦ is_active now r ]

-- The loop that counts a wallet's active reservations through the index.
unfoldable pub active_count : ℕ → Ledger → Text → ℕ
active_count now st key =
    count_if (holds_active now st.reservations) (index_of key st.wallet_reservations)

-- What an operation finds around it: the clock, the game repository (not set in some tests), and the
-- use case that `Reserve` consults, if it is wired: join and cancel consult one another.
pub record World : Type 0 where
  pub now : ℕ
  pub get_by_id : GetById
  pub repo_set : Bool
  pub peer : Option Ledger

-- The loop that reads a wallet's active reservations through the index.
unfoldable pub collect_active : ℕ → Dict ℤ GameReservation → List ℤ → List GameReservation
collect_active now m [] = []
collect_active now m (g ∷ gs) =
    let rest = collect_active now m gs in
    elim (lookup g m) [ none ↦ rest | some r ↦ if is_active now r then r ∷ rest else rest ]

-- `a.CreatedAt.After(b.CreatedAt)`
abbrev pub is_newer : GameReservation → GameReservation → Bool
is_newer a b = ltb b.created_at a.created_at

-- `GetActiveCount`
unfoldable pub get_active_count : ℕ → Ledger → ℕ
get_active_count now st = count (is_active now) st.reservations

-- An index entry without elements is deleted.
store_ids : Text → List ℤ → Dict Text (List ℤ) → Dict Text (List ℤ)
store_ids key [] m = delete key m
store_ids key (g ∷ ids) m = insert key (g ∷ ids) m

module _ (lib : AddressLib) where
  -- `removeFromWalletIndex`
  unfoldable pub remove_from_wallet_index : Text → ℤ → Dict Text (List ℤ) → Dict Text (List ℤ)
  unfolding store_ids
  remove_from_wallet_index wallet g m =
      let key = normalize_reservation_wallet lib wallet in
      store_ids key (erase g (index_of key m)) m

  -- The reservation that a successful call creates.
  unfoldable pub new_reservation : ℕ → ℕ → ℤ → Text → GameReservation
  new_reservation now timeout g wallet = record {
    game_id = g;
    wallet_address = wallet;
    created_at = now;
    expires_at = now + timeout;
    status = active;
  }

  -- Both maps are written.
  unfoldable pub put : Ledger → ℤ → GameReservation → Ledger
  put st g r =
      let key = normalize_reservation_wallet lib r.wallet_address in
      record st {
        reservations = insert g r st.reservations;
        wallet_reservations =
            insert key (index_of key st.wallet_reservations ++ g ∷ []) st.wallet_reservations;
      }

  -- The status is changed in place, and the index entry goes.
  unfoldable pub close : ReservationStatus → Ledger → ℤ → GameReservation → Ledger
  close status st g r = record st {
    reservations = insert g (record r { status = status }) st.reservations;
    wallet_reservations = remove_from_wallet_index r.wallet_address g st.wallet_reservations;
  }

  -- The index entry goes, and the reservation with it.
  unfoldable pub forget : Ledger → ℤ → GameReservation → Ledger
  forget st g r = record st {
    reservations = delete g st.reservations;
    wallet_reservations = remove_from_wallet_index r.wallet_address g st.wallet_reservations;
  }

-- A counter and a broadcast, each if its collaborator is set.
unfoldable pub notify : Ledger → Effect → Effect → List Effect
notify st counter announcement =
    (if st.metrics then counter ∷ [] else []) ++ (if st.broadcast then announcement ∷ [] else [])

unfoldable pub notify_error : Ledger → String → List Effect
notify_error st kind = if st.metrics then record_error kind ∷ [] else []
