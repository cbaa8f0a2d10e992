-- ===== src/Examples/Fixtures.antt =====
-- Wallets, games and ledgers that the tests share.
use pod_backend.Common.{
  ℕ, Bool, true, none, some, [], Text, ℤ, pos, codes, ok, ℤ_discrete, Text_discrete, ℕ_discrete,
  trim_space, to_lower, is_space, count_if, contains, erase, mul_int64,
}
use pod_backend.Common.Dict.{lookup, insert, delete, count}
use pod_backend.Entity.Game.{Game}
use pod_backend.Entity.Repository.{GetById}
use pod_backend.Entity.Reservation.{GameReservation, active, is_active, is_expired}
use pod_backend.Ledger.{
  World, collect_active, peer_holds, Config, Ledger, new_ledger, duration_or, limit_or,
  new_reservation, get_active, holds_active, put, close, forget, notify, notify_error,
  remove_from_wallet_index, index_of, active_count, get_active_count,
}
use pod_backend.Reservation.{
  new_reservation_use_case, reserve, admit, commit, cancel, release_on_join,
  release_stale_reservation, keep_available, list_by_wallet, cleanup_expired, visit, sweep,
  delete_all, is_reservation_game_available,
}
use pod_backend.Sorting.{sort_stable}
use pod_backend.Wallet.{AddressLib, normalize_reservation_wallet, same_reservation_wallet}

-- Addresses are short here, and the parser refuses all of them.
abbrev pub plain : AddressLib
plain = record { parse_raw = λ _. none; lower_beyond = λ c. c }

abbrev pub alice : Text
alice = codes "Alice"

abbrev pub bob : Text
bob = codes " bob "

abbrev pub carol : Text
carol = codes "carol"

-- A game of Alice, bet 5 TON, with the given status.
abbrev pub game_of : ℤ → ℤ → Game
game_of g status = record {
  game_id = g;
  status = status;
  player_one_address = alice;
  player_two_address = none;
  player_one_choice = pos 1;
  player_two_choice = none;
  player_one_referrer = none;
  player_two_referrer = none;
  bet_amount = pos 5000000000;
  winner_address = none;
  payout_amount = none;
  service_fee_numerator = pos 0;
  referrer_fee_numerator = pos 0;
  waiting_timeout_seconds = pos 0;
  lowest_bid_allowed = pos 0;
  highest_bid_allowed = pos 0;
  min_referrer_payout_value = pos 0;
  protocol_version = pos 1;
  fee_receiver_address = [];
  created_at = 0;
  joined_at = none;
  revealed_at = none;
  completed_at = none;
  init_tx_hash = codes "h1";
  join_tx_hash = none;
  reveal_tx_hash = none;
  complete_tx_hash = none;
}

abbrev pub waiting_games : GetById
waiting_games g = ok (some (game_of g (pos 1)))

-- At the given nanosecond, with waiting games and no cancel use case.
abbrev pub at : ℕ → World
at now = record { now = now; get_by_id = waiting_games; repo_set = true; peer = none }

abbrev pub one_each : Config
one_each = record {
  config_max_per_wallet = pos 1;
  timeout_seconds = pos 60;
  cleanup_interval_seconds = pos 5;
}

abbrev pub fresh : Ledger
fresh = new_reservation_use_case true one_each

-- What a run of the join use case computes through.
unfoldable pub joining : Bool
unfolding reserve admit commit cancel release_on_join release_stale_reservation keep_available
    list_by_wallet cleanup_expired visit sweep delete_all collect_active
    is_reservation_game_available sort_stable new_reservation_use_case new_ledger duration_or
    limit_or new_reservation get_active peer_holds holds_active put close forget notify notify_error
    remove_from_wallet_index lookup insert delete index_of active_count get_active_count
    same_reservation_wallet normalize_reservation_wallet trim_space to_lower is_space ℤ_discrete
    Text_discrete ℕ_discrete count_if contains erase count is_active is_expired mul_int64
joining = true

-- Bob holds game 7 until second 60.
abbrev pub bob_holds : GameReservation
bob_holds = record {
  game_id = pos 7;
  wallet_address = bob;
  created_at = 10;
  expires_at = 60000000010;
  status = active;
}
