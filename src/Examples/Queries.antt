-- ===== src/Examples/Queries.antt =====
-- Tests of the listings and the profiles, and each result on them at a concrete input.
use pod_backend.Common.{
  arith, true, false, Text, some, [], ◌∷◌, ℤ, pos, ok, ◌≡◌, refl, codes, count_if, keep_if, take,
  drop, ◌+◌, Text_discrete, text_eq, int_eq,
}
use mathlib.Core.List.{Perm}
use pod_backend.Common.Dict.{lookup, insert}
use pod_backend.Database.{
  Tables, Server, execute, wrap, check, throw, pure, ◌>>=◌, ◌>>◌, is_varchar, is_text, is_integer,
  is_bigint,
}
use pod_backend.Database.Games.{rows}
use pod_backend.Database.Statistics.{
  get_by_wallet_address, with_statistics, is_player, is_over, is?, counts_as_played, counts_as_won,
  counts_as_lost, referred_wallets, count_distinct, if_some,
}
use pod_backend.Database.Users.{
  create_or_update, insert_user, user_row_ok, write_user, scan_user, returned, linked,
}
use pod_backend.Entity.Game.{Game, is_ton_address, all_address_runes}
use pod_backend.Entity.User.{User, validate_user, not_positive}
use pod_backend.Examples.Fixtures.{carol, game_of}
use pod_backend.GameQuery.{is_more_active, list_games}
use pod_backend.GameQuery.Listings.{list_games-lists, listing, is_listed}
use pod_backend.Sorting.{IsSorted}
use pod_backend.UserManagement.{create_or_update_user, get_user_by_wallet}
use pod_backend.UserManagement.Profiles.{Shows, get_user_by_wallet-create_or_update_user}

abbrev server : Server
server = record { fails = λ _. false; clock = λ n. 40 + n }

abbrev wallet : Text
wallet = codes "EQ0123456789012345678901234567890123456789abcdef"

abbrev visitor : User
visitor = record {
  id = pos 0;
  telegram_user_id = some (pos 77);
  telegram_username = codes "visitor";
  wallet_address = wallet;
  total_games_played = pos 0;
  total_wins = pos 0;
  total_losses = pos 0;
  total_referrals = pos 0;
  total_referral_earnings = pos 0;
  created_at = 0;
  updated_at = 0;
}

-- A game of the visitor, with the given number and status.
abbrev played_by_visitor : ℤ → ℤ → Game
played_by_visitor g status = record (game_of g status) { player_one_address = wallet }

-- The visitor waits in one game, has won one and lost one.
abbrev tables : Tables
tables = record {
  games =
      (pos 1, played_by_visitor (pos 1) (pos 1))
      ∷ (
        pos 2,
        record (played_by_visitor (pos 2) (pos 4)) {
          winner_address = some wallet;
          payout_amount = some (pos 9);
          completed_at = some 20;
        },
      )
      ∷ (
        pos 3,
        record (played_by_visitor (pos 3) (pos 3)) {
          winner_address = some carol;
          payout_amount = some (pos 9);
          completed_at = some 30;
        },
      )
      ∷ [];
  events = [];
  users = [];
  next_event_id = 1;
  next_user_id = 3;
  statements = 0;
}

abbrev saved : User
saved = record visitor { id = pos 3; created_at = 40; updated_at = 40 }

abbrev known : Tables
known = record tables {
  users = (wallet, record { columns = saved; named = true }) ∷ [];
  next_user_id = 4;
  statements = 1;
}

saving : create_or_update_user server visitor tables ≡ (ok saved, known)
unfolding create_or_update_user create_or_update insert_user write_user execute wrap check throw
    pure returned linked ◌>>=◌ ◌>>◌ validate_user not_positive is_ton_address all_address_runes
    user_row_ok is_varchar is_text is_integer is_bigint lookup insert
saving = refl

get_user_by_wallet-create_or_update_user_example :
    (v : User) × ((get_user_by_wallet server wallet known).0 ≡ ok v) × Shows visitor saved v
get_user_by_wallet-create_or_update_user_example =
    get_user_by_wallet-create_or_update_user server visitor saved tables known saving refl

-- The profile of the visitor: two games that are over, one of them won.
abbrev shown : User
shown = record saved { total_games_played = pos 2; total_wins = pos 1; total_losses = pos 1 }

showing : (get_user_by_wallet server wallet known).0 ≡ ok shown
unfolding get_user_by_wallet get_by_wallet_address execute wrap throw scan_user with_statistics
    is_player is_over is? counts_as_played counts_as_won counts_as_lost count_if rows lookup
    count_distinct referred_wallets if_some Text_discrete
showing = refl

-- The first of the two games that are over is the one that ended last.
list_games-lists_example :
    let all = listing (pos 3) (rows known.games) in
    ((list_games server (pos 3) (pos 1) (pos 0) known).0 ≡ ok (take 1 (drop 0 all)))
    × Perm all (keep_if (is_listed (pos 3)) (rows known.games))
    × IsSorted is_more_active all
list_games-lists_example =
    list_games-lists server (pos 3) (pos 1) (pos 0) known refl refl refl refl refl refl
      (omega arith)
