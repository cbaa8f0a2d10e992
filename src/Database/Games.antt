-- ===== src/Database/Games.antt =====
-- internal/repository/postgres/game_repository.go. A statement whose text is built from constants is
-- always built, so the errors of the builder are left out.
use pod_backend.Common.{
  ℕ, Bool, true, false, not, ◌&&◌, Option, none, some, List, [], ◌∷◌, Text, ℤ, pos, leb_ℤ, ltb_ℤ,
  ltb, eqb, eqb_ℤ, int_eq, text_eq, contains, keep_if, ok, err, if◌then◌else◌,
}
use pod_backend.Common.Dict.{Dict, lookup, insert}
use pod_backend.Database.{
  Tables, UserRow, Server, message, Action, pure, throw, wrap, ◌>>=◌, ◌>>◌, check, execute, is_text,
  is_varchar, is_varchar?, is_user, is_user?,
}
use pod_backend.Entity.Game.{
  Game, validate, status_waiting_for_opponent, status_waiting_for_open_bids, status_paid,
  coin_side_closed,
}
use pod_backend.Sorting.{sort_stable}

is_choice : ℤ → Bool
is_choice z = leb_ℤ (pos 0) z && leb_ℤ z (pos 3)

is_choice? : Option ℤ → Bool
unfolding is_choice
is_choice? none = true
is_choice? (some z) = is_choice z

is_text? : Option Text → Bool
is_text? none = true
is_text? (some s) = is_text s

-- The constraints of the table `games`: types, checks and foreign keys.
unfoldable pub game_row_ok : Dict Text UserRow → Game → Bool
unfolding is_choice is_choice? is_text?
game_row_ok users g =
    (leb_ℤ (pos 0) g.status && leb_ℤ g.status (pos 4))
    && is_varchar 66 g.player_one_address
    && is_varchar? 66 g.player_two_address
    && is_choice g.player_one_choice
    && is_choice? g.player_two_choice
    && is_varchar? 66 g.player_one_referrer
    && is_varchar? 66 g.player_two_referrer
    && ltb_ℤ (pos 0) g.bet_amount
    && is_varchar? 66 g.winner_address
    && is_varchar 66 g.fee_receiver_address
    && is_varchar 66 g.init_tx_hash
    && is_varchar? 66 g.join_tx_hash
    && is_text? g.reveal_tx_hash
    && is_varchar? 66 g.complete_tx_hash
    && is_user users g.player_one_address
    && is_user? users g.player_two_address

-- The games with one row written.
unfoldable pub write_game : ℤ → Game → Tables → Tables
write_game i g t = record t { games = insert i g t.games }

-- `INSERT INTO games`; the result says whether a row was there before, and the time of the statement.
unfoldable pub insert_game : Game → ℕ → Action Tables (Bool × ℕ)
insert_game g now t =
    let row = record g { created_at = now } in
    elim (lookup g.game_id t.games) [
      | some _ ↦ (ok (true, now), t)
      | none ↦
          if game_row_ok t.users row
          then (ok (false, now), write_game g.game_id row t)
          else (err (message "constraint violation"), t)
    ]

-- `UPDATE games SET … WHERE game_id = ?`: no row is not an error.
unfoldable pub set_game : ℤ → (Game → Game) → Action Tables (Unit {0})
set_game i f t = elim (lookup i t.games) [
  | none ↦ (ok tt, t)
  | some g ↦
      if game_row_ok t.users (f g)
      then (ok tt, write_game i (f g) t)
      else (err (message "constraint violation"), t)
]

created_or_conflict : Game → Bool × ℕ → Action Tables Game
created_or_conflict g (true, now) = throw (message "duplicate key")
created_or_conflict g (false, now) = pure (record g { created_at = now })

-- `ORDER BY created_at DESC`
abbrev pub created_later : Game → Game → Bool
created_later a b = ltb b.created_at a.created_at

-- The rows in the order of the table.
unfoldable pub rows {ℓ} : {K V : Type ℓ} → Dict K V → List V
rows [] = []
rows ((k, v) ∷ m) = v ∷ rows m

-- `if winnerAddress != ""`, else the column is set to null.
unfoldable pub text_or_null : Text → Option Text
text_or_null [] = none
text_or_null (c ∷ s) = some (c ∷ s)

-- `if payoutAmount > 0`, else the column is set to null.
unfoldable pub amount_or_null : ℤ → Option ℤ
amount_or_null z = if ltb_ℤ (pos 0) z then some z else none

-- The row that `JoinGame` writes.
unfoldable pub joined : Text → Text → ℕ → Game → Game
joined player_two hash at g = record g {
  player_two_address = some player_two;
  joined_at = some at;
  join_tx_hash = some hash;
  status = status_waiting_for_open_bids;
  player_one_choice = coin_side_closed;
  player_two_choice = some coin_side_closed;
}

-- The row that `CompleteGame` writes.
unfoldable pub completed : Text → ℤ → Text → ℕ → Game → Game
unfolding text_or_null amount_or_null
completed winner payout hash at g = record g {
  winner_address = text_or_null winner;
  payout_amount = amount_or_null payout;
  completed_at = some at;
  complete_tx_hash = some hash;
  status = status_paid;
}

-- The row that `CancelGame` writes.
unfoldable pub cancelled : Text → ℕ → Game → Game
cancelled hash at g = record g {
  status = status_paid;
  completed_at = some at;
  winner_address = none;
  payout_amount = none;
  complete_tx_hash = some hash;
}

-- The player whose choice `RevealChoice` writes.
pub data Seat : Type 0 where
  seat_one seat_two : Seat

-- `game.PlayerTwoAddress != nil && *game.PlayerTwoAddress == playerAddress`
is_player_two : Option Text → Text → Bool
is_player_two none player = false
is_player_two (some two) player = eqb two player

unfoldable pub who_reveals : Game → Text → Option Seat
unfolding is_player_two
who_reveals g player =
    if eqb g.player_one_address player
    then some seat_one
    else if is_player_two g.player_two_address player
    then some seat_two
    else none

-- The row that `RevealChoice` writes.
unfoldable pub revealed : Seat → ℤ → Text → ℕ → Game → Game
revealed seat_one choice hash at g = record g {
  revealed_at = some at;
  reveal_tx_hash = some hash;
  player_one_choice = choice;
}
revealed seat_two choice hash at g = record g {
  revealed_at = some at;
  reveal_tx_hash = some hash;
  player_two_choice = some choice;
}

has : ℤ → Dict ℤ Game → Bool
has i m = elim (lookup i m) [ none ↦ false | some _ ↦ true ]

-- The columns of `Update`.
updated : Game → Game → Game
updated new g = record g {
  status = new.status;
  player_two_address = new.player_two_address;
  player_one_choice = new.player_one_choice;
  player_two_choice = new.player_two_choice;
  player_two_referrer = new.player_two_referrer;
  winner_address = new.winner_address;
  payout_amount = new.payout_amount;
  joined_at = new.joined_at;
  revealed_at = new.revealed_at;
  completed_at = new.completed_at;
  join_tx_hash = new.join_tx_hash;
  reveal_tx_hash = new.reveal_tx_hash;
  complete_tx_hash = new.complete_tx_hash;
}

module _ (server : Server) where
  -- `Create`, which sets `created_at` of the game that it is given.
  unfoldable pub create_game : Game → Action Tables Game
  unfolding insert_game created_or_conflict
  create_game g = do
    check "validation failed" (validate g)
    found ← wrap "execute query" (execute server (insert_game g))
    wrap "execute query" (created_or_conflict g found)

  -- `CreateOrIgnore`
  unfoldable pub create_or_ignore : Game → Action Tables Bool
  unfolding insert_game
  create_or_ignore g = do
    check "validation failed" (validate g)
    found ← wrap "execute query" (execute server (insert_game g))
    pure (not found.0)

  -- `GetByID`: a missing row is an error.
  unfoldable pub get_game : ℤ → Action Tables Game
  get_game i = wrap "execute query" (
      execute server (λ _ t. elim (lookup i t.games) [
        | none ↦ (err (message "no rows in result set"), t)
        | some g ↦ (ok g, t)
      ]))

  -- `queryGames` behind a `WHERE`, in the order of creation from the newest on.
  unfoldable pub query_games : (Game → Bool) → Action Tables (List Game)
  query_games p =
      wrap "execute query"
        (execute server (λ _ t. (ok (sort_stable created_later (keep_if p (rows t.games))), t)))

  -- `GetByStatus`
  unfoldable pub get_by_status : ℤ → Action Tables (List Game)
  get_by_status status = query_games (λ g. eqb_ℤ g.status status)

  -- `GetAvailableGames`
  unfoldable pub get_available_games : Action Tables (List Game)
  get_available_games = get_by_status status_waiting_for_opponent

  -- `GetByStatuses`
  unfoldable pub get_by_statuses : List ℤ → Action Tables (List Game)
  get_by_statuses [] = pure []
  get_by_statuses (s ∷ ss) = query_games (λ g. contains g.status (s ∷ ss))

  -- `Update`
  unfoldable pub update_game : Game → Action Tables (Unit {0})
  unfolding updated
  update_game g = do
    check "validation failed" (validate g)
    wrap "execute query" (execute server (λ _. set_game g.game_id (updated g)))

  -- `UpdateStatus`, at the time `now`.
  unfoldable pub update_game_status : ℕ → ℤ → ℤ → Action Tables (Unit {0})
  update_game_status now i new_status = wrap "execute query" (
      execute server
        (λ _. set_game i (λ g. record g { status = new_status; completed_at = some now })))

  -- `JoinGame`
  unfoldable pub join_game : ℤ → Text → Text → ℕ → Action Tables (Unit {0})
  join_game i player_two hash at =
      wrap "execute query" (execute server (λ _. set_game i (joined player_two hash at)))

  -- The part of `RevealChoice` behind the read, for the seat of the player.
  unfoldable pub write_choice : ℤ → Option Seat → ℤ → Text → ℕ → Action Tables (Unit {0})
  write_choice i none choice hash at = throw (message "player not found in game")
  write_choice i (some who) choice hash at =
      wrap "execute query" (execute server (λ _. set_game i (revealed who choice hash at)))

  -- `RevealChoice`: the row is read by one statement and written by another.
  unfoldable pub reveal_choice : ℤ → Text → ℤ → Text → ℕ → Action Tables (Unit {0})
  reveal_choice i player choice hash at = do
    g ← wrap "get game" (get_game i)
    write_choice i (who_reveals g player) choice hash at

  -- `CompleteGame`, which is `CompleteGameWithQuerier` with the pool.
  unfoldable pub complete_game : ℤ → Text → ℤ → Text → ℕ → Action Tables (Unit {0})
  complete_game i winner payout hash at =
      wrap "execute query" (execute server (λ _. set_game i (completed winner payout hash at)))

  -- `CancelGame`
  unfoldable pub cancel_game : ℤ → Text → ℕ → Action Tables (Unit {0})
  cancel_game i hash at =
      wrap "execute query" (execute server (λ _. set_game i (cancelled hash at)))

  -- `Exists`
  unfoldable pub game_exists : ℤ → Action Tables Bool
  unfolding has
  game_exists i = wrap "execute query" (execute server (λ _ t. (ok (has i t.games), t)))
