-- ===== src/GameQuery.antt =====
-- internal/usecase/game_query.go, `GameQueryUseCase`, over the table of games.
pub mod Listings
use pod_backend.Common.{
  ℕ, ◌-◌, Bool, true, false, ◌||◌, Option, none, some, List, [], ◌∷◌, ◌++◌, Text, is_empty, ℤ, pos,
  leb_ℤ, ltb_ℤ, eqb_ℤ, ltb, length, add_int64, take, drop, pos_part, Outcome, ok, err,
  if◌then◌else◌,
}
use pod_backend.Activity.{latest_game_activity}
use pod_backend.Database.{Tables, Server, Fault, message, Action, pure, throw, ◌>>=◌, ◌>>◌}
use pod_backend.Database.Games.{get_by_status, get_game}
use pod_backend.Database.Players.{Renderings, get_by_player_address}
use pod_backend.Entity.Game.{Game, status_uninitialized, status_ended, status_paid}
use pod_backend.Sorting.{sort_stable}

-- `latestGameActivity(games[i]).After(latestGameActivity(games[j]))`
abbrev pub is_more_active : Game → Game → Bool
is_more_active a b = ltb (latest_game_activity b) (latest_game_activity a)

-- `sortGamesByMostRecentActivity`
unfoldable pub sort_games_by_most_recent_activity : List Game → List Game
sort_games_by_most_recent_activity games = sort_stable is_more_active games

-- The slice of both listings, for an offset that is not negative. The sum of limit and offset wraps; a
-- slice that ends before it starts is a panic, which ends the request and stands here as an error.
unfoldable pub slice_games : List Game → ℤ → ℤ → Outcome Fault (List Game)
slice_games games limit offset =
    let total = length games in
    let end = add_int64 offset limit in
    let last = if ltb_ℤ (pos total) end then pos total else end in
    if leb_ℤ (pos total) offset
    then ok []
    else if ltb_ℤ last offset
    then err (message "slice bounds out of range")
    else ok (take (pos_part last - pos_part offset) (drop (pos_part offset) games))

-- A slice as a step that touches no table.
unfoldable pub answer_with : {A B : Type 0} → (A → B) → Outcome Fault A → Action Tables B
answer_with f (ok a) = pure (f a)
answer_with f (err e) = throw e

-- The checks of a page.
refuse_page : ℤ → ℤ → Option Fault
refuse_page limit offset =
    if leb_ℤ limit (pos 0)
    then some (message "limit must be positive")
    else if ltb_ℤ offset (pos 0)
    then some (message "offset cannot be negative")
    else none

module _ (server : Server) where
  -- `getGamesForStatus`: the games that are over have two statuses.
  unfoldable pub get_games_for_status : ℤ → Action Tables (List Game)
  get_games_for_status status = do
    games ← get_by_status server status
    if eqb_ℤ status status_ended
        then (do
          paid_games ← get_by_status server status_paid
          pure (sort_games_by_most_recent_activity (games ++ paid_games)))
        else pure (sort_games_by_most_recent_activity games)

  -- `ListGames`
  unfoldable pub list_games : ℤ → ℤ → ℤ → Action Tables (List Game)
  unfolding refuse_page answer_with
  list_games status limit offset =
      if ltb_ℤ status status_uninitialized || ltb_ℤ status_paid status
      then throw (message "invalid status: must be 0-4")
      else elim (refuse_page limit offset) [
        | some e ↦ throw e
        | none ↦ do
          games ← get_games_for_status status
          answer_with (λ page. page) (slice_games games limit offset)
      ]

  -- `GetGameByID`
  unfoldable pub get_game_by_id : ℤ → Action Tables Game
  get_game_by_id i =
      if leb_ℤ i (pos 0) then throw (message "gameID must be positive") else get_game server i

  -- `GetGamesByPlayerPage`: the page and the number of all games of the player.
  unfoldable pub get_games_by_player_page :
      Renderings → Text → ℤ → ℤ → Action Tables (List Game × ℕ)
  unfolding refuse_page answer_with
  get_games_by_player_page render w limit offset =
      if is_empty w
      then throw (message "wallet address is required")
      else elim (refuse_page limit offset) [
        | some e ↦ throw e
        | none ↦ do
          games ← get_by_player_address server render w
          let sorted = sort_games_by_most_recent_activity games
          answer_with (λ page. (page, length games)) (slice_games sorted limit offset)
      ]

  -- `GetGamesByPlayer`
  unfoldable pub get_games_by_player : Renderings → Text → ℤ → ℤ → Action Tables (List Game)
  get_games_by_player render w limit offset = do
    page ← get_games_by_player_page render w limit offset
    pure page.0
