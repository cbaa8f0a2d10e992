-- ===== src/GameBroadcast.antt =====
-- internal/usecase/game_broadcast.go, `GameBroadcastUseCase`: who is subscribed to which game, what a
-- broadcast sends, and what becomes of connections that fail. A connection is a number, and its calls
-- are listed in order; whether it takes a call is chosen by the environment. Logging is left out.
pub mod Messages
pub mod Counting
pub mod Histories
pub mod Delivery
use pod_backend.Common.{
  ℕ, Bool, true, false, not, ◌&&◌, ◌||◌, ◌==◌, Option, none, some, List, [], ◌∷◌, ◌++◌, Text, ℤ,
  pos, succ_ℤ, pred_ℤ, length, contains, int_eq, text_eq, if◌then◌else◌,
}
use pod_backend.Common.Dict.{Dict, lookup, insert, delete}

-- `GlobalGameID`: who is subscribed to it hears of all games.
abbrev pub global_game_id : ℤ
global_game_id = pos 0

-- `subscriber`
pub record Subscriber : Type 0 where
  pub client_id : Text
  pub conn : ℕ

-- `GameBroadcastUseCase`
pub record Broadcaster : Type 0 where
  pub game_subscribers : Dict ℤ (Dict Text Subscriber)
  pub active_connections : ℤ

-- What is called on a connection: `WriteMessage`, which may fail, and `Close`.
pub data SocketCall : Type 0 where
  sent : ℕ → Text → SocketCall
  closed : ℕ → SocketCall

-- What the connection of a client refuses during a broadcast.
pub record Wire : Type 0 where
  pub refuses_deadline : Subscriber → Bool
  pub refuses_message : Subscriber → Bool

-- `NewGameBroadcastUseCase`
unfoldable pub new_game_broadcast_use_case : Broadcaster
new_game_broadcast_use_case = record { game_subscribers = []; active_connections = pos 0 }

-- `uc.gameSubscribers[gameID]`, where a nil map reads as an empty one.
unfoldable pub subscribers_of : ℤ → Dict ℤ (Dict Text Subscriber) → Dict Text Subscriber
subscribers_of g m = elim (lookup g m) [ none ↦ [] | some subs ↦ subs ]

-- `Subscribe`
unfoldable pub subscribe : ℤ → Text → ℕ → Broadcaster → Broadcaster
subscribe g client conn b = record {
  game_subscribers =
      insert g
        (insert client (record { client_id = client; conn = conn })
          (subscribers_of g b.game_subscribers))
        b.game_subscribers;
  active_connections = succ_ℤ b.active_connections;
}

-- The subscription of a client ends, if there is one: `delete` and the counter. The subscriber is
-- returned.
unfoldable pub remove_subscriber : ℤ → Text → Broadcaster → Broadcaster × Option Subscriber
remove_subscriber g client b =
    let subs = subscribers_of g b.game_subscribers in
    elim (lookup client subs) [
      | none ↦ (b, none)
      | some s ↦ (
        record {
          game_subscribers = insert g (delete client subs) b.game_subscribers;
          active_connections = pred_ℤ b.active_connections;
        },
        some s,
      )
    ]

-- A game without subscribers leaves the map.
unfoldable pub clean_up_empty : ℤ → Broadcaster → Broadcaster
clean_up_empty g b =
    if length (subscribers_of g b.game_subscribers) == 0
    then record b { game_subscribers = delete g b.game_subscribers }
    else b

-- `Unsubscribe`
unfoldable pub unsubscribe : ℤ → Text → Broadcaster → Broadcaster
unsubscribe g client b =
    let (b', found) = remove_subscriber g client b in
    elim found [ none ↦ b | some _ ↦ clean_up_empty g b' ]

-- `GetGameSubscriberCount`
unfoldable pub get_game_subscriber_count : ℤ → Broadcaster → ℕ
get_game_subscriber_count g b = length (subscribers_of g b.game_subscribers)

close_each : Dict Text Subscriber → List SocketCall
close_each [] = []
close_each ((_, s) ∷ subs) = closed s.conn ∷ close_each subs

close_games : Dict ℤ (Dict Text Subscriber) → List SocketCall
unfolding close_each
close_games [] = []
close_games ((_, subs) ∷ games) = close_each subs ++ close_games games

-- `CloseAllConnections`, which returns no error.
unfoldable pub close_all_connections : Broadcaster → Broadcaster × List SocketCall
unfolding close_games
close_all_connections b =
    (record { game_subscribers = []; active_connections = pos 0 }, close_games b.game_subscribers)

unfoldable pub copy_into : Dict Text Subscriber → Dict Text Subscriber → Dict Text Subscriber
copy_into all [] = all
copy_into all ((client, s) ∷ subs) = copy_into (insert client s all) subs

clients : Dict Text Subscriber → List Text
clients [] = []
clients ((client, _) ∷ subs) = client ∷ clients subs

-- `snapshotSubscribers`: those of the game and of all games, and the ids of the latter.
unfoldable pub snapshot_subscribers : ℤ → Broadcaster → Dict Text Subscriber × List Text
unfolding copy_into clients
snapshot_subscribers g b =
    let global = subscribers_of global_game_id b.game_subscribers in
    (copy_into (copy_into [] (subscribers_of g b.game_subscribers)) global, clients global)

-- `broadcastSerializedMessage`: the calls, and the clients of the game and of all games that failed.
unfoldable pub broadcast_serialized_message :
    Wire → Text → List Text → Dict Text Subscriber → List SocketCall × List Text × List Text
broadcast_serialized_message wire message globals [] = ([], [], [])
broadcast_serialized_message wire message globals ((client, s) ∷ all) =
    let (calls, failed_game, failed_global) =
      broadcast_serialized_message wire message globals all in
    let is_global = contains client globals in
    let game' = if is_global then failed_game else client ∷ failed_game in
    let global' = if is_global then client ∷ failed_global else failed_global in
    if wire.refuses_deadline s
    then (calls, game', global')
    else if wire.refuses_message s
    then (sent s.conn message ∷ calls, game', global')
    else (sent s.conn message ∷ calls, failed_game, failed_global)

closing : Option Subscriber → List SocketCall
closing none = []
closing (some s) = closed s.conn ∷ []

-- The loops over clients that failed.
unfoldable pub remove_failed : ℤ → List Text → Broadcaster → Broadcaster × List SocketCall
unfolding closing
remove_failed g [] b = (b, [])
remove_failed g (client ∷ cs) b =
    let (b', found) = remove_subscriber g client b in
    let (b'', calls) = remove_failed g cs b' in (b'', closing found ++ calls)

abbrev pub is_empty_list {ℓ} : {A : Type ℓ} → List A → Bool
is_empty_list [] = true
is_empty_list (_ ∷ _) = false

-- `cleanupFailedConnections`
unfoldable pub cleanup_failed_connections :
    ℤ → List Text → List Text → Broadcaster → Broadcaster × List SocketCall
cleanup_failed_connections g failed_game failed_global b =
    if is_empty_list failed_game && is_empty_list failed_global
    then (b, [])
    else (let (b', calls) = remove_failed g failed_game b in
        let (b'', calls') = remove_failed global_game_id failed_global (clean_up_empty g b') in
        (b'', calls ++ calls'))
