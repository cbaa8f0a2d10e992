-- ===== src/Examples/Sockets.antt =====
-- Tests of the broadcasts, and each result on them at a concrete input.
use pod_backend.Common.{
  ◌+◌, ◌≡◌, refl, false, [], ◌∷◌, List, codes, pos, ok, map, Text_discrete, text_eq, int_eq,
}
use pod_backend.Common.Dict.{Unique, lookup}
use pod_backend.Database.Games.{rows}
use pod_backend.GameBroadcast.{
  subscribers_of, snapshot_subscribers, global_game_id, Broadcaster, sent,
  new_game_broadcast_use_case,
}
use pod_backend.GameBroadcast.Counting.{count_subscriptions}
use pod_backend.GameBroadcast.Delivery.{first_of, broadcast_event-delivers}
use pod_backend.GameBroadcast.Messages.{Line, Message, released_message, broadcast_event}
use pod_backend.GameBroadcast.Histories.{
  Call, subscribing, unsubscribing, cleaning_up, after_calls, repetitions, after_calls-counts,
}

-- A client of one game and of all games, subscribed to the one twice; then the client of another game
-- fails.
abbrev calls : List Call
calls =
    subscribing (pos 7) (codes "a") 1
    ∷ subscribing (pos 0) (codes "a") 1
    ∷ subscribing (pos 7) (codes "a") 2
    ∷ subscribing (pos 8) (codes "b") 3
    ∷ cleaning_up (pos 8) (codes "b" ∷ []) []
    ∷ unsubscribing (pos 7) (codes "c")
    ∷ []

after_calls-counts_example :
    let b = after_calls calls new_game_broadcast_use_case in
    b.active_connections
    ≡ pos (count_subscriptions b.game_subscribers + repetitions calls new_game_broadcast_use_case 0)
after_calls-counts_example = after_calls-counts calls

-- A client of game 7 and of all games, and a client of game 7.
abbrev hub : Broadcaster
hub = record {
  game_subscribers =
      (
        pos 7,
        (codes "a", record { client_id = codes "a"; conn = 1 })
            ∷ (codes "b", record { client_id = codes "b"; conn = 2 })
            ∷ [],
      )
      ∷ (pos 0, (codes "a", record { client_id = codes "a"; conn = 3 }) ∷ [])
      ∷ [];
  active_connections = pos 3;
}

abbrev line : Line
line = record {
  now = 5;
  marshal = λ _. ok (codes "{}");
  wire = record { refuses_deadline = λ _. false; refuses_message = λ _. false };
}

abbrev news : Message
news = released_message (record {
  released_type = "reservation_released";
  released_timestamp = 5;
  released_game_id = pos 7;
  reason = "expired";
})

broadcast_event-delivers_example :
    let all = (snapshot_subscribers (pos 7) hub).0 in
    (broadcast_event line "failed to serialize event" (pos 7) news hub
      ≡ (ok tt, hub, map (λ s. sent s.conn (codes "{}")) (rows all)))
    × Unique all
    × (lookup (codes "a") all
        ≡ first_of
            (lookup (codes "a") (subscribers_of global_game_id hub.game_subscribers))
            (lookup (codes "a") (subscribers_of (pos 7) hub.game_subscribers)))
unfolding lookup Text_discrete
broadcast_event-delivers_example =
    broadcast_event-delivers line "failed to serialize event" (pos 7) news hub (codes "{}")
      (codes "a") ((((refl, (refl, tt))), ((refl, tt), tt))) refl (λ _. refl) (λ _. refl)
