-- ===== src/GameBroadcast/Histories.antt =====
-- Any calls on a new broadcaster, and its counter after them.
use pod_backend.Common.{ℕ, suc, ◌+◌, ◌≡◌, refl, Text, List, [], ◌∷◌, ℤ, pos, if◌then◌else◌}
use pod_backend.GameBroadcast.{
  Broadcaster, new_game_broadcast_use_case, subscribe, unsubscribe, close_all_connections,
  cleanup_failed_connections,
}
use pod_backend.GameBroadcast.Counting.{
  IsCounted, count_subscriptions, is_subscribed, subscribe-IsCounted, unsubscribe-IsCounted,
  cleanup_failed_connections-IsCounted,
}

-- What changes the state. A broadcast does so only where it cleans up, whatever has run since its
-- snapshot.
pub data Call : Type 0 where
  subscribing : ℤ → Text → ℕ → Call
  unsubscribing : ℤ → Text → Call
  cleaning_up : ℤ → List Text → List Text → Call
  closing_all : Call

unfoldable pub after_call : Call → Broadcaster → Broadcaster
after_call (subscribing g client conn) b = subscribe g client conn b
after_call (unsubscribing g client) b = unsubscribe g client b
after_call (cleaning_up g cs ds) b = (cleanup_failed_connections g cs ds b).0
after_call closing_all b = (close_all_connections b).0

-- How many calls of `Subscribe` since the last `CloseAllConnections` found their client subscribed
-- already.
unfoldable pub repeated : Call → Broadcaster → ℕ → ℕ
repeated (subscribing g client _) b n = if is_subscribed g client b then suc n else n
repeated (unsubscribing _ _) b n = n
repeated (cleaning_up _ _ _) b n = n
repeated closing_all b n = 0

unfoldable pub after_calls : List Call → Broadcaster → Broadcaster
after_calls [] b = b
after_calls (c ∷ cs) b = after_calls cs (after_call c b)

unfoldable pub repetitions : List Call → Broadcaster → ℕ → ℕ
repetitions [] b n = n
repetitions (c ∷ cs) b n = repetitions cs (after_call c b) (repeated c b n)

after_call-IsCounted :
    (c : Call) (b : Broadcaster) (n : ℕ)
    → IsCounted n b
    → IsCounted (repeated c b n) (after_call c b)
unfolding after_call repeated close_all_connections count_subscriptions
after_call-IsCounted (subscribing g client conn) b n i = subscribe-IsCounted n g client conn b i
after_call-IsCounted (unsubscribing g client) b n i = unsubscribe-IsCounted n g client b i
after_call-IsCounted (cleaning_up g cs ds) b n i =
    cleanup_failed_connections-IsCounted n g cs ds b i
after_call-IsCounted closing_all b n i = record { unique = tt; tidy = tt; counted = refl }

after_calls-IsCounted :
    (cs : List Call) (b : Broadcaster) (n : ℕ)
    → IsCounted n b
    → IsCounted (repetitions cs b n) (after_calls cs b)
unfolding after_calls repetitions
after_calls-IsCounted [] b n i = i
after_calls-IsCounted (c ∷ cs) b n i =
    after_calls-IsCounted cs (after_call c b) (repeated c b n) (after_call-IsCounted c b n i)

-- After any calls on a new broadcaster, the counter of active connections is the number of the
-- subscriptions, and one more for each `Subscribe` since the last `CloseAllConnections` whose client
-- was subscribed to the game already: the counter is exact as long as no client subscribes twice, and
-- it never falls below the subscriptions.
pub after_calls-counts :
    (cs : List Call)
    → let b = after_calls cs new_game_broadcast_use_case in
      b.active_connections
      ≡ pos (count_subscriptions b.game_subscribers + repetitions cs new_game_broadcast_use_case 0)
unfolding new_game_broadcast_use_case count_subscriptions
after_calls-counts cs =
    (after_calls-IsCounted cs new_game_broadcast_use_case 0
      (record { unique = tt; tidy = tt; counted = refl })).counted
