-- ===== src/Activity/Requests.antt =====
-- The requests of internal/usecase/game_activity.go: a page of a queue, and the summary.
use pod_backend.Common.{
  ℕ, ◌+◌, ◌-◌, Bool, Option, none, some, List, [], ◌∷◌, ◌++◌, Text, ℤ, pos, ltb_ℤ, pos_part, not,
  ltb, leb, is_empty, length, take, drop, Outcome, ok, err, if◌then◌else◌,
}
use pod_backend.Activity.{Coordination, Limits, normalize_limit}
use pod_backend.Activity.Queues.{
  GameQueries, Queues, no_items, items_at, fill_joinable, fill_player,
}
use pod_backend.Entity.Activity.{
  ActivityQueueKey, PlayerActivityGame, GameplayQueue, PlayerActivitySummary, activity_queue_title,
  queue_requires_attention, is_valid_activity_queue_key,
}
use pod_backend.Entity.Errors.{
  Error, invalid_activity_queue_key, invalid_activity_offset, activity_wallet_required,
}
use pod_backend.Entity.Game.{
  status_waiting_for_opponent, status_waiting_for_open_bids, status_ended, status_paid,
}
use pod_backend.Ledger.{Effect, World}
use pod_backend.Sorting.{sort_stable}
use pod_backend.Wallet.{AddressLib, normalize_reservation_wallet}

abbrev pub is_more_recent : PlayerActivityGame → PlayerActivityGame → Bool
is_more_recent a b = ltb b.latest_activity_at a.latest_activity_at

-- `sortActivityItems`, for each queue.
abbrev pub sort_queues : Queues → Queues
sort_queues q = record {
  joinable_items = sort_stable is_more_recent q.joinable_items;
  my_active_items = sort_stable is_more_recent q.my_active_items;
  reveal_required_items = sort_stable is_more_recent q.reveal_required_items;
  expired_attention_items = sort_stable is_more_recent q.expired_attention_items;
  history_items = sort_stable is_more_recent q.history_items;
}

-- `paginateActivityItems`. The sum of limit and offset does not reach 2 ^ 63: a queue that is longer
-- than the offset fits in memory, and the limit is one of the configuration.
unfoldable pub paginate : List PlayerActivityGame → ℕ → ℕ → List PlayerActivityGame
paginate items limit offset =
    if leb (length items) offset
    then []
    else (let end = if ltb (length items) (offset + limit) then length items else offset + limit in
        take (end - offset) (drop offset items))

-- The search for the latest item, with the one found so far.
latest_of : Option ℕ → List PlayerActivityGame → Option ℕ
latest_of found [] = found
latest_of none (i ∷ is) = latest_of (some i.latest_activity_at) is
latest_of (some t) (i ∷ is) =
    latest_of (some (if ltb t i.latest_activity_at then i.latest_activity_at else t)) is

all_items : Queues → List PlayerActivityGame
all_items q =
    q.joinable_items
    ++ (q.my_active_items
        ++ (q.reveal_required_items ++ (q.expired_attention_items ++ q.history_items)))

-- `buildPlayerActivitySummary`. The queues are a map: the latest time is the same in any order.
unfoldable pub build_player_activity_summary : Text → Queues → PlayerActivitySummary
unfolding latest_of all_items
build_player_activity_summary wallet q = record {
  summary_wallet = wallet;
  joinable_count = length q.joinable_items;
  my_active_count = length q.my_active_items;
  reveal_required_count = length q.reveal_required_items;
  expired_attention_count = length q.expired_attention_items;
  history_count = length q.history_items;
  last_activity_at = latest_of none (all_items q);
}

-- The statuses that `populatePlayerQueues` asks for.
abbrev pub player_statuses : List ℤ
player_statuses =
    status_waiting_for_opponent ∷ status_waiting_for_open_bids ∷ status_ended ∷ status_paid ∷ []

module _ (lib : AddressLib) (w : World) (repo : GameQueries) where
  -- `populateJoinableQueue`; an error is wrapped in the code.
  unfoldable pub populate_joinable_queue :
      Coordination → Text → Queues → Coordination × Outcome Error Queues × List Effect
  populate_joinable_queue c wallet q = elim (repo.get_by_status status_waiting_for_opponent) [
    | err e ↦ (c, err e, [])
    | ok games ↦ fill_joinable lib w c wallet games q
  ]

  -- `populatePlayerQueues`: with no wallet there are no games of the player.
  unfoldable pub populate_player_queues :
      Coordination → Text → Text → Queues → Coordination × Outcome Error Queues × List Effect
  populate_player_queues c wallet key q =
      if is_empty key
      then (c, ok q, [])
      else elim (repo.get_by_player_and_statuses wallet player_statuses) [
        | err e ↦ (c, err e, [])
        | ok games ↦ fill_player lib w c key games q
      ]

  -- `buildQueues`
  unfoldable pub build_queues :
      Coordination
      → Text
      → Coordination × Outcome Error (PlayerActivitySummary × Queues) × List Effect
  build_queues c wallet =
      let key = normalize_reservation_wallet lib wallet in
      let (c', filled, effects) = populate_joinable_queue c key no_items in
      elim filled [
        | err e ↦ (c', err e, effects)
        | ok q ↦
            let (c'', result, more) = populate_player_queues c' wallet key q in
            (
              c'',
              elim result [
                | err e ↦ err e
                | ok q' ↦ ok (build_player_activity_summary wallet (sort_queues q'), sort_queues q')
              ],
              effects ++ more,
            )
      ]

  -- `GetQueue`
  unfoldable pub get_queue :
      Coordination
      → Limits
      → ActivityQueueKey
      → Text
      → ℤ
      → ℤ
      → Coordination × Outcome Error (GameplayQueue × PlayerActivitySummary) × List Effect
  get_queue c limits key wallet limit offset =
      if not (is_valid_activity_queue_key key)
      then (c, err invalid_activity_queue_key, [])
      else if ltb_ℤ offset (pos 0)
      then (c, err invalid_activity_offset, [])
      else (let (c', built, effects) = build_queues c wallet in
          (
            c',
            elim built [
              | err e ↦ err e
              | ok (summary, q) ↦ ok (
                record {
                  key = key;
                  title = activity_queue_title key;
                  attention_required = queue_requires_attention key;
                  total_count = length (items_at key q);
                  items =
                      paginate (items_at key q) (normalize_limit limits limit) (pos_part offset);
                },
                summary,
              )
            ],
            effects,
          ))

  -- `GetSummary`
  unfoldable pub get_summary :
      Coordination → Text → Coordination × Outcome Error PlayerActivitySummary × List Effect
  get_summary c wallet =
      if is_empty (normalize_reservation_wallet lib wallet)
      then (c, err activity_wallet_required, [])
      else (let (c', built, effects) = build_queues c wallet in
          (c', elim built [ err e ↦ err e | ok (summary, _) ↦ ok summary ], effects))
