-- ===== src/Examples/Lobby.antt =====
-- The queues of a player at concrete inputs.
use pod_backend.Common.{
  ℕ, ◌+◌, ◌≡◌, refl, Bool, true, false, none, some, List, [], ◌∷◌, codes, pos, count_if, ok, int_eq,
  text_eq,
}
use pod_backend.Activity.{
  Coordination, Limits, latest_game_activity, find_claim, normalize_limit, belongs_to_wallet,
  player_needs_reveal, resolve_joinable_next_action, resolve_reveal_next_action,
  resolve_waiting_lobby_next_action, resolve_expired_follow_up_next_action,
}
use pod_backend.Activity.Answers.{Sorts}
use pod_backend.Activity.Partition.{has_queue}
use pod_backend.Activity.Queues.{
  GameQueries, Queues, items_at, add_item, add_classified, item_of, classify, load_claims,
  fill_joinable, fill_player,
}
use pod_backend.Activity.Requests.{
  paginate, build_player_activity_summary, populate_joinable_queue, populate_player_queues,
  build_queues, get_queue,
}
use pod_backend.Activity.Successes.{IsPage, get_queue-IsPage, build_queues_succeeds}
use pod_backend.Entity.Activity.{
  my_active, PlayerActivityGame, GameplayQueue, PlayerActivitySummary, is_valid_activity_queue_key,
  activity_queue_title, queue_requires_attention, wait_for_opponent,
}
use pod_backend.Entity.Game.{Game}
use pod_backend.Examples.Fixtures.{plain, alice, bob, game_of, at, joining}
use pod_backend.Examples.Joining.{taken}

-- Alice has a waiting game and an ended one; somebody else's game waits too.
abbrev bobs_game : Game
bobs_game = record (game_of (pos 9) (pos 1)) { player_one_address = bob }

abbrev her_games : List Game
her_games = game_of (pos 7) (pos 1) ∷ game_of (pos 8) (pos 4) ∷ []

abbrev waiting : List Game
waiting = game_of (pos 7) (pos 1) ∷ bobs_game ∷ []

abbrev queries : GameQueries
queries = record {
  get_by_status = λ _. ok waiting;
  get_by_player_and_statuses = λ _ _. ok her_games;
}

abbrev wired : Coordination
wired = record { joins = some taken; cancels = none; reveals = none; claims = none }

abbrev limits : Limits
limits = record { usual = 20; most = 100 }

-- What a run of the queues computes through.
unfoldable looking : Bool
unfolding joining latest_game_activity find_claim normalize_limit belongs_to_wallet
    player_needs_reveal resolve_joinable_next_action resolve_reveal_next_action
    resolve_waiting_lobby_next_action resolve_expired_follow_up_next_action items_at add_item
    add_classified item_of classify load_claims fill_joinable fill_player paginate
    build_player_activity_summary populate_joinable_queue populate_player_queues build_queues
    get_queue is_valid_activity_queue_key activity_queue_title queue_requires_attention
looking = true

abbrev her_item : PlayerActivityGame
her_item = record {
  game = game_of (pos 7) (pos 1);
  queue_key = my_active;
  next_action = wait_for_opponent;
  requires_attention = false;
  is_owned_by_player = true;
  latest_activity_at = 0;
  active_claims = [];
}

abbrev page : GameplayQueue
page = record {
  key = my_active;
  title = codes "Мои активные";
  attention_required = false;
  total_count = 1;
  items = her_item ∷ [];
}

abbrev summary : PlayerActivitySummary
summary = record {
  summary_wallet = alice;
  joinable_count = 1;
  my_active_count = 1;
  reveal_required_count = 0;
  expired_attention_count = 0;
  history_count = 1;
  last_activity_at = some 0;
}

abbrev later : ℕ
later = 60000000011

her_page :
    (get_queue plain (at later) queries wired limits my_active alice (pos 0) (pos 0)).1
    ≡ ok (page, summary)
unfolding looking
her_page = refl

get_queue-IsPage_example :
    (q : Queues) × ((build_queues plain (at later) queries wired alice).1 ≡ ok (summary, q))
    × IsPage my_active (normalize_limit limits (pos 0)) 0 q page summary
get_queue-IsPage_example =
    get_queue-IsPage plain (at later) queries wired limits my_active alice (pos 0) (pos 0) page
      summary her_page

build_queues_succeeds_example :
    (s : PlayerActivitySummary) × (q : Queues) × ((build_queues plain
        (at later)
        queries
        wired
        alice).1
      ≡ ok (s, q))
    × Sorts plain (at later) queries alice waiting her_games q
    × (s ≡ build_player_activity_summary alice q)
    × (s.my_active_count + s.reveal_required_count + s.expired_attention_count + s.history_count
        ≡ count_if has_queue her_games)
unfolding joining
build_queues_succeeds_example =
    build_queues_succeeds plain (at later) queries wired alice waiting her_games
      (λ g. (some (game_of g (pos 1)), refl)) refl refl refl
