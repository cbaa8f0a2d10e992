-- ===== src/Activity/Queues.antt =====
-- The queues of internal/usecase/game_activity.go: how they are filled, sorted and paged.
use pod_backend.Common.{
  Bool, true, false, Option, none, some, List, [], ◌∷◌, ◌++◌, Text, ℤ, eqb_ℤ, is_empty, not, ◌&&◌,
  Outcome, ok, err, int_eq, text_eq, if◌then◌else◌,
}
use pod_backend.Activity.{
  Coordination, latest_game_activity, claims_of, read_active, resolve_reveal_next_action,
  resolve_expired_follow_up_next_action, resolve_waiting_lobby_next_action,
  resolve_joinable_next_action, belongs_to_wallet, player_needs_reveal,
}
use pod_backend.Entity.Activity.{
  ActivityQueueKey, joinable, my_active, reveal_required, expired_attention, history, other_queue,
  PlayerActivityNextAction, wait_for_reveal, browse_history, join_claim, cancel_claim, reveal_claim,
  expired_follow_up_claim, ActionClaim, PlayerActivityGame,
}
use pod_backend.Entity.Errors.{Error}
use pod_backend.Entity.Game.{
  Game, status_waiting_for_opponent, status_waiting_for_open_bids, status_ended, status_paid,
}
use pod_backend.ExpiredClaim
use pod_backend.Ledger.{Effect, World}
use pod_backend.Wallet.{AddressLib}

-- The two queries of the repository.
pub record GameQueries : Type 0 where
  pub get_by_status : ℤ → Outcome Error (List Game)
  pub get_by_player_and_statuses : Text → List ℤ → Outcome Error (List Game)

pub record Queues : Type 0 where
  pub joinable_items : List PlayerActivityGame
  pub my_active_items : List PlayerActivityGame
  pub reveal_required_items : List PlayerActivityGame
  pub expired_attention_items : List PlayerActivityGame
  pub history_items : List PlayerActivityGame

-- `newActivityQueueMap`
abbrev pub no_items : Queues
no_items = record {
  joinable_items = [];
  my_active_items = [];
  reveal_required_items = [];
  expired_attention_items = [];
  history_items = [];
}

-- `queues[queueKey]`: a key that is missing reads as no items.
unfoldable pub items_at : ActivityQueueKey → Queues → List PlayerActivityGame
items_at joinable q = q.joinable_items
items_at my_active q = q.my_active_items
items_at reveal_required q = q.reveal_required_items
items_at expired_attention q = q.expired_attention_items
items_at history q = q.history_items
items_at (other_queue _) q = []

-- `queues[key] = append(queues[key], item)`, for the keys that the code uses.
unfoldable pub add_item : ActivityQueueKey → PlayerActivityGame → Queues → Queues
add_item joinable i q = record q { joinable_items = q.joinable_items ++ i ∷ [] }
add_item my_active i q = record q { my_active_items = q.my_active_items ++ i ∷ [] }
add_item reveal_required i q = record q {
  reveal_required_items = q.reveal_required_items ++ i ∷ [];
}
add_item expired_attention i q = record q {
  expired_attention_items = q.expired_attention_items ++ i ∷ [];
}
add_item history i q = record q { history_items = q.history_items ++ i ∷ [] }
add_item (other_queue _) i q = q

unfoldable pub item_of :
    Game
    → List ActionClaim
    → Bool
    → ActivityQueueKey
    → PlayerActivityNextAction × Bool
    → PlayerActivityGame
item_of game claims owned key (action, attention) = record {
  game = game;
  queue_key = key;
  next_action = action;
  requires_attention = attention;
  is_owned_by_player = owned;
  latest_activity_at = latest_game_activity game;
  active_claims = claims;
}

-- An item joins the queue of its key.
unfoldable pub add_classified : Option PlayerActivityGame → Queues → Queues
add_classified none q = q
add_classified (some item) q = add_item item.queue_key item q

module _ (lib : AddressLib) where
  -- The `switch` of `buildPlayerItem`.
  unfoldable pub classify : Game → List ActionClaim → Text → Option PlayerActivityGame
  unfolding item_of
  classify game claims wallet =
      let item = item_of game claims true in
      if eqb_ℤ game.status status_waiting_for_opponent
      then some (item my_active (resolve_waiting_lobby_next_action lib claims wallet))
      else if eqb_ℤ game.status status_waiting_for_open_bids
      then (if player_needs_reveal lib game wallet
          then some (item reveal_required (resolve_reveal_next_action lib claims wallet))
          else some (item my_active (wait_for_reveal, false)))
      else if eqb_ℤ game.status status_ended
      then some (item expired_attention (resolve_expired_follow_up_next_action lib claims wallet))
      else if eqb_ℤ game.status status_paid
      then some (item history (browse_history, false))
      else none

  module _ (w : World) where
    -- `loadClaims`: join, cancel, reveal, expired follow-up.
    unfoldable pub load_claims :
        Coordination → ℤ → Coordination × Outcome Error (List ActionClaim) × List Effect
    unfolding read_active claims_of
    load_claims c g =
        let before =
          read_active w.now join_claim c.joins g
          ++ (read_active w.now cancel_claim c.cancels g
              ++ read_active w.now reveal_claim c.reveals g) in
        elim c.claims [
          | none ↦ (c, ok before, [])
          | some st ↦
              let (st', found, effects) = ExpiredClaim.get lib w st g in
              (
                record c { claims = some st' },
                elim found [
                  | err e ↦ err e
                  | ok claim ↦ ok (before ++ claims_of w.now expired_follow_up_claim claim)
                ],
                effects,
              )
        ]

    -- The loop of `populateJoinableQueue`; the wallet is normal, and the first error ends it.
    unfoldable pub fill_joinable :
        Coordination → Text → List Game → Queues → Coordination × Outcome Error Queues × List Effect
    unfolding item_of
    fill_joinable c wallet [] q = (c, ok q, [])
    fill_joinable c wallet (game ∷ games) q =
        elim (not (is_empty wallet) && belongs_to_wallet lib game wallet) [
          | true ↦ fill_joinable c wallet games q
          | false ↦
              let (c', loaded, effects) = load_claims c game.game_id in
              elim loaded [
                | err e ↦ (c', err e, effects)
                | ok claims ↦
                    let item =
                      item_of game claims false joinable
                        (resolve_joinable_next_action lib claims wallet) in
                    let (c'', result, more) =
                      fill_joinable c' wallet games (add_item joinable item q) in
                    (c'', result, effects ++ more)
              ]
        ]

    -- The loop of `populatePlayerQueues`.
    unfoldable pub fill_player :
        Coordination → Text → List Game → Queues → Coordination × Outcome Error Queues × List Effect
    unfolding add_classified
    fill_player c wallet [] q = (c, ok q, [])
    fill_player c wallet (game ∷ games) q =
        let (c', loaded, effects) = load_claims c game.game_id in
        elim loaded [
          | err e ↦ (c', err e, effects)
          | ok claims ↦
              let (c'', result, more) =
                fill_player c' wallet games (add_classified (classify game claims wallet) q) in
              (c'', result, effects ++ more)
        ]
