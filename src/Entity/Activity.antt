-- ===== src/Entity/Activity.antt =====
-- internal/entity/player_activity.go: the queues of a player and their items.
use pod_backend.Common.{ℕ, Bool, true, false, Option, List, Text, codes, ℤ}
use pod_backend.Entity.Game.{Game}

-- The five constants, and any other string.
pub data ActivityQueueKey : Type 0 where
  joinable my_active reveal_required expired_attention history : ActivityQueueKey
  other_queue : Text → ActivityQueueKey

pub data PlayerActivityNextAction : Type 0 where
  join resume_join wait_for_join_window : PlayerActivityNextAction
  resume_cancel wait_for_cancel wait_for_opponent : PlayerActivityNextAction
  reveal resume_reveal wait_for_reveal : PlayerActivityNextAction
  review_result resume_review wait_for_review browse_history : PlayerActivityNextAction

pub data ActionClaimType : Type 0 where
  join_claim cancel_claim reveal_claim expired_follow_up_claim : ActionClaimType

-- The status of a claim in a list is always `active`, and its release reason empty.
pub record ActionClaim : Type 0 where
  pub claim_type : ActionClaimType
  pub claim_game_id : ℤ
  pub holder_wallet : Text
  pub claim_created_at : ℕ
  pub claim_expires_at : ℕ

pub record PlayerActivityGame : Type 0 where
  pub game : Game
  pub queue_key : ActivityQueueKey
  pub next_action : PlayerActivityNextAction
  pub requires_attention : Bool
  pub is_owned_by_player : Bool
  pub latest_activity_at : ℕ
  pub active_claims : List ActionClaim

pub record GameplayQueue : Type 0 where
  pub key : ActivityQueueKey
  pub title : Text
  pub attention_required : Bool
  pub total_count : ℕ
  pub items : List PlayerActivityGame

pub record PlayerActivitySummary : Type 0 where
  pub summary_wallet : Text
  pub joinable_count : ℕ
  pub my_active_count : ℕ
  pub reveal_required_count : ℕ
  pub expired_attention_count : ℕ
  pub history_count : ℕ
  pub last_activity_at : Option ℕ

unfoldable pub activity_queue_title : ActivityQueueKey → Text
activity_queue_title joinable = codes "Можно присоединиться"
activity_queue_title my_active = codes "Мои активные"
activity_queue_title reveal_required = codes "Нужно раскрыть"
activity_queue_title expired_attention = codes "Требуют внимания"
activity_queue_title history = codes "История"
activity_queue_title (other_queue _) = codes "Активность"

unfoldable pub queue_requires_attention : ActivityQueueKey → Bool
queue_requires_attention reveal_required = true
queue_requires_attention expired_attention = true
queue_requires_attention _ = false

unfoldable pub is_valid_activity_queue_key : ActivityQueueKey → Bool
is_valid_activity_queue_key (other_queue _) = false
is_valid_activity_queue_key _ = true
