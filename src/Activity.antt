-- ===== src/Activity.antt =====
-- internal/usecase/game_activity.go: the queues that a player sees, made from the games of the
-- repository and the reservations. The text search is not modelled.
pub mod Queues
pub mod Requests
pub mod Pages
pub mod Places
pub mod Partition
pub mod Answers
pub mod Successes
use pod_backend.Common.{
  ℕ, ◌+◌, ◌-◌, Bool, true, false, ◌||◌, ◌&&◌, not, Option, none, some, List, [], ◌∷◌, ◌++◌, Text, ℤ,
  pos, eqb_ℤ, leb_ℤ, ltb_ℤ, pos_part, ltb, leb, is_empty, length, take, drop, Outcome, ok, err,
  int_eq, text_eq, if◌then◌else◌,
}
use pod_backend.Entity.Activity.{
  ActivityQueueKey, joinable, my_active, reveal_required, expired_attention, history, other_queue,
  PlayerActivityNextAction, join, resume_join, wait_for_join_window, resume_cancel, wait_for_cancel,
  wait_for_opponent, reveal, resume_reveal, wait_for_reveal, review_result, resume_review,
  wait_for_review, browse_history, ActionClaimType, join_claim, cancel_claim, reveal_claim,
  expired_follow_up_claim, ActionClaim, PlayerActivityGame, GameplayQueue, PlayerActivitySummary,
  activity_queue_title, queue_requires_attention, is_valid_activity_queue_key,
}
use pod_backend.Entity.Errors.{
  Error, invalid_activity_queue_key, invalid_activity_offset, activity_wallet_required,
}
use pod_backend.Entity.Game.{
  Game, status_waiting_for_opponent, status_waiting_for_open_bids, status_ended, status_paid,
  coin_side_closed, coin_side_unknown,
}
use pod_backend.Entity.Reservation.{GameReservation, is_active}
use pod_backend.ExpiredClaim
use pod_backend.Ledger.{Ledger, Effect, World, get_active, limit_or}
use pod_backend.Sorting.{sort_stable}
use pod_backend.Wallet.{
  AddressLib, normalize_reservation_wallet, same_reservation_wallet, same_optional_wallet,
}

-- The use cases that are wired, with their states. Reading an expired claim may release it, so that
-- state changes.
pub record Coordination : Type 0 where
  pub joins : Option Ledger
  pub cancels : Option Ledger
  pub reveals : Option Ledger
  pub claims : Option Ledger

pub record ActivityConfig : Type 0 where
  pub default_limit : ℤ
  pub max_limit : ℤ

-- `NewGameActivityUseCase`: the limits for a page.
pub record Limits : Type 0 where
  pub usual : ℕ
  pub most : ℕ

unfoldable pub new_limits : ActivityConfig → Limits
unfolding limit_or
new_limits cfg = record { usual = limit_or 20 cfg.default_limit; most = limit_or 100 cfg.max_limit }

-- `normalizeLimit`
unfoldable pub normalize_limit : Limits → ℤ → ℕ
normalize_limit limits n =
    if leb_ℤ n (pos 0)
    then limits.usual
    else if ltb_ℤ (pos limits.most) n
    then limits.most
    else pos_part n

-- `latestGameActivity` of game_query.go.
unfoldable pub latest_game_activity : Game → ℕ
latest_game_activity g = elim g.completed_at [
  | some t ↦ t
  | none ↦ elim g.revealed_at [
    | some t ↦ t
    | none ↦ elim g.joined_at [ some t ↦ t | none ↦ g.created_at ]
  ]
]

abbrev pub claim_of : ActionClaimType → GameReservation → ActionClaim
claim_of kind r = record {
  claim_type = kind;
  claim_game_id = r.game_id;
  holder_wallet = r.wallet_address;
  claim_created_at = r.created_at;
  claim_expires_at = r.expires_at;
}

-- One entry, if there is a reservation and it is active.
claims_of : ℕ → ActionClaimType → Option GameReservation → List ActionClaim
claims_of now kind none = []
claims_of now kind (some r) = if is_active now r then claim_of kind r ∷ [] else []

read_active : ℕ → ActionClaimType → Option Ledger → ℤ → List ActionClaim
unfolding claims_of
read_active now kind none g = []
read_active now kind (some st) g = claims_of now kind (get_active now st g)

abbrev pub eqb_claim_type : ActionClaimType → ActionClaimType → Bool
eqb_claim_type join_claim join_claim = true
eqb_claim_type cancel_claim cancel_claim = true
eqb_claim_type reveal_claim reveal_claim = true
eqb_claim_type expired_follow_up_claim expired_follow_up_claim = true
eqb_claim_type _ _ = false

-- `findClaim`
unfoldable pub find_claim : ActionClaimType → List ActionClaim → Option ActionClaim
find_claim kind [] = none
find_claim kind (c ∷ cs) = if eqb_claim_type c.claim_type kind then some c else find_claim kind cs

module _ (lib : AddressLib) where
  -- The three `resolve...NextAction` functions: the action and whether it asks for attention.
  unfoldable pub resolve_reveal_next_action :
      List ActionClaim → Text → PlayerActivityNextAction × Bool
  resolve_reveal_next_action claims wallet = elim (find_claim reveal_claim claims) [
    | none ↦ (reveal, true)
    | some c ↦
        if same_reservation_wallet lib c.holder_wallet wallet
        then (resume_reveal, true)
        else (wait_for_reveal, false)
  ]

  unfoldable pub resolve_expired_follow_up_next_action :
      List ActionClaim → Text → PlayerActivityNextAction × Bool
  resolve_expired_follow_up_next_action claims wallet =
      elim (find_claim expired_follow_up_claim claims) [
        | none ↦ (review_result, true)
        | some c ↦
            if same_reservation_wallet lib c.holder_wallet wallet
            then (resume_review, true)
            else (wait_for_review, false)
      ]

  unfoldable pub resolve_waiting_lobby_next_action :
      List ActionClaim → Text → PlayerActivityNextAction × Bool
  resolve_waiting_lobby_next_action claims wallet = elim (find_claim cancel_claim claims) [
    | none ↦ (wait_for_opponent, false)
    | some c ↦
        if same_reservation_wallet lib c.holder_wallet wallet
        then (resume_cancel, true)
        else (wait_for_cancel, false)
  ]

  -- The choice of the action for a game that can be joined.
  unfoldable pub resolve_joinable_next_action :
      List ActionClaim → Text → PlayerActivityNextAction × Bool
  resolve_joinable_next_action claims wallet = elim (find_claim cancel_claim claims) [
    | some _ ↦ (wait_for_cancel, false)
    | none ↦ elim (find_claim join_claim claims) [
      | none ↦ (join, false)
      | some c ↦
          if same_reservation_wallet lib c.holder_wallet wallet
          then (resume_join, true)
          else (wait_for_join_window, false)
    ]
  ]

  -- `belongsToWallet`
  unfoldable pub belongs_to_wallet : Game → Text → Bool
  belongs_to_wallet game wallet =
      if same_reservation_wallet lib game.player_one_address wallet
      then true
      else same_optional_wallet lib game.player_two_address wallet

  is_unrevealed : ℤ → Bool
  is_unrevealed choice = eqb_ℤ choice coin_side_closed || eqb_ℤ choice coin_side_unknown

  choice_is_unrevealed : Option ℤ → Bool
  unfolding is_unrevealed
  choice_is_unrevealed none = true
  choice_is_unrevealed (some choice) = is_unrevealed choice

  -- `playerNeedsReveal`
  unfoldable pub player_needs_reveal : Game → Text → Bool
  unfolding is_unrevealed choice_is_unrevealed
  player_needs_reveal game wallet =
      if not (eqb_ℤ game.status status_waiting_for_open_bids)
      then false
      else if same_reservation_wallet lib game.player_one_address wallet
      then is_unrevealed game.player_one_choice
      else if same_optional_wallet lib game.player_two_address wallet
      then choice_is_unrevealed game.player_two_choice
      else false
