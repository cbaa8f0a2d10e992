-- ===== src/Entity/Game.antt =====
-- internal/entity/game.go and the address pattern of user.go. Status and choices are `int`.
use pod_backend.Common.{
  ℕ, is_empty, Bool, true, false, ◌&&◌, ◌||◌, not, Option, none, some, Text, ℤ, pos, ltb_ℤ, eqb_ℤ,
  leb_ℤ, leb, ◌==◌, [], ◌∷◌, length, if◌then◌else◌, eqb, text_eq,
}
use Prim.Native.String.{String}

abbrev pub status_uninitialized : ℤ
status_uninitialized = pos 0

abbrev pub status_waiting_for_opponent : ℤ
status_waiting_for_opponent = pos 1

abbrev pub status_waiting_for_open_bids : ℤ
status_waiting_for_open_bids = pos 2

abbrev pub status_ended : ℤ
status_ended = pos 3

abbrev pub status_paid : ℤ
status_paid = pos 4

abbrev pub coin_side_unknown : ℤ
coin_side_unknown = pos 0

abbrev pub coin_side_closed : ℤ
coin_side_closed = pos 1

abbrev pub coin_side_tails : ℤ
coin_side_tails = pos 3

-- Instants are nanoseconds from a fixed origin.
pub record Game : Type 0 where
  pub game_id : ℤ
  pub status : ℤ
  pub player_one_address : Text
  pub player_two_address : Option Text
  pub player_one_choice : ℤ
  pub player_two_choice : Option ℤ
  pub player_one_referrer : Option Text
  pub player_two_referrer : Option Text
  pub bet_amount : ℤ
  pub winner_address : Option Text
  pub payout_amount : Option ℤ
  pub service_fee_numerator : ℤ
  pub referrer_fee_numerator : ℤ
  pub waiting_timeout_seconds : ℤ
  pub lowest_bid_allowed : ℤ
  pub highest_bid_allowed : ℤ
  pub min_referrer_payout_value : ℤ
  pub protocol_version : ℤ
  pub fee_receiver_address : Text
  pub created_at : ℕ
  pub joined_at : Option ℕ
  pub revealed_at : Option ℕ
  pub completed_at : Option ℕ
  pub init_tx_hash : Text
  pub join_tx_hash : Option Text
  pub reveal_tx_hash : Option Text
  pub complete_tx_hash : Option Text

-- `[A-Za-z0-9_-]`
is_address_rune : ℕ → Bool
is_address_rune c =
    (leb b'A' c && leb c b'Z')
    || (leb b'a' c && leb c b'z')
    || (leb b'0' c && leb c b'9')
    || c == b'_'
    || c == b'-'

unfoldable pub all_address_runes : Text → Bool
unfolding is_address_rune
all_address_runes [] = true
all_address_runes (c ∷ s) = is_address_rune c && all_address_runes s

-- `^EQ[A-Za-z0-9_-]{46}$`
unfoldable pub is_ton_address : Text → Bool
unfolding all_address_runes
is_ton_address (e ∷ q ∷ s) = e == b'E' && q == b'Q' && length s == 46 && all_address_runes s
is_ton_address _ = false

abbrev is_some {ℓ} : {A : Type ℓ} → Option A → Bool
is_some none = false
is_some (some _) = true

-- `g.PlayerTwoAddress != nil && *g.PlayerTwoAddress == g.PlayerOneAddress`
same_players : Option Text → Text → Bool
same_players none one = false
same_players (some two) one = eqb two one

-- `Validate`: the message of the first check that fails.
unfoldable pub validate : Game → Option String
unfolding is_ton_address same_players
validate g =
    if leb_ℤ g.game_id (pos 0)
    then some "game_id must be positive"
    else if ltb_ℤ g.status status_uninitialized || ltb_ℤ status_paid g.status
    then some "status must be 0-4"
    else if not (is_ton_address g.player_one_address)
    then some "player_one_address must be valid TON address"
    else if leb_ℤ g.bet_amount (pos 0)
    then some "bet_amount must be positive"
    else if ltb_ℤ g.player_one_choice coin_side_unknown || ltb_ℤ coin_side_tails g.player_one_choice
    then some "player_one_choice must be 0-3"
    else if leb_ℤ status_waiting_for_open_bids g.status && not (is_some g.player_two_address)
    then some "player_two_address required for status >= 2"
    else if same_players g.player_two_address g.player_one_address
    then some "player_two_address must be different from player_one_address"
    else if is_empty g.init_tx_hash
    then some "init_tx_hash is required"
    else none

-- `CanTransitionTo`
unfoldable pub can_transition_to : Game → ℤ → Bool
can_transition_to g new_status =
    if ltb_ℤ new_status g.status
    then (if eqb_ℤ g.status status_ended && eqb_ℤ new_status status_paid then true else false)
    else true
