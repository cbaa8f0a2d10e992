-- ===== src/Entity/GameEvent.antt =====
-- internal/entity/game_event.go. Instants are nanoseconds from a fixed origin.
use Prim.Native.String.{String}
use pod_backend.Common.{
  ℕ, not, Option, none, some, List, [], ◌∷◌, Text, codes, is_empty, ℤ, pos, leb_ℤ, ltb_ℤ, contains,
  text_eq, if◌then◌else◌,
}
use pod_backend.Common.Dict.{Dict}

abbrev pub event_game_initialized : Text
event_game_initialized = codes "GameInitializedNotify"

abbrev pub event_game_started : Text
event_game_started = codes "GameStartedNotify"

abbrev pub event_game_finished : Text
event_game_finished = codes "GameFinishedNotify"

abbrev pub event_game_cancelled : Text
event_game_cancelled = codes "GameCancelledNotify"

abbrev pub event_draw : Text
event_draw = codes "DrawNotify"

abbrev pub event_secret_opened : Text
event_secret_opened = codes "SecretOpenedNotify"

abbrev pub event_insufficient_balance : Text
event_insufficient_balance = codes "InsufficientBalanceNotify"

-- A value of `map[string]interface{}` by its dynamic type: a `float64` is given by its bits, and
-- `other` stands for every type that the code does not name.
pub data Value : Type 0 where
  int64 : ℤ → Value
  float64 : ℕ → Value
  int : ℤ → Value
  uint8 : ℕ → Value
  uint16 : ℕ → Value
  uint32 : ℕ → Value
  uint64 : ℕ → Value
  text : Text → Value
  other : Value

abbrev pub EventData : Type 0
EventData = Dict Text Value

-- `event_data` is none where the map is nil.
pub record GameEvent : Type 0 where
  pub id : ℤ
  pub game_id : ℤ
  pub event_type : Text
  pub transaction_hash : Text
  pub block_number : ℤ
  pub timestamp : ℕ
  pub payload : Text
  pub event_data : Option EventData
  pub created_at : ℕ

abbrev pub valid_event_types : List Text
valid_event_types =
    event_game_initialized ∷ event_game_started ∷ event_game_finished ∷ event_game_cancelled
    ∷ event_draw ∷ event_secret_opened ∷ event_insufficient_balance ∷ []

-- `Validate`: the message of the first check that fails.
unfoldable pub validate_event : GameEvent → Option String
validate_event e =
    if not (contains e.event_type valid_event_types)
    then some "invalid event_type"
    else if is_empty e.transaction_hash
    then some "transaction_hash is required"
    else if leb_ℤ e.game_id (pos 0)
    then some "game_id must be positive"
    else if ltb_ℤ e.block_number (pos 0)
    then some "block_number cannot be negative"
    else none
