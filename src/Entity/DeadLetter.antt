-- ===== src/Entity/DeadLetter.antt =====
-- internal/entity/dead_letter.go: a failed transaction, and when it is tried again. The clock is an
-- argument.
use pod_backend.Common.{
  ℕ, ◌-◌, ◌+◌, ◌^◌, suc, Bool, true, false, ◌&&◌, not, Option, none, some, Text, ℤ, pos, negsuc,
  leb_ℤ, ltb_ℤ, ltb, is_empty, mul_int64, add_int64, if◌then◌else◌,
}
use Prim.Native.String.{String}

-- The four constants, and any other string.
pub data DlqErrorType : Type 0 where
  parse_error persistence_error validation_error unknown : DlqErrorType
  other_type : Text → DlqErrorType

pub data DlqStatus : Type 0 where
  pending retrying resolved failed : DlqStatus
  other_status : Text → DlqStatus

pub record DeadLetterEntry : Type 0 where
  pub id : ℤ
  pub transaction_hash : Text
  pub transaction_lt : Text
  pub raw_data : Text
  pub error_message : Text
  pub error_type : DlqErrorType
  pub retry_count : ℤ
  pub max_retries : ℤ
  pub created_at : ℕ
  pub last_retry_at : Option ℕ
  pub next_retry_at : Option ℤ
  pub resolved_at : Option ℕ
  pub status : DlqStatus
  pub resolution_notes : Text

type_or_unknown : DlqErrorType → DlqErrorType
type_or_unknown (other_type t) = if is_empty t then unknown else other_type t
type_or_unknown t = t

status_or_pending : DlqStatus → DlqStatus
status_or_pending (other_status s) = if is_empty s then pending else other_status s
status_or_pending s = s

-- The message of the first missing field, or the entry with its defaults filled in.
unfoldable pub validate : DeadLetterEntry → Option String × DeadLetterEntry
unfolding type_or_unknown status_or_pending
validate e =
    if is_empty e.transaction_hash
    then (some "transaction_hash is required", e)
    else if is_empty e.transaction_lt
    then (some "transaction_lt is required", e)
    else if is_empty e.error_message
    then (some "error_message is required", e)
    else (
      none,
      record e {
        error_type = type_or_unknown e.error_type;
        status = status_or_pending e.status;
        max_retries = if leb_ℤ e.max_retries (pos 0) then pos 3 else e.max_retries;
      },
    )

abbrev pub is_resolved : DlqStatus → Bool
is_resolved resolved = true
is_resolved _ = false

abbrev pub is_failed : DlqStatus → Bool
is_failed failed = true
is_failed _ = false

unfoldable pub can_retry : DeadLetterEntry → Bool
can_retry e =
    not (is_resolved e.status) && not (is_failed e.status) && ltb_ℤ e.retry_count e.max_retries

unfoldable pub mark_retrying : ℕ → DeadLetterEntry → DeadLetterEntry
mark_retrying now e = record e {
  status = retrying;
  last_retry_at = some now;
  retry_count = add_int64 e.retry_count (pos 1);
}

unfoldable pub mark_resolved : ℕ → Text → DeadLetterEntry → DeadLetterEntry
mark_resolved now notes e = record e {
  status = resolved;
  resolved_at = some now;
  resolution_notes = notes;
}

unfoldable pub mark_failed : Text → DeadLetterEntry → DeadLetterEntry
mark_failed notes e = record e { status = failed; resolution_notes = notes }

abbrev pub hour : ℕ
hour = 3600000000000

-- `time.Now().Add(d)`, which may lie before the epoch.
abbrev pub after : ℕ → ℤ → ℤ
after now (pos d) = pos (now + d)
after now (negsuc d) = if ltb d now then pos (now - suc d) else negsuc (d - now)

-- `baseBackoff * time.Duration(1 << n)`, at most an hour. Both the shift and the product keep 64
-- bits.
unfoldable pub backoff : ℤ → ℕ → ℤ
unfolding mul_int64
backoff base n =
    let d = mul_int64 base (mul_int64 (pos 1) (pos (2 ^ n))) in
    if ltb_ℤ (pos hour) d then pos hour else d

-- The shift panics on a negative count, here `none`.
unfoldable pub schedule_next_retry : ℕ → ℤ → DeadLetterEntry → Option DeadLetterEntry
schedule_next_retry now base e = elim e.retry_count [
  | pos n ↦ some (record e { next_retry_at = some (after now (backoff base n)) })
  | negsuc _ ↦ none
]
