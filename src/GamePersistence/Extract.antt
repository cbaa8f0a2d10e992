-- ===== src/GamePersistence/Extract.antt =====
-- The readers of event data of internal/usecase/game_persistence.go.
use pod_backend.Common.{
  ℕ, ◌-◌, ◌^◌, ◌≡◌, none, some, Text, ℤ, pos, negsuc, leb_ℤ, ltb, true, parse_int, format_int,
  parse_int-format_int, text_eq, Outcome, ok, err, if◌then◌else◌, arith,
}
use pod_backend.Common.Dict.{lookup, insert, lookup-insert}
use pod_backend.Database.{Fault, message}
use pod_backend.Entity.GameEvent.{
  Value, int64, float64, int, uint8, uint16, uint32, uint64, text, other, EventData,
}

module _ (to_int64 : ℕ → ℤ) where
  -- The switch of `extractInt64` on the type of the value.
  unfoldable pub int64_of : Value → Outcome Fault ℤ
  int64_of (int64 v) = ok v
  int64_of (float64 v) = ok (to_int64 v)
  int64_of (int v) = ok v
  int64_of (uint8 v) = ok (pos v)
  int64_of (uint16 v) = ok (pos v)
  int64_of (uint32 v) = ok (pos v)
  int64_of (uint64 v) = if ltb (2 ^ 63 - 1) v then err (message "value too large") else ok (pos v)
  int64_of (text v) = elim (parse_int v) [ none ↦ err (message "invalid") | some z ↦ ok z ]
  int64_of other = err (message "invalid type")

  -- `extractInt64`
  unfoldable pub extract_int64 : Text → EventData → Outcome Fault ℤ
  extract_int64 key d = elim (lookup key d) [ none ↦ err (message "missing") | some v ↦ int64_of v ]

  -- `extractOptionalInt64`
  unfoldable pub extract_optional_int64 : Text → ℤ → EventData → Outcome Fault ℤ
  extract_optional_int64 key default d = elim (lookup key d) [
    | none ↦ ok default
    | some v ↦ int64_of v
  ]

string_of : Value → Outcome Fault Text
string_of (text v) = ok v
string_of _ = err (message "invalid type: expected string")

-- `extractString`
unfoldable pub extract_string : Text → EventData → Outcome Fault Text
unfolding string_of
extract_string key d = elim (lookup key d) [ none ↦ err (message "missing") | some v ↦ string_of v ]

-- `extractOptionalString`
unfoldable pub extract_optional_string : Text → Text → EventData → Outcome Fault Text
unfolding string_of
extract_optional_string key default d = elim (lookup key d) [
  | none ↦ ok default
  | some v ↦ string_of v
]

-- A number of 64 bits that is put into the event data as its decimal text, as the message parsers put
-- amounts, is read back unchanged, whatever the data held under the key or another.
pub extract_int64-insert :
    (to_int64 : ℕ → ℤ) (key : Text) (z : ℤ) (d : EventData)
    → leb_ℤ (negsuc (2 ^ 63 - 1)) z ≡ true
    → leb_ℤ z (pos (2 ^ 63 - 1)) ≡ true
    → extract_int64 to_int64 key (insert key (text (format_int z)) d) ≡ ok z
unfolding extract_int64 int64_of
extract_int64-insert to_int64 key z d lo hi =
    ground (arith, lookup-insert key key (text (format_int z)) d, parse_int-format_int z lo hi)
