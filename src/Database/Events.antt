-- ===== src/Database/Events.antt =====
-- internal/repository/postgres/game_event_repository.go.
use pod_backend.Common.{
  ℕ, suc, Bool, false, not, ◌&&◌, Option, none, some, List, [], ◌∷◌, ◌++◌, Text, ℤ, pos, leb_ℤ, ltb,
  eqb, eqb_ℤ, int_eq, text_eq, contains, keep_if, count_if, ok, err, if◌then◌else◌, ◌||◌,
}
use pod_backend.Common.Dict.{lookup}
use pod_backend.Database.{
  Tables, Server, message, Action, pure, throw, wrap, ◌>>=◌, ◌>>◌, check, execute, is_text,
  is_varchar,
}
use pod_backend.Entity.GameEvent.{GameEvent, validate_event, valid_event_types}
use pod_backend.Sorting.{sort_stable}

-- The constraint `unique_event_per_tx`.
unfoldable pub same_event : GameEvent → GameEvent → Bool
same_event a b =
    eqb_ℤ a.game_id b.game_id
    && eqb a.transaction_hash b.transaction_hash
    && eqb a.event_type b.event_type

unfoldable pub is_recorded : GameEvent → List GameEvent → Bool
is_recorded e [] = false
is_recorded e (row ∷ rows) = same_event e row || is_recorded e rows

-- The types and checks of the table `game_events`.
unfoldable pub event_row_ok : GameEvent → Bool
event_row_ok e =
    contains e.event_type valid_event_types
    && is_varchar 66 e.transaction_hash
    && leb_ℤ (pos 0) e.block_number
    && is_text e.payload

-- The columns of an event: its parsed data is not stored.
unfoldable pub event_row : GameEvent → ℕ → ℕ → GameEvent
event_row e i now = record e { id = pos i; event_data = none; created_at = now }

-- `INSERT INTO game_events … RETURNING`: the new row, or none if its key is taken. The sequence of
-- the ids moves on in every case; the key is tested before the foreign key.
unfoldable pub insert_event : GameEvent → ℕ → Action Tables (Option GameEvent)
insert_event e now t =
    let row = event_row e t.next_event_id now in
    let t' = record t { next_event_id = suc t.next_event_id } in
    if not (event_row_ok e)
    then (err (message "constraint violation"), t')
    else if is_recorded e t.events
    then (ok none, t')
    else elim (lookup e.game_id t.games) [
      | none ↦ (err (message "foreign key violation"), t')
      | some _ ↦ (ok (some row), record t' { events = t.events ++ row ∷ [] })
    ]

-- What `Scan` does to the event: nothing if no row came back.
unfoldable pub scanned : GameEvent → Option GameEvent → GameEvent
scanned e none = e
scanned e (some row) = record e { id = row.id; created_at = row.created_at }

created_or_conflict : GameEvent → Option GameEvent → Action Tables GameEvent
created_or_conflict e none = throw (message "duplicate key")
created_or_conflict e (some row) = pure (scanned e (some row))

-- The oldest, or the newest, first.
abbrev pub happened_before : GameEvent → GameEvent → Bool
happened_before a b = ltb a.timestamp b.timestamp

abbrev pub happened_after : GameEvent → GameEvent → Bool
happened_after a b = ltb b.timestamp a.timestamp

-- `ORDER BY block_number ASC, timestamp ASC`
in_earlier_block : GameEvent → GameEvent → Bool
in_earlier_block a b =
    if eqb_ℤ a.block_number b.block_number
    then happened_before a b
    else leb_ℤ a.block_number b.block_number

first_row : List GameEvent → Action Tables GameEvent
first_row [] t = (err (message "no rows in result set"), t)
first_row (e ∷ _) t = (ok e, t)

module _ (server : Server) where
  -- `Create`; the result is the event as the call leaves it.
  unfoldable pub create_event : GameEvent → Action Tables GameEvent
  unfolding created_or_conflict
  create_event e = do
    check "validation failed" (validate_event e)
    row ← wrap "execute query" (execute server (insert_event e))
    wrap "execute query" (created_or_conflict e row)

  -- `Upsert`, which is `UpsertWithQuerier` with the pool: a duplicate is no error.
  unfoldable pub upsert_event : GameEvent → Action Tables GameEvent
  upsert_event e = do
    check "validation failed" (validate_event e)
    row ← wrap "execute query" (execute server (insert_event e))
    pure (scanned e row)

  -- `queryEvents` behind a `WHERE` and an order.
  unfoldable pub query_events :
      (GameEvent → Bool) → (GameEvent → GameEvent → Bool) → Action Tables (List GameEvent)
  query_events p before =
      wrap "execute query"
        (execute server (λ _ t. (ok (sort_stable before (keep_if p t.events)), t)))

  -- `GetByGameID`
  unfoldable pub get_by_game_id : ℤ → Action Tables (List GameEvent)
  get_by_game_id g = query_events (λ e. eqb_ℤ e.game_id g) happened_before

  -- `GetByTransactionHash`: one row, the first of the table here.
  unfoldable pub get_by_transaction_hash : Text → Action Tables GameEvent
  unfolding first_row
  get_by_transaction_hash hash =
      wrap "execute query"
        (execute server (λ _ t. first_row (keep_if (λ e. eqb e.transaction_hash hash) t.events) t))

  -- `GetByEventType`
  unfoldable pub get_by_event_type : Text → Action Tables (List GameEvent)
  get_by_event_type kind = query_events (λ e. eqb e.event_type kind) happened_before

  -- `GetByBlockRange`
  unfoldable pub get_by_block_range : ℤ → ℤ → Action Tables (List GameEvent)
  unfolding in_earlier_block
  get_by_block_range start last =
      query_events (λ e. leb_ℤ start e.block_number && leb_ℤ e.block_number last) in_earlier_block

  -- `Exists`
  unfoldable pub event_exists : ℤ → Text → Text → Action Tables Bool
  event_exists g hash kind = wrap "execute query" (
      execute server (λ _ t.
        let n =
          count_if (λ e. eqb_ℤ e.game_id g && eqb e.transaction_hash hash && eqb e.event_type kind)
            t.events in
        (ok (ltb 0 n), t)))

  -- `ExistsByTxHash`
  unfoldable pub exists_by_tx_hash : Text → Action Tables Bool
  exists_by_tx_hash hash = wrap "execute query" (
      execute server
        (λ _ t. (ok (ltb 0 (count_if (λ e. eqb e.transaction_hash hash) t.events)), t)))

  -- `GetLatestByGameID`
  unfoldable pub get_latest_by_game_id : ℤ → Action Tables GameEvent
  unfolding first_row
  get_latest_by_game_id g = wrap "execute query" (
      execute server (λ _ t.
        first_row (sort_stable happened_after (keep_if (λ e. eqb_ℤ e.game_id g) t.events)) t))
