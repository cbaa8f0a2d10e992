-- ===== src/Database/Users.antt =====
-- internal/repository/postgres/user_repository.go: the profiles and their counters. The reads that
-- aggregate over games stand in Database/Statistics.antt.
use pod_backend.Common.{
  ℕ, suc, Bool, true, false, not, ◌&&◌, Option, none, some, List, [], ◌∷◌, Text, ℤ, pos, succ_ℤ,
  ◌+ℤ◌, eqb_ℤ, text_eq, int_eq, keep_if, Outcome, ok, err, if◌then◌else◌,
}
use pod_backend.Common.Dict.{lookup, insert}
use pod_backend.Database.{
  Tables, UserRow, Server, Fault, message, Action, pure, throw, wrap, ◌>>=◌, ◌>>◌, check, execute,
  is_varchar, is_integer, is_bigint,
}
use pod_backend.Database.Games.{rows}
use pod_backend.Entity.User.{User, validate_user}

-- The types of the table `users`.
unfoldable pub user_row_ok : User → Bool
user_row_ok u =
    is_varchar 255 u.telegram_username
    && is_varchar 66 u.wallet_address
    && is_integer u.total_games_played
    && is_integer u.total_wins
    && is_integer u.total_losses
    && is_integer u.total_referrals
    && is_bigint u.total_referral_earnings

unfoldable pub write_user : Text → UserRow → Tables → Tables
write_user w u t = record t { users = insert w u t.users }

-- `INSERT INTO users … ON CONFLICT (wallet_address)`: whether the name is given, and what happens to
-- a row that is there. The sequence of the ids moves on in every case.
unfoldable pub insert_user :
    Bool → (UserRow → Option UserRow) → User → ℕ → Action Tables (Option User)
insert_user named conflict u now t =
    let row = record u { id = pos t.next_user_id; created_at = now; updated_at = now } in
    let t' = record t { next_user_id = suc t.next_user_id } in
    if not (user_row_ok u)
    then (err (message "constraint violation"), t')
    else elim (lookup u.wallet_address t.users) [
      | none ↦
          (ok (some row), write_user u.wallet_address (record { columns = row; named = named }) t')
      | some old ↦ elim (conflict old) [
        | none ↦ (ok none, t')
        | some new ↦ (ok (some new.columns), write_user u.wallet_address new t')
      ]
    ]

-- `UPDATE users SET … WHERE wallet_address = ?`: the row after it, or none. A trigger sets
-- `updated_at`.
unfoldable pub set_user : Text → (UserRow → UserRow) → ℕ → Action Tables (Option User)
set_user w f now t = elim (lookup w t.users) [
  | none ↦ (ok none, t)
  | some u ↦
      let new = record (f u).columns { updated_at = now } in
      if user_row_ok new
      then (ok (some new), write_user w (record (f u) { columns = new }) t)
      else (err (message "value out of range"), t)
]

-- What `RETURNING id, created_at, updated_at` writes to the user.
unfoldable pub returned : User → Option User → Action Tables User
returned u none = throw (message "no rows in result set")
returned u (some row) =
    pure (record u { id = row.id; created_at = row.created_at; updated_at = row.updated_at })

-- The row of a wallet that was first seen on the chain.
unfoldable pub blockchain_user : Text → User
blockchain_user wallet = record {
  id = pos 0;
  telegram_user_id = none;
  telegram_username = [];
  wallet_address = wallet;
  total_games_played = pos 0;
  total_wins = pos 0;
  total_losses = pos 0;
  total_referrals = pos 0;
  total_referral_earnings = pos 0;
  created_at = 0;
  updated_at = 0;
}

-- The columns that `CreateOrUpdate` writes on a conflict.
unfoldable pub linked : User → ℕ → UserRow → Option UserRow
linked new now old = some (record {
  columns = record old.columns {
    telegram_user_id = new.telegram_user_id;
    telegram_username = new.telegram_username;
    updated_at = now;
  };
  named = true;
})

-- The columns of `Update`.
profile : User → UserRow → UserRow
profile new u = record {
  columns = record u.columns {
    telegram_user_id = new.telegram_user_id;
    telegram_username = new.telegram_username;
    total_games_played = new.total_games_played;
    total_wins = new.total_wins;
    total_losses = new.total_losses;
    total_referrals = new.total_referrals;
    total_referral_earnings = new.total_referral_earnings;
  };
  named = true;
}

-- A change of the columns that leaves the name alone.
unfoldable pub on_columns : (User → User) → UserRow → UserRow
on_columns f u = record u { columns = f u.columns }

-- The rows that the counters write.
unfoldable pub played : User → User
played u = record u { total_games_played = succ_ℤ u.total_games_played }

unfoldable pub won : User → User
won u = record u { total_wins = succ_ℤ u.total_wins }

unfoldable pub lost : User → User
lost u = record u { total_losses = succ_ℤ u.total_losses }

unfoldable pub referred : ℤ → User → User
referred earnings u = record u {
  total_referrals = succ_ℤ u.total_referrals;
  total_referral_earnings = u.total_referral_earnings +ℤ earnings;
}

-- A row scanned into a `User`: the driver refuses a null for a Go string.
unfoldable pub scan_user : UserRow → Outcome Fault User
scan_user u = if u.named then ok u.columns else err (message "cannot scan NULL into *string")

scan_users : List UserRow → Outcome Fault (List User)
unfolding scan_user
scan_users [] = ok []
scan_users (u ∷ us) = elim (scan_user u) [
  | err e ↦ err e
  | ok user ↦ elim (scan_users us) [ err e ↦ err e | ok rest ↦ ok (user ∷ rest) ]
]

is_telegram_user : Option ℤ → ℤ → Bool
is_telegram_user none n = false
is_telegram_user (some i) n = eqb_ℤ i n

-- What `RETURNING updated_at` writes to the user.
stamped : User → Option User → Action Tables User
stamped u none = throw (message "no rows in result set")
stamped u (some row) = pure (record u { updated_at = row.updated_at })

module _ (server : Server) where
  -- `Create`: a wallet that is taken is an error, as no row comes back.
  unfoldable pub create_user : User → Action Tables User
  unfolding returned
  create_user u = do
    check "validation failed" (validate_user u)
    row ← wrap "execute query" (execute server (insert_user true (λ _. none) u))
    wrap "execute query" (returned u row)

  -- `CreateOrUpdate`
  unfoldable pub create_or_update : User → Action Tables User
  unfolding returned linked
  create_or_update u = do
    check "validation failed" (validate_user u)
    row ← wrap "execute query" (execute server (λ now. insert_user true (linked u now) u now))
    wrap "execute query" (returned u row)

  -- `EnsureUserByWallet`
  unfoldable pub ensure_user_by_wallet : Text → Action Tables (Unit {0})
  ensure_user_by_wallet wallet = do
    _ ←
        wrap "execute query"
          (execute server (insert_user false (λ _. none) (blockchain_user wallet)))
    pure tt

  -- A counter of a wallet, by one `UPDATE` whose number of rows is not read.
  unfoldable pub count_for : (User → User) → Text → Action Tables (Unit {0})
  count_for f wallet = do
    _ ← wrap "execute query" (execute server (set_user wallet (on_columns f)))
    pure tt

  -- `IncrementGamesPlayed`
  unfoldable pub increment_games_played : Text → Action Tables (Unit {0})
  increment_games_played wallet = count_for played wallet

  -- `IncrementWins`
  unfoldable pub increment_wins : Text → Action Tables (Unit {0})
  increment_wins wallet = count_for won wallet

  -- `IncrementLosses`
  unfoldable pub increment_losses : Text → Action Tables (Unit {0})
  increment_losses wallet = count_for lost wallet

  -- `IncrementReferrals`
  unfoldable pub increment_referrals : Text → ℤ → Action Tables (Unit {0})
  increment_referrals wallet earnings = count_for (referred earnings) wallet

  -- `GetByTelegramUserID`
  unfoldable pub get_by_telegram_user_id : ℤ → Action Tables (List User)
  unfolding is_telegram_user scan_users
  get_by_telegram_user_id n = wrap "execute query" (
      execute server (λ _ t. (
        scan_users (keep_if (λ u. is_telegram_user u.columns.telegram_user_id n) (rows t.users)),
        t,
      )))

  -- `Update`: a missing row is an error.
  unfoldable pub update_user : User → Action Tables User
  unfolding profile stamped
  update_user u = do
    check "validation failed" (validate_user u)
    row ← wrap "execute query" (execute server (set_user u.wallet_address (profile u)))
    wrap "execute query" (stamped u row)
