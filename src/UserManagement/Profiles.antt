-- ===== src/UserManagement/Profiles.antt =====
-- Profiles, written and read back.
use pod_backend.Common.{
  pos, ◌≡◌, refl, true, false, Option-cases, none, some, Text, List, is_empty, ok, inl, inr, arith,
  text_eq,
}
use pod_backend.Common.Dict.{lookup, lookup-insert}
use pod_backend.Database.{Tables, UserRow, Server, execute, wrap, check, throw, pure, ◌>>=◌, ◌>>◌}
use pod_backend.Database.Games.{rows}
use pod_backend.Database.Statistics.{get_by_wallet_address, with_statistics}
use pod_backend.Database.Users.{
  create_or_update, insert_user, write_user, scan_user, returned, linked,
}
use pod_backend.Entity.Game.{Game}
use pod_backend.Entity.User.{User, validate_user}
use pod_backend.UserManagement.{create_or_update_user, get_user_by_wallet}

-- The columns of a profile that a caller of `CreateOrUpdateUser` knows.
pub record Shows (u saved v : User) : Type 0 where
  pub same_id : v.id ≡ saved.id
  pub same_telegram_id : v.telegram_user_id ≡ u.telegram_user_id
  pub same_telegram_name : v.telegram_username ≡ u.telegram_username
  pub same_creation : v.created_at ≡ saved.created_at
  pub same_update : v.updated_at ≡ saved.updated_at

record Holds (u saved : User) (t : Tables) : Type 0 where
  row : UserRow
  found : lookup u.wallet_address t.users ≡ some row
  is_named : row.named ≡ true
  shows : Shows u saved row.columns
  filled : is_empty u.wallet_address ≡ false

module _ (server : Server) (u saved : User) (t t' : Tables) where
  new_row : UserRow
  new_row = record {
    columns = record u {
      id = pos t.next_user_id;
      created_at = server.clock t.statements;
      updated_at = server.clock t.statements;
    };
    named = true;
  }

  old_row : UserRow → UserRow
  old_row old = record {
    columns = record old.columns {
      telegram_user_id = u.telegram_user_id;
      telegram_username = u.telegram_username;
      updated_at = server.clock t.statements;
    };
    named = true;
  }

  -- The row of a wallet that was new.
  created_lem :
      create_or_update_user server u t ≡ (ok saved, t')
      → lookup u.wallet_address t.users ≡ none
      → Holds u saved t'
  unfolding create_or_update_user create_or_update insert_user write_user execute wrap check throw
      pure returned linked ◌>>=◌ ◌>>◌ new_row validate_user
  created_lem h n = record {
    row = new_row;
    found = ground (
      arith,
      Option-cases (validate_user u),
      lookup-insert u.wallet_address u.wallet_address new_row t.users,
    );
    is_named = refl;
    shows = ground (arith, Option-cases (validate_user u));
    filled = ground (arith, Option-cases (validate_user u));
  }

  -- The row of a wallet that had one.
  linked_lem :
      (old : UserRow)
      → create_or_update_user server u t ≡ (ok saved, t')
      → lookup u.wallet_address t.users ≡ some old
      → Holds u saved t'
  unfolding create_or_update_user create_or_update insert_user write_user execute wrap check throw
      pure returned linked ◌>>=◌ ◌>>◌ old_row validate_user
  linked_lem old h n = record {
    row = old_row old;
    found = ground (
      arith,
      Option-cases (validate_user u),
      lookup-insert u.wallet_address u.wallet_address (old_row old) t.users,
    );
    is_named = refl;
    shows = ground (arith, Option-cases (validate_user u));
    filled = ground (arith, Option-cases (validate_user u));
  }

  create_or_update_user-Holds : create_or_update_user server u t ≡ (ok saved, t') → Holds u saved t'
  create_or_update_user-Holds h = elim (Option-cases (lookup u.wallet_address t.users)) [
    | inl n ↦ created_lem h n
    | inr (old, n) ↦ linked_lem old h n
  ]

-- What is shown of a row, the aggregates left out.
with_statistics-Shows :
    (w : Text) (games : List Game) (u saved v : User)
    → Shows u saved v
    → Shows u saved (with_statistics w games v)
unfolding with_statistics
with_statistics-Shows w games u saved v s = record {
  same_id = s.same_id;
  same_telegram_id = s.same_telegram_id;
  same_telegram_name = s.same_telegram_name;
  same_creation = s.same_creation;
  same_update = s.same_update;
}

read_lem :
    (server : Server) (w : Text) (t : Tables) (row : UserRow)
    → is_empty w ≡ false
    → server.fails t.statements ≡ false
    → lookup w t.users ≡ some row
    → row.named ≡ true
    → (get_user_by_wallet server w t).0 ≡ ok (with_statistics w (rows t.games) row.columns)
unfolding get_user_by_wallet get_by_wallet_address execute wrap throw scan_user
read_lem server w t row e f n m = ground arith

-- A profile that `CreateOrUpdateUser` has saved is read back by `GetUserByWallet`, if the database
-- answers: with the id and the times that the call returned, and with the Telegram account that it was
-- given, whether the wallet was new or had a row before.
pub get_user_by_wallet-create_or_update_user :
    (server : Server) (u saved : User) (t t' : Tables)
    → create_or_update_user server u t ≡ (ok saved, t')
    → server.fails t'.statements ≡ false
    → (v : User) × ((get_user_by_wallet server u.wallet_address t').0 ≡ ok v) × Shows u saved v
get_user_by_wallet-create_or_update_user server u saved t t' h f =
    let k = create_or_update_user-Holds server u saved t t' h in
    (
      with_statistics u.wallet_address (rows t'.games) k.row.columns,
      read_lem server u.wallet_address t' k.row k.filled f k.found k.is_named,
      with_statistics-Shows u.wallet_address (rows t'.games) u saved k.row.columns k.shows,
    )
