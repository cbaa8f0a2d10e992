-- ===== src/Database/Counters.antt =====
-- The counters of the users, as internal/usecase/game_persistence.go moves them: a decision is counted
-- behind the game that it belongs to.
use pod_backend.Common.{
  suc, ◌+◌, ◌≤◌, false, none, some, Text, ℤ, pos, pos_part, neg_part, succ_ℤ_parts, int_eq, text_eq,
  Option-cases, inl, inr, ◌≡◌, ℕ, arith,
}
use pod_backend.Common.Dict.{lookup, lookup-insert}
use pod_backend.Database.{Tables, UserRow, Server}
use pod_backend.Database.Consistency.{IsConsistent, write_user-IsConsistent}
use pod_backend.Database.Keeping.{
  Keeps, Takes, Leads, bind-Keeps, wrap-Keeps, pure-Keeps, execute-Keeps, execute-Leads,
  execute-Takes, drop-Leads, drop-Takes, wrap-Leads, wrap-Takes, leads-Keeps,
}
use pod_backend.Database.Users.{
  user_row_ok, insert_user, set_user, write_user, on_columns, blockchain_user,
  ensure_user_by_wallet, count_for, increment_games_played, increment_wins, increment_losses,
  increment_referrals, played, won, lost, referred,
}
use pod_backend.Entity.User.{User}

any_count : (t : Tables) (n : ℕ) → IsConsistent t → IsConsistent (record t { statements = n })
any_count t n c = record {
  games_fit = c.games_fit;
  events_fit = c.events_fit;
  users_fit = c.users_fit;
}

insert_user-keeps :
    (w : Text) (now : ℕ)
    → Keeps IsConsistent (insert_user false (λ _. none) (blockchain_user w) now)
unfolding insert_user blockchain_user user_row_ok
insert_user-keeps w now = record {
  keep = λ t c.
      let row = record (blockchain_user w) {
        id = pos t.next_user_id;
        created_at = now;
        updated_at = now;
      } in
      let t' = record t { next_user_id = suc t.next_user_id } in
      elim (Option-cases (lookup w t.users)) [
        | inl e ↦
            ground (arith, write_user-IsConsistent w (record { columns = row; named = false }) t')
        | inr (u, e) ↦ ground arith
      ];
}

-- A change of the columns that keeps the wallet.
abbrev KeepsWallet : (User → User) → Type 0
KeepsWallet f = (u : User) → (f u).wallet_address ≡ u.wallet_address

-- A user has a game more than decisions, if there is such a user.
abbrev pub Slack : Text → Tables → Type 0
Slack w t =
    IsConsistent t
    × ((u : UserRow)
        → lookup w t.users ≡ some u
        → pos_part u.columns.total_wins
            + pos_part u.columns.total_losses
            + neg_part u.columns.total_games_played
            + 1
          ≤ pos_part u.columns.total_games_played
            + neg_part u.columns.total_wins
            + neg_part u.columns.total_losses)

set_user-Leads :
    (w : Text) (now : ℕ) → Leads IsConsistent (Slack w) (set_user w (on_columns played) now)
unfolding set_user on_columns played write_user
set_user-Leads w now = record {
  lead = λ t c. elim (Option-cases (lookup w t.users)) [
    | inl e ↦ ground arith
    | inr (u, e) ↦
        let new = record (played u.columns) { updated_at = now } in
        ground (
          arith,
          c.users_fit w u,
          succ_ℤ_parts u.columns.total_games_played,
          lookup-insert w w (record u { columns = new }) t.users,
          write_user-IsConsistent w (record u { columns = new }) t,
        )
  ];
}

-- The change spends at most one decision, and no game.
abbrev Spends : (User → User) → Type 0
Spends f =
    (u : User)
    → (f u).wallet_address ≡ u.wallet_address
      × ((f u).total_games_played ≡ u.total_games_played)
      × (pos_part (f u).total_wins
            + pos_part (f u).total_losses
            + neg_part u.total_wins
            + neg_part u.total_losses
          ≤ pos_part u.total_wins
            + pos_part u.total_losses
            + neg_part (f u).total_wins
            + neg_part (f u).total_losses
            + 1)

set_user-Takes :
    (w : Text) (f : User → User) (now : ℕ)
    → Spends f
    → Takes (Slack w) IsConsistent (set_user w (on_columns f) now)
unfolding set_user on_columns
set_user-Takes w f now k = record {
  take = λ t c. elim (Option-cases (lookup w t.users)) [
    | inl e ↦ ground arith
    | inr (u, e) ↦
        let new = record (f u.columns) { updated_at = now } in
        ground (
          arith,
          k u.columns,
          c.0.users_fit w u,
          c.1 u,
          write_user-IsConsistent w (record u { columns = new }) t,
        )
  ];
}

-- The referrals are not counted against the games.
set_user-referrals :
    (w : Text) (n : ℤ) (now : ℕ) → Keeps IsConsistent (set_user w (on_columns (referred n)) now)
unfolding set_user on_columns referred
set_user-referrals w n now = record {
  keep = λ t c. elim (Option-cases (lookup w t.users)) [
    | inl e ↦ ground arith
    | inr (u, e) ↦
        let new = record (referred n u.columns) { updated_at = now } in
        ground (arith, c.users_fit w u, write_user-IsConsistent w (record u { columns = new }) t)
  ];
}

won-Spends : Spends won
unfolding won
won-Spends u = ground (arith, succ_ℤ_parts u.total_wins)

lost-Spends : Spends lost
unfolding lost
lost-Spends u = ground (arith, succ_ℤ_parts u.total_losses)

module _ (server : Server) where
  pub ensure_user-keeps : (w : Text) → Keeps IsConsistent (ensure_user_by_wallet server w)
  unfolding ensure_user_by_wallet
  ensure_user-keeps w =
      search (bind-Keeps, wrap-Keeps, pure-Keeps, execute-Keeps, any_count, insert_user-keeps)

  -- Counting a game of a user leaves room for one decision.
  pub increment_games_played-Leads :
      (w : Text) → Leads IsConsistent (Slack w) (increment_games_played server w)
  unfolding increment_games_played count_for
  increment_games_played-Leads w = drop-Leads IsConsistent (Slack w) _ tt (
      wrap-Leads IsConsistent (Slack w) _ _
        (execute-Leads IsConsistent (Slack w) server any_count _ (set_user-Leads w)))

  pub increment_games_played-keeps :
      (w : Text) → Keeps IsConsistent (increment_games_played server w)
  increment_games_played-keeps w =
      leads-Keeps IsConsistent (Slack w) _ (λ t c. c.0) (increment_games_played-Leads w)

  spending :
      (w : Text) (f : User → User) → Spends f → Takes (Slack w) IsConsistent (count_for server f w)
  unfolding count_for
  spending w f k = drop-Takes (Slack w) IsConsistent _ tt (
      wrap-Takes (Slack w) IsConsistent _ _ (
        execute-Takes (Slack w) IsConsistent server (λ t n c. (any_count t n c.0, c.1)) _
          (λ t c. c.0) (λ now. set_user-Takes w f now k)))

  -- A decision behind that takes it.
  pub increment_wins-Takes : (w : Text) → Takes (Slack w) IsConsistent (increment_wins server w)
  unfolding increment_wins
  increment_wins-Takes w = spending w won won-Spends

  pub increment_losses-Takes : (w : Text) → Takes (Slack w) IsConsistent (increment_losses server w)
  unfolding increment_losses
  increment_losses-Takes w = spending w lost lost-Spends

  pub increment_referrals-keeps :
      (w : Text) (n : ℤ) → Keeps IsConsistent (increment_referrals server w n)
  unfolding increment_referrals count_for
  increment_referrals-keeps w n =
      search (bind-Keeps, wrap-Keeps, pure-Keeps, execute-Keeps, any_count, set_user-referrals)
