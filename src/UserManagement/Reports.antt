-- ===== src/UserManagement/Reports.antt =====
-- The statistics that a profile shows.
use pod_backend.Common.{
  ℕ, ◌&&◌, ◌+◌, ◌≤◌, ◌≡◌, true, List, [], ◌∷◌, Text, pos, ◌+ℤ◌, leb_ℤ, count_if, to_count, is_empty,
  ok, err, none, some, Option-cases, Outcome-cases, inl, inr, text_eq, arith,
}
use pod_backend.Common.Dict.{lookup}
use pod_backend.Database.{Tables, Server, message}
use pod_backend.Database.Giving.{
  OnSuccess, Gives, if-Gives, throw-Gives, wrap-Gives, execute-Gives, gives_lem,
}
use pod_backend.Database.Games.{rows}
use pod_backend.Database.Statistics.{
  is_player, is_over, is?, counts_as_played, counts_as_won, counts_as_lost, with_statistics,
  get_by_wallet_address,
}
use pod_backend.Database.Users.{scan_user}
use pod_backend.Entity.Game.{Game}
use pod_backend.Entity.User.{User}
use pod_backend.UserManagement.{get_user_by_wallet}

-- A game with a winner is won or lost, and never both.
decided_once :
    (w : Text) (g : Game)
    → to_count (is_player w g && counts_as_won w g) + to_count (is_player w g && counts_as_lost w g)
      ≤ to_count (is_player w g && counts_as_played g)
unfolding is? is_player is_over counts_as_won counts_as_lost counts_as_played
decided_once w g = elim (Option-cases g.winner_address) [
  | inl n ↦ ground arith
  | inr (x, e) ↦ ground arith
]

decided_played :
    (w : Text) (gs : List Game)
    → count_if (λ g. is_player w g && counts_as_won w g) gs
        + count_if (λ g. is_player w g && counts_as_lost w g) gs
      ≤ count_if (λ g. is_player w g && counts_as_played g) gs
unfolding count_if
decided_played w [] = omega arith
decided_played w (g ∷ gs) = omega (arith, decided_once w g, decided_played w gs)

leb_ℤ-sum : (a b c : ℕ) → a + b ≤ c → leb_ℤ (pos a +ℤ pos b) (pos c) ≡ true
unfolding ◌+ℤ◌
leb_ℤ-sum a b c h = ground arith

abbrev Decided : User → Type 0
Decided u = leb_ℤ (u.total_wins +ℤ u.total_losses) u.total_games_played ≡ true

with_statistics-Decided : (w : Text) (gs : List Game) (u : User) → Decided (with_statistics w gs u)
unfolding with_statistics
with_statistics-Decided w gs u = leb_ℤ-sum _ _ _ (decided_played w gs)

module _ (server : Server) (w : Text) where
  read_row-Gives : Gives {S = Tables} Decided (λ t. elim (lookup w t.users) [
    | none ↦ (err (message "no rows in result set"), t)
    | some u ↦ elim (scan_user u) [
      | err e ↦ (err e, t)
      | ok user ↦ (ok (with_statistics w (rows t.games) user), t)
    ]
  ])
  read_row-Gives = record {
    give = λ t. elim (Option-cases (lookup w t.users)) [
      | inl n ↦ rw (n, OnSuccess) tt
      | inr (x, n) ↦ elim (Outcome-cases (scan_user x)) [
        | inl (u, m) ↦ rw (n, m, OnSuccess) (with_statistics-Decided w (rows t.games) u)
        | inr (d, m) ↦ rw (n, m, OnSuccess) tt
      ]
    ];
  }

  get_user_by_wallet-Gives : Gives Decided (get_user_by_wallet server w)
  unfolding get_user_by_wallet get_by_wallet_address
  get_user_by_wallet-Gives =
      if-Gives Decided (is_empty w) _ _ (λ _. throw-Gives Decided _)
        (λ _.
          wrap-Gives Decided _ _
            (wrap-Gives Decided _ _ (execute-Gives Decided server _ (λ _. read_row-Gives))))

-- The reported wins and losses of a profile are together at most its reported games, whatever rows
-- the tables hold.
pub get_user_by_wallet-decided :
    (server : Server) (w : Text) (t : Tables) (u : User)
    → (get_user_by_wallet server w t).0 ≡ ok u
    → leb_ℤ (u.total_wins +ℤ u.total_losses) u.total_games_played ≡ true
get_user_by_wallet-decided server w t u h =
    gives_lem Decided (get_user_by_wallet server w) t u (get_user_by_wallet-Gives server w) h
