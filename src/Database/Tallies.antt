-- ===== src/Database/Tallies.antt =====
-- The statistics of the users as an abstract map from wallets to counters, and what the calls that
-- settle a game do to it.
use pod_backend.Common.{
  Option, none, some, List, Text, ℤ, succ_ℤ, int_eq, text_eq, Option-cases, Bool-cases, inl, inr,
  ◌≡◌, refl, ap, ite, ℕ, arith, ◌≟◌,
}
use pod_backend.Common.Dict.{Dict, lookup, insert, lookup-insert}
use pod_backend.Database.{Tables, UserRow, Server}
use pod_backend.Database.Games.{set_game, complete_game, completed, write_game, game_row_ok}
use pod_backend.Database.Triples.{Triple, bind-Triple, wrap-Triple, pure-Triple, execute-Triple}
use pod_backend.Database.Users.{
  set_user, count_for, on_columns, user_row_ok, write_user, played, won, lost, referred,
  increment_games_played, increment_wins, increment_losses, increment_referrals,
}
use pod_backend.Entity.Game.{Game}
use pod_backend.Entity.GameEvent.{GameEvent}
use pod_backend.Entity.User.{User}

-- Games, wins and losses.
pub record Tally : Type 0 where
  pub games : ℤ
  pub wins : ℤ
  pub losses : ℤ

abbrev pub tally_of : UserRow → Tally
tally_of u = record {
  games = u.columns.total_games_played;
  wins = u.columns.total_wins;
  losses = u.columns.total_losses;
}

abbrev pub map_some : {A B : Type 0} → (A → B) → Option A → Option B
map_some f none = none
map_some f (some a) = some (f a)

abbrev pub Tallies : Type 0
Tallies = Text → Option Tally

unfoldable pub tallies : Dict Text UserRow → Tallies
tallies users w = map_some tally_of (lookup w users)

-- One counter of one wallet goes up by one; a wallet without a user is passed over.
abbrev pub bump : (Tally → Tally) → Text → Tallies → Tallies
bump f w m v = ite (w ≟ v) (map_some f (m v)) (m v)

abbrev pub add_game : Tally → Tally
add_game c = record c { games = succ_ℤ c.games }

abbrev pub add_win : Tally → Tally
add_win c = record c { wins = succ_ℤ c.wins }

abbrev pub add_loss : Tally → Tally
add_loss c = record c { losses = succ_ℤ c.losses }

-- The row of a game, if there is one, after an update.
abbrev pub rewrite_game : ℤ → (Game → Game) → Dict ℤ Game → Dict ℤ Game
rewrite_game i f games = elim (lookup i games) [ none ↦ games | some g ↦ insert i (f g) games ]

pub record Holds (games : Dict ℤ Game) (events : List GameEvent) (m : Tallies) (t : Tables)
    : Type 0 where
  pub same_games : t.games ≡ games
  pub same_events : t.events ≡ events
  pub same_tallies : (w : Text) → tallies t.users w ≡ m w

abbrev pub Unknown : {S : Type 0} → S → Type 0
Unknown _ = Unit {0}

module _ (games : Dict ℤ Game) (events : List GameEvent) (m : Tallies) where
  pub Holds-count :
      (t : Tables) (n : ℕ)
      → Holds games events m t
      → Holds games events m (record t { statements = n })
  Holds-count t n h = record {
    same_games = h.same_games;
    same_events = h.same_events;
    same_tallies = h.same_tallies;
  }

  -- A change of the columns that moves the counters by `c`, and so to `m'`.
  set_user-Triple :
      (f : User → User) (c : Tally → Tally) (m' : Tallies) (w : Text) (now : ℕ)
      → ((u : UserRow) → tally_of (on_columns f u) ≡ c (tally_of u))
      → ((v : Text) → bump c w m v ≡ m' v)
      → Triple
          (Holds games events m)
          (λ _. Holds games events m')
          Unknown
          (set_user w (on_columns f) now)
  unfolding set_user tallies write_user on_columns
  set_user-Triple f c m' w now k q = record {
    run = λ t h. elim (Option-cases (lookup w t.users)) [
      | inl e ↦
          rw (e, set_user)
            (record {
              same_games = h.same_games;
              same_events = h.same_events;
              same_tallies = λ v. elim (w ≟ v) [
                | yes p ↦ ground (arith, h.same_tallies v, ap (λ x. lookup x t.users) p, q v)
                | no n ↦ ground (arith, h.same_tallies v, q v)
              ];
            })
      | inr (u, e) ↦
          let new = record (on_columns f u) {
            columns = record (f u.columns) { updated_at = now };
          } in
          elim (Bool-cases (user_row_ok new.columns)) [
            | inl y ↦
                rw (e, set_user)
                  (rw y (record {
                    same_games = h.same_games;
                    same_events = h.same_events;
                    same_tallies = λ v. elim (w ≟ v) [
                      | yes p ↦ ground (
                        arith,
                        h.same_tallies v,
                        ap (λ x. lookup x t.users) p,
                        lookup-insert w v new t.users,
                        k u,
                        q v,
                      )
                      | no n ↦ ground (arith, h.same_tallies v, lookup-insert w v new t.users, q v)
                    ];
                  }))
            | inr n ↦ rw (e, set_user) (rw n tt)
          ]
    ];
  }

  count_for-Triple :
      (server : Server) (f : User → User) (c : Tally → Tally) (m' : Tallies) (w : Text)
      → ((u : UserRow) → tally_of (on_columns f u) ≡ c (tally_of u))
      → ((v : Text) → bump c w m v ≡ m' v)
      → Triple (Holds games events m) (λ _. Holds games events m') Unknown (count_for server f w)
  unfolding count_for
  count_for-Triple server f c m' w k q =
      bind-Triple (Holds games events m) Unknown (λ _. Holds games events m')
        (λ _. Holds games events m') _ _
        (wrap-Triple (Holds games events m) Unknown _ _ _ (
          execute-Triple (Holds games events m) _ Unknown server _ Holds-count (λ t h. tt)
            (λ now. set_user-Triple f c m' w now k q)))
        (λ _. pure-Triple _ Unknown tt)

  pub increment_games_played-Triple :
      (server : Server) (w : Text)
      → Triple
          (Holds games events m)
          (λ _. Holds games events (bump add_game w m))
          Unknown
          (increment_games_played server w)
  unfolding increment_games_played played on_columns
  increment_games_played-Triple server w =
      count_for-Triple server played add_game (bump add_game w m) w (λ u. refl) (λ v. refl)

  pub increment_wins-Triple :
      (server : Server) (w : Text)
      → Triple
          (Holds games events m)
          (λ _. Holds games events (bump add_win w m))
          Unknown
          (increment_wins server w)
  unfolding increment_wins won on_columns
  increment_wins-Triple server w =
      count_for-Triple server won add_win (bump add_win w m) w (λ u. refl) (λ v. refl)

  pub increment_losses-Triple :
      (server : Server) (w : Text)
      → Triple
          (Holds games events m)
          (λ _. Holds games events (bump add_loss w m))
          Unknown
          (increment_losses server w)
  unfolding increment_losses lost on_columns
  increment_losses-Triple server w =
      count_for-Triple server lost add_loss (bump add_loss w m) w (λ u. refl) (λ v. refl)

  set_game-Triple :
      (i : ℤ) (f : Game → Game)
      → Triple
          (Holds games events m)
          (λ _. Holds (rewrite_game i f games) events m)
          Unknown
          (set_game i f)
  unfolding set_game write_game
  set_game-Triple i f = record {
    run = λ t h. elim (Option-cases (lookup i t.games)) [
      | inl e ↦
          rw (e, set_game)
            (record {
              same_games = ground (arith, h.same_games);
              same_events = h.same_events;
              same_tallies = h.same_tallies;
            })
      | inr (g, e) ↦ elim (Bool-cases (game_row_ok t.users (f g))) [
        | inl y ↦
            rw (e, set_game)
              (rw y (record {
                same_games = ground (arith, h.same_games);
                same_events = h.same_events;
                same_tallies = h.same_tallies;
              }))
        | inr n ↦ rw (e, set_game) (rw n tt)
      ]
    ];
  }

  -- Referrals are none of these counters.
  pub increment_referrals-Triple :
      (server : Server) (w : Text) (n : ℤ)
      → Triple
          (Holds games events m)
          (λ _. Holds games events m)
          Unknown
          (increment_referrals server w n)
  unfolding increment_referrals referred on_columns
  increment_referrals-Triple server w n =
      count_for-Triple server (referred n) (λ c. c) m w (λ u. refl) (λ v. ground arith)

  -- The completion of a game rewrites its row.
  pub complete_game-Triple :
      (server : Server) (i : ℤ) (winner : Text) (payout : ℤ) (hash : Text) (at : ℕ)
      → Triple
          (Holds games events m)
          (λ _. Holds (rewrite_game i (completed winner payout hash at) games) events m)
          Unknown
          (complete_game server i winner payout hash at)
  unfolding complete_game
  complete_game-Triple server i winner payout hash at =
      wrap-Triple (Holds games events m) Unknown _ _ _ (
        execute-Triple (Holds games events m) _ Unknown server _ Holds-count (λ t h. tt)
          (λ now. set_game-Triple i (completed winner payout hash at)))
