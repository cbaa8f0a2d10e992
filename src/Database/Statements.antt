-- ===== src/Database/Statements.antt =====
-- Each call that internal/usecase/game_persistence.go makes leaves the tables consistent, whether the
-- server answers its statements or not.
use pod_backend.Common.{
  Option, none, some, Text, ℤ, int_eq, text_eq, Option-cases, inl, inr, ◌≡◌, refl, ℕ, arith,
}
use pod_backend.Common.Dict.{lookup}
use pod_backend.Database.{Tables, Server, wrap, execute}
use pod_backend.Database.Consistency.{
  IsConsistent, write_game-IsConsistent, insert_event-IsConsistent,
}
use pod_backend.Database.Events.{upsert_event, insert_event}
use pod_backend.Database.Games.{
  insert_game, set_game, create_or_ignore, get_game, joined, completed, cancelled, revealed,
  seat_one, seat_two, Seat, join_game, complete_game, cancel_game, reveal_choice, write_choice,
}
use pod_backend.Database.Keeping.{
  Keeps, bind-Keeps, then-Keeps, wrap-Keeps, check-Keeps, pure-Keeps, throw-Keeps, execute-Keeps,
}
use pod_backend.Entity.Game.{Game}
use pod_backend.Entity.GameEvent.{GameEvent}

insert_game-keeps : (g : Game) (now : ℕ) → Keeps IsConsistent (insert_game g now)
unfolding insert_game
insert_game-keeps g now = record {
  keep = λ t c. elim (Option-cases (lookup g.game_id t.games)) [
    | inl e ↦ ground (arith, write_game-IsConsistent g.game_id (record g { created_at = now }) t)
    | inr (x, e) ↦ ground arith
  ];
}

-- An update that keeps the key of a game.
abbrev KeepsKey : (Game → Game) → Type 0
KeepsKey f = (g : Game) → (f g).game_id ≡ g.game_id

set_game-keeps : (i : ℤ) (f : Game → Game) → KeepsKey f → Keeps IsConsistent (set_game i f)
unfolding set_game
set_game-keeps i f k = record {
  keep = λ t c. elim (Option-cases (lookup i t.games)) [
    | inl e ↦ ground arith
    | inr (g, e) ↦ ground (arith, k g, c.games_fit i g, write_game-IsConsistent i (f g) t)
  ];
}

counted : (t : Tables) (n : ℕ) → IsConsistent t → IsConsistent (record t { statements = n })
counted t n c = record {
  games_fit = c.games_fit;
  events_fit = c.events_fit;
  users_fit = c.users_fit;
}

inserted : (e : GameEvent) (now : ℕ) → Keeps IsConsistent (insert_event e now)
inserted e now = record { keep = insert_event-IsConsistent e now }

module _ (server : Server) where
  pub create_or_ignore-keeps : (g : Game) → Keeps IsConsistent (create_or_ignore server g)
  unfolding create_or_ignore
  create_or_ignore-keeps g = search (
    then-Keeps, bind-Keeps, check-Keeps, wrap-Keeps, pure-Keeps, execute-Keeps, counted,
    insert_game-keeps,
  )

  set-keeps :
      (i : ℤ) (f : Game → Game)
      → KeepsKey f
      → Keeps IsConsistent (wrap "execute query" (execute server (λ _. set_game i f)))
  set-keeps i f k = search (wrap-Keeps, execute-Keeps, counted, set_game-keeps)

  pub join_game-keeps :
      (i : ℤ) (two hash : Text) (at : ℕ) → Keeps IsConsistent (join_game server i two hash at)
  unfolding join_game joined
  join_game-keeps i two hash at = set-keeps i _ (λ g. refl)

  pub complete_game-keeps :
      (i : ℤ) (winner : Text) (payout : ℤ) (hash : Text) (at : ℕ)
      → Keeps IsConsistent (complete_game server i winner payout hash at)
  unfolding complete_game completed
  complete_game-keeps i winner payout hash at = set-keeps i _ (λ g. refl)

  pub cancel_game-keeps :
      (i : ℤ) (hash : Text) (at : ℕ) → Keeps IsConsistent (cancel_game server i hash at)
  unfolding cancel_game cancelled
  cancel_game-keeps i hash at = set-keeps i _ (λ g. refl)

  pub get_game-keeps : (i : ℤ) → Keeps IsConsistent (get_game server i)
  unfolding get_game
  get_game-keeps i = wrap-Keeps IsConsistent _ _ (
      execute-Keeps IsConsistent server _ counted (λ now. record {
        keep = λ t c. elim (Option-cases (lookup i t.games)) [
          | inl e ↦ ground arith
          | inr (g, e) ↦ ground arith
        ];
      }))

  revealed-KeepsKey :
      (who : Seat) (choice : ℤ) (hash : Text) (at : ℕ) → KeepsKey (revealed who choice hash at)
  unfolding revealed
  revealed-KeepsKey seat_one choice hash at g = refl
  revealed-KeepsKey seat_two choice hash at g = refl

  revealing-keeps :
      (i : ℤ) (o : Option Seat) (choice : ℤ) (hash : Text) (at : ℕ)
      → Keeps IsConsistent (write_choice server i o choice hash at)
  unfolding write_choice
  revealing-keeps i none choice hash at = throw-Keeps IsConsistent _
  revealing-keeps i (some who) choice hash at = set-keeps i _ (revealed-KeepsKey who choice hash at)

  pub reveal_choice-keeps :
      (i : ℤ) (player : Text) (choice : ℤ) (hash : Text) (at : ℕ)
      → Keeps IsConsistent (reveal_choice server i player choice hash at)
  unfolding reveal_choice
  reveal_choice-keeps i player choice hash at =
      search (bind-Keeps, wrap-Keeps, get_game-keeps, revealing-keeps)

  pub upsert_event-keeps : (e : GameEvent) → Keeps IsConsistent (upsert_event server e)
  unfolding upsert_event
  upsert_event-keeps e = search (
    then-Keeps, bind-Keeps, check-Keeps, wrap-Keeps, pure-Keeps, execute-Keeps, counted, inserted,
  )
