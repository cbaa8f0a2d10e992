-- ===== src/Database/Consistency.antt =====
-- When the three tables fit together, and that each statement leaves them so.
use pod_backend.Common.{
  ◌+◌, ◌≤◌, true, false, some, List, [], ◌∷◌, ◌++◌, Text, ℤ, pos_part, neg_part, eqb, int_eq,
  text_eq, Option-cases, Bool-cases, inl, inr, ◌≡◌, refl, ◌∙◌, ℕ, arith,
}
use pod_backend.Common.Dict.{Dict, lookup, insert, lookup-insert}
use pod_backend.Database.{Tables, UserRow, is_user, is_user?}
use pod_backend.Database.Events.{insert_event, is_recorded, same_event, event_row_ok, event_row}
use pod_backend.Database.Games.{game_row_ok, write_game}
use pod_backend.Database.Users.{user_row_ok, write_user}
use pod_backend.Entity.Game.{Game}
use pod_backend.Entity.GameEvent.{GameEvent}
use pod_backend.Entity.User.{User}

-- A row that meets the constraints of its table, under its own key.
abbrev pub GameFits : Dict Text UserRow → ℤ → Game → Type 0
GameFits users i g = (g.game_id ≡ i) × (game_row_ok users g ≡ true)

-- No more games were decided for a user than were counted.
abbrev pub IsCounted : User → Type 0
IsCounted u =
    pos_part u.total_wins + pos_part u.total_losses + neg_part u.total_games_played
    ≤ pos_part u.total_games_played + neg_part u.total_wins + neg_part u.total_losses

abbrev pub UserFits : Text → UserRow → Type 0
UserFits w u = (u.columns.wallet_address ≡ w) × (user_row_ok u.columns ≡ true) × IsCounted u.columns

abbrev pub HasGame : Dict ℤ Game → ℤ → Type 0
HasGame games i = (g : Game) × (lookup i games ≡ some g)

-- Every event has a game, and no two events have the same key.
abbrev pub EventsFit : Dict ℤ Game → List GameEvent → Type 0
EventsFit games [] = Unit
EventsFit games (e ∷ es) = HasGame games e.game_id × (is_recorded e es ≡ false) × EventsFit games es

pub record IsConsistent (t : Tables) : Type 0 where
  pub games_fit : (i : ℤ) (g : Game) → lookup i t.games ≡ some g → GameFits t.users i g
  pub events_fit : EventsFit t.games t.events
  pub users_fit : (w : Text) (u : UserRow) → lookup w t.users ≡ some u → UserFits w u

-- More users keep a game's row valid.
game_row_ok_mono :
    (users users' : Dict Text UserRow) (g : Game)
    → ((w : Text) → is_user users w ≡ true → is_user users' w ≡ true)
    → game_row_ok users g ≡ true
    → game_row_ok users' g ≡ true
unfolding game_row_ok is_user?
game_row_ok_mono users users' g more h = elim (Option-cases g.player_two_address) [
  | inl e ↦ ground (arith, more g.player_one_address)
  | inr (two, e) ↦ ground (arith, more g.player_one_address, more two)
]

-- More games keep the events valid.
EventsFit-mono :
    (games games' : Dict ℤ Game) (es : List GameEvent)
    → ((i : ℤ) → HasGame games i → HasGame games' i)
    → EventsFit games es
    → EventsFit games' es
EventsFit-mono games games' [] more h = tt
EventsFit-mono games games' (e ∷ es) more h =
    (more e.game_id h.0, h.1, EventsFit-mono games games' es more h.2)

same_event_sym : (a b : GameEvent) → same_event a b ≡ same_event b a
unfolding same_event
same_event_sym a b = ground arith

is_recorded-append :
    (e row : GameEvent) (es : List GameEvent)
    → is_recorded e es ≡ false
    → same_event e row ≡ false
    → is_recorded e (es ++ row ∷ []) ≡ false
unfolding is_recorded
is_recorded-append e row [] h k = ground arith
is_recorded-append e row (x ∷ xs) h k = ground (arith, is_recorded-append e row xs)

EventsFit-append :
    (games : Dict ℤ Game) (row : GameEvent) (es : List GameEvent)
    → EventsFit games es
    → HasGame games row.game_id
    → is_recorded row es ≡ false
    → EventsFit games (es ++ row ∷ [])
unfolding is_recorded
EventsFit-append games row [] f h n = (h, refl, tt)
EventsFit-append games row (e ∷ es) f h n =
    let n1 : same_event e row ≡ false = same_event_sym e row ∙ ground arith in
    (f.0, is_recorded-append e row es f.1 n1, EventsFit-append games row es f.2 h (ground arith))

lookup-insert-some :
    {V : Type 0} (i j : ℤ) (v : V) (m : Dict ℤ V)
    → (w : V) × (lookup j m ≡ some w)
    → (w : V) × (lookup j (insert i v m) ≡ some w)
lookup-insert-some i j v m (w, e) = elim (Bool-cases (eqb i j)) [
  | inl y ↦ (v, ground (arith, lookup-insert i j v m))
  | inr n ↦ (w, ground (arith, lookup-insert i j v m))
]

pub write_game-IsConsistent :
    (i : ℤ) (g : Game) (t : Tables)
    → GameFits t.users i g
    → IsConsistent t
    → IsConsistent (write_game i g t)
unfolding write_game
write_game-IsConsistent i g t f c = record {
  games_fit = λ j x e. ground (arith, lookup-insert i j g t.games, c.games_fit j x);
  events_fit =
      EventsFit-mono t.games (insert i g t.games) t.events (λ j. lookup-insert-some i j g t.games)
        c.events_fit;
  users_fit = c.users_fit;
}

-- A user whose row is written has one from then on.
is_user-insert :
    (w x : Text) (u : UserRow) (users : Dict Text UserRow)
    → is_user users x ≡ true
    → is_user (insert w u users) x ≡ true
unfolding is_user
is_user-insert w x u users h = ground (arith, lookup-insert w x u users)

pub write_user-IsConsistent :
    (w : Text) (u : UserRow) (t : Tables)
    → UserFits w u
    → IsConsistent t
    → IsConsistent (write_user w u t)
unfolding write_user
write_user-IsConsistent w u t f c = record {
  games_fit = λ j x e. (
    (c.games_fit j x e).0,
    game_row_ok_mono t.users (insert w u t.users) x (λ v. is_user-insert w v u t.users)
        (c.games_fit j x e).1,
  );
  events_fit = c.events_fit;
  users_fit = λ v x e. ground (arith, lookup-insert w v u t.users, c.users_fit v x);
}

is_recorded-row :
    (e : GameEvent) (i now : ℕ) (es : List GameEvent)
    → is_recorded (event_row e i now) es ≡ is_recorded e es
unfolding is_recorded same_event event_row
is_recorded-row e i now [] = refl
is_recorded-row e i now (x ∷ xs) = ground (arith, is_recorded-row e i now xs)

pub insert_event-IsConsistent :
    (e : GameEvent) (now : ℕ) (t : Tables) → IsConsistent t → IsConsistent (insert_event e now t).1
unfolding insert_event event_row
insert_event-IsConsistent e now t c = elim (Bool-cases (event_row_ok e)) [
  | inl y ↦ elim (Bool-cases (is_recorded e t.events)) [
    | inl r ↦ ground arith
    | inr r ↦ elim (Option-cases (lookup e.game_id t.games)) [
      | inl n ↦ ground arith
      | inr (g, p) ↦
          let row = event_row e t.next_event_id now in
          ground (
            arith,
            EventsFit-append t.games row t.events c.events_fit (g, p)
                (is_recorded-row e t.next_event_id now t.events ∙ r),
          )
    ]
  ]
  | inr n ↦ ground arith
]
