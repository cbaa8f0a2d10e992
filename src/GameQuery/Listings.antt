-- ===== src/GameQuery/Listings.antt =====
-- The listing of `ListGames` and its pages.
use mathlib.Core.List.Perm
use mathlib.Core.List.{Perm, perm_middle}
use pod_backend.Common.{
  suc, ◌≡◌, refl, subst, eqb_ℤ_iff, ◌∙◌, Bool, true, false, ◌||◌, List, [], ◌∷◌, ◌++◌, ℤ, pos,
  eqb_ℤ, leb_ℤ, ltb_ℤ, negsuc, ◌+◌, ◌<◌, ◌^◌, add_int64_fits, keep_if, take, drop, pos_part, ok,
  Bool-cases, inl, inr, slice-cut, if◌then◌else◌, arith,
}
use pod_backend.Database.{Tables, Server, execute, wrap, pure, ◌>>=◌}
use pod_backend.Database.Games.{rows, created_later, query_games, get_by_status}
use pod_backend.Entity.Game.{Game, status_ended, status_paid}
use pod_backend.GameQuery.{
  is_more_active, sort_games_by_most_recent_activity, slice_games, answer_with,
  get_games_for_status, list_games,
}
use pod_backend.Sorting.{sort_stable, sort_stable-perm, IsSorted, sort_stable-IsSorted}

abbrev pub has_status : ℤ → Game → Bool
has_status status g = eqb_ℤ g.status status

-- The games that are listed under a status: a paid game is listed as an ended one too.
abbrev pub is_listed : ℤ → Game → Bool
is_listed status g =
    has_status status g || (if eqb_ℤ status status_ended then has_status status_paid g else false)

-- The games of a status in the order of the table's statement.
queried : ℤ → List Game → List Game
queried status games = sort_stable created_later (keep_if (has_status status) games)

-- All games that are listed under a status, in the order of their pages.
unfoldable pub listing : ℤ → List Game → List Game
unfolding queried
listing status games = sort_games_by_most_recent_activity (
    if eqb_ℤ status status_ended
    then queried status games ++ queried status_paid games
    else queried status games)

module _ {ℓ} {A : Type ℓ} (p q r : A → Bool) where
  -- Two tests that no element passes both.
  keep_if-perm :
      ((a : A) → r a ≡ (p a || q a))
      → ((a : A) → p a ≡ true → q a ≡ false)
      → (xs : List A) → Perm (keep_if p xs ++ keep_if q xs) (keep_if r xs)
  unfolding keep_if
  keep_if-perm split apart [] = Perm.refl _
  keep_if-perm split apart (x ∷ xs) = elim (Bool-cases (p x)) [
    | inl e ↦ rw (split x, e, apart x e) (Perm.cons x (keep_if-perm split apart xs))
    | inr e ↦ elim (Bool-cases (q x)) [
      | inl f ↦
          rw (split x, e, f)
            (Perm.trans (perm_middle (keep_if p xs) (keep_if q xs))
              (Perm.cons x (keep_if-perm split apart xs)))
      | inr f ↦ rw (split x, e, f) (keep_if-perm split apart xs)
    ]
  ]

module _ {ℓ} {A : Type ℓ} (p r : A → Bool) where
  keep_if-same : ((a : A) → p a ≡ r a) → (xs : List A) → keep_if p xs ≡ keep_if r xs
  unfolding keep_if
  keep_if-same same [] = refl
  keep_if-same same (x ∷ xs) = rw (same x, keep_if-same same xs) refl

queried-perm :
    (status : ℤ) (games : List Game)
    → Perm (queried status games) (keep_if (has_status status) games)
unfolding queried
queried-perm status games = sort_stable-perm created_later _

ended_apart :
    (status : ℤ)
    → eqb_ℤ status status_ended ≡ true
    → (g : Game) → has_status status g ≡ true
    → has_status status_paid g ≡ false
ended_apart status e g h =
    let (k, _) = eqb_ℤ_iff status status_ended in
    let (j, _) = eqb_ℤ_iff g.status status in rw (j h ∙ k e) refl

listing-perm :
    (status : ℤ) (games : List Game)
    → Perm (listing status games) (keep_if (is_listed status) games)
unfolding listing sort_games_by_most_recent_activity
listing-perm status games =
    Perm.trans (sort_stable-perm is_more_active _) (elim (Bool-cases (eqb_ℤ status status_ended)) [
      | inl e ↦ rw e (
          Perm.trans (Perm.append (queried-perm status games) (queried-perm status_paid games)) (
            keep_if-perm (has_status status) (has_status status_paid) (is_listed status)
              (λ g. rw e refl) (ended_apart status e) games))
      | inr e ↦ rw e (
          subst (Perm (queried status games))
            (keep_if-same (has_status status) (is_listed status) (λ g. rw e (ground arith)) games)
            (queried-perm status games))
    ])

listing-IsSorted : (status : ℤ) (games : List Game) → IsSorted is_more_active (listing status games)
unfolding listing sort_games_by_most_recent_activity
listing-IsSorted status games = sort_stable-IsSorted is_more_active (λ x y h. ground arith) _

get_games_for_status_lem :
    (server : Server) (status : ℤ) (t : Tables)
    → server.fails t.statements ≡ false
    → server.fails (suc t.statements) ≡ false
    → (get_games_for_status server status t).0 ≡ ok (listing status (rows t.games))
unfolding get_games_for_status get_by_status query_games execute wrap pure listing queried
    sort_games_by_most_recent_activity ◌>>=◌
get_games_for_status_lem server status t f f' = ground arith

slice_games_lem :
    (games : List Game) (limit offset : ℤ)
    → ltb_ℤ (pos 0) limit ≡ true
    → leb_ℤ (pos 0) offset ≡ true
    → pos_part offset + pos_part limit < 2 ^ 63
    → slice_games games limit offset ≡ ok (take (pos_part limit) (drop (pos_part offset) games))
unfolding slice_games
slice_games_lem games limit (negsuc n) l o b = absurd (ground arith)
slice_games_lem games (negsuc n) (pos offset) l o b = absurd (ground arith)
slice_games_lem games (pos limit) (pos offset) l o b =
    ground (arith, add_int64_fits offset limit b, slice-cut games limit offset)

listed_page :
    (server : Server) (status limit offset : ℤ) (t : Tables)
    → server.fails t.statements ≡ false
    → server.fails (suc t.statements) ≡ false
    → leb_ℤ (pos 0) status ≡ true
    → leb_ℤ status (pos 4) ≡ true
    → ltb_ℤ (pos 0) limit ≡ true
    → leb_ℤ (pos 0) offset ≡ true
    → pos_part offset + pos_part limit < 2 ^ 63
    → (list_games server status limit offset t).0
      ≡ ok (take (pos_part limit) (drop (pos_part offset) (listing status (rows t.games))))
unfolding list_games answer_with pure ◌>>=◌
listed_page server status limit offset t f f' s s' l o b =
    let all = listing status (rows t.games) in
    ground (arith, get_games_for_status_lem server status t f f', slice_games_lem all limit offset)

-- `ListGames` with a status from 0 to 4, a positive limit and an offset that is not negative, whose sum
-- is less than 2 ^ 63, answers, if the database does: with the page of a list that holds exactly the games listed under the status,
-- each once, from the latest activity on. The ended games include the paid ones.
pub list_games-lists :
    (server : Server) (status limit offset : ℤ) (t : Tables)
    → server.fails t.statements ≡ false
    → server.fails (suc t.statements) ≡ false
    → leb_ℤ (pos 0) status ≡ true
    → leb_ℤ status (pos 4) ≡ true
    → ltb_ℤ (pos 0) limit ≡ true
    → leb_ℤ (pos 0) offset ≡ true
    → pos_part offset + pos_part limit < 2 ^ 63
    → let all = listing status (rows t.games) in
      ((list_games server status limit offset t).0
        ≡ ok (take (pos_part limit) (drop (pos_part offset) all)))
      × Perm all (keep_if (is_listed status) (rows t.games))
      × IsSorted is_more_active all
list_games-lists server status limit offset t f f' s s' l o b = (
  listed_page server status limit offset t f f' s s' l o b,
  listing-perm status (rows t.games),
  listing-IsSorted status (rows t.games),
)
