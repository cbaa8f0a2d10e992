-- ===== src/GamePersistence/Ended.antt =====
-- What the handlers of a game that ended leave of the coordination of it.
use pod_backend.Common.{
  Option, none, some, [], ◌∷◌, Text, ℤ, pos, Outcome, ok, err, inl, inr, ◌≡◌, ◌≢◌, ◌⊎◌, refl, arith,
  int_eq,
}
use pod_backend.Database.{Fault, Action, wrap, ◌>>=◌, ◌>>◌}
use pod_backend.Database.Keeping.{Keeps, pure-Keeps}
use pod_backend.Database.Tallies.{Unknown}
use pod_backend.Database.Triples.{Triple, Ends, bind-Triple, then-Triple}
use pod_backend.GamePersistence.{
  Env, System, GameEventType, game_finished, game_cancelled, draw, db, step, undo,
  broadcast_game_update, release_cancel_reservation_if_unavailable,
  release_reveal_reservation_if_any, release_expired_claim_if_resolved,
}
use pod_backend.GamePersistence.Handlers.{
  handle_game_finished, handle_draw, handle_game_cancelled, release_finished, finish_draw,
  finish_cancelled, count_player_two, in_transaction,
}
use pod_backend.GamePersistence.Keeping.{in_transaction-Keeps}
use pod_backend.GamePersistence.Settling.{
  Settlement, settle_game, finish_game, count_loser, count_referrer,
}
use pod_backend.GamePersistence.Releases.{
  Freed, Concerns, cancel_step, reveal_step, claim_step, steady, with_fact, current-Triple,
  unless-Triple, concern_rules,
}

pub record FreedAfterEnd (env : Env) (i : ℤ) (s : System) : Type 0 where
  pub cancels : Freed env i s.cancels
  pub reveals : Freed env i s.reveals

module _ (env : Env) (i : ℤ) where
  -- Nothing is said of a handler that took the event for a duplicate.
  abbrev Ended : Unit {0} → System → Type 0
  Ended _ s = (s.event.id ≡ pos 0) ⊎ FreedAfterEnd env i s

  released_tail :
      (kind : GameEventType) (s : System)
      → FreedAfterEnd env i (
          release_expired_claim_if_resolved env i (
            release_reveal_reservation_if_any env i (
              release_cancel_reservation_if_unavailable env i
                (broadcast_game_update env i kind s))))
  released_tail kind s =
      let s1 = broadcast_game_update env i kind s in
      let s2 = release_cancel_reservation_if_unavailable env i s1 in
      let s3 = release_reveal_reservation_if_any env i s2 in
      let (_, _, d1, d2, _) = claim_step env i s3 in
      let (c, c1, _) = reveal_step env i s2 in
      record { cancels = rw (d1, c1) (cancel_step env i s1).0; reveals = rw d2 c }

  released_at :
      (kind : GameEventType) (j : ℤ)
      → j ≡ i
      → Triple (Concerns i) Ended Unknown (do
        step (broadcast_game_update env j kind)
        step (release_cancel_reservation_if_unavailable env j)
        step (release_reveal_reservation_if_any env j)
        step (release_expired_claim_if_resolved env j))
  unfolding step ◌>>◌ ◌>>=◌
  released_at kind j e = rw e (record { run = λ s h. inr (released_tail kind s) })

  release_finished-Triple :
      (kind : GameEventType) → Triple (Concerns i) Ended Unknown (release_finished env kind)
  unfolding release_finished
  release_finished-Triple kind =
      bind-Triple (Concerns i) Unknown _ Ended _ _ (current-Triple env i)
        (λ e. with_fact env i (e.game_id ≡ i) Ended _ (released_at kind e.game_id))

  cancelled_tail :
      (s : System)
      → FreedAfterEnd env i (
          release_reveal_reservation_if_any env i (
            release_cancel_reservation_if_unavailable env i
              (broadcast_game_update env i game_cancelled s)))
  cancelled_tail s =
      let s1 = broadcast_game_update env i game_cancelled s in
      let s2 = release_cancel_reservation_if_unavailable env i s1 in
      let (c, c1, _) = reveal_step env i s2 in
      record { cancels = rw c1 (cancel_step env i s1).0; reveals = c }

  cancelled_at :
      (j : ℤ)
      → j ≡ i
      → Triple (Concerns i) Ended Unknown (do
        step (broadcast_game_update env j game_cancelled)
        step (release_cancel_reservation_if_unavailable env j)
        step (release_reveal_reservation_if_any env j))
  unfolding step ◌>>◌ ◌>>=◌
  cancelled_at j e = rw e (record { run = λ s h. inr (cancelled_tail s) })

  -- The calls before the release keep the event.
  count_loser-Concerns : (w : Text) → Keeps (Concerns i) (count_loser env w)
  unfolding count_loser
  count_loser-Concerns [] = pure-Keeps (Concerns i) tt
  count_loser-Concerns (c ∷ w) = search concern_rules

  count_referrer-Concerns : (w : Text) (n : ℤ) → Keeps (Concerns i) (count_referrer env w n)
  unfolding count_referrer db wrap
  count_referrer-Concerns [] n = record { keep = λ s h. h }
  count_referrer-Concerns (c ∷ w) n = record { keep = λ s h. ground arith }

  count_player_two-Concerns : (o : Option Text) → Keeps (Concerns i) (count_player_two env o)
  unfolding count_player_two db wrap
  count_player_two-Concerns none = record { keep = λ s h. h }
  count_player_two-Concerns (some w) = record { keep = λ s h. h }

  settle_game-Concerns : (x : Settlement) → Keeps (Concerns i) (settle_game env x)
  unfolding settle_game finish_game
  settle_game-Concerns x =
      search (concern_rules, count_loser-Concerns, count_referrer-Concerns) depth 20

  transaction-Concerns :
      (x : Settlement) → Keeps (Concerns i) (in_transaction env (settle_game env x))
  transaction-Concerns x =
      in_transaction-Keeps (Concerns i) env (λ s n h. h) (λ s s' h h'. unfold undo in h')
        (settle_game env x) (settle_game-Concerns x)

  before :
      {B : Type 0} (R : B → System → Type 0) (m : Action System (Unit {0})) (k : Action System B)
      → Keeps (Concerns i) m
      → Triple (Concerns i) R Unknown k
      → Triple (Concerns i) R Unknown (m >> k)
  before R m k q t = then-Triple (Concerns i) Unknown (Concerns i) R m k (steady env i m q) t

  after_read :
      {A B : Type 0} (R : B → System → Type 0) (m : Action System A) (k : A → Action System B)
      → Keeps (Concerns i) m
      → ((a : A) → Triple (Concerns i) R Unknown (k a))
      → Triple (Concerns i) R Unknown (m >>= k)
  after_read R m k q t =
      bind-Triple (Concerns i) Unknown (λ _. Concerns i) R m k (steady env i m q) t

  was_finished : Triple (Concerns i) Ended Unknown (handle_game_finished env)
  unfolding handle_game_finished
  was_finished = before Ended _ _ (search concern_rules) (
      after_read Ended _ _ (search concern_rules) (λ x. before Ended _ _ (search concern_rules) (
        after_read Ended _ _ (search concern_rules) (λ w.
          after_read Ended _ _ (search concern_rules) (λ n.
            before Ended _ _ (transaction-Concerns _) (
              unless-Triple env i (FreedAfterEnd env i) _
                (release_finished-Triple game_finished)))))))

  was_drawn : Triple (Concerns i) Ended Unknown (handle_draw env)
  unfolding handle_draw finish_draw
  was_drawn = before Ended _ _ (search concern_rules) (
      after_read Ended _ _ (search concern_rules) (λ x. before Ended _ _ (search concern_rules) (
        before Ended _ _ (search concern_rules) (
          unless-Triple env i (FreedAfterEnd env i) _ (
            after_read Ended _ _ (search concern_rules) (λ e.
              before Ended _ _ (search concern_rules) (
                after_read Ended _ _ (search concern_rules) (λ g.
                  before Ended _ _ (search concern_rules) (
                    before Ended _ _ (count_player_two-Concerns _)
                      (release_finished-Triple draw))))))))))

  was_cancelled : Triple (Concerns i) Ended Unknown (handle_game_cancelled env)
  unfolding handle_game_cancelled finish_cancelled
  was_cancelled = before Ended _ _ (search concern_rules) (
      after_read Ended _ _ (search concern_rules) (λ x. before Ended _ _ (search concern_rules) (
        before Ended _ _ (search concern_rules) (
          unless-Triple env i (FreedAfterEnd env i) _ (
            bind-Triple (Concerns i) Unknown _ Ended _ _ (current-Triple env i) (λ e.
              with_fact env i (e.game_id ≡ i) Ended _
                (λ p. before Ended _ _ (search concern_rules) (cancelled_at e.game_id p))))))))

freed_after_end :
    (env : Env) (i : ℤ) (r : Outcome Fault (Unit {0}) × System)
    → r.0 ≡ ok tt
    → r.1.event.id ≢ pos 0
    → Ends (λ _ s. (s.event.id ≡ pos 0) ⊎ FreedAfterEnd env i s) Unknown r
    → Freed env i r.1.cancels × Freed env i r.1.reveals
freed_after_end env i (ok a, s) d n (inl e) = absurd (n e)
freed_after_end env i (ok a, s) d n (inr h) = (h.cancels, h.reveals)
freed_after_end env i (err m, s) d n h = absurd (ground arith)

-- The handler of an event that ends its game: finished, drawn or cancelled.
pub data Ending : Type 0 where
  by_winner by_draw by_cancellation : Ending

abbrev pub handle_ending : Env → Ending → Action System (Unit {0})
handle_ending env by_winner = handle_game_finished env
handle_ending env by_draw = handle_draw env
handle_ending env by_cancellation = handle_game_cancelled env

ends :
    (env : Env) (x : Ending) (i : ℤ)
    → Triple
        (Concerns i)
        (λ _ s. (s.event.id ≡ pos 0) ⊎ FreedAfterEnd env i s)
        Unknown
        (handle_ending env x)
ends env by_winner i = was_finished env i
ends env by_draw i = was_drawn env i
ends env by_cancellation i = was_cancelled env i

-- Once `HandleGameFinished`, `HandleDraw` or `HandleGameCancelled` has processed an event, which is to
-- say that it returns no error and the event has an id, no cancellation and no reveal reservation of
-- the game is active in the use cases that are set.
pub handle_ending-frees :
    (env : Env) (x : Ending) (s : System)
    → (handle_ending env x s).0 ≡ ok tt
    → (handle_ending env x s).1.event.id ≢ pos 0
    → let s' = (handle_ending env x s).1 in
      Freed env s.event.game_id s'.cancels × Freed env s.event.game_id s'.reveals
handle_ending-frees env x s d n =
    freed_after_end env s.event.game_id (handle_ending env x s) d n
      ((ends env x s.event.game_id).run s refl)
