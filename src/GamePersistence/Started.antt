-- ===== src/GamePersistence/Started.antt =====
-- What `HandleGameStarted` leaves of the coordination of its game.
use pod_backend.Common.{
  Text, ℤ, pos, Outcome, ok, err, inl, inr, ◌≡◌, ◌≢◌, ◌⊎◌, refl, arith, int_eq,
}
use pod_backend.Database.{Fault, ◌>>=◌, ◌>>◌}
use pod_backend.Database.Tallies.{Unknown}
use pod_backend.Database.Triples.{Triple, Ends, bind-Triple, then-Triple}
use pod_backend.GamePersistence.{
  Env, System, game_started, step, broadcast_game_update, release_join_reservation,
  release_cancel_reservation_if_unavailable, release_expired_claim_if_resolved,
}
use pod_backend.GamePersistence.Handlers.{handle_game_started, start_game}
use pod_backend.GamePersistence.Releases.{
  Freed, Concerns, join_step, cancel_step, claim_step, broadcast_step, steady, with_fact,
  current-Triple, unless-Triple, concern_rules,
}

pub record FreedAfterStart (env : Env) (i : ℤ) (s : System) : Type 0 where
  pub joins : Freed env i s.joins
  pub cancels : Freed env i s.cancels
  pub claims : Freed env i s.claims

module _ (env : Env) (i : ℤ) where
  started_tail :
      (s : System)
      → FreedAfterStart env i (
          release_expired_claim_if_resolved env i (
            broadcast_game_update env i game_started
              (release_cancel_reservation_if_unavailable env i (release_join_reservation env i s))))
  started_tail s =
      let s1 = release_join_reservation env i s in
      let s2 = release_cancel_reservation_if_unavailable env i s1 in
      let s3 = broadcast_game_update env i game_started s2 in
      let (d, d1, d2, _, _) = claim_step env i s3 in
      let (c1, c2, _, _) = broadcast_step env i game_started s2 in
      let (b, b1, _) = cancel_step env i s1 in
      record { joins = rw (d1, c1, b1) (join_step env i s); cancels = rw (d2, c2) b; claims = d }

  -- Nothing is said of a handler that took the event for a duplicate.
  abbrev Started : Unit {0} → System → Type 0
  Started _ s = (s.event.id ≡ pos 0) ⊎ FreedAfterStart env i s

  after_join :
      (j : ℤ)
      → j ≡ i
      → Triple (Concerns i) Started Unknown (do
        step (release_join_reservation env j)
        step (release_cancel_reservation_if_unavailable env j)
        step (broadcast_game_update env j game_started)
        step (release_expired_claim_if_resolved env j))
  unfolding step ◌>>◌ ◌>>=◌
  after_join j e = rw e (record { run = λ s h. inr (started_tail s) })

  start_game-Triple : (two : Text) → Triple (Concerns i) Started Unknown (start_game env two)
  unfolding start_game
  start_game-Triple two =
      bind-Triple (Concerns i) Unknown _ Started _ _ (current-Triple env i) (λ e.
        with_fact env i (e.game_id ≡ i) Started _ (λ p.
          then-Triple (Concerns i) Unknown (Concerns i) Started _ _
            (steady env i _ (search (concern_rules)))
            (then-Triple (Concerns i) Unknown (Concerns i) Started _ _
              (steady env i _ (search (concern_rules))) (after_join e.game_id p))))

  started : Triple (Concerns i) Started Unknown (handle_game_started env)
  unfolding handle_game_started
  started =
      then-Triple (Concerns i) Unknown (Concerns i) Started _ _
        (steady env i _ (search (concern_rules)))
        (bind-Triple (Concerns i) Unknown (λ _. Concerns i) Started _ _
          (steady env i _ (search (concern_rules)))
          (λ two.
            bind-Triple (Concerns i) Unknown (λ _. Concerns i) Started _ _
              (steady env i _ (search (concern_rules)))
              (λ _.
                then-Triple (Concerns i) Unknown (Concerns i) Started _ _
                  (steady env i _ (search (concern_rules)))
                  (then-Triple (Concerns i) Unknown (Concerns i) Started _ _
                    (steady env i _ (search (concern_rules)))
                    (unless-Triple env i (FreedAfterStart env i) _ (start_game-Triple two))))))

freed_after_start :
    (env : Env) (i : ℤ) (r : Outcome Fault (Unit {0}) × System)
    → r.0 ≡ ok tt
    → r.1.event.id ≢ pos 0
    → Ends (λ _ s. (s.event.id ≡ pos 0) ⊎ FreedAfterStart env i s) Unknown r
    → Freed env i r.1.joins × Freed env i r.1.cancels × Freed env i r.1.claims
freed_after_start env i (ok a, s) d n (inl e) = absurd (n e)
freed_after_start env i (ok a, s) d n (inr h) = (h.joins, h.cancels, h.claims)
freed_after_start env i (err m, s) d n h = absurd (ground arith)

-- Once `HandleGameStarted` has processed an event, which is to say that it returns no error and the
-- event has an id, no join reservation, no cancellation and no expired claim of the game is active in
-- the use cases that are set.
pub handle_game_started-frees :
    (env : Env) (s : System)
    → (handle_game_started env s).0 ≡ ok tt
    → (handle_game_started env s).1.event.id ≢ pos 0
    → let s' = (handle_game_started env s).1 in
      Freed env s.event.game_id s'.joins
      × Freed env s.event.game_id s'.cancels
      × Freed env s.event.game_id s'.claims
handle_game_started-frees env s d n =
    freed_after_start env s.event.game_id (handle_game_started env s) d n
      ((started env s.event.game_id).run s refl)
