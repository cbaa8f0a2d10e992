-- ===== src/GameBroadcast/Delivery.antt =====
-- Whom a broadcast reaches.
use pod_backend.Common.{
  ◌≡◌, refl, ap, ◌∙◌, true, false, Option, none, some, List, [], ◌∷◌, ◌++◌, Text, ℤ, map, ok,
  Bool-cases, inl, inr, text_eq, int_eq, arith,
}
use pod_backend.Common.Dict.{Dict, lookup, insert, Unique, insert-Unique, lookup-insert}
use pod_backend.Database.Games.{rows}
use pod_backend.GameBroadcast.{
  Subscriber, Broadcaster, sent, Wire, subscribers_of, snapshot_subscribers, copy_into,
  broadcast_serialized_message, cleanup_failed_connections, global_game_id, is_empty_list,
}
use pod_backend.GameBroadcast.Counting.{Tidy, subscribers_of-Unique}
use pod_backend.GameBroadcast.Messages.{Line, Message, broadcast_event}
use Prim.Native.String.{String}

-- The first value, or the other.
abbrev pub first_of {ℓ} : {A : Type ℓ} → Option A → Option A → Option A
first_of (some a) o = some a
first_of none o = o

first_of-none {ℓ} : {A : Type ℓ} (o : Option A) → first_of o none ≡ o
first_of-none none = refl
first_of-none (some a) = refl

copy_into-Unique : (all subs : Dict Text Subscriber) → Unique all → Unique (copy_into all subs)
unfolding copy_into
copy_into-Unique all [] u = u
copy_into-Unique all ((c, s) ∷ subs) u =
    copy_into-Unique (insert c s all) subs (insert-Unique c s all u)

-- What is copied stands before what was there.
lookup-copy_into :
    (client : Text) (all subs : Dict Text Subscriber)
    → Unique subs
    → lookup client (copy_into all subs) ≡ first_of (lookup client subs) (lookup client all)
unfolding copy_into lookup
lookup-copy_into client all [] u = refl
lookup-copy_into client all ((c, s) ∷ subs) u =
    ground (arith, lookup-copy_into client (insert c s all) subs u.1, lookup-insert c client s all)

-- A broadcast on connections that refuse nothing.
broadcast_serialized_message-sends :
    (wire : Wire) (text : Text) (globals : List Text) (all : Dict Text Subscriber)
    → ((s : Subscriber) → wire.refuses_deadline s ≡ false)
    → ((s : Subscriber) → wire.refuses_message s ≡ false)
    → broadcast_serialized_message wire text globals all
      ≡ (map (λ s. sent s.conn text) (rows all), [], [])
unfolding broadcast_serialized_message rows
broadcast_serialized_message-sends wire text globals [] d m = refl
broadcast_serialized_message-sends wire text globals ((c, s) ∷ all) d m =
    rw (broadcast_serialized_message-sends wire text globals all d m, d s, m s) refl

append-none {ℓ} : {A : Type ℓ} (xs : List A) → xs ++ [] ≡ xs
append-none [] = refl
append-none (x ∷ xs) = ap (λ l. x ∷ l) (append-none xs)

is_empty_list-none {ℓ} : {A : Type ℓ} (xs : List A) → is_empty_list xs ≡ true → xs ≡ []
is_empty_list-none [] e = refl
is_empty_list-none (x ∷ xs) e = absurd (cc)

delivered_lem :
    (line : Line) (context : String) (g : ℤ) (event : Message) (b : Broadcaster) (text : Text)
    → line.marshal event ≡ ok text
    → ((s : Subscriber) → line.wire.refuses_deadline s ≡ false)
    → ((s : Subscriber) → line.wire.refuses_message s ≡ false)
    → broadcast_event line context g event b
      ≡ (ok tt, b, map (λ s. sent s.conn text) (rows (snapshot_subscribers g b).0))
unfolding broadcast_event cleanup_failed_connections rows
delivered_lem line context g event b text m d w =
    let (all, globals) = snapshot_subscribers g b in
    elim (Bool-cases (is_empty_list all)) [
      | inl e ↦ rw (e, is_empty_list-none all e) refl
      | inr e ↦
          rw (e, m, broadcast_serialized_message-sends line.wire text globals all d w)
            (ap (λ l. (ok tt, b, l)) (append-none (map (λ s. sent s.conn text) (rows all))))
    ]

-- `broadcastEvent` with a message that can be serialised, over connections that refuse nothing, returns
-- no error, leaves the subscriptions as they are, and writes the message once to each client of a list
-- that holds, each once, the clients subscribed to the game or to all games; a client of both is
-- written to on the connection of the latter.
pub broadcast_event-delivers :
    (line : Line) (context : String) (g : ℤ) (event : Message) (b : Broadcaster) (text : Text)
    (client : Text)
    → Tidy b.game_subscribers
    → line.marshal event ≡ ok text
    → ((s : Subscriber) → line.wire.refuses_deadline s ≡ false)
    → ((s : Subscriber) → line.wire.refuses_message s ≡ false)
    → let all = (snapshot_subscribers g b).0 in
      (broadcast_event line context g event b ≡ (ok tt, b, map (λ s. sent s.conn text) (rows all)))
      × Unique all
      × (lookup client all
          ≡ first_of
              (lookup client (subscribers_of global_game_id b.game_subscribers))
              (lookup client (subscribers_of g b.game_subscribers)))
unfolding snapshot_subscribers lookup
broadcast_event-delivers line context g event b text client t m d w =
    let subs = b.game_subscribers in
    let local = subscribers_of g subs in
    let global = subscribers_of global_game_id subs in
    (
      delivered_lem line context g event b text m d w,
      copy_into-Unique _ global (copy_into-Unique [] local tt),
      lookup-copy_into client (copy_into [] local) global (subscribers_of-Unique _ subs t)
          ∙ ap (first_of (lookup client global))
              (lookup-copy_into client [] local (subscribers_of-Unique g subs t) ∙ first_of-none _),
    )
