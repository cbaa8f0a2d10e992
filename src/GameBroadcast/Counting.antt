-- ===== src/GameBroadcast/Counting.antt =====
-- The counter of active connections, against the subscriptions that there are.
use pod_backend.Common.{
  ℕ, suc, ◌+◌, ◌≡◌, refl, Bool, true, false, ◌&&◌, ◌==◌, Option, none, some, List, [], ◌∷◌, Text, ℤ,
  pos, succ_ℤ, pred_ℤ, length, Bool-cases, Option-cases, inl, inr, int_eq, text_eq, arith, Eq,
  if◌then◌else◌,
}
use pod_backend.Common.Dict.{Dict, lookup, insert, delete, Unique, insert-Unique, delete-Unique}
use pod_backend.GameBroadcast.{
  Subscriber, Broadcaster, subscribers_of, subscribe, remove_subscriber, clean_up_empty,
  unsubscribe, remove_failed, cleanup_failed_connections, is_empty_list, global_game_id,
}

abbrev has_entry {ℓ} : {A : Type ℓ} → Option A → ℕ
has_entry none = 0
has_entry (some _) = 1

module _ {ℓ} {K V : Type ℓ} ⦃e : Eq K⦄ where
  length-insert :
      (k : K) (v : V) (m : Dict K V)
      → length (insert k v m) + has_entry (lookup k m) ≡ suc (length m)
  unfolding lookup insert
  length-insert k v [] = refl
  length-insert k v ((j, w) ∷ m) = ground (arith, length-insert k v m)

  delete-none : (k : K) (m : Dict K V) → lookup k m ≡ none → delete k m ≡ m
  unfolding lookup delete
  delete-none k [] h = refl
  delete-none k ((j, w) ∷ m) h = ground (arith, delete-none k m)

  length-delete :
      (k : K) (m : Dict K V) → Unique m → length (delete k m) + has_entry (lookup k m) ≡ length m
  unfolding lookup delete
  length-delete k [] u = refl
  length-delete k ((j, w) ∷ m) u = ground (arith, length-delete k m u.1, delete-none k m)

abbrev pub Subscriptions : Type 0
Subscriptions = Dict ℤ (Dict Text Subscriber)

-- All subscriptions, of all games.
unfoldable pub count_subscriptions : Subscriptions → ℕ
count_subscriptions [] = 0
count_subscriptions ((_, subs) ∷ m) = length subs + count_subscriptions m

-- Each game has its clients once.
abbrev pub Tidy : Subscriptions → Type 0
Tidy [] = Unit
Tidy ((_, subs) ∷ m) = Unique subs × Tidy m

count-insert :
    (g : ℤ) (subs : Dict Text Subscriber) (m : Subscriptions)
    → count_subscriptions (insert g subs m) + length (subscribers_of g m)
      ≡ count_subscriptions m + length subs
unfolding count_subscriptions insert subscribers_of lookup
count-insert g subs [] = omega arith
count-insert g subs ((j, w) ∷ m) = ground (arith, count-insert g subs m)

count-delete :
    (g : ℤ) (m : Subscriptions)
    → Unique m
    → count_subscriptions (delete g m) + length (subscribers_of g m) ≡ count_subscriptions m
unfolding count_subscriptions delete subscribers_of lookup
count-delete g [] u = omega arith
count-delete g ((j, w) ∷ m) u = ground (arith, count-delete g m u.1, delete-none g m)

insert-Tidy :
    (g : ℤ) (subs : Dict Text Subscriber) (m : Subscriptions)
    → Unique subs
    → Tidy m
    → Tidy (insert g subs m)
unfolding insert
insert-Tidy g subs [] u t = (u, tt)
insert-Tidy g subs ((j, w) ∷ m) u t = ground (arith, insert-Tidy g subs m u t.1)

delete-Tidy : (g : ℤ) (m : Subscriptions) → Tidy m → Tidy (delete g m)
unfolding delete
delete-Tidy g [] t = tt
delete-Tidy g ((j, w) ∷ m) t = ground (arith, delete-Tidy g m t.1)

pub subscribers_of-Unique : (g : ℤ) (m : Subscriptions) → Tidy m → Unique (subscribers_of g m)
unfolding subscribers_of lookup
subscribers_of-Unique g [] t = tt
subscribers_of-Unique g ((j, w) ∷ m) t = ground (arith, subscribers_of-Unique g m t.1)

-- The counter exceeds the subscriptions by a number.
pub record IsCounted (n : ℕ) (b : Broadcaster) : Type 0 where
  pub unique : Unique b.game_subscribers
  pub tidy : Tidy b.game_subscribers
  pub counted : b.active_connections ≡ pos (count_subscriptions b.game_subscribers + n)

-- Whether `Subscribe` finds the client subscribed already.
unfoldable pub is_subscribed : ℤ → Text → Broadcaster → Bool
is_subscribed g client b = elim (lookup client (subscribers_of g b.game_subscribers)) [
  | none ↦ false
  | some _ ↦ true
]

has_entry-is_subscribed :
    (g : ℤ) (client : Text) (b : Broadcaster)
    → has_entry (lookup client (subscribers_of g b.game_subscribers))
      ≡ (if is_subscribed g client b then 1 else 0)
unfolding is_subscribed
has_entry-is_subscribed g client b = ground arith

pub subscribe-IsCounted :
    (n : ℕ) (g : ℤ) (client : Text) (conn : ℕ) (b : Broadcaster)
    → IsCounted n b
    → IsCounted (if is_subscribed g client b then suc n else n) (subscribe g client conn b)
unfolding subscribe succ_ℤ
subscribe-IsCounted n g client conn b i =
    let subs = subscribers_of g b.game_subscribers in
    let s : Subscriber = record { client_id = client; conn = conn } in
    record {
      unique = insert-Unique g (insert client s subs) b.game_subscribers i.unique;
      tidy =
          insert-Tidy g (insert client s subs) b.game_subscribers
            (insert-Unique client s subs (subscribers_of-Unique g b.game_subscribers i.tidy))
            i.tidy;
      counted = ground (
        arith,
        i.counted,
        count-insert g (insert client s subs) b.game_subscribers,
        length-insert client s subs,
        has_entry-is_subscribed g client b,
      );
    }

remove_subscriber-IsCounted :
    (n : ℕ) (g : ℤ) (client : Text) (b : Broadcaster)
    → IsCounted n b
    → IsCounted n (remove_subscriber g client b).0
unfolding remove_subscriber pred_ℤ
remove_subscriber-IsCounted n g client b i =
    let subs = subscribers_of g b.game_subscribers in
    let u = subscribers_of-Unique g b.game_subscribers i.tidy in
    elim (Option-cases (lookup client subs)) [
      | inl e ↦ rw (e, remove_subscriber) i
      | inr (s, e) ↦
          rw (e, remove_subscriber)
            (record {
              unique = insert-Unique g (delete client subs) b.game_subscribers i.unique;
              tidy =
                  insert-Tidy g (delete client subs) b.game_subscribers
                    (delete-Unique client subs u) i.tidy;
              counted = ground (
                arith,
                i.counted,
                count-insert g (delete client subs) b.game_subscribers,
                length-delete client subs u,
              );
            })
    ]

clean_up_empty-IsCounted :
    (n : ℕ) (g : ℤ) (b : Broadcaster) → IsCounted n b → IsCounted n (clean_up_empty g b)
unfolding clean_up_empty
clean_up_empty-IsCounted n g b i =
    elim (Bool-cases (length (subscribers_of g b.game_subscribers) == 0)) [
      | inl e ↦ rw e (record {
        unique = delete-Unique g b.game_subscribers i.unique;
        tidy = delete-Tidy g b.game_subscribers i.tidy;
        counted = ground (arith, i.counted, count-delete g b.game_subscribers i.unique);
      })
      | inr e ↦ rw e i
    ]

pub unsubscribe-IsCounted :
    (n : ℕ) (g : ℤ) (client : Text) (b : Broadcaster)
    → IsCounted n b
    → IsCounted n (unsubscribe g client b)
unfolding unsubscribe
unsubscribe-IsCounted n g client b i = elim (Option-cases (remove_subscriber g client b).1) [
  | inl e ↦ rw (e, unsubscribe) i
  | inr (s, e) ↦
      rw (e, unsubscribe)
        (clean_up_empty-IsCounted n g (remove_subscriber g client b).0
          (remove_subscriber-IsCounted n g client b i))
]

remove_failed-IsCounted :
    (n : ℕ) (g : ℤ) (cs : List Text) (b : Broadcaster)
    → IsCounted n b
    → IsCounted n (remove_failed g cs b).0
unfolding remove_failed
remove_failed-IsCounted n g [] b i = i
remove_failed-IsCounted n g (c ∷ cs) b i =
    remove_failed-IsCounted n g cs (remove_subscriber g c b).0
      (remove_subscriber-IsCounted n g c b i)

pub cleanup_failed_connections-IsCounted :
    (n : ℕ) (g : ℤ) (cs ds : List Text) (b : Broadcaster)
    → IsCounted n b
    → IsCounted n (cleanup_failed_connections g cs ds b).0
unfolding cleanup_failed_connections
cleanup_failed_connections-IsCounted n g cs ds b i =
    elim (Bool-cases (is_empty_list cs && is_empty_list ds)) [
      | inl e ↦ rw e i
      | inr e ↦ rw e (
          remove_failed-IsCounted n global_game_id ds _
            (clean_up_empty-IsCounted n g _ (remove_failed-IsCounted n g cs b i)))
    ]
