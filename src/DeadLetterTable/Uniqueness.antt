-- ===== src/DeadLetterTable/Uniqueness.antt =====
-- A transaction has at most one open row, whatever the repository does with the table.
use pod_backend.Common.{
  ℕ, suc, ◌≤◌, ◌<◌, ◌≡◌, refl, Bool, true, false, ◌&&◌, ◌||◌, List, [], ◌∷◌, ◌++◌, Text, ℤ, pos,
  eqb_ℤ, int_eq, text_eq, count_if, arith,
}
use pod_backend.Entity.DeadLetter.{DeadLetterEntry}
use pod_backend.DeadLetterTable.{Table, is_open, is_known, is_open_for, find_row, conflicts}

-- Two rows that the index cannot hold together.
pub meets : DeadLetterEntry → DeadLetterEntry → Bool
meets a b = is_open a.status && is_open_for a.transaction_hash a.transaction_lt b

pub meets-false_sym : (a b : DeadLetterEntry) → meets a b ≡ false → meets b a ≡ false
unfolding meets
meets-false_sym a b h = ground arith

pub conflicts-cons :
    (e x : DeadLetterEntry) (xs : List DeadLetterEntry)
    → conflicts e (x ∷ xs) ≡ (meets e x || conflicts e xs)
unfolding conflicts meets find_row
conflicts-cons e x xs = ground arith

pub conflicts-nil : (e : DeadLetterEntry) → conflicts e [] ≡ false
unfolding conflicts find_row
conflicts-nil e = ground arith

-- No two rows meet in the index.
abbrev pub OneOpen : List DeadLetterEntry → Type 0
OneOpen [] = Unit
OneOpen (e ∷ es) = (conflicts e es ≡ false) × OneOpen es

-- No row of these has the id.
abbrev pub Lacks : ℤ → List DeadLetterEntry → Type 0
Lacks id [] = Unit
Lacks id (e ∷ es) = (eqb_ℤ e.id id ≡ false) × Lacks id es

abbrev pub OneEach : List DeadLetterEntry → Type 0
OneEach [] = Unit
OneEach (e ∷ es) = Lacks e.id es × OneEach es

-- The ids are below the next one of the sequence.
abbrev pub Below : ℕ → List DeadLetterEntry → Type 0
Below n [] = Unit
Below n (e ∷ es) = ((k : ℕ) × (e.id ≡ pos k) × (k < n)) × Below n es

abbrev pub Known : List DeadLetterEntry → Type 0
Known [] = Unit
Known (e ∷ es) = (is_known e.status ≡ true) × Known es

pub record WellFormed (t : Table) : Type 0 where
  pub one_open : OneOpen t.rows
  pub one_each : OneEach t.rows
  pub below : Below t.next_id t.rows
  pub known : Known t.rows

conflicts-append :
    (e r : DeadLetterEntry) (xs : List DeadLetterEntry)
    → conflicts e (xs ++ r ∷ []) ≡ (conflicts e xs || meets e r)
conflicts-append e r [] = ground (arith, conflicts-cons e r [], conflicts-nil e)
conflicts-append e r (x ∷ xs) =
    ground
      (arith, conflicts-cons e x (xs ++ r ∷ []), conflicts-cons e x xs, conflicts-append e r xs)

pub OneOpen-append :
    (r : DeadLetterEntry) (xs : List DeadLetterEntry)
    → conflicts r xs ≡ false
    → OneOpen xs
    → OneOpen (xs ++ r ∷ [])
OneOpen-append r [] h o = (conflicts-nil r, tt)
OneOpen-append r (x ∷ xs) h o = (
  ground (arith, conflicts-append x r xs, conflicts-cons r x xs, meets-false_sym r x),
  OneOpen-append r xs (ground (arith, conflicts-cons r x xs)) o.1,
)

Lacks-append :
    (id : ℤ) (r : DeadLetterEntry) (xs : List DeadLetterEntry)
    → eqb_ℤ r.id id ≡ false
    → Lacks id xs
    → Lacks id (xs ++ r ∷ [])
Lacks-append id r [] h l = (h, tt)
Lacks-append id r (x ∷ xs) h l = (l.0, Lacks-append id r xs h l.1)

pub OneEach-append :
    (n : ℕ) (r : DeadLetterEntry) (xs : List DeadLetterEntry)
    → r.id ≡ pos n
    → Below n xs
    → OneEach xs
    → OneEach (xs ++ r ∷ [])
OneEach-append n r [] e b o = (tt, tt)
OneEach-append n r (x ∷ xs) e b o =
    let ((k, p, l), rest) = b in
    (Lacks-append x.id r xs (rw (e, p) (ground arith)) o.0, OneEach-append n r xs e rest o.1)

pub Below-append :
    (n : ℕ) (r : DeadLetterEntry) (xs : List DeadLetterEntry)
    → r.id ≡ pos n
    → Below n xs
    → Below (suc n) (xs ++ r ∷ [])
Below-append n r [] e b = ((n, e, omega arith), tt)
Below-append n r (x ∷ xs) e b =
    let ((k, p, l), rest) = b in ((k, p, omega arith), Below-append n r xs e rest)

pub Below-later : (n : ℕ) (xs : List DeadLetterEntry) → Below n xs → Below (suc n) xs
Below-later n [] b = tt
Below-later n (x ∷ xs) b = let ((k, p, l), rest) = b in ((k, p, omega arith), Below-later n xs rest)

pub Known-append :
    (r : DeadLetterEntry) (xs : List DeadLetterEntry)
    → is_known r.status ≡ true
    → Known xs
    → Known (xs ++ r ∷ [])
Known-append r [] h k = (h, tt)
Known-append r (x ∷ xs) h k = (k.0, Known-append r xs h k.1)

count-none :
    (hash lt : Text) (e : DeadLetterEntry) (xs : List DeadLetterEntry)
    → is_open_for hash lt e ≡ true
    → conflicts e xs ≡ false
    → count_if (is_open_for hash lt) xs ≡ 0
unfolding count_if meets
count-none hash lt e [] h c = refl
count-none hash lt e (x ∷ xs) h c = ground (arith, conflicts-cons e x xs, count-none hash lt e xs)

pub count-le-one :
    (hash lt : Text) (xs : List DeadLetterEntry)
    → OneOpen xs
    → count_if (is_open_for hash lt) xs ≤ 1
unfolding count_if
count-le-one hash lt [] o = omega arith
count-le-one hash lt (x ∷ xs) o =
    ground (arith, count-none hash lt x xs, count-le-one hash lt xs o.1)
