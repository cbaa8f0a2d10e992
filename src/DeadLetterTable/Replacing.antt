-- ===== src/DeadLetterTable/Replacing.antt =====
-- What replacing and deleting rows leaves of the index and of the ids.
use pod_backend.Common.{
  ℕ, ◌≡◌, refl, sym, ◌∙◌, subst, Bool, true, false, List, [], ◌∷◌, ℤ, eqb_ℤ, eqb_ℤ_iff, int_eq,
  text_eq, keep_if, Bool-cases, inl, inr, arith,
}
use pod_backend.Entity.DeadLetter.{DeadLetterEntry}
use pod_backend.DeadLetterTable.{is_known, conflicts, lacks_id, replace_row}
use pod_backend.DeadLetterTable.Uniqueness.{
  meets, meets-false_sym, conflicts-cons, OneOpen, Lacks, OneEach, Below, Known, WellFormed,
}

module _ (id : ℤ) (new : DeadLetterEntry) where
  pub replace_row-absent : (xs : List DeadLetterEntry) → Lacks id xs → replace_row id new xs ≡ xs
  unfolding replace_row
  replace_row-absent [] l = refl
  replace_row-absent (x ∷ xs) l = ground (arith, replace_row-absent xs l.1)

  keep-absent : (xs : List DeadLetterEntry) → Lacks id xs → keep_if (lacks_id id) xs ≡ xs
  unfolding lacks_id keep_if
  keep-absent [] l = refl
  keep-absent (x ∷ xs) l = ground (arith, keep-absent xs l.1)

  conflicts-replace :
      (e : DeadLetterEntry) (xs : List DeadLetterEntry)
      → meets e new ≡ false
      → conflicts e xs ≡ false
      → conflicts e (replace_row id new xs) ≡ false
  unfolding replace_row
  conflicts-replace e [] m h = h
  conflicts-replace e (x ∷ xs) m h = ground (
    arith,
    conflicts-cons e x xs,
    conflicts-cons e new (replace_row id new xs),
    conflicts-cons e x (replace_row id new xs),
    conflicts-replace e xs m,
  )

  pub OneOpen-replace :
      (xs : List DeadLetterEntry)
      → OneEach xs
      → conflicts new (keep_if (lacks_id id) xs) ≡ false
      → OneOpen xs
      → OneOpen (replace_row id new xs)
  unfolding replace_row keep_if lacks_id
  OneOpen-replace [] u c o = tt
  OneOpen-replace (x ∷ xs) u c o = elim (Bool-cases (eqb_ℤ x.id id)) [
    | inl e ↦
        let l = subst (λ k. Lacks k xs) ((eqb_ℤ_iff x.id id).0 e) u.0 in
        let c' = subst (λ ys. conflicts new ys ≡ false) (keep-absent xs l) (rw e at c) in
        rw (e, replace_row-absent xs l) (c', o.1)
    | inr e ↦
        let c' = sym (conflicts-cons new x (keep_if (lacks_id id) xs)) ∙ (rw e at c) in
        rw e (
          conflicts-replace x xs (meets-false_sym new x (ground arith)) o.0,
          OneOpen-replace xs u.1 (ground arith) o.1,
        )
  ]

  module _ (own : new.id ≡ id) where
    Lacks-replace :
        (k : ℤ) (xs : List DeadLetterEntry) → Lacks k xs → Lacks k (replace_row id new xs)
    unfolding replace_row
    Lacks-replace k [] l = tt
    Lacks-replace k (x ∷ xs) l = (ground (arith, eqb_ℤ_iff x.id id), Lacks-replace k xs l.1)

    pub OneEach-replace : (xs : List DeadLetterEntry) → OneEach xs → OneEach (replace_row id new xs)
    unfolding replace_row
    OneEach-replace [] u = tt
    OneEach-replace (x ∷ xs) u = elim (Bool-cases (eqb_ℤ x.id id)) [
      | inl e ↦
          let same = (eqb_ℤ_iff x.id id).0 e ∙ sym own in
          rw e (
            subst (λ k. Lacks k (replace_row id new xs)) same (Lacks-replace x.id xs u.0),
            OneEach-replace xs u.1,
          )
      | inr e ↦ rw e (Lacks-replace x.id xs u.0, OneEach-replace xs u.1)
    ]

    pub Below-replace :
        (n : ℕ) (xs : List DeadLetterEntry) → Below n xs → Below n (replace_row id new xs)
    unfolding replace_row
    Below-replace n [] b = tt
    Below-replace n (x ∷ xs) b = elim (Bool-cases (eqb_ℤ x.id id)) [
      | inl e ↦
          let ((k, p, l), rest) = b in
          rw e ((k, own ∙ sym ((eqb_ℤ_iff x.id id).0 e) ∙ p, l), Below-replace n xs rest)
      | inr e ↦ rw e (b.0, Below-replace n xs b.1)
    ]

  pub Known-replace :
      (xs : List DeadLetterEntry)
      → is_known new.status ≡ true
      → Known xs
      → Known (replace_row id new xs)
  unfolding replace_row
  Known-replace [] h k = tt
  Known-replace (x ∷ xs) h k = (ground arith, Known-replace xs h k.1)

-- Fewer rows have the same properties.
module _ (p : DeadLetterEntry → Bool) where
  conflicts-keep :
      (e : DeadLetterEntry) (xs : List DeadLetterEntry)
      → conflicts e xs ≡ false
      → conflicts e (keep_if p xs) ≡ false
  unfolding keep_if
  conflicts-keep e [] h = h
  conflicts-keep e (x ∷ xs) h =
      ground (arith, conflicts-cons e x xs, conflicts-cons e x (keep_if p xs), conflicts-keep e xs)

  Lacks-keep : (k : ℤ) (xs : List DeadLetterEntry) → Lacks k xs → Lacks k (keep_if p xs)
  unfolding keep_if
  Lacks-keep k [] l = tt
  Lacks-keep k (x ∷ xs) l = ground (arith, Lacks-keep k xs l.1)

  pub keep-WellFormed :
      (n : ℕ) (xs : List DeadLetterEntry)
      → WellFormed (record { rows = xs; next_id = n })
      → WellFormed (record { rows = keep_if p xs; next_id = n })
  unfolding keep_if
  keep-WellFormed n [] w = w
  keep-WellFormed n (x ∷ xs) w =
      let rest = keep-WellFormed n xs (record {
        one_open = w.one_open.1;
        one_each = w.one_each.1;
        below = w.below.1;
        known = w.known.1;
      }) in
      elim (Bool-cases (p x)) [
        | inr e ↦ rw e rest
        | inl e ↦ rw e (record {
          one_open = (conflicts-keep x xs w.one_open.0, rest.one_open);
          one_each = (Lacks-keep x.id xs w.one_each.0, rest.one_each);
          below = (w.below.0, rest.below);
          known = (w.known.0, rest.known);
        })
      ]
