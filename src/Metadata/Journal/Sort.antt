-- ===== src/Metadata/Journal/Sort.antt =====
-- The sort of the journal: what it keeps, and how it sorts a list whose elements are in two parts.
use cachew.Base.{
  ◌≡◌, refl, ap, ◌∙◌, Bool, true, false, not, List, [], ◌∷◌, ◌++◌, keep, kept, All, All-map,
  Bool-cases, inl, inr, arith,
}
use cachew.Base.Sort.{insert_in, sort, All-sort}

module _ {A : Type 0} (le : A → A → Bool) where
  -- A test that splits a list into those before and those after.
  abbrev pub IsCut : (A → Bool) → Type 0
  IsCut p = (x y : A) → p x ≡ true → p y ≡ false → (le x y ≡ true) × (le y x ≡ false)

  module _ (p : A → Bool) (cut : IsCut p) where
    insert_low :
        (x : A) (ys zs : List A)
        → p x ≡ true
        → All (λ z. p z ≡ false) zs
        → insert_in le x (ys ++ zs) ≡ insert_in le x ys ++ zs
    unfolding insert_in
    insert_low x [] [] h hz = refl
    insert_low x [] (z ∷ zs) h hz = rw (cut x z h hz.0).0 refl
    insert_low x (y ∷ ys) zs h hz =
        let rest = insert_low x ys zs h hz in
        elim (Bool-cases (le x y)) [ inl e ↦ rw e refl | inr e ↦ rw e (ap (λ l. y ∷ l) rest) ]

    insert_high :
        (x : A) (ys zs : List A)
        → p x ≡ false
        → All (λ y. p y ≡ true) ys
        → insert_in le x (ys ++ zs) ≡ ys ++ insert_in le x zs
    unfolding insert_in
    insert_high x [] zs h hy = refl
    insert_high x (y ∷ ys) zs h hy =
        rw (cut y x hy.0 h).1 (ap (λ l. y ∷ l) (insert_high x ys zs h hy.1))

    All-keep-not : (xs : List A) → All (λ x. p x ≡ false) (keep (λ x. not (p x)) xs)
    All-keep-not xs =
        All-map _ _ (λ x h. ground arith) (keep (λ x. not (p x)) xs) (kept (λ x. not (p x)) xs)

    -- The two parts of a cut are sorted apart.
    pub sort-keep :
        (xs : List A) → sort le xs ≡ sort le (keep p xs) ++ sort le (keep (λ x. not (p x)) xs)
    unfolding sort
    sort-keep [] = refl
    sort-keep (x ∷ xs) =
        let low = sort le (keep p xs) in
        let high = sort le (keep (λ x. not (p x)) xs) in
        let all_low = All-sort le (λ x. p x ≡ true) (keep p xs) (kept p xs) in
        let all_high =
          All-sort le (λ x. p x ≡ false) (keep (λ x. not (p x)) xs) (All-keep-not xs) in
        elim (Bool-cases (p x)) [
          | inl e ↦ rw e (ap (insert_in le x) (sort-keep xs) ∙ insert_low x low high e all_high)
          | inr e ↦ rw e (ap (insert_in le x) (sort-keep xs) ∙ insert_high x low high e all_low)
        ]
