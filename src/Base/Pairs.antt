-- ===== src/Base/Pairs.antt =====
-- Relations between any two elements of a list, and what permutations and tests keep of them.
use mathlib.Core.Path.{◌≡◌, refl, subst}
use mathlib.Core.Logic.{inl, inr}
use mathlib.Core.Bool.{Bool, true, false, not}
use mathlib.Core.List.{List, [], ◌∷◌, ◌++◌, Permᴰ}
use mathlib.Core.List.Permᴰ as Perms
use cachew.Base.Tests.{Bool-cases}
use cachew.Base.Lists.{All, keep, All-map}
use cachew.Base.Sort.{insert_in, sort}

abbrev pub Pairs : {A : Type 0} → (A → A → Type 0) → List A → Type 0
Pairs R [] = Unit
Pairs R (x ∷ xs) = All (R x) xs × Pairs R xs

module _ {A : Type 0} where
  pub All-keep : (P : A → Type 0) (p : A → Bool) (xs : List A) → All P xs → All P (keep p xs)
  All-keep P p [] h = tt
  All-keep P p (x ∷ xs) (h, hs) =
      let rest = All-keep P p xs hs in
      elim (Bool-cases (p x)) [ inl e ↦ rw e (h, rest) | inr e ↦ rw e rest ]

  pub Pairs-keep :
      (R : A → A → Type 0) (p : A → Bool) (xs : List A) → Pairs R xs → Pairs R (keep p xs)
  Pairs-keep R p [] h = tt
  Pairs-keep R p (x ∷ xs) (h, hs) =
      let rest = Pairs-keep R p xs hs in
      elim (Bool-cases (p x)) [ inl e ↦ rw e (All-keep (R x) p xs h, rest) | inr e ↦ rw e rest ]

  pub All-perm : (P : A → Type 0) {xs ys : List A} → Permᴰ xs ys → All P xs → All P ys
  All-perm P Permᴰ.nil h = h
  All-perm P (Permᴰ.cons e d) (h, hs) = (subst P e h, All-perm P d hs)
  All-perm P (Permᴰ.swap e f) (h, (g, hs)) = (subst P f g, (subst P e h, hs))
  All-perm P (Permᴰ.trans d d') h = All-perm P d' (All-perm P d h)

  pub Pairs-perm :
      (R : A → A → Type 0)
      → ((x y : A) → R x y → R y x)
      → {xs ys : List A} → Permᴰ xs ys
      → Pairs R xs
      → Pairs R ys
  Pairs-perm R swap Permᴰ.nil h = h
  Pairs-perm R swap (Permᴰ.cons {l₂ = ys} e d) (h, hs) =
      (subst (λ z. All (R z) ys) e (All-perm (R _) d h), Pairs-perm R swap d hs)
  Pairs-perm R swap (Permᴰ.swap {a = a} {b = b} {b' = b'} {l = l} e f) ((h, ha), (hb, hs)) = (
    (subst (λ z. R z b') f (subst (R b) e (swap a b h)), subst (λ z. All (R z) l) f hb),
    (subst (λ z. All (R z) l) e ha, hs),
  )
  Pairs-perm R swap (Permᴰ.trans d d') h = Pairs-perm R swap d' (Pairs-perm R swap d h)

  All-suffix : (P : A → Type 0) (xs ys : List A) → All P (xs ++ ys) → All P ys
  All-suffix P [] ys h = h
  All-suffix P (x ∷ xs) ys (_, h) = All-suffix P xs ys h

  pub All-prefix : (P : A → Type 0) (xs ys : List A) → All P (xs ++ ys) → All P xs
  All-prefix P [] ys h = tt
  All-prefix P (x ∷ xs) ys (p, h) = (p, All-prefix P xs ys h)

  -- Of a list in two parts, the elements of the first are related to those of the second.
  pub Pairs-across :
      (R : A → A → Type 0) (xs ys : List A) → Pairs R (xs ++ ys) → All (λ x. All (R x) ys) xs
  Pairs-across R [] ys h = tt
  Pairs-across R (x ∷ xs) ys (a, h) = (All-suffix (R x) xs ys a, Pairs-across R xs ys h)

  pub Pairs-prefix : (R : A → A → Type 0) (xs ys : List A) → Pairs R (xs ++ ys) → Pairs R xs
  Pairs-prefix R [] ys h = tt
  Pairs-prefix R (x ∷ xs) ys (a, h) = (All-prefix (R x) xs ys a, Pairs-prefix R xs ys h)

  module _ (le : A → A → Bool) where
    insert_in-perm : (x : A) (ys : List A) → Permᴰ (insert_in le x ys) (x ∷ ys)
    unfolding insert_in
    insert_in-perm x [] = Perms.refl _
    insert_in-perm x (y ∷ ys) = elim (Bool-cases (le x y)) [
      | inl e ↦ rw e (Perms.refl _)
      | inr e ↦ rw e (Permᴰ.trans (Permᴰ.cons refl (insert_in-perm x ys)) (Permᴰ.swap refl refl))
    ]

    -- The insertion sort sorts.
    pub sort-perm : (xs : List A) → Permᴰ (sort le xs) xs
    unfolding sort
    sort-perm [] = Permᴰ.nil
    sort-perm (x ∷ xs) =
        Permᴰ.trans (insert_in-perm x (sort le xs)) (Permᴰ.cons refl (sort-perm xs))

    abbrev pub InOrder : A → A → Type 0
    InOrder x y = le x y ≡ true

    module _ (trans : (x y z : A) → InOrder x y → InOrder y z → InOrder x z)
        (total : (x y : A) → le x y ≡ false → InOrder y x) where
      insert_in-Pairs : (x : A) (ys : List A) → Pairs InOrder ys → Pairs InOrder (insert_in le x ys)
      unfolding insert_in
      insert_in-Pairs x [] h = (tt, tt)
      insert_in-Pairs x (y ∷ ys) (h, hs) = elim (Bool-cases (le x y)) [
        | inl e ↦ rw e ((e, All-map (InOrder y) (InOrder x) (λ z q. trans x y z e q) ys h), (h, hs))
        | inr e ↦ rw e (
          All-perm (InOrder y) (Perms.symm (insert_in-perm x ys)) (total x y e, h),
          insert_in-Pairs x ys hs,
        )
      ]

      pub sort-Pairs : (xs : List A) → Pairs InOrder (sort le xs)
      unfolding sort
      sort-Pairs [] = tt
      sort-Pairs (x ∷ xs) = insert_in-Pairs x (sort le xs) (sort-Pairs xs)

module _ {A : Type 0} (R : A → A → Type 0) (swap : (x y : A) → R x y → R y x) (p : A → Bool) where
  All-cons_in :
      (x : A) (xs ys : List A)
      → All (R x) ys
      → All (λ y. All (R y) xs) ys
      → All (λ y. All (R y) (x ∷ xs)) ys
  All-cons_in x xs [] h hs = tt
  All-cons_in x xs (y ∷ ys) (h, h') (g, g') = ((swap x y h, g), All-cons_in x xs ys h' g')

  -- What a test keeps is related to what it drops.
  pub keep_across :
      (xs : List A) → Pairs R xs → All (λ y. All (R y) (keep p xs)) (keep (λ x. not (p x)) xs)
  keep_across [] h = tt
  keep_across (x ∷ xs) (h, hs) =
      let rest = keep_across xs hs in
      elim (Bool-cases (p x)) [
        | inl e ↦ rw e (All-cons_in x (keep p xs) _ (All-keep (R x) (λ z. not (p z)) xs h) rest)
        | inr e ↦ rw e (All-keep (R x) p xs h, rest)
      ]

pub Pairs-map :
    {A : Type 0} (R S : A → A → Type 0)
    → ((x y : A) → R x y → S x y)
    → (xs : List A) → Pairs R xs
    → Pairs S xs
Pairs-map R S f [] h = tt
Pairs-map R S f (x ∷ xs) (h, hs) = (All-map (R x) (S x) (f x) xs h, Pairs-map R S f xs hs)
