-- ===== src/Base/Sort.antt =====
-- slices.SortFunc, as the insertion sort that the lists of the code are small enough for.
use mathlib.Core.Logic.{inl, inr}
use mathlib.Core.Bool.{Bool}
use mathlib.Core.List.{List, [], ◌∷◌}
use cachew.Base.Tests.{if◌then◌else◌, Bool-cases}
use cachew.Base.Lists.{All}

unfoldable pub insert_in : {A : Type 0} → (A → A → Bool) → A → List A → List A
insert_in le x [] = x ∷ []
insert_in le x (y ∷ ys) = if le x y then x ∷ y ∷ ys else y ∷ insert_in le x ys

unfoldable pub sort : {A : Type 0} → (A → A → Bool) → List A → List A
unfolding insert_in
sort le [] = []
sort le (x ∷ xs) = insert_in le x (sort le xs)

module _ {A : Type 0} (le : A → A → Bool) where
  All-insert_in :
      (P : A → Type 0) (x : A) (ys : List A) → P x → All P ys → All P (insert_in le x ys)
  unfolding insert_in
  All-insert_in P x [] hx h = (hx, tt)
  All-insert_in P x (y ∷ ys) hx h =
      let rest = All-insert_in P x ys hx h.1 in
      elim (Bool-cases (le x y)) [ inl e ↦ rw e (hx, h) | inr e ↦ rw e (h.0, rest) ]

  pub All-sort : (P : A → Type 0) (xs : List A) → All P xs → All P (sort le xs)
  unfolding sort
  All-sort P [] h = tt
  All-sort P (x ∷ xs) h = All-insert_in P x (sort le xs) h.0 (All-sort P xs h.1)
