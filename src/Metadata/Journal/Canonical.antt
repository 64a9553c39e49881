-- ===== src/Metadata/Journal/Canonical.antt =====
-- The canonical order of replay: the state does not depend on the order in which a map is iterated.
use mathlib.Core.List.{Permᴰ}
use cachew.Base.{
  ◌≡◌, refl, sym, ap, ◌∙◌, ◌⊎◌, Bool, true, false, not, List, [], ◌∷◌, Text, keep, text_eq,
  text_eq_iff, Bool-cases, inl, inr, arith,
}
use cachew.Base.Assoc.{lookup, Fresh, IsMap}
use cachew.Base.Sort.{insert_in, sort}
use cachew.Metadata.Journal.{
  CacheEntry, Cache, Rollup, text_le, replays_before, folded, apply_entries, replay,
}
use cachew.Metadata.Journal.Order.{text_le_total, text_le_trans}

text_eq_comm : (s t : Text) → text_eq s t ≡ false → text_eq t s ≡ false
text_eq_comm s t h = ground (arith, text_eq_iff s t, text_eq_iff t s)

text_le_antisym : (s t : Text) → text_le s t ≡ true → text_le t s ≡ true → text_eq s t ≡ true
unfolding text_le text_eq
text_le_antisym [] [] h g = refl
text_le_antisym [] (y ∷ t) h g = ground arith
text_le_antisym (x ∷ s) [] h g = ground arith
text_le_antisym (x ∷ s) (y ∷ t) h g = grind (arith, text_le_antisym s t)

module _ {Op : Type 0} where
  before_trans :
      (x y z : Text × CacheEntry Op)
      → replays_before x y ≡ true
      → replays_before y z ≡ true
      → replays_before x z ≡ true
  unfolding replays_before
  before_trans x y z h g = grind (arith, text_le_trans x.0 y.0 z.0)

  -- Of two segments with different keys exactly one is first.
  before_one :
      (x y : Text × CacheEntry Op)
      → text_eq x.0 y.0 ≡ false
      → ((replays_before x y ≡ true) × (replays_before y x ≡ false))
        ⊎ ((replays_before x y ≡ false) × (replays_before y x ≡ true))
  unfolding replays_before
  before_one x y h =
      grind (arith, text_le_total x.0 y.0, text_le_total y.0 x.0, text_le_antisym x.0 y.0)

module _ {A : Type 0} (le : A → A → Bool)
    (trans : (x y z : A) → le x y ≡ true → le y z ≡ true → le x z ≡ true) where
  insert_in-ordered :
      (x y : A) (zs : List A)
      → le x y ≡ true
      → le y x ≡ false
      → insert_in le x (insert_in le y zs) ≡ insert_in le y (insert_in le x zs)
  unfolding insert_in
  insert_in-ordered x y [] h g = ground arith
  insert_in-ordered x y (z ∷ zs) h g = ground (arith, insert_in-ordered x y zs h g, trans x y z)

module _ {Op : Type 0} where
  insert_in_comm :
      (x y : Text × CacheEntry Op) (zs : List (Text × CacheEntry Op))
      → text_eq x.0 y.0 ≡ false
      → insert_in replays_before x (insert_in replays_before y zs)
        ≡ insert_in replays_before y (insert_in replays_before x zs)
  insert_in_comm x y zs h = elim (before_one x y h) [
    | inl (p, q) ↦ insert_in-ordered replays_before before_trans x y zs p q
    | inr (p, q) ↦ sym (insert_in-ordered replays_before before_trans y x zs q p)
  ]

  Fresh-cons :
      (k : Text) (a : Text × CacheEntry Op) (m : Cache Op)
      → Fresh k (a ∷ m)
      → (text_eq a.0 k ≡ false) × Fresh k m
  unfolding lookup
  Fresh-cons k a m h = ground arith

  Fresh-cons_of :
      (k : Text) (a : Text × CacheEntry Op) (m : Cache Op)
      → text_eq a.0 k ≡ false
      → Fresh k m
      → Fresh k (a ∷ m)
  unfolding lookup
  Fresh-cons_of k a m h g = ground arith

  Fresh-perm : (k : Text) {xs ys : Cache Op} → Permᴰ xs ys → Fresh k xs → Fresh k ys
  Fresh-perm k Permᴰ.nil h = h
  Fresh-perm k (Permᴰ.cons {a = a} {b = b} {l₁ = xs} {l₂ = ys} e d) h =
      let (p, q) = Fresh-cons k a xs h in Fresh-cons_of k b ys (rw (← e) p) (Fresh-perm k d q)
  Fresh-perm k (Permᴰ.swap {a = a} {b = b} {a' = a'} {b' = b'} {l = l} e f) h =
      let (p, q) = Fresh-cons k a (b ∷ l) h in
      let (p', q') = Fresh-cons k b l q in
      Fresh-cons_of k a' (b' ∷ l) (rw (← f) p') (Fresh-cons_of k b' l (rw (← e) p) q')
  Fresh-perm k (Permᴰ.trans d d') h = Fresh-perm k d' (Fresh-perm k d h)

  IsMap-perm : {xs ys : Cache Op} → Permᴰ xs ys → IsMap xs → IsMap ys
  IsMap-perm Permᴰ.nil h = h
  IsMap-perm (Permᴰ.cons e d) (p, q) = (rw (← e) (Fresh-perm _ d p), IsMap-perm d q)
  IsMap-perm (Permᴰ.swap {a = a} {b = b} {l = l} e f) (p, (q, h)) =
      let (s, t) = Fresh-cons a.0 b l p in
      rw (← e, ← f) (Fresh-cons_of b.0 a l (text_eq_comm b.0 a.0 s) q, (t, h))
  IsMap-perm (Permᴰ.trans d d') h = IsMap-perm d' (IsMap-perm d h)

  pub sort-perm :
      (p : Text × CacheEntry Op → Bool) {xs ys : Cache Op}
      → Permᴰ xs ys
      → IsMap xs
      → sort replays_before (keep p xs) ≡ sort replays_before (keep p ys)
  unfolding sort
  sort-perm p Permᴰ.nil h = refl
  sort-perm p (Permᴰ.cons {a = a} {b = b} {l₁ = xs} {l₂ = ys} e d) (fresh, h) =
      let rest = sort-perm p d h in
      elim (Bool-cases (p a)) [
        | inl q ↦ rw (← e, q) (ap (insert_in replays_before a) rest)
        | inr q ↦ rw (← e, q) rest
      ]
  sort-perm p (Permᴰ.swap {a = a} {b = b} {l = l} e f) (fresh, h) =
      let differ = (Fresh-cons a.0 b l fresh).0 in
      let comm =
        insert_in_comm a b (sort replays_before (keep p l)) (text_eq_comm b.0 a.0 differ) in
      elim (Bool-cases (p a)) [
        | inl q ↦ elim (Bool-cases (p b)) [
          | inl r ↦ rw (← e, ← f, q, r) comm
          | inr r ↦ rw (← e, ← f, q, r) refl
        ]
        | inr q ↦ rw (← e, ← f, q) refl
      ]
  sort-perm p (Permᴰ.trans d d') h = sort-perm p d h ∙ sort-perm p d' (IsMap-perm d h)

-- Replay of a cache whose keys differ gives one state, in whatever order the map is iterated.
pub replay-perm :
    {S Op : Type 0} (apply : S → Op → S) (r : Rollup S) (xs ys : Cache Op)
    → Permᴰ xs ys
    → IsMap xs
    → replay apply r xs ≡ replay apply r ys
unfolding replay
replay-perm apply r xs ys d h =
    ap (apply_entries apply r.state) (sort-perm (λ x. not (folded r.mark x)) d h)
