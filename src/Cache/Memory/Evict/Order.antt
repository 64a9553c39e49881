-- ===== src/Cache/Memory/Evict/Order.antt =====
-- What evictOldest removes.
use cachew.Base.{
  ℕ, ◌+◌, ◌≡◌, refl, ap, Bool, false, ◌&&◌, ◌||◌, ◌⊎◌, none, List, [], ◌∷◌, ◌++◌, All, Text,
  if◌then◌else◌, Bool-cases, inl, inr, arith, text_eq,
}
use cachew.Base.Int.{ℤ, pos, leb_ℤ, ◌≤ℤ◌}
use cachew.Cache.Memory.{Store, find}
use cachew.Cache.Memory.Evict.{Info, gather, sort_by_expiry, evict_one, evict_loop, evict_oldest}
use cachew.Cache.Memory.Evict.Sort.{Pairs, Before, sum_sizes, sort-sorted, sort-sum}
use cachew.Cache.Memory.Evict.Accounting.{
  IsSound, IsPresent, Differ, total, evict_one-IsSound, evict_one-All, find-evict, total-remove,
}
use cachew.Cache.Memory.Evict.Gather.{gather-sum, sum-append, sorted-IsPresent, sorted-Differ}

-- Whether an entry is among those of a list.
abbrev pub names_entry : List Info → Text → Text → Bool
names_entry [] n k = false
names_entry (x ∷ xs) n k = text_eq x.namespace n && text_eq x.key k || names_entry xs n k

-- The infos that the loop goes through, and those that it leaves.
victims : List Info → ℤ → ℕ → List Info
victims [] needed freed = []
victims (e ∷ es) needed freed =
    let rest = victims es needed (freed + e.size) in
    if leb_ℤ needed (pos freed) then [] else e ∷ rest

survivors : List Info → ℤ → ℕ → List Info
survivors [] needed freed = []
survivors (e ∷ es) needed freed =
    let rest = survivors es needed (freed + e.size) in
    if leb_ℤ needed (pos freed) then e ∷ es else rest

victims-append :
    (es : List Info) (needed : ℤ) (freed : ℕ)
    → victims es needed freed ++ survivors es needed freed ≡ es
unfolding victims survivors
victims-append [] needed freed = refl
victims-append (e ∷ es) needed freed = ground (arith, victims-append es needed (freed + e.size))

-- `evictOldest` removes a prefix of the entries in the order of their expiry: no more than it has to,
-- and enough unless nothing is left.
pub record Evicts (needed : ℤ) (st st' : Store) : Type 0 where
  pub gone : List Info
  pub kept : List Info
  pub order : gone ++ kept ≡ sort_by_expiry (gather st.entries)
  pub oldest : All (λ g. All (Before g) kept) gone
  pub left :
      (n k : Text)
      → find st'.entries n k ≡ (if names_entry gone n k then none else find st.entries n k)
  pub sound : IsSound st'
  pub freed : total st'.entries + sum_sizes gone ≡ total st.entries
  pub enough : (needed ≤ℤ pos (sum_sizes gone)) ⊎ (total st'.entries ≡ 0)
  pub minimal :
      (front : List Info) (x : Info) (back : List Info)
      → gone ≡ front ++ x ∷ back
      → leb_ℤ needed (pos (sum_sizes front)) ≡ false

module _ (needed : ℤ) where
  loop-IsSound :
      (es : List Info) (freed : ℕ) (st : Store)
      → All (IsPresent st.entries) es
      → Pairs Differ es
      → IsSound st
      → IsSound (evict_loop es needed freed st)
        × (total (evict_loop es needed freed st).entries + sum_sizes (victims es needed freed)
            ≡ total st.entries)
  unfolding evict_loop victims
  loop-IsSound [] freed st p d h = (h, omega arith)
  loop-IsSound (e ∷ es) freed st (p, ps) (d, ds) h = elim (Bool-cases (leb_ℤ needed (pos freed))) [
    | inl done ↦ rw done (h, omega arith)
    | inr more ↦
        let st' = evict_one e st in
        let (s, t) =
          loop-IsSound es (freed + e.size) st' (evict_one-All e es st d ps) ds
            (evict_one-IsSound e st p h) in
        rw more (
          s,
          unfold evict_one in
              omega (arith, t, total-remove e.namespace e.key st.entries p.0 h.maps p.1, p.2),
        )
  ]

  loop-find :
      (es : List Info) (freed : ℕ) (st : Store) (n k : Text)
      → find (evict_loop es needed freed st).entries n k
        ≡ (if names_entry (victims es needed freed) n k then none else find st.entries n k)
  unfolding evict_loop victims evict_one
  loop-find [] freed st n k = refl
  loop-find (e ∷ es) freed st n k = ground (
    arith,
    loop-find es (freed + e.size) (evict_one e st) n k,
    find-evict e.namespace e.key n k st.entries,
  )

  loop-enough :
      (es : List Info) (freed : ℕ)
      → (needed ≤ℤ pos (freed + sum_sizes (victims es needed freed)))
        ⊎ (survivors es needed freed ≡ [])
  unfolding victims survivors
  loop-enough [] freed = inr refl
  loop-enough (e ∷ es) freed = ground (arith, loop-enough es (freed + e.size))

  loop-minimal :
      (es : List Info) (freed : ℕ) (front : List Info) (x : Info) (back : List Info)
      → victims es needed freed ≡ front ++ x ∷ back
      → leb_ℤ needed (pos (freed + sum_sizes front)) ≡ false
  unfolding victims
  loop-minimal [] freed [] x back h = cc
  loop-minimal [] freed (y ∷ front) x back h = cc
  loop-minimal (e ∷ es) freed [] x back h = ground arith
  loop-minimal (e ∷ es) freed (y ∷ front) x back h =
      ground (arith, loop-minimal es (freed + e.size) front x back)

Pairs-prefix : (xs ys : List Info) → Pairs Before (xs ++ ys) → All (λ x. All (Before x) ys) xs
Pairs-prefix [] ys h = tt
Pairs-prefix (x ∷ xs) ys (a, h) = (suffix xs a, Pairs-prefix xs ys h)
  where
    suffix : (zs : List Info) → All (Before x) (zs ++ ys) → All (Before x) ys
    suffix [] b = b
    suffix (z ∷ zs) (_, b) = suffix zs b

-- From a store whose counter is right, evictOldest removes the entries that expire first, in the
-- order of their expiry; it stops as soon as what it has freed is enough, and goes on to the last
-- entry otherwise; every other entry is as before, and the counter is still right.
pub evict_oldest-Evicts :
    (needed : ℤ) (st : Store) → IsSound st → Evicts needed st (evict_oldest needed st)
unfolding evict_oldest
evict_oldest-Evicts needed st h = record {
  gone = victims sorted needed 0;
  kept = survivors sorted needed 0;
  order = split;
  oldest = Pairs-prefix _ _ (rw split (sort-sorted (gather st.entries)));
  left = loop-find needed sorted 0 st;
  sound = both.0;
  freed = both.1;
  enough = elim (loop-enough needed sorted 0) [
    | inl p ↦ inl (omega (arith, p))
    | inr e ↦ inr (
        omega (
          arith,
          both.1,
          ap sum_sizes split,
          ap sum_sizes e,
          sum-append (victims sorted needed 0) (survivors sorted needed 0),
          sort-sum (gather st.entries),
          gather-sum st.entries,
        ))
  ];
  minimal = λ front x back e. ground (arith, loop-minimal needed sorted 0 front x back e);
}
  where
    sorted : List Info
    sorted = sort_by_expiry (gather st.entries)

    split : victims sorted needed 0 ++ survivors sorted needed 0 ≡ sorted
    split = victims-append sorted needed 0

    both :
        IsSound (evict_loop sorted needed 0 st)
        × (total (evict_loop sorted needed 0 st).entries + sum_sizes (victims sorted needed 0)
            ≡ total st.entries)
    both = loop-IsSound needed sorted 0 st (sorted-IsPresent st h) (sorted-Differ st h) h
