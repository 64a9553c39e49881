-- ===== src/Cache/Memory/Evict/Gather.antt =====
-- What `gather` lists: every stored entry, once, with its size.
use cachew.Base.{
  ℕ, ◌+◌, ◌≡◌, refl, ap, false, some, List, [], ◌∷◌, ◌++◌, All, All-append, Text, length,
  Bool-cases, inl, inr, arith, text_eq, text_eq_iff, text_eq_refl,
}
use cachew.Base.Assoc.{Assoc, Fresh, IsMap, lookup}
use cachew.Cache.Memory.{Entry, Entries, Store, find}
use cachew.Cache.Memory.Evict.{Info, info, gather_in, gather, sort_by_expiry}
use cachew.Cache.Memory.Evict.Sort.{Pairs, sum_sizes, sort-All, sort-Pairs}
use cachew.Cache.Memory.Evict.Accounting.{
  total_in, total, AreMaps, IsSound, IsPresent, Differ, Differ-swap,
}

gather_in-sum : (n : Text) (m : Assoc Entry) → sum_sizes (gather_in n m) ≡ total_in m
unfolding gather_in
gather_in-sum n [] = refl
gather_in-sum n ((k, e) ∷ m) = ap (λ (t : ℕ). length e.bytes + t) (gather_in-sum n m)

pub sum-append : (xs ys : List Info) → sum_sizes (xs ++ ys) ≡ sum_sizes xs + sum_sizes ys
sum-append [] ys = omega arith
sum-append (x ∷ xs) ys = omega (arith, sum-append xs ys)

pub gather-sum : (entries : Entries) → sum_sizes (gather entries) ≡ total entries
unfolding gather
gather-sum [] = refl
gather-sum ((n, m) ∷ rest) =
    omega (arith, sum-append (gather_in n m) (gather rest), gather_in-sum n m, gather-sum rest)

-- The infos of one map name its entries.
abbrev IsPresentIn : Text → Assoc Entry → Info → Type 0
IsPresentIn n m i =
    (i.namespace ≡ n) × ((e : Entry) × (lookup i.key m ≡ some e) × (length e.bytes ≡ i.size))

All-map : {P Q : Info → Type 0} → ((x : Info) → P x → Q x) → (xs : List Info) → All P xs → All Q xs
All-map f [] h = tt
All-map f (x ∷ xs) (p, h) = (f x p, All-map f xs h)

weaken_in :
    (n k : Text) (w : Entry) (m : Assoc Entry)
    → Fresh k m
    → (x : Info) → IsPresentIn n m x
    → IsPresentIn n ((k, w) ∷ m) x
unfolding lookup
weaken_in n k w m fresh x (same, (e, found, size)) =
    (same, (e, ground (arith, text_eq_iff k x.key, found), size))

gather_in-All : (n : Text) (m : Assoc Entry) → IsMap m → All (IsPresentIn n m) (gather_in n m)
unfolding gather_in lookup
gather_in-All n [] h = tt
gather_in-All n ((k, e) ∷ m) (fresh, h) = (
  (refl, (e, rw (text_eq_refl k) refl, refl)),
  All-map (weaken_in n k e m fresh) (gather_in n m) (gather_in-All n m h),
)

Differ-in :
    (n k : Text) (w : Entry) (m : Assoc Entry)
    → Fresh k m
    → (x : Info) → IsPresentIn n m x
    → Differ (info n k w) x
Differ-in n k w m fresh x (same, (e, found, size)) = ground (arith, text_eq_iff k x.key)

gather_in-Pairs : (n : Text) (m : Assoc Entry) → IsMap m → Pairs Differ (gather_in n m)
unfolding gather_in
gather_in-Pairs n [] h = tt
gather_in-Pairs n ((k, e) ∷ m) (fresh, h) =
    (All-map (Differ-in n k e m fresh) (gather_in n m) (gather_in-All n m h), gather_in-Pairs n m h)

IsPresent-head :
    (n : Text) (m : Assoc Entry) (rest : Entries) (x : Info)
    → IsPresentIn n m x
    → IsPresent ((n, m) ∷ rest) x
unfolding find lookup
IsPresent-head n m rest x (same, (e, found, size)) = (e, ground (arith, text_eq_refl n), size)

-- An entry of a later namespace has another name than `n`.
other_namespace :
    (n : Text) (rest : Entries) (x : Info)
    → Fresh n rest
    → IsPresent rest x
    → text_eq n x.namespace ≡ false
unfolding find
other_namespace n rest x fresh (e, found, size) = elim (Bool-cases (text_eq n x.namespace)) [
  | inl same ↦ ground (arith, text_eq_iff n x.namespace)
  | inr other ↦ other
]

IsPresent-tail :
    (n : Text) (m : Assoc Entry) (rest : Entries)
    → Fresh n rest
    → (x : Info) → IsPresent rest x
    → IsPresent ((n, m) ∷ rest) x
unfolding find lookup
IsPresent-tail n m rest fresh x (e, found, size) =
    (e, rw (other_namespace n rest x fresh (e, found, size)) found, size)

pub gather-All : (entries : Entries) → AreMaps entries → All (IsPresent entries) (gather entries)
unfolding gather
gather-All [] h = tt
gather-All ((n, m) ∷ rest) ((fresh, hr), (hm, ha)) =
    All-append _ (gather_in n m) (gather rest)
      (All-map (IsPresent-head n m rest) (gather_in n m) (gather_in-All n m hm))
      (All-map (IsPresent-tail n m rest fresh) (gather rest) (gather-All rest (hr, ha)))

Pairs-append :
    (xs ys : List Info)
    → Pairs Differ xs
    → Pairs Differ ys
    → All (λ x. All (Differ x) ys) xs
    → Pairs Differ (xs ++ ys)
Pairs-append [] ys hx hy h = hy
Pairs-append (x ∷ xs) ys (a, hx) hy (d, h) = (All-append _ xs ys a d, Pairs-append xs ys hx hy h)

Differ-across :
    (n : Text) (m : Assoc Entry) (rest : Entries)
    → Fresh n rest
    → (x : Info) → IsPresentIn n m x
    → (y : Info) → IsPresent rest y
    → Differ x y
Differ-across n m rest fresh x (same, h) y p = ground (arith, other_namespace n rest y fresh p)

pub gather-Pairs : (entries : Entries) → AreMaps entries → Pairs Differ (gather entries)
unfolding gather
gather-Pairs [] h = tt
gather-Pairs ((n, m) ∷ rest) ((fresh, hr), (hm, ha)) =
    Pairs-append (gather_in n m) (gather rest) (gather_in-Pairs n m hm) (gather-Pairs rest (hr, ha))
      (All-map
        (λ x h. All-map (Differ-across n m rest fresh x h) (gather rest) (gather-All rest (hr, ha)))
        (gather_in n m) (gather_in-All n m hm))

-- The entries as evictOldest goes through them.
pub sorted-IsPresent :
    (st : Store) → IsSound st → All (IsPresent st.entries) (sort_by_expiry (gather st.entries))
sorted-IsPresent st h =
    sort-All (IsPresent st.entries) (gather st.entries) (gather-All st.entries h.maps)

pub sorted-Differ : (st : Store) → IsSound st → Pairs Differ (sort_by_expiry (gather st.entries))
sorted-Differ st h = sort-Pairs Differ-swap (gather st.entries) (gather-Pairs st.entries h.maps)
