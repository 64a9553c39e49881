-- ===== src/Metadata/Journal/Resolve.antt =====
-- The candidates that compact finds in the cache, whatever the orders of the listing and the cache.
use mathlib.Core.List.{Permᴰ}
use mathlib.Core.List.Permᴰ as Perms
use cachew.Base.{
  ℕ, ◌≡◌, refl, sym, ap, subst, Bool, true, Option, none, some, List, [], ◌∷◌, map, Text, keep, All,
  All-map, text_eq, text_eq_iff, text_eq_refl, Bool-cases, inl, inr, arith,
}
use cachew.Base.Assoc.{Assoc, lookup, Fresh, IsMap}
use cachew.Base.Pairs.{All-keep, All-perm}
use cachew.Base.Sort.{sort}
use cachew.Metadata.Journal.{CacheEntry, Cache, replays_before, resolve}
use cachew.Metadata.Journal.Canonical.{sort-perm}

module _ {Op : Type 0} where
  -- A segment as a listing shows it: its key and stamp.
  abbrev pub stamp : Text × CacheEntry Op → Text × ℕ
  stamp x = (x.0, x.1.lm)

  -- The segment of the cache that resolve finds for a key of a listing
  abbrev stamped : Text × ℕ → Option (CacheEntry Op) → Text × CacheEntry Op
  stamped k none = (k.0, record { ops = []; lm = k.1; listed = true; inserted_at = 0 })
  stamped k (some e) = (k.0, record e { lm = k.1; listed = true })

  abbrev found : Cache Op → Text × ℕ → Text × CacheEntry Op
  found cache k = stamped k (lookup k.0 cache)

  abbrev IsIn : Cache Op → Text × ℕ → Type 0
  IsIn cache k = (e : CacheEntry Op) × (lookup k.0 cache ≡ some e)

  resolve_found :
      (cache : Cache Op) (keys : Assoc ℕ)
      → All (IsIn cache) keys
      → resolve cache keys ≡ some (map (found cache) keys)
  unfolding resolve
  resolve_found cache [] h = refl
  resolve_found cache (k ∷ keys) ((e, is_in), h) =
      let rest = resolve_found cache keys h in rw (resolve, is_in, rest) refl

  abbrev Stands : Cache Op → Text × CacheEntry Op → Type 0
  Stands cache x = lookup x.0 cache ≡ some x.1

  abbrev IsListed : Text × CacheEntry Op → Type 0
  IsListed x = x.1.listed ≡ true

  found-stamp :
      (cache : Cache Op) (x : Text × CacheEntry Op)
      → Stands cache x
      → IsListed x
      → found cache (stamp x) ≡ x
  found-stamp cache (k, e) s l = rw s (ap (λ b. (k, record e { listed = b })) (sym l))

  found-stamps :
      (cache : Cache Op) (xs : List (Text × CacheEntry Op))
      → All (Stands cache) xs
      → All IsListed xs
      → map (found cache) (map stamp xs) ≡ xs
  found-stamps cache [] h g = refl
  found-stamps cache (x ∷ xs) (s, h) (l, g) =
      rw (found-stamp cache x s l, found-stamps cache xs h g) refl

  stamps-IsIn :
      (cache : Cache Op) (xs : List (Text × CacheEntry Op))
      → All (Stands cache) xs
      → All (IsIn cache) (map stamp xs)
  stamps-IsIn cache [] h = tt
  stamps-IsIn cache (x ∷ xs) (s, h) = ((x.1, s), stamps-IsIn cache xs h)

  -- In a map every entry is what its key finds.
  Stands-cons :
      (k : Text) (v : CacheEntry Op) (m : Cache Op)
      → Fresh k m
      → (x : Text × CacheEntry Op) → Stands m x
      → Stands ((k, v) ∷ m) x
  unfolding lookup
  Stands-cons k v m fresh x s = elim (Bool-cases (text_eq k x.0)) [
    | inr e ↦ rw e s
    | inl e ↦ absurd (cc (fresh, s, (text_eq_iff k x.0).0 e))
  ]

  IsMap-Stands : (m : Cache Op) → IsMap m → All (Stands m) m
  unfolding lookup
  IsMap-Stands [] h = tt
  IsMap-Stands ((k, v) ∷ m) (fresh, h) = (
    rw (text_eq_refl k) refl,
    All-map (Stands m) _ (Stands-cons k v m fresh) m (IsMap-Stands m h),
  )

  Fresh-keep :
      (p : Text × CacheEntry Op → Bool) (k : Text) (m : Cache Op) → Fresh k m → Fresh k (keep p m)
  unfolding lookup
  Fresh-keep p k [] h = refl
  Fresh-keep p k ((j, v) ∷ m) h = ground (arith, Fresh-keep p k m)

  IsMap-keep : (p : Text × CacheEntry Op → Bool) (m : Cache Op) → IsMap m → IsMap (keep p m)
  IsMap-keep p [] h = tt
  IsMap-keep p ((k, v) ∷ m) (fresh, h) =
      let rest = IsMap-keep p m h in
      elim (Bool-cases (p (k, v))) [
        | inl e ↦ rw e (Fresh-keep p k m fresh, rest)
        | inr e ↦ rw e rest
      ]

  keep_all : (xs : Cache Op) → keep (λ x. true) xs ≡ xs
  keep_all [] = refl
  keep_all (x ∷ xs) = ap (λ l. x ∷ l) (keep_all xs)

  -- If the keys are those of listed segments of the cache under their stamps, in any order, resolve
  -- finds these segments, and they sort alike.
  pub resolve-sorted :
      (p : Text × CacheEntry Op → Bool) (cache : Cache Op) (keys : Assoc ℕ)
      → IsMap cache
      → All IsListed (keep p cache)
      → Permᴰ keys (map stamp (keep p cache))
      → (cs : List (Text × CacheEntry Op)) × (resolve cache keys ≡ some cs)
        × (sort replays_before cs ≡ sort replays_before (keep p cache))
  resolve-sorted p cache keys m listed d =
      let xs = keep p cache in
      let stands = All-keep (Stands cache) p cache (IsMap-Stands cache m) in
      let same = found-stamps cache xs stands listed in
      let perm : Permᴰ xs (map (found cache) keys) =
        subst (λ l. Permᴰ l (map (found cache) keys)) same
          (Perms.map (found cache) (Perms.symm d)) in
      let sorts = sort-perm (λ x. true) perm (IsMap-keep p cache m) in
      (
        map (found cache) keys,
        resolve_found cache keys
            (All-perm (IsIn cache) (Perms.symm d) (stamps-IsIn cache xs stands)),
        sym (rw (keep_all xs, keep_all (map (found cache) keys)) at sorts),
      )
