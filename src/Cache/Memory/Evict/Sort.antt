-- ===== src/Cache/Memory/Evict/Sort.antt =====
-- The exchange sort of evictOldest sorts, and keeps the entries.
use cachew.Base.{
  ℕ, zero, suc, ◌+◌, ◌≤◌, ◌≡◌, refl, ap, Bool, true, false, List, [], ◌∷◌, All, length, ltb,
  if◌then◌else◌, arith,
}
use cachew.Cache.Memory.Evict.{Info, exchange, sort_rounds, sort_by_expiry}

if_keeps : (P : Info → Type 0) (b : Bool) (x y : Info) → P x → P y → P (if b then x else y)
if_keeps P true x y px py = px
if_keeps P false x y px py = py

-- A predicate of every entry, and a sum over all, are as before the sort.
module _ (P : Info → Type 0) where
  exchange-All :
      (x : Info) (ys : List Info) → P x → All P ys → P (exchange x ys).0 × All P (exchange x ys).1
  unfolding exchange
  exchange-All x [] px h = (px, tt)
  exchange-All x (y ∷ ys) px (py, h) =
      let b = ltb y.expires_at x.expires_at in
      let (p, r) = exchange-All (if b then y else x) ys (if_keeps P b y x py px) h in
      (p, (if_keeps P b x y px py, r))

  sort_rounds-All : (n : ℕ) (xs : List Info) → All P xs → All P (sort_rounds n xs)
  unfolding sort_rounds
  sort_rounds-All zero [] h = tt
  sort_rounds-All zero (x ∷ xs) h = h
  sort_rounds-All (suc n) [] h = tt
  sort_rounds-All (suc n) (x ∷ xs) (px, h) =
      let (p, r) = exchange-All x xs px h in (p, sort_rounds-All n (exchange x xs).1 r)

  pub sort-All : (xs : List Info) → All P xs → All P (sort_by_expiry xs)
  unfolding sort_by_expiry
  sort-All xs = sort_rounds-All (length xs) xs

abbrev pub sum_sizes : List Info → ℕ
sum_sizes [] = 0
sum_sizes (x ∷ xs) = x.size + sum_sizes xs

exchange-sum :
    (x : Info) (ys : List Info)
    → (exchange x ys).0.size + sum_sizes (exchange x ys).1 ≡ x.size + sum_sizes ys
unfolding exchange
exchange-sum x [] = refl
exchange-sum x (y ∷ ys) =
    ground (arith, exchange-sum (if ltb y.expires_at x.expires_at then y else x) ys)

sort_rounds-sum : (n : ℕ) (xs : List Info) → sum_sizes (sort_rounds n xs) ≡ sum_sizes xs
unfolding sort_rounds
sort_rounds-sum zero [] = refl
sort_rounds-sum zero (x ∷ xs) = refl
sort_rounds-sum (suc n) [] = refl
sort_rounds-sum (suc n) (x ∷ xs) =
    omega (arith, exchange-sum x xs, sort_rounds-sum n (exchange x xs).1)

pub sort-sum : (xs : List Info) → sum_sizes (sort_by_expiry xs) ≡ sum_sizes xs
unfolding sort_by_expiry
sort-sum xs = sort_rounds-sum (length xs) xs

-- A symmetric relation between any two entries of a list.
abbrev pub Pairs : (Info → Info → Type 0) → List Info → Type 0
Pairs R [] = Unit
Pairs R (x ∷ xs) = All (R x) xs × Pairs R xs

module _ {R : Info → Info → Type 0} (swap : (x y : Info) → R x y → R y x) where
  split_pair :
      (b : Bool) (x y : Info) (ys : List Info)
      → R x y
      → All (R x) ys
      → All (R y) ys
      → R (if b then x else y) (if b then y else x)
        × All (R (if b then y else x)) ys
        × All (R (if b then x else y)) ys
  split_pair true x y ys xy h k = (xy, k, h)
  split_pair false x y ys xy h k = (swap x y xy, h, k)

  exchange-Pairs :
      (x : Info) (ys : List Info)
      → All (R x) ys
      → Pairs R ys
      → All (R (exchange x ys).0) (exchange x ys).1 × Pairs R (exchange x ys).1
  unfolding exchange
  exchange-Pairs x [] h k = (tt, tt)
  exchange-Pairs x (y ∷ ys) (xy, h) (yh, k) =
      let b = ltb y.expires_at x.expires_at in
      let first = if b then y else x in
      let other = if b then x else y in
      let (apart, hf, ho) = split_pair b x y ys xy h yh in
      let (p, r) = exchange-Pairs first ys hf k in
      let (q, s) = exchange-All (R other) first ys apart ho in ((swap other _ q, p), (s, r))

  sort_rounds-Pairs : (n : ℕ) (xs : List Info) → Pairs R xs → Pairs R (sort_rounds n xs)
  unfolding sort_rounds
  sort_rounds-Pairs zero [] h = tt
  sort_rounds-Pairs zero (x ∷ xs) h = h
  sort_rounds-Pairs (suc n) [] h = tt
  sort_rounds-Pairs (suc n) (x ∷ xs) (h, k) =
      let (p, r) = exchange-Pairs x xs h k in
      (
        sort_rounds-All (R (exchange x xs).0) n (exchange x xs).1 p,
        sort_rounds-Pairs n (exchange x xs).1 r,
      )

  pub sort-Pairs : (xs : List Info) → Pairs R xs → Pairs R (sort_by_expiry xs)
  unfolding sort_by_expiry
  sort-Pairs xs = sort_rounds-Pairs (length xs) xs

-- No entry expires before one that stands in front of it.
abbrev pub Before : Info → Info → Type 0
Before x y = x.expires_at ≤ y.expires_at

exchange-first :
    (x : Info) (ys : List Info)
    → (Before (exchange x ys).0 x) × All (Before (exchange x ys).0) (exchange x ys).1
unfolding exchange
exchange-first x [] = (omega arith, tt)
exchange-first x (y ∷ ys) =
    let (p, r) = exchange-first (if ltb y.expires_at x.expires_at then y else x) ys in
    (ground arith, (ground arith, r))

exchange-length : (x : Info) (ys : List Info) → length (exchange x ys).1 ≡ length ys
unfolding exchange
exchange-length x [] = refl
exchange-length x (y ∷ ys) =
    ap suc (exchange-length (if ltb y.expires_at x.expires_at then y else x) ys)

sort_rounds-sorted : (n : ℕ) (xs : List Info) → length xs ≤ n → Pairs Before (sort_rounds n xs)
unfolding sort_rounds
sort_rounds-sorted zero [] h = tt
sort_rounds-sorted zero (x ∷ xs) h = absurd (omega arith)
sort_rounds-sorted (suc n) [] h = tt
sort_rounds-sorted (suc n) (x ∷ xs) h = (
  sort_rounds-All (Before (exchange x xs).0) n (exchange x xs).1 (exchange-first x xs).1,
  sort_rounds-sorted n (exchange x xs).1 (omega (arith, exchange-length x xs)),
)

pub sort-sorted : (xs : List Info) → Pairs Before (sort_by_expiry xs)
unfolding sort_by_expiry
sort-sorted xs = sort_rounds-sorted (length xs) xs (omega arith)
