-- ===== src/Base/Arrays.antt =====
-- Arrays as lists with native indices: reading, writing, and Go's copy.
use Prim.Native.Nat.{ℕ, zero, suc, ◌+◌, ◌≤◌, ◌<◌}
use mathlib.Core.Path.{◌≡◌, refl, ap, ◌∙◌}
use mathlib.Core.Logic.{◌≢◌}
use mathlib.Core.Option.{Option, none, some}
use mathlib.Core.List.{List, [], ◌∷◌, ◌++◌}
use native.Mathlib.Omega.{arith}
use cachew.Base.Lists.{length, take, drop}

module _ {ℓ} {A : Type ℓ} where
  abbrev pub get_elem? : List A → ℕ → Option A
  get_elem? [] _ = none
  get_elem? (x ∷ _) zero = some x
  get_elem? (_ ∷ xs) (suc i) = get_elem? xs i

  -- An assignment out of range, which panics, changes nothing here.
  abbrev pub set : List A → ℕ → A → List A
  set [] _ _ = []
  set (_ ∷ xs) zero v = v ∷ xs
  set (x ∷ xs) (suc i) v = x ∷ set xs i v

  abbrev pub replicate : ℕ → A → List A
  replicate zero v = []
  replicate (suc n) v = v ∷ replicate n v

  pub length-set : (xs : List A) (i : ℕ) (v : A) → length (set xs i v) ≡ length xs
  length-set [] i v = refl
  length-set (x ∷ xs) zero v = refl
  length-set (x ∷ xs) (suc i) v = ap suc (length-set xs i v)

  pub length-replicate : (n : ℕ) (v : A) → length (replicate n v) ≡ n
  length-replicate zero v = refl
  length-replicate (suc n) v = ap suc (length-replicate n v)

  pub get_elem?-set_self :
      (xs : List A) (i : ℕ) (v : A) → i < length xs → get_elem? (set xs i v) i ≡ some v
  get_elem?-set_self [] i v h = absurd (omega arith)
  get_elem?-set_self (x ∷ xs) zero v h = refl
  get_elem?-set_self (x ∷ xs) (suc i) v h = get_elem?-set_self xs i v (omega arith)

  pub get_elem?-set_ne :
      (xs : List A) (i j : ℕ) (v : A) → i ≢ j → get_elem? (set xs i v) j ≡ get_elem? xs j
  get_elem?-set_ne [] i j v h = refl
  get_elem?-set_ne (x ∷ xs) zero zero v h = absurd (h refl)
  get_elem?-set_ne (x ∷ xs) zero (suc j) v h = refl
  get_elem?-set_ne (x ∷ xs) (suc i) zero v h = refl
  get_elem?-set_ne (x ∷ xs) (suc i) (suc j) v h = get_elem?-set_ne xs i j v (λ e. h (ap suc e))

  pub get_elem?-replicate : (n i : ℕ) (v : A) → i < n → get_elem? (replicate n v) i ≡ some v
  get_elem?-replicate zero i v h = absurd (omega arith)
  get_elem?-replicate (suc n) zero v h = refl
  get_elem?-replicate (suc n) (suc i) v h = get_elem?-replicate n i v (omega arith)

  -- copy(dst[off:], src)
  abbrev pub copy_at : List A → ℕ → List A → List A
  copy_at [] off src = []
  copy_at (x ∷ dst) zero [] = x ∷ dst
  copy_at (x ∷ dst) zero (y ∷ src) = y ∷ copy_at dst zero src
  copy_at (x ∷ dst) (suc off) src = x ∷ copy_at dst off src

  pub length-copy_at :
      (dst : List A) (off : ℕ) (src : List A) → length (copy_at dst off src) ≡ length dst
  length-copy_at [] off src = refl
  length-copy_at (x ∷ dst) zero [] = refl
  length-copy_at (x ∷ dst) zero (y ∷ src) = ap suc (length-copy_at dst zero src)
  length-copy_at (x ∷ dst) (suc off) src = ap suc (length-copy_at dst off src)

  -- Inside the copied part, and outside it.
  pub get_elem?-copy_in :
      (dst : List A) (off : ℕ) (src : List A) (i : ℕ)
      → i < length src
      → off + i < length dst
      → get_elem? (copy_at dst off src) (off + i) ≡ get_elem? src i
  get_elem?-copy_in [] off src i h k = absurd (omega arith)
  get_elem?-copy_in (x ∷ dst) zero [] i h k = absurd (omega arith)
  get_elem?-copy_in (x ∷ dst) zero (y ∷ src) zero h k = refl
  get_elem?-copy_in (x ∷ dst) zero (y ∷ src) (suc i) h k =
      let shift : zero + suc i ≡ suc (zero + i) = omega arith in
      rw shift (get_elem?-copy_in dst zero src i (omega arith) (omega arith))
  get_elem?-copy_in (x ∷ dst) (suc off) src i h k =
      let shift : suc off + i ≡ suc (off + i) = omega arith in
      rw shift (get_elem?-copy_in dst off src i h (omega arith))

  pub get_elem?-copy_before :
      (dst : List A) (off : ℕ) (src : List A) (i : ℕ)
      → i < off
      → get_elem? (copy_at dst off src) i ≡ get_elem? dst i
  get_elem?-copy_before [] off src i h = refl
  get_elem?-copy_before (x ∷ dst) zero src i h = absurd (omega arith)
  get_elem?-copy_before (x ∷ dst) (suc off) src zero h = refl
  get_elem?-copy_before (x ∷ dst) (suc off) src (suc i) h =
      get_elem?-copy_before dst off src i (omega arith)

  pub get_elem?-copy_after :
      (dst : List A) (off : ℕ) (src : List A) (i : ℕ)
      → off + length src ≤ i
      → get_elem? (copy_at dst off src) i ≡ get_elem? dst i
  get_elem?-copy_after [] off src i h = refl
  get_elem?-copy_after (x ∷ dst) zero [] i h = refl
  get_elem?-copy_after (x ∷ dst) zero (y ∷ src) zero h = absurd (omega arith)
  get_elem?-copy_after (x ∷ dst) zero (y ∷ src) (suc i) h =
      get_elem?-copy_after dst zero src i (omega arith)
  get_elem?-copy_after (x ∷ dst) (suc off) src zero h = absurd (omega arith)
  get_elem?-copy_after (x ∷ dst) (suc off) src (suc i) h =
      get_elem?-copy_after dst off src i (omega arith)

  pub get_elem?-take :
      (n : ℕ) (xs : List A) (i : ℕ) → i < n → get_elem? (take n xs) i ≡ get_elem? xs i
  get_elem?-take zero xs i h = absurd (omega arith)
  get_elem?-take (suc n) [] i h = refl
  get_elem?-take (suc n) (x ∷ xs) zero h = refl
  get_elem?-take (suc n) (x ∷ xs) (suc i) h = get_elem?-take n xs i (omega arith)

  pub drop-get_elem? :
      (n : ℕ) (xs : List A) (v : A) → get_elem? xs n ≡ some v → drop n xs ≡ v ∷ drop (suc n) xs
  drop-get_elem? n [] v e = cc
  drop-get_elem? zero (x ∷ xs) v e = cc
  drop-get_elem? (suc n) (x ∷ xs) v e = drop-get_elem? n xs v e

-- The first `n` values of a function from `start` on.
abbrev pub values {ℓ} : {A : Type ℓ} → (ℕ → A) → ℕ → ℕ → List A
values f start zero = []
values f start (suc n) = f start ∷ values f (suc start) n

module _ {ℓ} {A : Type ℓ} (f : ℕ → A) where
  pub values-append :
      (start n m : ℕ) → values f start (n + m) ≡ values f start n ++ values f (start + n) m
  values-append start zero m =
      let none_first : zero + m ≡ m = omega arith in
      let same : start + 0 ≡ start = omega arith in rw (none_first, same) refl
  values-append start (suc n) m =
      let one_first : suc n + m ≡ suc (n + m) = omega arith in
      let same : start + suc n ≡ suc start + n = omega arith in
      rw (one_first, same) (ap (λ l. f start ∷ l) (values-append (suc start) n m))

  pub take-drop :
      (n off start : ℕ) (xs : List A)
      → ((i : ℕ) → i < n → get_elem? xs (off + i) ≡ some (f (start + i)))
      → take n (drop off xs) ≡ values f start n
  take-drop zero off start xs h = refl
  take-drop (suc n) off start xs h =
      let at_off : off + 0 ≡ off = omega arith in
      let at_start : start + 0 ≡ start = omega arith in
      let first : get_elem? xs off ≡ some (f start) =
        rw (at_off, at_start) at (h 0 (omega arith)) in
      let later : (i : ℕ) → i < n → get_elem? xs (suc off + i) ≡ some (f (suc start + i)) = λ i k.
        let a : off + suc i ≡ suc off + i = omega arith in
        let b : start + suc i ≡ suc start + i = omega arith in
        rw (a, b) at (h (suc i) (omega arith)) in
      rw (drop-get_elem? off xs (f start) first)
        (ap (λ l. f start ∷ l) (take-drop n (suc off) (suc start) xs later))

pub get_elem?-values {ℓ} :
    {A : Type ℓ} (f : ℕ → A) (start n i : ℕ)
    → i < length (values f start n)
    → get_elem? (values f start n) i ≡ some (f (start + i))
get_elem?-values f start zero i h = absurd (omega (arith, h))
get_elem?-values f start (suc n) zero h =
    let same : start ≡ start + 0 = omega arith in ap (λ k. some (f k)) same
get_elem?-values f start (suc n) (suc i) h =
    let same : suc start + i ≡ start + suc i = omega arith in
    get_elem?-values f (suc start) n i (omega (arith, h)) ∙ ap (λ k. some (f k)) same
