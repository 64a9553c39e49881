-- ===== src/Cache/Tiered/Readers.antt =====
-- The readers that Open of the tiered cache opens and closes, counted for each tier.
use cachew.Base.{ℕ, ◌+◌, ◌≡◌, ◌==◌, Option, none, some, List, [], ◌∷◌, ◌++◌, if◌then◌else◌, arith}
use cachew.Cache.Tiered.{Action, opens, discards, invalidates, Fallback, discard_held}

-- One if a tier is the tier `j`
abbrev pub one_at : Option ℕ → ℕ → ℕ
one_at none j = 0
one_at (some i) j = if i == j then 1 else 0

-- The readers that a log opens on the tier `j`, and those of that tier that it closes.
abbrev pub opens_at : ℕ → List Action → ℕ
opens_at j [] = 0
opens_at j (opens i ∷ log) = one_at (some i) j + opens_at j log
opens_at j (discards i ∷ log) = opens_at j log
opens_at j (invalidates i ∷ log) = opens_at j log

abbrev pub discards_at : ℕ → List Action → ℕ
discards_at j [] = 0
discards_at j (opens i ∷ log) = discards_at j log
discards_at j (discards i ∷ log) = one_at (some i) j + discards_at j log
discards_at j (invalidates i ∷ log) = discards_at j log

-- The tier of the reader that is held
abbrev pub held_tier : Option Fallback → Option ℕ
held_tier none = none
held_tier (some held) = some held.tier

module _ (j : ℕ) where
  opens_at-append : (xs ys : List Action) → opens_at j (xs ++ ys) ≡ opens_at j xs + opens_at j ys
  opens_at-append [] ys = omega arith
  opens_at-append (opens i ∷ xs) ys = omega (arith, opens_at-append xs ys)
  opens_at-append (discards i ∷ xs) ys = opens_at-append xs ys
  opens_at-append (invalidates i ∷ xs) ys = opens_at-append xs ys

  discards_at-append :
      (xs ys : List Action) → discards_at j (xs ++ ys) ≡ discards_at j xs + discards_at j ys
  discards_at-append [] ys = omega arith
  discards_at-append (opens i ∷ xs) ys = discards_at-append xs ys
  discards_at-append (discards i ∷ xs) ys = omega (arith, discards_at-append xs ys)
  discards_at-append (invalidates i ∷ xs) ys = discards_at-append xs ys

  -- Actions change the readers that are open by those that they open and close.
  pub more_counts :
      (log more : List Action) (before after : ℕ)
      → opens_at j log ≡ discards_at j log + before
      → before + opens_at j more ≡ discards_at j more + after
      → opens_at j (log ++ more) ≡ discards_at j (log ++ more) + after
  more_counts log more before after h k =
      omega (arith, opens_at-append log more, discards_at-append log more, h, k)

  pub held_counts :
      (log : List Action) (held : Option Fallback) (m : ℕ)
      → opens_at j log ≡ discards_at j log + (one_at (held_tier held) j + m)
      → opens_at j (log ++ discard_held held) ≡ discards_at j (log ++ discard_held held) + m
  unfolding discard_held
  held_counts log none m h = more_counts log [] m m (omega (arith, h)) (omega arith)
  held_counts log (some held) m h =
      more_counts log (discards held.tier ∷ []) (one_at (some held.tier) j + m) m h (omega arith)
