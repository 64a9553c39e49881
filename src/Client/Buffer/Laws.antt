-- ===== src/Client/Buffer/Laws.antt =====
-- The written offsets: extendLocked adds a range to them, and the frontier is the first that is missing.
use cachew.Base.{
  ℕ, ◌≤◌, ◌<◌, max, ◌≡◌, refl, ap, ◌∙◌, Bool, true, false, ◌&&◌, ◌||◌, List, [], ◌∷◌, ◌++◌, ltb,
  leb, ◌==◌, Bool-cases, inl, inr, arith,
}
use cachew.Base.Sort.{insert_in, sort}
use cachew.Client.Buffer.{
  is_none_pending, WriteInterval, Coverage, starts_before, merge, merge_all, advance, extend_locked,
}

-- Whether an offset lies in a range, in one of several, or has been written.
abbrev pub within : WriteInterval → ℕ → Bool
within iv x = leb iv.start x && ltb x iv.end

abbrev pub any : List WriteInterval → ℕ → Bool
any [] x = false
any (iv ∷ ivs) x = within iv x || any ivs x

abbrev pub covered : Coverage → ℕ → Bool
covered c x = ltb x c.frontier || any c.pending x

any-append : (xs ys : List WriteInterval) (x : ℕ) → any (xs ++ ys) x ≡ (any xs x || any ys x)
any-append [] ys x = refl
any-append (iv ∷ xs) ys x = ground (arith, any-append xs ys x)

any-insert_in :
    (iv : WriteInterval) (ys : List WriteInterval) (x : ℕ)
    → any (insert_in starts_before iv ys) x ≡ (within iv x || any ys x)
unfolding insert_in
any-insert_in iv [] x = refl
any-insert_in iv (y ∷ ys) x = ground (arith, any-insert_in iv ys x)

any-sort : (xs : List WriteInterval) (x : ℕ) → any (sort starts_before xs) x ≡ any xs x
unfolding sort
any-sort [] x = refl
any-sort (iv ∷ xs) x =
    any-insert_in iv (sort starts_before xs) x ∙ ap (λ b. within iv x || b) (any-sort xs x)

-- Ranges by ascending start, all from an offset on.
abbrev From : ℕ → List WriteInterval → Type 0
From a [] = Unit
From a (iv ∷ ivs) = (a ≤ iv.start) × From iv.start ivs

insert_in-From :
    (a : ℕ) (iv : WriteInterval) (ys : List WriteInterval)
    → a ≤ iv.start
    → From a ys
    → From a (insert_in starts_before iv ys)
unfolding insert_in
insert_in-From a iv [] h k = (h, tt)
insert_in-From a iv (y ∷ ys) h (k, ks) =
    let rest = insert_in-From y.start iv ys in
    elim (Bool-cases (leb iv.start y.start)) [
      | inl e ↦ let later : iv.start ≤ y.start = ground arith in rw e (h, (later, ks))
      | inr e ↦ let later : y.start ≤ iv.start = ground arith in rw e (k, rest later ks)
    ]

sort-From : (xs : List WriteInterval) → From 0 (sort starts_before xs)
unfolding sort
sort-From [] = tt
sort-From (iv ∷ xs) = insert_in-From 0 iv (sort starts_before xs) (omega arith) (sort-From xs)

From-weaken : (a b : ℕ) (ivs : List WriteInterval) → a ≤ b → From b ivs → From a ivs
From-weaken a b [] h k = tt
From-weaken a b (iv ∷ ivs) h (k, ks) = (omega (arith, h, k), ks)

unfoldable pub join : WriteInterval → WriteInterval → WriteInterval
join last iv = record last { end = max last.end iv.end }

within-join :
    (last iv : WriteInterval) (x : ℕ)
    → last.start ≤ iv.start
    → leb iv.start last.end ≡ true
    → within (join last iv) x ≡ (within last x || within iv x)
unfolding join
within-join last iv x h e = ground arith

any-merge :
    (last : WriteInterval) (ivs : List WriteInterval) (x : ℕ)
    → From last.start ivs
    → any (merge last ivs) x ≡ (within last x || any ivs x)
unfolding merge join
any-merge last [] x h = refl
any-merge last (iv ∷ ivs) x (h, hs) =
    let joined = any-merge (join last iv) ivs x (From-weaken last.start iv.start ivs h hs) in
    let apart = any-merge iv ivs x hs in
    elim (Bool-cases (leb iv.start last.end)) [
      | inl e ↦ let same = within-join last iv x h e in rw e (ground (arith, joined, same))
      | inr e ↦ rw e (ap (λ b. within last x || b) apart)
    ]

any-merge_all : (ivs : List WriteInterval) (x : ℕ) → From 0 ivs → any (merge_all ivs) x ≡ any ivs x
unfolding merge_all
any-merge_all [] x h = refl
any-merge_all (iv ∷ ivs) x h = any-merge iv ivs x h.1

covered-advance :
    (frontier : ℕ) (ivs : List WriteInterval) (x : ℕ)
    → covered (advance frontier ivs) x ≡ (ltb x frontier || any ivs x)
unfolding advance
covered-advance frontier [] x = refl
covered-advance frontier (iv ∷ ivs) x = ground (arith, covered-advance (max frontier iv.end) ivs x)

-- Ranges that do not touch one another, nor the offsets before `a`.
abbrev pub Apart : ℕ → List WriteInterval → Type 0
Apart a [] = Unit
Apart a (iv ∷ ivs) = (a < iv.start) × Apart iv.end ivs

abbrev Chain : List WriteInterval → Type 0
Chain [] = Unit
Chain (iv ∷ ivs) = Apart iv.end ivs

Apart-Chain : (a : ℕ) (ivs : List WriteInterval) → Apart a ivs → Chain ivs
Apart-Chain a [] h = tt
Apart-Chain a (iv ∷ ivs) h = h.1

merge-Apart :
    (a : ℕ) (last : WriteInterval) (ivs : List WriteInterval)
    → a < last.start
    → Apart a (merge last ivs)
unfolding merge join
merge-Apart a last [] h = (h, tt)
merge-Apart a last (iv ∷ ivs) h =
    let joined = merge-Apart a (join last iv) ivs h in
    let apart = merge-Apart last.end iv ivs in
    elim (Bool-cases (leb iv.start last.end)) [
      | inl e ↦ rw e joined
      | inr e ↦ let gap : last.end < iv.start = ground arith in rw e (h, apart gap)
    ]

merge-Chain : (last : WriteInterval) (ivs : List WriteInterval) → Chain (merge last ivs)
unfolding merge join
merge-Chain last [] = tt
merge-Chain last (iv ∷ ivs) =
    let joined = merge-Chain (join last iv) ivs in
    let apart = merge-Apart last.end iv ivs in
    elim (Bool-cases (leb iv.start last.end)) [
      | inl e ↦ rw e joined
      | inr e ↦ let gap : last.end < iv.start = ground arith in rw e (apart gap)
    ]

merge_all-Chain : (ivs : List WriteInterval) → Chain (merge_all ivs)
unfolding merge_all
merge_all-Chain [] = tt
merge_all-Chain (iv ∷ ivs) = merge-Chain iv ivs

abbrev pub IsApart : Coverage → Type 0
IsApart c = Apart c.frontier c.pending

advance-IsApart :
    (frontier : ℕ) (ivs : List WriteInterval) → Chain ivs → IsApart (advance frontier ivs)
unfolding advance
advance-IsApart frontier [] h = tt
advance-IsApart frontier (iv ∷ ivs) h =
    let rest = advance-IsApart (max frontier iv.end) ivs (Apart-Chain iv.end ivs h) in
    elim (Bool-cases (leb iv.start frontier)) [
      | inl e ↦ rw e rest
      | inr e ↦ let gap : frontier < iv.start = ground arith in rw e (gap, h)
    ]

covered-slow :
    (c : Coverage) (start end x : ℕ)
    → covered
        (advance c.frontier
          (merge_all (sort starts_before (c.pending ++ record { start = start; end = end } ∷ []))))
        x
      ≡ (covered c x || (leb start x && ltb x end))
covered-slow c start end x =
    let iv : WriteInterval = record { start = start; end = end } in
    let sorted = sort starts_before (c.pending ++ iv ∷ []) in
    ground (
      arith,
      covered-advance c.frontier (merge_all sorted) x,
      any-merge_all sorted x (sort-From (c.pending ++ iv ∷ [])),
      any-sort (c.pending ++ iv ∷ []) x,
      any-append c.pending (iv ∷ []) x,
    )

none_pending : (ivs : List WriteInterval) → is_none_pending ivs ≡ true → ivs ≡ []
none_pending [] h = refl
none_pending (iv ∷ ivs) h = ground arith

-- extendLocked adds the offsets of the range to those that are written, and no others; after it every
-- pending range starts past the frontier and past the end of the range before it.
pub extend_locked_lem :
    (c : Coverage) (start end : ℕ)
    → start ≤ end
    → ((x : ℕ)
        → covered (extend_locked c start end) x ≡ (covered c x || (leb start x && ltb x end)))
      × IsApart (extend_locked c start end)
unfolding extend_locked
extend_locked_lem c start end h =
    elim (Bool-cases ((start == c.frontier) && is_none_pending c.pending)) [
      | inl e ↦
          let empty_ : c.pending ≡ [] = none_pending c.pending (ground arith) in
          let same : start ≡ c.frontier = ground arith in rw (e, empty_) ((λ x. ground arith), tt)
      | inr e ↦ rw e (
        (λ x. covered-slow c start end x),
        advance-IsApart c.frontier _ (
            merge_all-Chain
              (sort starts_before (c.pending ++ record { start = start; end = end } ∷ []))),
      )
    ]

frontier-advance :
    (frontier : ℕ) (ivs : List WriteInterval) → frontier ≤ (advance frontier ivs).frontier
unfolding advance
frontier-advance frontier [] = omega arith
frontier-advance frontier (iv ∷ ivs) = ground (arith, frontier-advance (max frontier iv.end) ivs)

pub frontier-extend_locked :
    (c : Coverage) (start end : ℕ) → start ≤ end → c.frontier ≤ (extend_locked c start end).frontier
unfolding extend_locked
frontier-extend_locked c start end h = ground (
  arith,
  frontier-advance c.frontier
      (merge_all (sort starts_before (c.pending ++ record { start = start; end = end } ∷ []))),
)
