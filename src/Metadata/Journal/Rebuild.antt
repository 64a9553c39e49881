-- ===== src/Metadata/Journal/Rebuild.antt =====
-- Rebuild of the state: its unlocked replay, with the late entries after it, is a replay of the cache
-- that it leaves.
use cachew.Base.{
  ◌≡◌, ◌⊎◌, refl, sym, ap, ◌∙◌, Bool, true, false, not, List, [], ◌∷◌, ◌++◌, Text, keep, All,
  All-map, is_some, text_eq_iff, Bool-cases, inl, inr, arith,
}
use cachew.Base.Assoc.{lookup, insert, Fresh, lookup-insert}
use cachew.Base.Sort.{insert_in, sort, All-sort}
use cachew.Metadata.Journal.{
  CacheEntry, Cache, Rollup, Listing, text_le, replays_before, folded, apply_entries, replay,
  evict_folded, copy, late_entries, rebuild,
}
use mathlib.Core.List.{append-nil}
use cachew.Metadata.Journal.Compaction.{apply_entries-append}

module _ {A : Type 0} where
  keep-append : (p : A → Bool) (xs ys : List A) → keep p (xs ++ ys) ≡ keep p xs ++ keep p ys
  keep-append p [] ys = refl
  keep-append p (x ∷ xs) ys = ground (arith, keep-append p xs ys)

  keep_all : (p : A → Bool) (xs : List A) → All (λ x. p x ≡ true) xs → keep p xs ≡ xs
  keep_all p [] h = refl
  keep_all p (x ∷ xs) h = rw (h.0, keep_all p xs h.1) refl

  keep_none : (p : A → Bool) (xs : List A) → All (λ x. p x ≡ false) xs → keep p xs ≡ []
  keep_none p [] h = refl
  keep_none p (x ∷ xs) h = rw (h.0, keep_none p xs h.1) refl

  insert_in_after :
      (le : A → A → Bool) (x : A) (ys zs : List A)
      → All (λ y. le x y ≡ false) ys
      → insert_in le x (ys ++ zs) ≡ ys ++ insert_in le x zs
  unfolding insert_in
  insert_in_after le x [] zs h = refl
  insert_in_after le x (y ∷ ys) zs h = rw h.0 (ap (λ l. y ∷ l) (insert_in_after le x ys zs h.1))

  sort_after :
      (le : A → A → Bool) (late xs : List A)
      → All (λ x. All (λ y. le x y ≡ false) xs) late
      → sort le (late ++ xs) ≡ sort le xs ++ sort le late
  unfolding sort
  sort_after le [] xs h = sym (append-nil (sort le xs))
  sort_after le (x ∷ late) xs h =
      ap (insert_in le x) (sort_after le late xs h.1)
      ∙ insert_in_after le x (sort le xs) (sort le late) (All-sort le _ xs h.0)

  insert_in_agree :
      (le le' : A → A → Bool) (x : A) (ys : List A)
      → All (λ y. le x y ≡ le' x y) ys
      → insert_in le x ys ≡ insert_in le' x ys
  unfolding insert_in
  insert_in_agree le le' x [] h = refl
  insert_in_agree le le' x (y ∷ ys) h = rw (h.0, insert_in_agree le le' x ys h.1) refl

  sort_agree :
      (le le' : A → A → Bool) (P : A → Type 0)
      → ((x y : A) → P x → P y → le x y ≡ le' x y)
      → (xs : List A) → All P xs
      → sort le xs ≡ sort le' xs
  unfolding sort
  sort_agree le le' P same [] h = refl
  sort_agree le le' P same (x ∷ xs) h =
      insert_in_agree le le' x (sort le xs)
        (All-map P _ (λ y p. same x y h.0 p) _ (All-sort le P xs h.1))
      ∙ ap (insert_in le' x) (sort_agree le le' P same xs h.1)

module _ {Op : Type 0} where
  insert-append :
      (k : Text) (e : CacheEntry Op) (late xs : Cache Op)
      → Fresh k late
      → insert k e (late ++ xs) ≡ late ++ insert k e xs
  unfolding insert lookup
  insert-append k e [] xs h = refl
  insert-append k e (x ∷ late) xs h = ground (arith, insert-append k e late xs)

  copy-append :
      (late xs staged : Cache Op)
      → All (λ s. Fresh s.0 late) staged
      → copy (late ++ xs) staged ≡ late ++ copy xs staged
  unfolding copy
  copy-append late xs [] h = refl
  copy-append late xs ((k, e) ∷ staged) h =
      ap (λ m. copy m staged) (insert-append k e late xs h.0)
      ∙ copy-append late (insert k e xs) staged h.1

  copy_keeps :
      (xs staged : Cache Op) (k : Text)
      → is_some (lookup k xs) ≡ true
      → is_some (lookup k (copy xs staged)) ≡ true
  unfolding copy
  copy_keeps xs [] k h = h
  copy_keeps xs ((j, e) ∷ staged) k h =
      copy_keeps (insert j e xs) staged k (ground (arith, lookup-insert j k e xs))

  present : (xs : Cache Op) → All (λ x. is_some (lookup x.0 xs) ≡ true) xs
  unfolding lookup
  present [] = tt
  present (x ∷ xs) =
      (ground (arith, text_eq_iff x.0 x.0), All-map _ _ (λ y h. ground arith) xs (present xs))

-- An entry that comes in while the replay runs: no listing has shown it, its key is new, and it is
-- above the keys of the other entries that no listing has shown.
pub record IsLate {Op : Type 0} (input : Cache Op) (x : Text × CacheEntry Op) : Type 0 where
  pub unlisted : x.1.listed ≡ false
  pub new_key : Fresh x.0 input
  pub above : All (λ y. (y.1.listed ≡ true) ⊎ (text_le x.0 y.0 ≡ false)) input

module _ {Op : Type 0} where
  All-kept :
      (p : Text × CacheEntry Op → Bool) (P : Text × CacheEntry Op → Type 0) (xs : Cache Op)
      → All P xs
      → All P (keep p xs)
  All-kept p P [] h = tt
  All-kept p P (x ∷ xs) h =
      let rest = All-kept p P xs h.1 in
      elim (Bool-cases (p x)) [ inl e ↦ rw e (h.0, rest) | inr e ↦ rw e rest ]

  before_late :
      (x y : Text × CacheEntry Op)
      → x.1.listed ≡ false
      → (y.1.listed ≡ true) ⊎ (text_le x.0 y.0 ≡ false)
      → replays_before x y ≡ false
  unfolding replays_before
  before_late x y h k = ground arith

  by_key :
      (x y : Text × CacheEntry Op)
      → x.1.listed ≡ false
      → y.1.listed ≡ false
      → replays_before x y ≡ text_le x.0 y.0
  unfolding replays_before
  by_key x y h k = ground arith

  not-folded :
      {S : Type 0} (r : Rollup S) (x : Text × CacheEntry Op)
      → x.1.listed ≡ false
      → not (folded r.mark x) ≡ true
  unfolding folded
  not-folded r x h = ground arith

  late-sorted :
      (input kept late : Cache Op)
      → All (λ x. is_some (lookup x.0 input) ≡ true) kept
      → All (IsLate input) late
      → late_entries input (late ++ kept) ≡ sort replays_before late
  unfolding late_entries
  late-sorted input kept late h ls =
      let p : Text × CacheEntry Op → Bool = λ x. not (is_some (lookup x.0 input)) in
      let all_late =
        keep_all p late (All-map (IsLate input) _ (λ x l. rw l.new_key refl) late ls) in
      let none_kept = keep_none p kept (All-map _ _ (λ x q. rw q refl) kept h) in
      let chosen : keep p (late ++ kept) ≡ late =
        keep-append p late kept ∙ rw (all_late, none_kept) (append-nil late) in
      ap (sort (λ (x y : Text × CacheEntry Op). text_le x.0 y.0)) chosen
      ∙ sym (
          sort_agree replays_before _ (λ x. x.1.listed ≡ false) by_key late
            (All-map (IsLate input) _ (λ x l. l.unlisted) late ls))

module _ {S Op : Type 0} (apply : S → Op → S) where
  replay-late :
      (r : Rollup S) (input late : Cache Op)
      → All (IsLate input) late
      → replay apply r (late ++ input)
        ≡ apply_entries apply (replay apply r input) (sort replays_before late)
  unfolding replay
  replay-late r input late ls =
      let p : Text × CacheEntry Op → Bool = λ x. not (folded r.mark x) in
      let all_late =
        keep_all p late (All-map (IsLate input) _ (λ x l. not-folded r x l.unlisted) late ls) in
      let after : All (λ x. All (λ y. replays_before x y ≡ false) (keep p input)) late =
        All-map (IsLate input) _
          (λ x l.
            All-kept p _ input (All-map _ _ (λ y a. before_late x y l.unlisted a) input l.above))
          late ls in
      let parts : keep p (late ++ input) ≡ late ++ keep p input =
        keep-append p late input ∙ rw all_late refl in
      ap (λ l. apply_entries apply r.state (sort replays_before l)) parts
      ∙ ap (apply_entries apply r.state) (sort_after replays_before late (keep p input) after)
      ∙ apply_entries-append apply r.state (sort replays_before (keep p input))
          (sort replays_before late)

  -- If what the writer has put into the cache while the replay ran is late, and has none of the keys
  -- that are staged, rebuild leaves the state that a replay of the cache which it leaves would give.
  pub rebuild-replay :
      (r : Rollup S) (lst : Listing) (cache staged late : Cache Op)
      → All (IsLate (copy (evict_folded r lst cache) staged)) late
      → All (λ s. Fresh s.0 late) staged
      → (rebuild apply r lst cache staged (late ++ evict_folded r lst cache)).0
        ≡ replay apply r (rebuild apply r lst cache staged (late ++ evict_folded r lst cache)).1
  unfolding rebuild
  rebuild-replay r lst cache staged late ls fs =
      let kept_ = evict_folded r lst cache in
      let input = copy kept_ staged in
      let there = All-map _ _ (λ x h. copy_keeps kept_ staged x.0 h) kept_ (present kept_) in
      ap (apply_entries apply (replay apply r input)) (late-sorted input kept_ late there ls)
      ∙ sym (replay-late r input late ls)
      ∙ ap (replay apply r) (sym (copy-append late kept_ staged fs))
