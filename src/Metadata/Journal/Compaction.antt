-- ===== src/Metadata/Journal/Compaction.antt =====
-- Compaction of the journal: the rollup that compact writes stands for the segments it folded.
use mathlib.Core.List.{Permᴰ}
use cachew.Base.{
  map, some, ℕ, ◌≡◌, refl, ap, sym, ◌∙◌, Bool, true, false, ◌&&◌, not, List, [], ◌∷◌, ◌++◌, Text,
  keep, All, arith, kept, all_kept, keep_agree, keep-keep, All-map, All-of,
}
use cachew.Base.Assoc.{Assoc, IsMap}
use cachew.Base.Sort.{sort, All-sort}
use cachew.Metadata.Journal.{
  Mark, covers, Cache, Rollup, Listing, replays_before, folded, apply_entries, apply_all, replay,
  aged, candidate, last_mark, compact, fold_candidates, resolve, ladder_candidates,
}
use cachew.Metadata.Journal.Order.{covers_total, covers_trans}
use cachew.Metadata.Journal.Last.{
  Item, mark_of, IsListed, Under, IsTopped, last_mark-has, sort-IsTopped, sorted,
}
use cachew.Metadata.Journal.Resolve.{stamp, resolve-sorted}
use cachew.Metadata.Journal.Sort.{IsCut, sort-keep}

module _ {S Op : Type 0} (apply : S → Op → S) where
  pub apply_entries-append :
      (s : S) (xs ys : List (Item Op))
      → apply_entries apply s (xs ++ ys) ≡ apply_entries apply (apply_entries apply s xs) ys
  unfolding apply_entries
  apply_entries-append s [] ys = refl
  apply_entries-append s ((k, e) ∷ xs) ys = apply_entries-append (apply_all apply s e.ops) xs ys

  compact_resolved :
      (r : Rollup S) (cache : Cache Op) (keys : Assoc ℕ) (etag : Text) (cs : List (Item Op))
      → resolve cache keys ≡ some cs
      → compact apply r cache keys etag ≡ some (fold_candidates apply r cs etag)
  unfolding compact
  compact_resolved r cache keys etag cs e = ground (arith, e)

  module _ (r : Rollup S) (lst : Listing) (threshold : ℕ) where
    -- The fold depends on the candidates in their order only.
    fold-sorted :
        (xs ys : List (Item Op))
        → sort replays_before xs ≡ sort replays_before ys
        → (etag : Text) → fold_candidates apply r xs etag ≡ fold_candidates apply r ys etag
    unfolding fold_candidates
    fold-sorted xs ys e etag =
        ap
          (λ (zs : List (Item Op)). record {
            etag = etag;
            mark = last_mark r.mark zs;
            state = apply_entries apply r.state zs;
          })
          e

    old_enough : Item Op → Bool
    old_enough x = x.1.listed && aged lst threshold x.1.lm

    old_enough-IsCut : IsCut replays_before old_enough
    unfolding old_enough aged replays_before
    old_enough-IsCut x y h g = ground arith

    candidate_above :
        (y x : Item Op)
        → candidate r lst threshold y ≡ true
        → covers r.mark x.1.lm x.0 ≡ true
        → covers (mark_of Op y) x.1.lm x.0 ≡ true
    unfolding candidate
    candidate_above y x cand h =
        covers_trans r.mark (mark_of Op y) x.1.lm x.0
          (covers_total r.mark (mark_of Op y) (ground arith)) h

    candidate_below :
        (y x : Item Op)
        → candidate r lst threshold y ≡ true
        → aged lst threshold x.1.lm ≡ false
        → covers (mark_of Op y) x.1.lm x.0 ≡ false
    unfolding candidate aged covers
    candidate_below y x cand young = ground arith

    candidate_split :
        (x : Item Op) → candidate r lst threshold x ≡ (not (folded r.mark x) && old_enough x)
    unfolding candidate folded old_enough
    candidate_split x = ground arith

    module _ (new : Mark) (x : Item Op)
        (mono : covers r.mark x.1.lm x.0 ≡ true → covers new x.1.lm x.0 ≡ true)
        (young : aged lst threshold x.1.lm ≡ false
          → covers r.mark x.1.lm x.0 ≡ false
          → covers new x.1.lm x.0 ≡ false)
        (old : candidate r lst threshold x ≡ true → Under Op new x) where
      left_over : not (folded new x) ≡ (not (folded r.mark x) && not (old_enough x))
      unfolding folded candidate old_enough
      left_over = ground arith

    module _ (etag : Text) (cache : Cache Op) where
      candidates : List (Item Op)
      candidates = keep (candidate r lst threshold) cache

      new_mark : Mark
      unfolding candidates
      new_mark = last_mark r.mark (sort replays_before candidates)

      candidate-IsListed : (x : Item Op) → candidate r lst threshold x ≡ true → IsListed Op x
      unfolding candidate
      candidate-IsListed x h = ground arith

      candidates-Under : All (λ x. candidate r lst threshold x ≡ true → Under Op new_mark x) cache
      unfolding new_mark candidates IsTopped
      candidates-Under =
          let ys = keep (candidate r lst threshold) cache in
          let listed =
            All-map _ (IsListed Op) candidate-IsListed ys
              (kept (candidate r lst threshold) cache) in
          all_kept (candidate r lst threshold) (Under Op _) cache
            (sorted Op (Under Op _) ys (sort-IsTopped Op r.mark ys listed).1)

      candidates_are :
          All (λ x. candidate r lst threshold x ≡ true) (sort replays_before candidates)
      unfolding candidates
      candidates_are = All-sort replays_before _ _ (kept (candidate r lst threshold) cache)

      new_mark_above :
          (x : Item Op) → covers r.mark x.1.lm x.0 ≡ true → covers new_mark x.1.lm x.0 ≡ true
      unfolding new_mark
      new_mark_above x h =
          last_mark-has Op (λ m. covers m x.1.lm x.0 ≡ true) r.mark (sort replays_before candidates)
            h (All-map _ _ (λ y cand. candidate_above y x cand h) _ candidates_are)

      new_mark_below :
          (x : Item Op)
          → aged lst threshold x.1.lm ≡ false
          → covers r.mark x.1.lm x.0 ≡ false
          → covers new_mark x.1.lm x.0 ≡ false
      unfolding new_mark
      new_mark_below x young h =
          last_mark-has Op (λ m. covers m x.1.lm x.0 ≡ false) r.mark
            (sort replays_before candidates) h
            (All-map _ _ (λ y cand. candidate_below y x cand young) _ candidates_are)

      left_over_all :
          keep (λ x. not (folded new_mark x)) cache
          ≡ keep (λ x. not (old_enough x)) (keep (λ x. not (folded r.mark x)) cache)
      left_over_all =
          keep_agree _ _ cache (
            All-map _ _ (λ x old. left_over new_mark x (new_mark_above x) (new_mark_below x) old)
              cache candidates-Under)
          ∙ sym (keep-keep (λ x. not (old_enough x)) (λ x. not (folded r.mark x)) cache)

      candidates_first : candidates ≡ keep old_enough (keep (λ x. not (folded r.mark x)) cache)
      unfolding candidates
      candidates_first =
          keep_agree _ _ cache (All-of _ candidate_split cache)
          ∙ sym (keep-keep old_enough (λ x. not (folded r.mark x)) cache)

      replay-fold :
          replay apply (fold_candidates apply r (keep (candidate r lst threshold) cache) etag) cache
          ≡ replay apply r cache
      unfolding replay fold_candidates new_mark candidates
      replay-fold =
          let kept_ = keep (λ x. not (folded r.mark x)) cache in
          let low = sort replays_before (keep old_enough kept_) in
          let high = sort replays_before (keep (λ x. not (old_enough x)) kept_) in
          let run = λ (cands rest : List (Item Op)).
            apply_entries apply (apply_entries apply r.state (sort replays_before cands))
              (sort replays_before rest) in
          ap (run candidates) left_over_all
          ∙ ap (λ cands. run cands (keep (λ x. not (old_enough x)) kept_)) candidates_first
          ∙ sym (apply_entries-append r.state low high)
          ∙ ap (apply_entries apply r.state)
              (sym (sort-keep replays_before old_enough old_enough-IsCut kept_))

    -- If the cache is a map and its candidates are those of the listing under their stamps, in any
    -- order, compact (with its election won) writes a rollup above which replay of the cache gives
    -- the state that replay gave above the old rollup, whatever the operations.
    pub replay-compact :
        (etag : Text) (cache : Cache Op)
        → IsMap cache
        → Permᴰ
            (ladder_candidates r lst threshold)
            (map stamp (keep (candidate r lst threshold) cache))
        → (new : Rollup S) × (compact apply r cache (ladder_candidates r lst threshold) etag
            ≡ some new)
          × (replay apply new cache ≡ replay apply r cache)
    replay-compact etag cache is_map same =
        let listed =
          All-map _ (IsListed Op) (candidate-IsListed etag cache) _
            (kept (candidate r lst threshold) cache) in
        let (cs, resolved, sorts) =
          resolve-sorted (candidate r lst threshold) cache _ is_map listed same in
        (
          fold_candidates apply r cs etag,
          compact_resolved r cache (ladder_candidates r lst threshold) etag cs resolved,
          ap (λ new. replay apply new cache) (fold-sorted cs _ sorts etag) ∙ replay-fold etag cache,
        )
