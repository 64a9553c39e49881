-- ===== src/Client/Buffer/Proper.antt =====
-- The pending ranges do not end before they start, so that the frontier itself is not written.
use cachew.Base.{
  ℕ, ◌≤◌, max, ◌≡◌, refl, false, ◌&&◌, List, [], ◌∷◌, ◌++◌, All, All-append, leb, ◌==◌, Bool-cases,
  inl, inr, arith,
}
use cachew.Base.Sort.{sort, All-sort}
use cachew.Client.Buffer.{
  is_none_pending, WriteInterval, Coverage, starts_before, merge, merge_all, advance, extend_locked,
}
use cachew.Client.Buffer.Laws.{any, covered, Apart, IsApart, join}

-- Ranges that do not end before they start.
abbrev pub IsProper : List WriteInterval → Type 0
IsProper ivs = All (λ (iv : WriteInterval). iv.start ≤ iv.end) ivs

merge-IsProper :
    (last : WriteInterval) (ivs : List WriteInterval)
    → last.start ≤ last.end
    → IsProper ivs
    → IsProper (merge last ivs)
unfolding merge join
merge-IsProper last [] h k = (h, tt)
merge-IsProper last (iv ∷ ivs) h (k, ks) =
    let joined = merge-IsProper (join last iv) ivs (omega arith) ks in
    let apart = merge-IsProper iv ivs k ks in
    elim (Bool-cases (leb iv.start last.end)) [ inl e ↦ rw e joined | inr e ↦ rw e (h, apart) ]

merge_all-IsProper : (ivs : List WriteInterval) → IsProper ivs → IsProper (merge_all ivs)
unfolding merge_all
merge_all-IsProper [] h = tt
merge_all-IsProper (iv ∷ ivs) h = merge-IsProper iv ivs h.0 h.1

advance-IsProper :
    (frontier : ℕ) (ivs : List WriteInterval)
    → IsProper ivs
    → IsProper (advance frontier ivs).pending
unfolding advance
advance-IsProper frontier [] h = tt
advance-IsProper frontier (iv ∷ ivs) h =
    let rest = advance-IsProper (max frontier iv.end) ivs h.1 in
    elim (Bool-cases (leb iv.start frontier)) [ inl e ↦ rw e rest | inr e ↦ rw e h ]

pub extend_locked-IsProper :
    (c : Coverage) (start end : ℕ)
    → start ≤ end
    → IsProper c.pending
    → IsProper (extend_locked c start end).pending
unfolding extend_locked
extend_locked-IsProper c start end h k =
    let iv : WriteInterval = record { start = start; end = end } in
    let all_proper =
      All-append (λ (j : WriteInterval). j.start ≤ j.end) c.pending (iv ∷ []) k (h, tt) in
    elim (Bool-cases ((start == c.frontier) && is_none_pending c.pending)) [
      | inl e ↦ rw e k
      | inr e ↦ rw e (
          advance-IsProper c.frontier _ (
            merge_all-IsProper (sort starts_before (c.pending ++ iv ∷ []))
              (All-sort starts_before _ (c.pending ++ iv ∷ []) all_proper)))
    ]

any-Apart :
    (a x : ℕ) (ivs : List WriteInterval) → Apart a ivs → IsProper ivs → x ≤ a → any ivs x ≡ false
any-Apart a x [] h k less = refl
any-Apart a x (iv ∷ ivs) h k less =
    ground (arith, any-Apart iv.end x ivs h.1 k.1 (omega (arith, h, k)))

-- The frontier is not written.
pub frontier_missing :
    (c : Coverage) → IsApart c → IsProper c.pending → covered c c.frontier ≡ false
frontier_missing c h k = ground (arith, any-Apart c.frontier c.frontier c.pending h k (omega arith))
