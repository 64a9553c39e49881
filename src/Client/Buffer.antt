-- ===== src/Client/Buffer.antt =====
-- The reordering buffer of parallel downloads, client/stream_buffer.go: the ranges that are written.
pub mod Laws
pub mod Proper
pub mod Ring
use cachew.Base.{
  ℕ, ◌+◌, ◌-◌, ◌*◌, ◌/◌, ◌%◌, min, max, Bool, true, false, ◌&&◌, ◌||◌, not, Option, none, some,
  List, [], ◌∷◌, ◌++◌, ltb, leb, ◌==◌, if◌then◌else◌,
}
use cachew.Base.Sort.{insert_in, sort}

-- writeInterval
pub record WriteInterval : Type 0 where
  pub start : ℕ
  pub end : ℕ

-- frontier and pending
pub record Coverage : Type 0 where
  pub frontier : ℕ
  pub pending : List WriteInterval

abbrev pub starts_before : WriteInterval → WriteInterval → Bool
starts_before a b = leb a.start b.start

-- The loop that merges sorted ranges; `last` is the end of `merged`.
unfoldable pub merge : WriteInterval → List WriteInterval → List WriteInterval
merge last [] = last ∷ []
merge last (iv ∷ ivs) =
    let touches = leb iv.start last.end in
    let rest = merge (if touches then record last { end = max last.end iv.end } else iv) ivs in
    if touches then rest else last ∷ rest

unfoldable pub merge_all : List WriteInterval → List WriteInterval
unfolding merge
merge_all [] = []
merge_all (iv ∷ ivs) = merge iv ivs

-- The loop that advances the frontier.
unfoldable pub advance : ℕ → List WriteInterval → Coverage
advance frontier [] = record { frontier = frontier; pending = [] }
advance frontier (iv ∷ ivs) =
    let rest = advance (max frontier iv.end) ivs in
    if leb iv.start frontier then rest else record { frontier = frontier; pending = iv ∷ ivs }

abbrev pub is_none_pending : List WriteInterval → Bool
is_none_pending [] = true
is_none_pending (iv ∷ ivs) = false

-- extendLocked
unfoldable pub extend_locked : Coverage → ℕ → ℕ → Coverage
unfolding merge_all advance sort
extend_locked c start end =
    if (start == c.frontier) && is_none_pending c.pending
    then record c { frontier = end }
    else advance c.frontier
        (merge_all (sort starts_before (c.pending ++ record { start = start; end = end } ∷ [])))
