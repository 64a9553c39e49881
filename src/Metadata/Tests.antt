-- ===== src/Metadata/Tests.antt =====
-- The metadata database on small inputs, with a codec that has no floats and knows a few values.
use mathlib.Core.Bool.{false≢true}
use mathlib.Core.List.{Permᴰ}
use cachew.Base.{
  map, inl, ◌++◌, some, ℕ, ◌≡◌, refl, Bool, true, false, none, List, [], ◌∷◌, Text, codes, All,
  text_eq, keep, is_some,
}
use cachew.Base.Int.{pos}
use cachew.Base.Assoc.{Fresh, IsMap, lookup, insert}
use cachew.Base.Decimal.{format_nat}
use cachew.Metadata.Value.{Value}
use cachew.Metadata.Ops.{
  Codec, Op, ReadOp, State, apply_op, apply_ops, query_state, to_int64, marshal_key, number, truth,
}
use cachew.Metadata.Ops.Observe.{key_of, cell}
use cachew.Metadata.Ops.Refine.{effects, IsIntOp, int_effect, int_history}
use cachew.Metadata.Ops.Refine.Collections.{
  IsSetOp, set_effect, set_history, IsIntMapOp, int_map_effect, int_map_history,
}
use cachew.Metadata.Ops.Refine.Sequences.{IsListOp}
use cachew.Metadata.Ops.Backend.{MemoryBackend}
use cachew.Metadata.Journal.{
  rebuild, evict_folded, copy, folded, CacheEntry, Cache, Rollup, Listing, candidate, compact,
  replay, ladder_candidates, aged, covers, text_le,
}
use cachew.Metadata.Journal.Canonical.{replay-perm}
use cachew.Metadata.Journal.Rebuild.{IsLate, rebuild-replay}
use cachew.Metadata.Journal.Resolve.{stamp}
use cachew.Metadata.Journal.Compaction.{replay-compact}

data NoFloat : Type 0 where

abbrev print : Value NoFloat → Text
print (Value.int (pos n)) = format_nat n
print (Value.text s) = b'"' ∷ s
print _ = codes "null"

abbrev codec : Codec
codec = record {
  Float = NoFloat;
  trunc = λ f. pos 0;
  marshal = print;
  decode = λ s. none;
  display = print;
}

abbrev hits : Text
hits = codes "hits"

abbrev tags : Text
tags = codes "tags"

abbrev red : Value NoFloat
red = Value.text (codes "red")

abbrev int_ops : List (Op NoFloat)
int_ops =
    Op.int_set hits (pos 5)
    ∷ Op.set_add tags red
    ∷ Op.int_add hits (pos 2)
    ∷ Op.int_div hits (pos 3)
    ∷ []

int_ops_fit : All (λ o. text_eq (key_of o) hits ≡ true → IsIntOp codec o) int_ops
unfolding key_of text_eq
int_ops_fit = ((λ e. tt), ((λ e. absurd (false≢true e)), ((λ e. tt), ((λ e. tt), tt))))

int_history_example :
    query_state codec (apply_ops codec [] int_ops) (ReadOp.int_get hits)
    ≡ number (effects codec hits (int_effect codec) (to_int64 codec (lookup hits [])) int_ops)
int_history_example = int_history codec hits [] int_ops int_ops_fit

abbrev set_ops : List (Op NoFloat)
set_ops =
    Op.set_add tags red
    ∷ Op.int_set hits (pos 5)
    ∷ Op.set_remove tags red
    ∷ Op.set_add tags red
    ∷ []

set_ops_fit : All (λ o. text_eq (key_of o) tags ≡ true → IsSetOp codec tags red o) set_ops
unfolding key_of text_eq
set_ops_fit = ((λ e. tt), ((λ e. absurd (false≢true e)), ((λ e. tt), ((λ e. tt), tt))))

set_history_example :
    query_state codec (apply_ops codec [] set_ops) (ReadOp.set_contains tags red)
    ≡ truth (
        effects codec tags
          (set_effect codec tags red)
          (is_some (cell codec [] tags (marshal_key codec red)))
          set_ops)
set_history_example = set_history codec tags red [] set_ops set_ops_fit

abbrev map_ops : List (Op NoFloat)
map_ops =
    Op.int_map_add tags red (pos 5)
    ∷ Op.int_map_mul tags red (pos 4)
    ∷ Op.int_map_div tags red (pos 3)
    ∷ []

map_ops_fit : All (λ o. text_eq (key_of o) tags ≡ true → IsIntMapOp codec tags red o) map_ops
unfolding key_of text_eq
map_ops_fit = ((λ e. tt), ((λ e. tt), ((λ e. tt), tt)))

int_map_history_example :
    query_state codec (apply_ops codec [] map_ops) (ReadOp.int_map_get tags red)
    ≡ number (
        effects codec tags
          (int_map_effect codec tags red)
          (to_int64 codec (cell codec [] tags (marshal_key codec red)))
          map_ops)
int_map_history_example = int_map_history codec tags red [] map_ops map_ops_fit

abbrev backend : MemoryBackend codec
backend = (codes "git", []) ∷ []

missing : lookup (codes "gomod") backend ≡ none
unfolding lookup text_eq
missing = refl

abbrev bump : Op NoFloat
bump = Op.int_add hits (pos 1)

other_key : text_eq (key_of bump) tags ≡ false
unfolding key_of text_eq
other_key = refl

-- A journal of two listed segments and one that no listing shows yet.
abbrev segment : ℕ → Bool → Op NoFloat → CacheEntry (Op NoFloat)
segment lm listed o = record { ops = o ∷ []; lm = lm; listed = listed; inserted_at = lm }

abbrev journal : Cache (Op NoFloat)
journal =
    (codes "b", segment 20 true (Op.int_mul hits (pos 3)))
    ∷ (codes "a", segment 10 true (Op.int_add hits (pos 2)))
    ∷ (codes "c", segment 0 false (Op.int_add hits (pos 1)))
    ∷ []

abbrev rollup : Rollup (State codec)
rollup = record { etag = codes "r1"; mark = record { lm = 5; key = codes "z" }; state = [] }

abbrev listing : Listing
listing = record {
  entries = (codes "a", 10) ∷ (codes "0", 1) ∷ (codes "b", 20) ∷ (codes "d", 30) ∷ [];
  newest = 30;
  start = 30;
}

journal-IsMap : IsMap journal
unfolding lookup text_eq
journal-IsMap = (refl, (refl, (refl, tt)))

-- The listing has its candidates in another order than the journal.
synced :
    Permᴰ
      (ladder_candidates rollup listing 8)
      (map stamp (keep (candidate rollup listing 8) journal))
unfolding ladder_candidates candidate aged covers text_le
synced = Permᴰ.swap refl refl

replay-compact_example :
    (new : Rollup (State codec)) × (compact
        (apply_op codec)
        rollup
        journal
        (ladder_candidates rollup listing 8)
        (codes "r2")
      ≡ some new)
    × (replay (apply_op codec) new journal ≡ replay (apply_op codec) rollup journal)
replay-compact_example =
    replay-compact (apply_op codec) rollup listing 8 (codes "r2") journal journal-IsMap synced

abbrev shuffled : Cache (Op NoFloat)
shuffled =
    (codes "a", segment 10 true (Op.int_add hits (pos 2)))
    ∷ (codes "b", segment 20 true (Op.int_mul hits (pos 3)))
    ∷ (codes "c", segment 0 false (Op.int_add hits (pos 1)))
    ∷ []

replay-perm_example :
    replay (apply_op codec) rollup journal ≡ replay (apply_op codec) rollup shuffled
replay-perm_example =
    replay-perm (apply_op codec) rollup journal shuffled (Permᴰ.swap refl refl) journal-IsMap

abbrev staged_d : Cache (Op NoFloat)
staged_d = (codes "d", segment 30 true (Op.int_add hits (pos 4))) ∷ []

abbrev late_e : Cache (Op NoFloat)
late_e = (codes "e", segment 31 false (Op.int_mul hits (pos 2))) ∷ []

late_e-IsLate : All (IsLate (copy (evict_folded rollup listing journal) staged_d)) late_e
unfolding copy evict_folded folded covers lookup insert text_eq text_le
late_e-IsLate =
    (record { unlisted = refl; new_key = refl; above = (inl refl, (inl refl, (inl refl, tt))) }, tt)

staged_d-Fresh : All (λ s. Fresh s.0 late_e) staged_d
unfolding lookup text_eq
staged_d-Fresh = (refl, tt)

rebuild-replay_example :
    (rebuild
      (apply_op codec)
      rollup
      listing
      journal
      staged_d
      (late_e ++ evict_folded rollup listing journal)).0
    ≡ replay
        (apply_op codec)
        rollup
        (rebuild
          (apply_op codec)
          rollup
          listing
          journal
          staged_d
          (late_e ++ evict_folded rollup listing journal)).1
rebuild-replay_example =
    rebuild-replay (apply_op codec) rollup listing journal staged_d late_e late_e-IsLate
      staged_d-Fresh

abbrev list_ops : List (Op NoFloat)
list_ops = Op.list_append tags red ∷ Op.int_set hits (pos 1) ∷ Op.list_append tags red ∷ []

list_ops_fit : All (λ o. text_eq (key_of o) tags ≡ true → IsListOp codec tags o) list_ops
unfolding key_of text_eq
list_ops_fit = ((λ e. tt), ((λ e. absurd (false≢true e)), ((λ e. tt), tt)))
