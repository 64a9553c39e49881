-- ===== src/Cache/Disk/Agree.antt =====
-- The disk cache against the in-memory backend: internal/cache/disk.go and memory.go.
use cachew.Base.{
  ℕ, ◌≡◌, refl, true, false, Option, none, some, List, [], ◌∷◌, Text, length, ltb, Bool-cases,
  Option-cases, inl, inr, arith,
}
use cachew.Client.Key.{Key}
use cachew.Client.Options.{RequestOption}
use cachew.Http.{Header}
use cachew.Cache.Short.{CacheError, Conditional, Ranged, not_exist, cond, range_short_circuit}
use cachew.Cache.Memory
use cachew.Cache.Memory.{Entry, Store, find, open_found, stat_found, open_window, open_checked}
use cachew.Cache.Disk.{File, Disk, View, works, DiskError, Errors, cache}
use cachew.Cache.Disk.Open.{
  Read, stat, stat_file, stat_checked, open_entry, read_file, read_window, read_checked,
}
use cachew.Cache.Disk.State.{file_of}
use cachew.Cache.Disk.Reads.{
  Stands, open_miss, open_hit, open_expired, stat_miss, stat_hit, stat_expired,
}

-- The file of an entry in memory.
abbrev pub file_as : Entry → ℕ → File
file_as e mod_time = record { bytes = e.bytes; mod_time = mod_time }

-- An entry is on the disk as it is in memory, or in neither.
abbrev pub Alike : Text → Key → Disk → Option Entry → Type 0
Alike n k d none = file_of n k d ≡ none
Alike n k d (some e) = (m : ℕ) × Stands n k d (file_as e m) e.expires_at e.headers

-- The first of the errors that are joined
abbrev pub reported : Errors → Option DiskError
reported [] = none
reported (e ∷ es) = some e

abbrev pub as_disk : Option CacheError → Option DiskError
as_disk none = none
as_disk (some e) = some (cache e)

abbrev pub SameRead : Read → Memory.Opened → Type 0
SameRead r o = (r.body ≡ o.body) × (r.headers ≡ o.headers) × (reported r.errors ≡ as_disk o.error)

abbrev pub SameStat : Read → Option Header × Option CacheError → Type 0
SameStat r o = (r.headers ≡ o.0) × (reported r.errors ≡ as_disk o.1)

module _ (e : Entry) (m : ℕ) where
  window-same : (r : Ranged) → SameRead (read_window (file_as e m) r) (open_window e r)
  unfolding read_window open_window
  window-same r = elim (Option-cases r.error) [
    | inl q ↦ rw q (refl, refl, refl)
    | inr (x, q) ↦ rw q (refl, refl, refl)
  ]

  checked-same :
      (opts : List RequestOption) (c : Conditional)
      → SameRead (read_checked (file_as e m) opts c) (open_checked e opts c)
  unfolding read_checked open_checked
  checked-same opts c = elim (Option-cases c.error) [
    | inl q ↦ rw q (window-same (range_short_circuit c.headers (length e.bytes) opts))
    | inr (x, q) ↦ rw q (refl, refl, refl)
  ]

  found-same :
      (opts : List RequestOption)
      → SameRead (read_file (file_as e m) e.headers opts) (open_found e opts)
  found-same opts = unfold read_file open_found in checked-same opts _

  stat-checked :
      (c : Conditional)
      → SameStat
          (stat_checked c)
          (elim c.error [ some x ↦ (c.returned, some (cond x)) | none ↦ (some c.headers, none) ])
  unfolding stat_checked
  stat-checked c = elim (Option-cases c.error) [
    | inl q ↦ rw q (refl, refl)
    | inr (x, q) ↦ rw q (refl, refl)
  ]

  stat-same :
      (opts : List RequestOption)
      → SameStat (stat_file (file_as e m) e.headers opts) (stat_found e opts)
  stat-same opts = unfold stat_file stat_found in stat-checked _

-- The reads of the in-memory backend.
module _ (mv : Memory.View) (st : Store) (now : ℕ) (key : Text) (opts : List RequestOption)
    (is_open : mv.open_view ≡ true) where
  memory_miss :
      find st.entries mv.namespace key ≡ none
      → (Memory.open_entry mv st now key opts
          ≡ record { body = none; headers = none; error = some not_exist })
        × (Memory.stat mv st now key opts ≡ (none, some not_exist))
  unfolding Memory.open_entry Memory.stat
  memory_miss e = (ground arith, ground arith)

  memory_late :
      (e : Entry)
      → find st.entries mv.namespace key ≡ some e
      → ltb e.expires_at now ≡ true
      → (Memory.open_entry mv st now key opts
          ≡ record { body = none; headers = none; error = some not_exist })
        × (Memory.stat mv st now key opts ≡ (none, some not_exist))
  unfolding Memory.open_entry Memory.stat
  memory_late e found late = (ground arith, ground arith)

  memory_hit :
      (e : Entry)
      → find st.entries mv.namespace key ≡ some e
      → ltb e.expires_at now ≡ false
      → (Memory.open_entry mv st now key opts ≡ open_found e opts)
        × (Memory.stat mv st now key opts ≡ stat_found e opts)
  unfolding Memory.open_entry Memory.stat
  memory_hit e found alive = (ground arith, ground arith)

-- The disk cache and the in-memory backend answer a read of an entry alike.
module _ (v : View) (mv : Memory.View) (is_open : mv.open_view ≡ true) (now : ℕ) (k : Key)
    (key : Text) (opts : List RequestOption) (d : Disk) (st : Store) where
  -- When a key has the same entry on the disk as in an open view of the in-memory backend, or
  -- none, Open and Stat of the two with the same options at one time return the same bytes,
  -- headers and (first) error, expired entries, conditions and ranges included, if the disk's
  -- calls work.
  pub reads-memory :
      Alike v.namespace k d (find st.entries mv.namespace key)
      → SameRead (open_entry works v now k opts d).1 (Memory.open_entry mv st now key opts)
        × SameStat (stat works v now k opts d).1 (Memory.stat mv st now key opts)
  reads-memory alike = elim (Option-cases (find st.entries mv.namespace key)) [
    | inl e ↦
        let (mo, ms) = memory_miss mv st now key opts is_open e in
        rw
          (
            open_miss v now k opts d (rw e at alike),
            stat_miss v now k opts d (rw e at alike),
            mo,
            ms,
          )
          ((refl, refl, refl), (refl, refl))
    | inr (e, found) ↦
        let (m, stands) = rw found at alike in
        elim (Bool-cases (ltb e.expires_at now)) [
          | inl late ↦
              let (mo, ms) = memory_late mv st now key opts is_open e found late in
              rw
                (
                  open_expired v now k opts d (file_as e m) e.expires_at e.headers stands late,
                  stat_expired v now k opts d (file_as e m) e.expires_at e.headers stands late,
                  mo,
                  ms,
                )
                ((refl, refl, refl), (refl, refl))
          | inr alive ↦
              let (mo, ms) = memory_hit mv st now key opts is_open e found alive in
              rw
                (
                  open_hit v now k opts d (file_as e m) e.expires_at e.headers stands alive,
                  stat_hit v now k opts d (file_as e m) e.expires_at e.headers stands alive,
                  mo,
                  ms,
                )
                (found-same e m opts, stat-same e m opts)
        ]
  ]
