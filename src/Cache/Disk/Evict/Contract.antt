-- ===== src/Cache/Disk/Evict/Contract.antt =====
-- What evict of internal/cache/disk.go promises, and what it takes of sort.Slice.
use mathlib.Core.List.{Permᴰ}
use cachew.Base.{
  ℕ, ◌≤◌, ◌≡◌, true, false, ◌⊎◌, none, List, [], ◌∷◌, ◌++◌, All, Text, if◌then◌else◌, is_some,
}
use cachew.Base.Pairs.{Pairs}
use cachew.Base.Int.{pos, leb_ℤ}
use cachew.Client.Key.{Key}
use cachew.Cache.Disk.{DiskConfig, Disk, limit_bytes, is_expired}
use cachew.Cache.Disk.Meta.{get_ttl, get_headers}
use cachew.Cache.Disk.Names.{IsEntry}
use cachew.Cache.Disk.State.{file_of, IsSound}
use cachew.Cache.Disk.Evict.{FileInfo, Sorter}
use cachew.Cache.Disk.Evict.Visits.{drop_files}
use cachew.Cache.Disk.Evict.Drops.{IsFileOf, names_entry}

-- A file was accessed no later than another.
abbrev pub NoLater : FileInfo → FileInfo → Type 0
NoLater i j = i.accessed_at ≤ j.accessed_at

-- sort.Slice gives the same elements in the order asked for; elements that are alike in it come in
-- any order.
pub record IsSort (by_access : Sorter) : Type 0 where
  pub permutes : (is : List FileInfo) → Permᴰ (by_access is) is
  pub orders : (is : List FileInfo) → Pairs NoLater (by_access is)

-- From `d` to `d'`: the entries that have expired are gone, and of the others those that were
-- accessed first, until the size is within the limit.
pub record Evicts (config : DiskConfig) (now : ℕ) (d d' : Disk) : Type 0 where
  pub expired : List FileInfo
  pub gone : List FileInfo
  pub kept : List FileInfo
  pub are_expired :
      (n : Text) (k : Key)
      → IsEntry n k
      → names_entry expired n k ≡ is_expired now (get_ttl n k d.db)
  pub files : All (IsFileOf d.files) (expired ++ (gone ++ kept))
  pub oldest : All (λ g. All (NoLater g) kept) gone
  pub left :
      (n : Text) (k : Key)
      → IsEntry n k
      → (file_of n k d' ≡ (if names_entry (expired ++ gone) n k then none else file_of n k d))
        × (get_ttl n k d'.db
            ≡ (if names_entry (expired ++ gone) n k then none else get_ttl n k d.db))
        × (get_headers n k d'.db
            ≡ (if names_entry (expired ++ gone) n k then none else get_headers n k d.db))
  pub complete :
      (n : Text) (k : Key)
      → IsEntry n k
      → is_some (file_of n k d) ≡ names_entry (expired ++ (gone ++ kept)) n k
  pub sound : IsSound d'
  pub enough : (leb_ℤ d'.size (pos (limit_bytes config)) ≡ true) ⊎ (kept ≡ [])
  pub minimal :
      (front : List FileInfo) (x : FileInfo) (back : List FileInfo)
      → gone ≡ front ++ x ∷ back
      → leb_ℤ (drop_files front (drop_files expired d)).size (pos (limit_bytes config)) ≡ false
