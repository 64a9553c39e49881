-- ===== src/Cache/Disk/Evict/Erase.antt =====
-- Entries that leave the files and the database together.
use cachew.Base.{◌≡◌, refl, none, List, [], ◌∷◌, All, Text, if◌then◌else◌, arith}
use cachew.Base.Pairs.{Pairs}
use cachew.Base.Assoc.{Assoc, IsMap, remove-IsMap}
use cachew.Client.Key.{Key}
use cachew.Cache.Disk.{File, Disk}
use cachew.Cache.Disk.Meta
use cachew.Cache.Disk.Meta.{MetaDb, EntryKey, composite_key, walk, get_ttl, get_headers}
use cachew.Cache.Disk.Names.{IsEntry}
use cachew.Cache.Disk.State.{file_of, IsSound, IsWritten, All-remove, entry-remove}
use cachew.Cache.Disk.Evict.{FileInfo}
use cachew.Cache.Disk.Evict.Visits.{entries, drop_files}
use cachew.Cache.Disk.Evict.Drops.{
  IsFileOf, Differ, names_entry, drop_files-lookup, drop_files-IsCounted,
}

-- Entries leave the files and the database.
unfoldable pub erase : List FileInfo → Disk → Disk
erase is d = record (drop_files is d) { db = Meta.delete_all (entries is) d.db }

abbrev AreEntries : List FileInfo → Type 0
AreEntries = All (λ (i : FileInfo). IsEntry i.entry.namespace i.entry.key)

-- deleteAll removes the entries of a list from both buckets, and no others.
module _ (n : Text) (k : Key) (g : IsEntry n k) where
  delete_all-ttl :
      (is : List FileInfo) (db : MetaDb)
      → AreEntries is
      → get_ttl n k (Meta.delete_all (entries is) db)
        ≡ (if names_entry is n k then none else get_ttl n k db)
  unfolding Meta.delete_all Meta.delete get_ttl
  delete_all-ttl [] db h = refl
  delete_all-ttl (i ∷ is) db (h, hs) = ground (
    arith,
    delete_all-ttl is (Meta.delete i.entry.namespace i.entry.key db) hs,
    entry-remove i.entry.namespace n i.entry.key k h g db.ttl,
  )

  delete_all-headers :
      (is : List FileInfo) (db : MetaDb)
      → AreEntries is
      → get_headers n k (Meta.delete_all (entries is) db)
        ≡ (if names_entry is n k then none else get_headers n k db)
  unfolding Meta.delete_all Meta.delete get_headers
  delete_all-headers [] db h = refl
  delete_all-headers (i ∷ is) db (h, hs) = ground (
    arith,
    delete_all-headers is (Meta.delete i.entry.namespace i.entry.key db) hs,
    entry-remove i.entry.namespace n i.entry.key k h g db.headers,
  )

delete_all-maps :
    (es : List EntryKey) (db : MetaDb)
    → IsMap db.ttl
    → All (λ p. IsWritten p) db.ttl
    → IsMap (Meta.delete_all es db).ttl × All (λ p. IsWritten p) (Meta.delete_all es db).ttl
unfolding Meta.delete_all Meta.delete
delete_all-maps [] db h w = (h, w)
delete_all-maps (e ∷ es) db h w =
    delete_all-maps es (Meta.delete e.namespace e.key db)
      (remove-IsMap (composite_key e.namespace e.key) db.ttl h)
      (All-remove (λ p. IsWritten p) (composite_key e.namespace e.key) db.ttl w)

IsFileOf-AreEntries :
    (files : Assoc File) (is : List FileInfo) → All (IsFileOf files) is → AreEntries is
IsFileOf-AreEntries files [] h = tt
IsFileOf-AreEntries files (i ∷ is) (h, hs) = (h.valid, IsFileOf-AreEntries files is hs)

module _ (is : List FileInfo) (d : Disk) (h : All (IsFileOf d.files) is) (p : Pairs Differ is) where
  -- What is left of an entry.
  pub erase-lookup :
      (n : Text) (k : Key)
      → IsEntry n k
      → (file_of n k (erase is d) ≡ (if names_entry is n k then none else file_of n k d))
        × (get_ttl n k (erase is d).db ≡ (if names_entry is n k then none else get_ttl n k d.db))
        × (get_headers n k (erase is d).db
            ≡ (if names_entry is n k then none else get_headers n k d.db))
  unfolding erase
  erase-lookup n k g =
      let valid = IsFileOf-AreEntries d.files is h in
      (
        drop_files-lookup is d n k h p g,
        delete_all-ttl n k g is d.db valid,
        delete_all-headers n k g is d.db valid,
      )

  pub erase-IsSound : IsSound d → IsSound (erase is d)
  unfolding erase
  erase-IsSound s =
      let counter =
        drop_files-IsCounted is d h p (record { files_map = s.files_map; counted = s.counted }) in
      let (maps, written) = delete_all-maps (entries is) d.db s.ttl_map s.written in
      record {
        files_map = counter.files_map;
        ttl_map = maps;
        written = written;
        counted = counter.counted;
        timed = λ n k g. ground (arith, erase-lookup n k g, s.timed n k g);
        described = λ n k g. ground (arith, erase-lookup n k g, s.described n k g);
      }
