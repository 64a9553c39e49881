-- ===== src/Cache/Disk/Evict/Evicts.antt =====
-- The eviction of the disk cache against what it promises.
use mathlib.Core.List.Permᴰ as Perms
use cachew.Base.{
  ℕ, ◌≡◌, refl, sym, ap, ◌∙◌, true, false, ◌⊎◌, not, none, List, [], ◌∷◌, ◌++◌, All, All-append,
  Text, if◌then◌else◌, is_some, arith,
}
use cachew.Base.Pairs.{
  Pairs, All-keep, Pairs-keep, keep_across, All-perm, Pairs-perm, All-prefix, Pairs-prefix,
  Pairs-across,
}
use cachew.Base.Int.{pos, leb_ℤ}
use cachew.Base.Assoc.{lookup}
use cachew.Client.Key.{Key}
use cachew.Cache.Disk.{DiskConfig, Disk, works, limit_bytes, is_expired}
use cachew.Cache.Disk.Meta.{get_ttl, get_headers}
use cachew.Cache.Disk.Names.{IsEntry}
use cachew.Cache.Disk.State.{file_of, IsSound}
use cachew.Cache.Disk.Evict.{FileInfo, Sorter, drop_file, evict}
use cachew.Cache.Disk.Evict.Visits.{dead, gone_by, infos, drop_files}
use cachew.Cache.Disk.Evict.Drops.{
  IsFileOf, Differ, Differ-swap, infos-IsFileOf, infos-Differ, names_entry, survivors,
  victims-append, victims_enough, victims_minimal,
}
use cachew.Cache.Disk.Evict.Erase.{erase, erase-lookup, erase-IsSound}
use cachew.Cache.Disk.Evict.Result.{
  names-dead, names-infos, names-keep, names-append, names-perm, met, met-IsTimed, met-Distinct,
  met-expiry, met-HasFile, dead_of, live_of, cleaned, gone_of, evict_lem,
}
use cachew.Cache.Disk.Evict.Contract.{NoLater, IsSort, Evicts}

drop_files-size :
    (is : List FileInfo) (d d' : Disk)
    → d.size ≡ d'.size
    → (drop_files is d).size ≡ (drop_files is d').size
unfolding drop_files drop_file
drop_files-size [] d d' e = e
drop_files-size (i ∷ is) d d' e =
    drop_files-size is (drop_file i.path i.size d) (drop_file i.path i.size d') (rw e refl)

names-Differ :
    (j : FileInfo) (is : List FileInfo)
    → All (Differ j) is
    → names_entry is j.entry.namespace j.entry.key ≡ false
names-Differ j [] h = refl
names-Differ j (i ∷ is) (h, hs) = rw (Differ-swap j i h, names-Differ j is hs) refl

-- Files that differ from those that are erased are still there.
spared :
    (is js : List FileInfo) (d : Disk)
    → All (IsFileOf d.files) is
    → Pairs Differ is
    → All (IsFileOf d.files) js
    → All (λ j. All (Differ j) is) js
    → All (IsFileOf (erase is d).files) js
spared is [] d h p g o = tt
spared is (j ∷ js) d h p (g, gs) (o, os) = (
  record {
    valid = g.valid;
    at = g.at;
    file = g.file;
    found =
        ap (λ (q : Text). lookup q (erase is d).files) g.at
        ∙ (erase-lookup is d h p j.entry.namespace j.entry.key g.valid).0
        ∙ rw (names-Differ j is o) (ap (λ (q : Text). lookup q d.files) (sym g.at) ∙ g.found);
    sized = g.sized;
    dated = g.dated;
  },
  spared is js d h p gs os,
)

module _ (sha256 : Text → Key) (by_access : Sorter) (sorts : IsSort by_access) (config : DiskConfig)
    (now : ℕ) (d : Disk) (s : IsSound d) where
  all_files : List FileInfo
  all_files = infos d.files (met sha256 d s)

  sorted : List FileInfo
  sorted = by_access (live_of sha256 now d)

  all-IsFileOf : All (IsFileOf d.files) all_files
  unfolding all_files
  all-IsFileOf =
      infos-IsFileOf d.files (met sha256 d s) (met-IsTimed sha256 d s) (met-HasFile sha256 d s)

  all-Differ : Pairs Differ all_files
  unfolding all_files
  all-Differ = infos-Differ d.files (met sha256 d s) (met-Distinct sha256 d s)

  dead-IsFileOf : All (IsFileOf d.files) (dead_of sha256 now d)
  unfolding dead_of all_files
  dead-IsFileOf = All-keep (IsFileOf d.files) (gone_by now) all_files all-IsFileOf

  dead-Differ : Pairs Differ (dead_of sha256 now d)
  unfolding dead_of all_files
  dead-Differ = Pairs-keep Differ (gone_by now) all_files all-Differ

  sorted-IsFileOf : All (IsFileOf d.files) sorted
  unfolding live_of sorted all_files
  sorted-IsFileOf =
      All-perm (IsFileOf d.files) (Perms.symm (sorts.permutes (live_of sha256 now d)))
        (All-keep (IsFileOf d.files) (λ i. not (gone_by now i)) all_files all-IsFileOf)

  sorted-Differ : Pairs Differ sorted
  unfolding live_of sorted all_files
  sorted-Differ =
      Pairs-perm Differ Differ-swap (Perms.symm (sorts.permutes (live_of sha256 now d)))
        (Pairs-keep Differ (λ i. not (gone_by now i)) all_files all-Differ)

  sorted_left : All (IsFileOf (cleaned sha256 now d).files) sorted
  unfolding cleaned
  sorted_left = spared (dead_of sha256 now d) sorted d dead-IsFileOf dead-Differ sorted-IsFileOf (
      unfold dead_of live_of sorted all_files in
      All-perm (λ j. All (Differ j) (dead_of sha256 now d))
        (Perms.symm (sorts.permutes (live_of sha256 now d)))
        (keep_across Differ Differ-swap (gone_by now) all_files all-Differ))

  went : List FileInfo
  went = gone_of sha256 by_access config now d s

  stays : List FileInfo
  stays = survivors (limit_bytes config) sorted (cleaned sha256 now d).size

  split : went ++ stays ≡ sorted
  unfolding went stays sorted gone_of
  split = victims-append (limit_bytes config) sorted (cleaned sha256 now d).size

  went-IsFileOf : All (IsFileOf (cleaned sha256 now d).files) went
  went-IsFileOf =
      All-prefix (IsFileOf (cleaned sha256 now d).files) went stays (rw split sorted_left)

  went-Differ : Pairs Differ went
  went-Differ = Pairs-prefix Differ went stays (rw split sorted-Differ)

  -- The entries are the expired ones and the sorted ones.
  names-all :
      (n : Text) (k : Key)
      → names_entry (dead_of sha256 now d ++ (went ++ stays)) n k ≡ names_entry all_files n k
  unfolding dead_of live_of sorted all_files
  names-all n k =
      rw
        (
          split,
          names-append n k (dead now all_files) sorted,
          names-perm n k (sorts.permutes (live_of sha256 now d)),
        )
        (names-keep (gone_by now) n k all_files)

  evicted : Disk
  evicted = erase went (cleaned sha256 now d)

  evicted-left :
      (n : Text) (k : Key)
      → IsEntry n k
      → (file_of n k evicted
          ≡ (if names_entry (dead_of sha256 now d ++ went) n k then none else file_of n k d))
        × (get_ttl n k evicted.db
            ≡ (if names_entry (dead_of sha256 now d ++ went) n k then none else get_ttl n k d.db))
        × (get_headers n k evicted.db ≡ (
            if names_entry (dead_of sha256 now d ++ went) n k then none else get_headers n k d.db))
  unfolding evicted cleaned
  evicted-left n k g =
      let first = erase-lookup (dead_of sha256 now d) d dead-IsFileOf dead-Differ n k g in
      let second = erase-lookup went (cleaned sha256 now d) went-IsFileOf went-Differ n k g in
      rw (names-append n k (dead_of sha256 now d) went) (
        ground (arith, first.0, second.0),
        ground (arith, first.1, second.1),
        ground (arith, first.2, second.2),
      )

  dead_expired :
      (n : Text) (k : Key)
      → IsEntry n k
      → names_entry (dead_of sha256 now d) n k ≡ is_expired now (get_ttl n k d.db)
  unfolding dead_of
  dead_expired n k g =
      names-dead now d.files n k (met sha256 d s) (met-Distinct sha256 d s)
      ∙ ap (is_expired now) (sym (met-expiry sha256 d s n k g))

  all_complete :
      (n : Text) (k : Key)
      → IsEntry n k
      → is_some (file_of n k d) ≡ names_entry (dead_of sha256 now d ++ (went ++ stays)) n k
  all_complete n k g =
      sym (s.timed n k g)
      ∙ ap is_some (met-expiry sha256 d s n k g)
      ∙ sym (names-infos d.files n k (met sha256 d s))
      ∙ (unfold all_files in sym (names-all n k))

  evicted-IsSound : IsSound evicted
  unfolding evicted cleaned
  evicted-IsSound =
      erase-IsSound went (cleaned sha256 now d) went-IsFileOf went-Differ
        (erase-IsSound (dead_of sha256 now d) d dead-IsFileOf dead-Differ s)

  evicted_enough : (leb_ℤ evicted.size (pos (limit_bytes config)) ≡ true) ⊎ (stays ≡ [])
  unfolding evicted erase went stays gone_of sorted
  evicted_enough = victims_enough (limit_bytes config) sorted (cleaned sha256 now d)

  evicted_minimal :
      (front : List FileInfo) (x : FileInfo) (back : List FileInfo)
      → went ≡ front ++ x ∷ back
      → leb_ℤ
          (drop_files front (drop_files (dead_of sha256 now d) d)).size
          (pos (limit_bytes config))
        ≡ false
  unfolding went gone_of sorted
  evicted_minimal front x back e =
      let same : (drop_files front (drop_files (dead_of sha256 now d) d)).size
          ≡ (drop_files front (cleaned sha256 now d)).size =
        drop_files-size front _ _ (unfold cleaned erase in refl) in
      rw same (victims_minimal (limit_bytes config) sorted (cleaned sha256 now d) front x back e)

  -- On a sound disk, with working calls and a sort by modification time, evict reports no error;
  -- it removes the entries that have expired, and of the others those whose files are the
  -- oldest, each while the counter is above the limit, until it is within the limit or nothing
  -- is left; it leaves everything else, and the disk sound.
  pub evict-Evicts :
      ((evict sha256 works by_access config now d).1 ≡ [])
      × Evicts config now d (evict sha256 works by_access config now d).0
  evict-Evicts = rw (evict_lem sha256 by_access config now d s) (
    refl,
    record {
      expired = dead_of sha256 now d;
      gone = went;
      kept = stays;
      are_expired = λ n k g. dead_expired n k g;
      files =
          All-append (IsFileOf d.files) (dead_of sha256 now d) (went ++ stays) dead-IsFileOf
            (rw split sorted-IsFileOf);
      oldest =
          Pairs-across NoLater went stays
            (rw split (unfold sorted in sorts.orders (live_of sha256 now d)));
      left = unfold evicted went in evicted-left;
      complete = λ n k g. all_complete n k g;
      sound = unfold evicted went in evicted-IsSound;
      enough = unfold evicted went in evicted_enough;
      minimal = λ front x back e. evicted_minimal front x back e;
    },
  )
