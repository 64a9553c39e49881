-- ===== src/Cache/Disk/Evict/Drops.antt =====
-- Files that the eviction drops: what is left of the others, and the counter.
use cachew.Base.{
  ℕ, ◌≡◌, refl, sym, ap, ◌∙◌, Bool, true, false, ◌&&◌, ◌||◌, ◌⊎◌, none, some, List, [], ◌∷◌, ◌++◌,
  All, Text, length, if◌then◌else◌, Bool-cases, inl, inr, arith, text_eq, text_eq_iff,
}
use cachew.Base.Pairs.{Pairs}
use cachew.Base.Int.{ℤ, pos, ◌-ℤ◌, leb_ℤ, pos_part, neg_part, int_laws}
use cachew.Base.Assoc.{Assoc, IsMap, lookup, remove, remove-IsMap}
use cachew.Client.Key.{Key}
use cachew.Cache.Disk.{File, Disk, key_to_path, works, total_bytes}
use cachew.Cache.Disk.Names.{IsEntry}
use cachew.Cache.Disk.State.{file-remove, total-remove}
use cachew.Cache.Disk.Evict.{FileInfo, Shrunk, drop_file, shrink}
use cachew.Cache.Disk.Evict.Visits.{
  Timed, IsTimed, HasFile, Distinct, same, info_of, infos, entries, drop_files,
}

-- An info tells of a file of an entry.
pub record IsFileOf (files : Assoc File) (i : FileInfo) : Type 0 where
  pub valid : IsEntry i.entry.namespace i.entry.key
  pub at : i.path ≡ key_to_path i.entry.namespace i.entry.key
  pub file : File
  pub found : lookup i.path files ≡ some file
  pub sized : i.size ≡ length file.bytes
  pub dated : i.accessed_at ≡ file.mod_time

abbrev pub Differ : FileInfo → FileInfo → Type 0
Differ i j = same i.entry j.entry ≡ false

pub Differ-swap : (i j : FileInfo) → Differ i j → Differ j i
Differ-swap i j h = ground (
  arith,
  text_eq_iff i.entry.namespace j.entry.namespace,
  text_eq_iff j.entry.namespace i.entry.namespace,
  text_eq_iff i.entry.key j.entry.key,
  text_eq_iff j.entry.key i.entry.key,
)

pub infos-IsFileOf :
    (files : Assoc File) (es : List Timed)
    → All IsTimed es
    → All (HasFile files) es
    → All (IsFileOf files) (infos files es)
unfolding infos info_of
infos-IsFileOf files [] h fs = tt
infos-IsFileOf files ((e, x) ∷ es) (h, hs) ((f, found), fs) = (
  rw found (record { valid = h; at = refl; file = f; found = found; sized = refl; dated = refl }),
  infos-IsFileOf files es hs fs,
)

infos-All-Differ :
    (files : Assoc File) (t : Timed) (es : List Timed)
    → All (Distinct t) es
    → All (Differ (info_of files t)) (infos files es)
unfolding infos info_of
infos-All-Differ files (e, x) [] h = tt
infos-All-Differ files (e, x) ((e', y) ∷ es) (h, hs) = (h, infos-All-Differ files (e, x) es hs)

pub infos-Differ :
    (files : Assoc File) (es : List Timed) → Pairs Distinct es → Pairs Differ (infos files es)
unfolding infos
infos-Differ files [] h = tt
infos-Differ files (t ∷ es) (h, hs) = (infos-All-Differ files t es h, infos-Differ files es hs)

-- Whether an entry is among those of a list.
abbrev pub names_entry : List FileInfo → Text → Key → Bool
names_entry [] n k = false
names_entry (i ∷ is) n k =
    text_eq i.entry.namespace n && text_eq i.entry.key k || names_entry is n k

pub drop_file-files : (p : Text) (s : ℕ) (d : Disk) → (drop_file p s d).files ≡ remove p d.files
unfolding drop_file
drop_file-files p s d = refl

pub drop_files-db : (is : List FileInfo) (d : Disk) → (drop_files is d).db ≡ d.db
unfolding drop_files drop_file
drop_files-db [] d = refl
drop_files-db (i ∷ is) d = drop_files-db is (drop_file i.path i.size d)

drop_file-lookup :
    (i : FileInfo) (files : Assoc File) (n : Text) (k : Key)
    → IsFileOf files i
    → IsEntry n k
    → lookup (key_to_path n k) (remove i.path files) ≡ (
        if text_eq i.entry.namespace n && text_eq i.entry.key k
        then none
        else lookup (key_to_path n k) files)
drop_file-lookup i files n k h g =
    rw h.at (file-remove i.entry.namespace n i.entry.key k h.valid g files)

-- A file that is dropped leaves the others of a list.
pub remove-IsFileOf :
    (i : FileInfo) (files : Assoc File) (is : List FileInfo)
    → IsFileOf files i
    → All (Differ i) is
    → All (IsFileOf files) is
    → All (IsFileOf (remove i.path files)) is
remove-IsFileOf i files [] h o hs = tt
remove-IsFileOf i files (j ∷ is) h (o, os) (g, hs) = (
  record {
    valid = g.valid;
    at = g.at;
    file = g.file;
    found =
        ap (λ (p : Text). lookup p (remove i.path files)) g.at
        ∙ drop_file-lookup i files j.entry.namespace j.entry.key h g.valid
        ∙ rw o (ap (λ (p : Text). lookup p files) (sym g.at) ∙ g.found);
    sized = g.sized;
    dated = g.dated;
  },
  remove-IsFileOf i files is h os hs,
)

pub drop_files-lookup :
    (is : List FileInfo) (d : Disk) (n : Text) (k : Key)
    → All (IsFileOf d.files) is
    → Pairs Differ is
    → IsEntry n k
    → lookup (key_to_path n k) (drop_files is d).files
      ≡ (if names_entry is n k then none else lookup (key_to_path n k) d.files)
unfolding drop_files drop_file
drop_files-lookup [] d n k h p g = refl
drop_files-lookup (i ∷ is) d n k (h, hs) (o, p) g = ground (
  arith,
  drop_files-lookup is (drop_file i.path i.size d) n k (remove-IsFileOf i d.files is h o hs) p g,
  drop_file-lookup i d.files n k h g,
)

-- The counter is the bytes of the files.
pub record IsCounted (d : Disk) : Type 0 where
  pub files_map : IsMap d.files
  pub counted : d.size ≡ pos (total_bytes d.files)

drop_file-IsCounted :
    (i : FileInfo) (d : Disk)
    → IsFileOf d.files i
    → IsCounted d
    → IsCounted (drop_file i.path i.size d)
unfolding drop_file
drop_file-IsCounted i d h c = record {
  files_map = remove-IsMap i.path d.files c.files_map;
  counted =
      let t = total-remove i.path d.files c.files_map in
      let t' = rw h.found at t in
      omega (int_laws, t', h.sized, ap pos_part c.counted, ap neg_part c.counted);
}

pub drop_files-IsCounted :
    (is : List FileInfo) (d : Disk)
    → All (IsFileOf d.files) is
    → Pairs Differ is
    → IsCounted d
    → IsCounted (drop_files is d)
unfolding drop_files
drop_files-IsCounted [] d h p c = c
drop_files-IsCounted (i ∷ is) d (h, hs) (o, p) c =
    drop_files-IsCounted is (drop_file i.path i.size d)
      (rw drop_file-files (remove-IsFileOf i d.files is h o hs)) p (drop_file-IsCounted i d h c)

-- The files that evictBySize removes, and those that it leaves, from the counter on.
pub victims : ℕ → List FileInfo → ℤ → List FileInfo
victims limit [] size = []
victims limit (i ∷ is) size =
    let rest = victims limit is (size -ℤ pos i.size) in
    if leb_ℤ size (pos limit) then [] else i ∷ rest

pub survivors : ℕ → List FileInfo → ℤ → List FileInfo
survivors limit [] size = []
survivors limit (i ∷ is) size =
    let rest = survivors limit is (size -ℤ pos i.size) in
    if leb_ℤ size (pos limit) then i ∷ is else rest

cons_parts : {x y : FileInfo} {xs ys : List FileInfo} → x ∷ xs ≡ y ∷ ys → (x ≡ y) × (xs ≡ ys)
cons_parts h = (cc, cc)

abbrev pub shrunk : List FileInfo → Disk → Shrunk
shrunk gone d = record { disk = drop_files gone d; evicted = entries gone; errors = [] }

pub victims_none :
    (limit : ℕ) (is : List FileInfo) (size : ℤ)
    → leb_ℤ size (pos limit) ≡ true
    → victims limit is size ≡ []
unfolding victims
victims_none limit [] size h = refl
victims_none limit (i ∷ is) size h = ground arith

module _ (limit : ℕ) where
  pub victims-append :
      (is : List FileInfo) (size : ℤ) → victims limit is size ++ survivors limit is size ≡ is
  unfolding victims survivors
  victims-append [] size = refl
  victims-append (i ∷ is) size = ground (arith, victims-append is (size -ℤ pos i.size))

  pub shrink_lem :
      (is : List FileInfo) (d : Disk) → shrink works limit is d ≡ shrunk (victims limit is d.size) d
  unfolding shrink victims drop_files drop_file
  shrink_lem [] d = refl
  shrink_lem (i ∷ is) d = elim (Bool-cases (leb_ℤ d.size (pos limit))) [
    | inl e ↦ rw e refl
    | inr e ↦ rw (e, shrink_lem is (drop_file i.path i.size d)) refl
  ]

  -- Enough is removed, or nothing is left.
  pub victims_enough :
      (is : List FileInfo) (d : Disk)
      → (leb_ℤ (drop_files (victims limit is d.size) d).size (pos limit) ≡ true)
        ⊎ (survivors limit is d.size ≡ [])
  unfolding victims survivors drop_files drop_file
  victims_enough [] d = inr refl
  victims_enough (i ∷ is) d = elim (Bool-cases (leb_ℤ d.size (pos limit))) [
    | inl e ↦ inl (rw e e)
    | inr e ↦ rw e (victims_enough is (drop_file i.path i.size d))
  ]

  -- Before each removal the size is above the limit.
  pub victims_minimal :
      (is : List FileInfo) (d : Disk) (front : List FileInfo) (x : FileInfo) (back : List FileInfo)
      → victims limit is d.size ≡ front ++ x ∷ back
      → leb_ℤ (drop_files front d).size (pos limit) ≡ false
  unfolding victims drop_files drop_file
  victims_minimal [] d [] x back h = cc
  victims_minimal [] d (y ∷ front) x back h = cc
  victims_minimal (i ∷ is) d [] x back h = ground arith
  victims_minimal (i ∷ is) d (y ∷ front) x back h = elim (Bool-cases (leb_ℤ d.size (pos limit))) [
    | inl e ↦ cc (rw e at h)
    | inr e ↦
        let (head, tail) = cons_parts (rw e at h) in
        rw (← head) (victims_minimal is (drop_file i.path i.size d) front x back tail)
  ]
