-- ===== src/Cache/Disk/State.antt =====
-- What holds of a disk: the counter is the bytes of its files, and files and metadata belong together.
use cachew.Base.{
  ◌+◌, ◌≡◌, refl, ◌&&◌, Option, none, some, [], ◌∷◌, All, Text, length, if◌then◌else◌, is_some,
  Bool-cases, inl, inr, arith, text_eq, text_eq_iff,
}
use cachew.Base.Int.{pos}
use cachew.Base.Assoc.{
  Assoc, IsMap, lookup, insert, remove, lookup-insert, lookup-remove, remove_absent,
}
use cachew.Client.Key.{Key}
use cachew.Cache.Disk.{File, Disk, total_bytes, key_to_path, old_length}
use cachew.Cache.Disk.Meta.{EntryKey, composite_key, get_ttl, get_headers}
use cachew.Cache.Disk.Names.{IsEntry, text_eq-path, text_eq-composite}

-- The file of an entry.
abbrev pub file_of : Text → Key → Disk → Option File
file_of n k d = lookup (key_to_path n k) d.files

-- A key of the database was written for an entry.
abbrev pub IsWritten : {V : Type 0} → Text × V → Type 0
IsWritten p = (e : EntryKey) × IsEntry e.namespace e.key × (p.0 ≡ composite_key e.namespace e.key)

pub record IsSound (d : Disk) : Type 0 where
  pub files_map : IsMap d.files
  pub ttl_map : IsMap d.db.ttl
  pub written : All (λ p. IsWritten p) d.db.ttl
  pub counted : d.size ≡ pos (total_bytes d.files)
  pub timed :
      (n : Text) (k : Key) → IsEntry n k → is_some (get_ttl n k d.db) ≡ is_some (file_of n k d)
  pub described :
      (n : Text) (k : Key) → IsEntry n k → is_some (get_headers n k d.db) ≡ is_some (file_of n k d)

module _ {V : Type 0} where
  pub All-insert :
      (P : Text × V → Type 0) (k : Text) (v : V) (m : Assoc V)
      → P (k, v)
      → All P m
      → All P (insert k v m)
  unfolding insert
  All-insert P k v [] p h = (p, tt)
  All-insert P k v ((j, w) ∷ m) p (h, hs) =
      let rest = All-insert P k v m p hs in
      elim (Bool-cases (text_eq j k)) [ inl e ↦ rw e (p, hs) | inr e ↦ rw e (h, rest) ]

  pub All-remove : (P : Text × V → Type 0) (k : Text) (m : Assoc V) → All P m → All P (remove k m)
  unfolding remove
  All-remove P k [] h = tt
  All-remove P k ((j, w) ∷ m) (h, hs) =
      let rest = All-remove P k m hs in
      elim (Bool-cases (text_eq j k)) [ inl e ↦ rw e rest | inr e ↦ rw e (h, rest) ]

pub total-insert :
    (p : Text) (f : File) (files : Assoc File)
    → total_bytes (insert p f files) + old_length (lookup p files)
      ≡ total_bytes files + length f.bytes
unfolding total_bytes insert lookup
total-insert p f [] = omega arith
total-insert p f ((q, g) ∷ files) = elim (Bool-cases (text_eq q p)) [
  | inl e ↦ rw e (omega arith)
  | inr e ↦ rw e (omega (arith, total-insert p f files))
]

pub total-remove :
    (p : Text) (files : Assoc File)
    → IsMap files
    → total_bytes (remove p files) + old_length (lookup p files) ≡ total_bytes files
unfolding total_bytes remove lookup
total-remove p [] h = omega arith
total-remove p ((q, g) ∷ files) (fresh, h) = elim (Bool-cases (text_eq q p)) [
  | inl e ↦
      let same = (text_eq_iff q p).0 e in
      let gone : remove p files ≡ files = remove_absent p files (rw same at fresh) in
      rw (e, gone) (omega arith)
  | inr e ↦ rw e (omega (arith, total-remove p files h))
]

-- The lookups of an entry after another was written or removed.
module _ (n m : Text) (k j : Key) (h : IsEntry n k) (g : IsEntry m j) where
  pub file-insert :
      (f : File) (files : Assoc File)
      → lookup (key_to_path m j) (insert (key_to_path n k) f files)
        ≡ (if text_eq n m && text_eq k j then some f else lookup (key_to_path m j) files)
  file-insert f files = rw (lookup-insert, text_eq-path n m k j h g) refl

  pub file-remove :
      (files : Assoc File)
      → lookup (key_to_path m j) (remove (key_to_path n k) files)
        ≡ (if text_eq n m && text_eq k j then none else lookup (key_to_path m j) files)
  file-remove files = rw (lookup-remove, text_eq-path n m k j h g) refl

  pub entry-insert :
      {V : Type 0} (v : V) (b : Assoc V)
      → lookup (composite_key m j) (insert (composite_key n k) v b)
        ≡ (if text_eq n m && text_eq k j then some v else lookup (composite_key m j) b)
  entry-insert v b = rw (lookup-insert, text_eq-composite n m k j h g) refl

  pub entry-remove :
      {V : Type 0} (b : Assoc V)
      → lookup (composite_key m j) (remove (composite_key n k) b)
        ≡ (if text_eq n m && text_eq k j then none else lookup (composite_key m j) b)
  entry-remove b = rw (lookup-remove, text_eq-composite n m k j h g) refl
