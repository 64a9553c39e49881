-- ===== src/Cache/Disk/Laws.antt =====
-- What the operations of the disk cache do to a disk that is sound, when the calls work.
use cachew.Base.{
  ℕ, ◌≡◌, refl, ap, true, false, ◌&&◌, none, some, List, [], ◌∷◌, Text, length, take, length-append,
  length-take, if◌then◌else◌, arith, text_eq,
}
use cachew.Base.Int.{pos, ◌+ℤ◌, ◌-ℤ◌, pos_part, neg_part, int_laws}
use cachew.Base.Assoc.{insert, remove, insert-IsMap, remove-IsMap}
use cachew.Client.Key.{Key}
use cachew.Cache.Short.{not_exist}
use cachew.Cache.Disk.{
  File, Disk, View, Writer, works, cache, key_to_path, old_length, is_expired, write, commit_locked,
  close_writer, delete,
}
use cachew.Cache.Disk.Meta
use cachew.Cache.Disk.Meta.{MetaDb, composite_key, get_ttl, get_headers}
use cachew.Cache.Disk.Names.{IsEntry}
use cachew.Cache.Disk.State.{
  file_of, IsWritten, IsSound, All-insert, All-remove, total-insert, total-remove, file-insert,
  file-remove, entry-insert, entry-remove,
}

-- The file that a writer commits.
abbrev pub file_from : Writer → File
file_from w = record { bytes = w.written; mod_time = w.mod_time }

-- The disk after a Close that commits.
unfoldable pub committed : Writer → Disk → Disk
committed w d = record {
  files = insert (key_to_path w.namespace w.key) (file_from w) d.files;
  db = Meta.set w.key w.namespace w.expires_at w.headers d.db;
  size = d.size -ℤ pos (old_length (file_of w.namespace w.key d)) +ℤ pos w.size;
}

pub close_writer_lem :
    (w : Writer) (d : Disk)
    → w.closed ≡ false
    → w.cancelled_ctx ≡ false
    → close_writer works w d ≡ (record w { closed = true }, committed w d, [])
unfolding close_writer commit_locked committed
close_writer_lem w d p q = rw (p, q) refl

-- A writer counts what its file has.
abbrev pub IsFull : Writer → Type 0
IsFull w = w.size ≡ length w.written

pub write-IsFull :
    (w : Writer) (now accepted : ℕ) (p : List ℕ) → IsFull w → IsFull (write w now accepted p).0
unfolding write
write-IsFull w now accepted p h =
    omega (arith, h, length-append {0} w.written (take accepted p), length-take {0} accepted p)

module _ (w : Writer) (d : Disk) (n : Text) (k : Key) (h : IsEntry w.namespace w.key)
    (g : IsEntry n k) where
  -- What an entry has after a commit.
  pub committed-lookup :
      (file_of n k (committed w d)
        ≡ (if text_eq w.namespace n && text_eq w.key k then some (file_from w) else file_of n k d))
      × (get_ttl n k (committed w d).db ≡ (
          if text_eq w.namespace n && text_eq w.key k then some w.expires_at else get_ttl n k d.db))
      × (get_headers n k (committed w d).db ≡ (
          if text_eq w.namespace n && text_eq w.key k
          then some w.headers
          else get_headers n k d.db))
  unfolding committed get_ttl get_headers Meta.set
  committed-lookup = (
    file-insert w.namespace n w.key k h g (file_from w) d.files,
    entry-insert w.namespace n w.key k h g w.expires_at d.db.ttl,
    entry-insert w.namespace n w.key k h g w.headers d.db.headers,
  )

pub committed-IsSound :
    (w : Writer) (d : Disk)
    → IsEntry w.namespace w.key
    → IsFull w
    → IsSound d
    → IsSound (committed w d)
committed-IsSound w d h full s = record {
  files_map = unfold committed in insert-IsMap _ _ d.files s.files_map;
  ttl_map = unfold committed Meta.set in insert-IsMap _ _ d.db.ttl s.ttl_map;
  written =
      unfold committed Meta.set in
      All-insert (λ p. IsWritten p) (composite_key w.namespace w.key) w.expires_at d.db.ttl
        (record { namespace = w.namespace; key = w.key }, h, refl) s.written;
  counted =
      unfold committed in
      omega (
        int_laws,
        total-insert (key_to_path w.namespace w.key) (file_from w) d.files,
        full,
        ap pos_part s.counted,
        ap neg_part s.counted,
      );
  timed = λ n k g. ground (arith, committed-lookup w d n k h g, s.timed n k g);
  described = λ n k g. ground (arith, committed-lookup w d n k h g, s.described n k g);
}

-- The disk after a Delete of an entry with a file.
unfoldable pub without : Text → Key → File → Disk → Disk
without n k f d = record {
  files = remove (key_to_path n k) d.files;
  db = Meta.delete n k d.db;
  size = d.size -ℤ pos (length f.bytes);
}

module _ (v : View) (now : ℕ) (key : Key) (d : Disk) where
  pub delete_hit :
      (f : File)
      → file_of v.namespace key d ≡ some f
      → delete works v now key d ≡ (
        without v.namespace key f d,
        if is_expired now (get_ttl v.namespace key d.db) then cache not_exist ∷ [] else [],
      )
  unfolding delete without
  delete_hit f found = ground arith

  pub delete_miss :
      file_of v.namespace key d ≡ none → delete works v now key d ≡ (d, cache not_exist ∷ [])
  unfolding delete
  delete_miss absent = ground arith

module _ (n : Text) (k : Key) (f : File) (d : Disk) (h : IsEntry n k) where
  pub without-lookup :
      (m : Text) (j : Key)
      → IsEntry m j
      → (file_of m j (without n k f d)
          ≡ (if text_eq n m && text_eq k j then none else file_of m j d))
        × (get_ttl m j (without n k f d).db
            ≡ (if text_eq n m && text_eq k j then none else get_ttl m j d.db))
        × (get_headers m j (without n k f d).db
            ≡ (if text_eq n m && text_eq k j then none else get_headers m j d.db))
  unfolding without get_ttl get_headers Meta.delete
  without-lookup m j g = (
    file-remove n m k j h g d.files,
    entry-remove n m k j h g d.db.ttl,
    entry-remove n m k j h g d.db.headers,
  )

  pub without-IsSound : file_of n k d ≡ some f → IsSound d → IsSound (without n k f d)
  without-IsSound found s = record {
    files_map = unfold without in remove-IsMap _ d.files s.files_map;
    ttl_map = unfold without Meta.delete in remove-IsMap _ d.db.ttl s.ttl_map;
    written =
        unfold without Meta.delete in
        All-remove (λ p. IsWritten p) (composite_key n k) d.db.ttl s.written;
    counted =
        let t = rw found at (total-remove (key_to_path n k) d.files s.files_map) in
        unfold without in omega (int_laws, t, ap pos_part s.counted, ap neg_part s.counted);
    timed = λ m j g. ground (arith, without-lookup m j g, s.timed m j g);
    described = λ m j g. ground (arith, without-lookup m j g, s.described m j g);
  }
