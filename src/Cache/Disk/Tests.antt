-- ===== src/Cache/Disk/Tests.antt =====
-- The disk cache on small inputs.
use cachew.Base.{
  ℕ, ◌≡◌, refl, Bool, true, false, some, List, [], ◌∷◌, Text, codes, leb, leb→le, text_eq, inr,
  arith,
}
use cachew.Base.Int.{pos, ◌+ℤ◌, ◌-ℤ◌}
use cachew.Base.Assoc.{lookup, insert, remove}
use cachew.Base.Strings.{cut}
use cachew.Cache.Disk.Meta
use cachew.Base.Pairs.{sort-perm, sort-Pairs, Pairs-map, InOrder}
use cachew.Base.Sort.{sort}
use cachew.Client.Key.{Key, validate_namespace, key_string, hex_decode, unmarshal_text}
use cachew.Cache.Memory
use cachew.Cache.Memory.{Entry, Store, find}
use cachew.Cache.Disk.{
  DiskConfig, Disk, View, Writer, Fails, io, os_rename, works, key_to_path, new_disk, total_bytes,
  commit_locked, close_writer,
}
use cachew.Cache.Disk.Open.{open_entry, stat}
use cachew.Cache.Disk.Meta.{composite_key, decode_key, walk, get_ttl, get_headers}
use cachew.Cache.Disk.Names.{IsEntry, decode_key-composite_key}
use cachew.Cache.Disk.State.{file_of, IsSound}
use cachew.Cache.Disk.Laws.{file_from}
use cachew.Cache.Disk.Served.{close_writer_open}
use cachew.Cache.Disk.Agree.{Alike, SameRead, SameStat, reads-memory}
use cachew.Cache.Disk.History.{
  Event, closing, deleting, opening, evicting, run, run-IsSound, close_writer_rename,
}
use cachew.Cache.Disk.Evict.{FileInfo, Sorter, evict}
use cachew.Cache.Disk.Evict.Evicts.{evict-Evicts}
use cachew.Cache.Disk.Evict.Contract.{Evicts, IsSort, NoLater}

abbrev git : Text
git = codes "git"

abbrev eight : ℕ → Key → Key
eight b k = b ∷ b ∷ b ∷ b ∷ b ∷ b ∷ b ∷ b ∷ k

abbrev key_of : ℕ → Key
key_of b = eight b (eight b (eight b (eight b [])))

git-IsEntry : IsEntry git (key_of 7)
unfolding validate_namespace
git-IsEntry = record { named = inr refl; keyed = record { size = refl; bytes = omega arith } }

abbrev digest : Text → Key
digest t = key_of 0

decode_key-composite_key_example :
    decode_key digest (composite_key git (key_of 7))
    ≡ some (record { namespace = git; key = key_of 7 })
decode_key-composite_key_example = decode_key-composite_key digest git (key_of 7) git-IsEntry

abbrev writer : Writer
writer = record {
  namespace = git;
  key = key_of 7;
  written = 1 ∷ 2 ∷ [];
  mod_time = 3;
  size = 2;
  expires_at = 20;
  headers = [];
  cancelled_ctx = false;
  closed = false;
}

abbrev config : DiskConfig
config = record { limit_mb = 1; max_ttl = 60 }

abbrev view : View
view = record { config = config; namespace = git }

abbrev empty : Disk
empty = new_disk [] [] []

empty-IsSound : IsSound empty
unfolding new_disk lookup get_ttl get_headers
empty-IsSound = record {
  files_map = tt;
  ttl_map = tt;
  written = tt;
  counted = refl;
  timed = λ n k g. refl;
  described = λ n k g. refl;
}

le_access : FileInfo → FileInfo → Bool
le_access i j = leb i.accessed_at j.accessed_at

by_access : Sorter
by_access = sort le_access

by_access-IsSort : IsSort by_access
unfolding by_access le_access
by_access-IsSort = record {
  permutes = sort-perm le_access;
  orders = λ is.
      Pairs-map (InOrder le_access) NoLater (λ x y h. leb→le x.accessed_at y.accessed_at h)
        (by_access is)
        (sort-Pairs le_access (λ x y z h g. ground arith) (λ x y h. ground arith) is);
}

abbrev events : List Event
events =
    closing writer
    ∷ opening view 5 (key_of 7) []
    ∷ evicting by_access config 9
    ∷ deleting view 10 (key_of 7) []
    ∷ []

run-IsSound_example : IsSound (run digest events empty)
run-IsSound_example =
    run-IsSound digest events empty
      ((git-IsEntry, refl), (git-IsEntry, (by_access-IsSort, (git-IsEntry, tt)))) empty-IsSound

abbrev filled : Disk
filled = run digest (closing writer ∷ []) empty

filled-IsSound : IsSound filled
filled-IsSound =
    run-IsSound digest (closing writer ∷ []) empty ((git-IsEntry, refl), tt) empty-IsSound

evict-Evicts_example :
    ((evict digest works by_access config 21 filled).1 ≡ [])
    × Evicts config 21 filled (evict digest works by_access config 21 filled).0
evict-Evicts_example =
    evict-Evicts digest by_access by_access-IsSort config 21 filled filled-IsSound

-- The file of the entry that has expired is removed, and the counter is back at zero.
evicted_files :
    ((evict digest works by_access config 21 filled).0.files ≡ [])
    × ((evict digest works by_access config 21 filled).0.size ≡ pos 0)
unfolding evict run close_writer commit_locked new_disk by_access lookup insert remove key_to_path
    key_string composite_key text_eq cut hex_decode unmarshal_text sort ◌+ℤ◌ ◌-ℤ◌ Meta.set walk
evicted_files = (refl, refl)

close_writer_open_example :
    ((close_writer works writer empty).2 ≡ [])
    × ((open_entry works view 5 (key_of 7) [] (close_writer works writer empty).1).1.body
        ≡ some (1 ∷ 2 ∷ []))
    × ((open_entry works view 9
          (key_of 7)
          []
          (open_entry works view 5 (key_of 7) [] (close_writer works writer empty).1).0).1.body
        ≡ some (1 ∷ 2 ∷ []))
    × ((close_writer works
          (close_writer works writer empty).0
          (close_writer works writer empty).1).1
        ≡ (close_writer works writer empty).1)
close_writer_open_example =
    close_writer_open writer view empty git-IsEntry refl 5 9 refl refl (omega arith) (omega arith)
      (omega arith)

abbrev stored : Disk
stored = record empty {
  files = (key_to_path git (key_of 7), record { bytes = 1 ∷ 2 ∷ []; mod_time = 3 }) ∷ [];
  db = record {
    ttl = (composite_key git (key_of 7), 20) ∷ [];
    headers = (composite_key git (key_of 7), []) ∷ [];
    namespaces_cache = [];
  };
}

abbrev entry : Entry
entry = record { bytes = 1 ∷ 2 ∷ []; expires_at = 20; headers = [] }

abbrev store : Store
store = record { entries = (git, (codes "k", entry) ∷ []) ∷ []; current_size = pos 2 }

abbrev memory_view : Memory.View
memory_view = record {
  config = record { limit_mb = 1; max_ttl = 60 };
  namespace = git;
  open_view = true;
}

stored-Alike : Alike git (key_of 7) stored (find store.entries git (codes "k"))
unfolding lookup text_eq get_ttl get_headers key_to_path composite_key key_string find
stored-Alike = (3, record { file = refl; ttl = refl; headers = refl })

reads-memory_example :
    SameRead
      (open_entry works view 5 (key_of 7) [] stored).1
      (Memory.open_entry memory_view store 5 (codes "k") [])
    × SameStat
        (stat works view 5 (key_of 7) [] stored).1
        (Memory.stat memory_view store 5 (codes "k") [])
reads-memory_example =
    reads-memory view memory_view refl 5 (key_of 7) (codes "k") [] stored store stored-Alike

no_rename : Fails
no_rename os_rename path = true
no_rename c path = false

filled_file : file_of git (key_of 7) filled ≡ some (file_from writer)
unfolding run close_writer commit_locked new_disk lookup insert key_to_path key_string composite_key
    text_eq Meta.set
filled_file = refl

close_writer_rename_example :
    ((close_writer no_rename writer filled).2 ≡ io os_rename ∷ [])
    × ((close_writer no_rename writer filled).1.files ≡ filled.files)
    × ((close_writer no_rename writer filled).1.size +ℤ pos 2
        ≡ pos (total_bytes (close_writer no_rename writer filled).1.files))
unfolding no_rename
close_writer_rename_example =
    close_writer_rename no_rename writer filled (file_from writer) (refl, refl, refl, refl) refl
      refl filled_file filled-IsSound
