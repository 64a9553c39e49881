-- ===== src/Cache/Disk/History.antt =====
-- Histories of the disk cache: what every operation keeps, and a failure that the counter does not
-- survive.
use cachew.Base.{
  ℕ, ◌≡◌, refl, ap, true, false, some, List, [], ◌∷◌, All, Text, length, Bool-cases, inl, inr,
  arith,
}
use cachew.Base.Int.{pos, ◌+ℤ◌, ◌-ℤ◌, pos_part, neg_part, int_laws}
use cachew.Client.Key.{Key}
use cachew.Client.Options.{RequestOption}
use cachew.Cache.Disk.{
  DiskConfig, File, Disk, View, Writer, Fails, io, os_rename, os_stat, file_close, mkdir, works,
  key_to_path, total_bytes, commit_locked, close_writer, delete,
}
use cachew.Cache.Disk.Open.{stat, open_entry}
use cachew.Cache.Disk.Names.{IsEntry}
use cachew.Cache.Disk.State.{file_of, IsSound}
use cachew.Cache.Disk.Laws.{IsFull, close_writer_lem, committed-IsSound}
use cachew.Cache.Disk.Reads.{open-IsSound, stat-IsSound, delete-IsSound}
use cachew.Cache.Disk.Evict.{Sorter, evict}
use cachew.Cache.Disk.Evict.Evicts.{evict-Evicts}
use cachew.Cache.Disk.Evict.Contract.{IsSort}

-- An operation on a disk, with its arguments.
pub data Event : Type 0 where
  closing : Writer → Event
  deleting opening statting : View → ℕ → Key → List RequestOption → Event
  evicting : Sorter → DiskConfig → ℕ → Event

module _ (sha256 : Text → Key) where
  unfoldable pub happen : Event → Disk → Disk
  happen (closing w) d = (close_writer works w d).1
  happen (deleting v now k opts) d = (delete works v now k d).0
  happen (opening v now k opts) d = (open_entry works v now k opts d).0
  happen (statting v now k opts) d = (stat works v now k opts d).0
  happen (evicting by_access config now) d = (evict sha256 works by_access config now d).0

  unfoldable pub run : List Event → Disk → Disk
  unfolding happen
  run [] d = d
  run (e ∷ es) d = run es (happen e d)

-- The names are those of views and keys, a writer counts its bytes, and a sort sorts.
abbrev pub IsFit : Event → Type 0
IsFit (closing w) = IsEntry w.namespace w.key × IsFull w
IsFit (deleting v now k opts) = IsEntry v.namespace k
IsFit (opening v now k opts) = IsEntry v.namespace k
IsFit (statting v now k opts) = IsEntry v.namespace k
IsFit (evicting by_access config now) = IsSort by_access

close-IsSound :
    (w : Writer) (d : Disk)
    → IsEntry w.namespace w.key
    → IsFull w
    → IsSound d
    → IsSound (close_writer works w d).1
close-IsSound w d g full s = elim (Bool-cases w.closed) [
  | inl p ↦ unfold close_writer in rw p s
  | inr p ↦ elim (Bool-cases w.cancelled_ctx) [
    | inl q ↦ unfold close_writer in rw (p, q) s
    | inr q ↦ rw (close_writer_lem w d p q) (committed-IsSound w d g full s)
  ]
]

module _ (sha256 : Text → Key) where
  happen-IsSound : (e : Event) (d : Disk) → IsFit e → IsSound d → IsSound (happen sha256 e d)
  unfolding happen
  happen-IsSound (closing w) d (g, full) s = close-IsSound w d g full s
  happen-IsSound (deleting v now k opts) d g s = delete-IsSound v now k opts d g s
  happen-IsSound (opening v now k opts) d g s = open-IsSound v now k opts d g s
  happen-IsSound (statting v now k opts) d g s = stat-IsSound v now k opts d g s
  happen-IsSound (evicting by_access config now) d sorts s =
      (evict-Evicts sha256 by_access sorts config now d s).1.sound

  -- In any history of Close, Delete, Open, Stat and evict with working calls and valid names,
  -- from a sound disk: the counter is the bytes of the files, and every entry has a file, an
  -- expiry and headers, or none of them.
  pub run-IsSound :
      (events : List Event) (d : Disk)
      → All IsFit events
      → IsSound d
      → IsSound (run sha256 events d)
  unfolding run
  run-IsSound [] d h s = s
  run-IsSound (e ∷ events) d (h, hs) s =
      run-IsSound events (happen sha256 e d) hs (happen-IsSound e d h s)

-- The calls of a Close up to the rename work, and the rename does not.
abbrev pub RenameFails : Fails → Text → Type 0
RenameFails fails path =
    (fails os_rename path ≡ true)
    × (fails os_stat path ≡ false)
    × (fails file_close path ≡ false)
    × (fails mkdir path ≡ false)

module _ (fails : Fails) (w : Writer) (d : Disk) (f : File)
    (calls : RenameFails fails (key_to_path w.namespace w.key)) (is_open : w.closed ≡ false)
    (going : w.cancelled_ctx ≡ false) (found : file_of w.namespace w.key d ≡ some f) where
  close_writer_failed : close_writer fails w d ≡ (
    record w { closed = true },
    record d { size = d.size -ℤ pos (length f.bytes) },
    io os_rename ∷ [],
  )
  unfolding close_writer commit_locked
  close_writer_failed = ground arith

  -- When only the rename fails in a Close that replaces a file of a sound disk, by a writer
  -- neither closed nor cancelled, the error is reported and the files are as before, but the
  -- counter falls short of them by the length of that file.
  pub close_writer_rename :
      IsSound d
      → ((close_writer fails w d).2 ≡ io os_rename ∷ [])
        × ((close_writer fails w d).1.files ≡ d.files)
        × ((close_writer fails w d).1.size +ℤ pos (length f.bytes)
            ≡ pos (total_bytes (close_writer fails w d).1.files))
  close_writer_rename s =
      rw close_writer_failed
        (refl, refl, omega (int_laws, ap pos_part s.counted, ap neg_part s.counted))
