-- ===== src/Client/Tests.antt =====
-- Conditional and range requests on small inputs.
use mathlib.Core.List.{Mem}
use cachew.Base.{
  ℕ, ◌&&◌, ◌||◌, leb, ltb, ◌≡◌, ◌↔◌, refl, true, false, none, some, [], ◌∷◌, Text, codes, All,
  arith,
}
use cachew.Base.Int.{pos}
use cachew.Client.Etag.{validate_raw_etag, check_chars, is_raw_etag_char}
use cachew.Client.Etag.Laws.{IsTag, quoted}
use cachew.Client.Options.{no_options, check, not_modified, precondition_failed, if_range_misses}
use cachew.Client.Options.Laws.{both_lists, check_lists}
use cachew.Client.Buffer.{Coverage, extend_locked}
use cachew.Client.Buffer.Laws.{covered, IsApart, extend_locked_lem}
use cachew.Base.{zero, suc, ◌≤◌, ◌≢◌}
use cachew.Base.Arrays.{values, get_elem?-values}
use cachew.Client.Buffer.Ring.{
  StreamBuffer, new_stream_buffer, Wrote, wrote, store, write_some, write_at, Got, panics, eof,
  read,
}
use cachew.Client.Buffer.Ring.Pages.{Agrees}
use cachew.Client.Buffer.Ring.Stream.{Run, read_lem}
use cachew.Client.Buffer.Ring.Finish.{Takes, write_at_lem}
use cachew.Client.Parallel.{
  new_dispatch_gate, admits, complete, num_chunks, chunk_range, max_int64, validate_parallel_params,
}
use cachew.Client.Parallel.Gate.{Refines, with_chunk, new-Refines, complete-Refines}
use cachew.Base.{List, ◌-◌, ◌++◌, subst, ap}
use cachew.Base.Decimal.{format_nat}
use cachew.Http.{Header}
use cachew.Base.{◌+◌, ◌*◌}
use cachew.Base.{◌<◌}
use cachew.Client.Parallel.Bounds.{window_bound}
use cachew.Client.Parallel.Fetch.{Reply, Server, fetch_chunk}
use cachew.Client.Parallel.Fetch.Laws.{IsPinned, IsFetch, fetch_chunk-IsFetch}
use cachew.Client.Parallel.Download.{
  Download, new_download, dispatch, update, write, finish, chunk_end, History,
}
use cachew.Client.Parallel.Download.Result.{download_lem, write_fits}
use cachew.Client.ByteRange.{range, resolve_range}
use cachew.Client.ByteRange.Laws.{IsWindow, resolve_range-IsWindow, clip, resolve_range-range}

abbrev tag_a : Text
tag_a = codes "v1"

abbrev tag_b : Text
tag_b = codes "v2-abc"

tags-IsTag : All IsTag (tag_a ∷ tag_b ∷ [])
unfolding validate_raw_etag check_chars is_raw_etag_char
tags-IsTag = (refl, (refl, tt))

tag_b-IsTag : All IsTag (tag_b ∷ [])
unfolding validate_raw_etag check_chars is_raw_etag_char
tag_b-IsTag = (refl, tt)

check_lists_example :
    ((check (both_lists tag_a (tag_b ∷ []) tag_b []) (quoted tag_a) ≡ none)
      ↔ (Mem tag_a (tag_a ∷ tag_b ∷ []) × (¬ Mem tag_a (tag_b ∷ []))))
    × ((check (both_lists tag_a (tag_b ∷ []) tag_b []) (quoted tag_a) ≡ some not_modified)
        ↔ (Mem tag_a (tag_a ∷ tag_b ∷ []) × Mem tag_a (tag_b ∷ [])))
    × ((check (both_lists tag_a (tag_b ∷ []) tag_b []) (quoted tag_a) ≡ some precondition_failed)
        ↔ (¬ Mem tag_a (tag_a ∷ tag_b ∷ [])))
check_lists_example = check_lists tag_a tag_a (tag_b ∷ []) tag_b [] tags-IsTag tag_b-IsTag

resolve_range-IsWindow_example : IsWindow 10 (resolve_range (range 2 (pos 5) no_options) 10 tag_a)
resolve_range-IsWindow_example = resolve_range-IsWindow (range 2 (pos 5) no_options) 10 tag_a

no_miss : if_range_misses (range 2 (pos 5) no_options) tag_a ≡ false
unfolding if_range_misses range
no_miss = ground arith

resolve_range-range_example :
    resolve_range (range 2 (pos 5) no_options) 10 tag_a ≡ clip 2 (pos 5) 10
resolve_range-range_example =
    resolve_range-range 2 (pos 5) no_options 10 tag_a (omega arith, omega arith) no_miss

abbrev gap : Coverage
gap = record { frontier = 4; pending = record { start = 8; end = 12 } ∷ [] }

extend_locked_lem_example :
    ((x : ℕ) → covered (extend_locked gap 4 8) x ≡ (covered gap x || (leb 4 x && ltb x 8)))
    × IsApart (extend_locked gap 4 8)
extend_locked_lem_example = extend_locked_lem gap 4 8 (omega arith)

-- An object of four bytes, each its own offset, in two chunks of two.
abbrev object : ℕ → ℕ
object i = i

first_bytes : Agrees object (0 ∷ 1 ∷ []) 0
first_bytes zero h = refl
first_bytes (suc zero) h = refl
first_bytes (suc (suc i)) h = absurd (omega (arith, h))

second_bytes : Agrees object (2 ∷ 3 ∷ []) 2
second_bytes zero h = refl
second_bytes (suc zero) h = refl
second_bytes (suc (suc i)) h = absurd (omega (arith, h))

abbrev buffer : StreamBuffer
buffer = new_stream_buffer 2 2

-- The first two bytes are written, and read.
abbrev half : StreamBuffer
half = (write_some buffer (0 ∷ 1 ∷ []) 0).1

half-Run : Run object half []
unfolding new_stream_buffer
half-Run = Run.writes (0 ∷ 1 ∷ []) 0 (Run.starts 2 2 (omega arith)) (omega arith) first_bytes

read_lem_example :
    ([] ≡ values object 0 half.read_off)
    × ((read half 8).0 ≢ panics)
    × ((read half 8).0 ≡ Got.fails eof → (x : ℕ) → covered half.coverage x ≡ ltb x half.read_off)
read_lem_example = read_lem object 8 half-Run

buffer-Takes : Takes buffer 4
unfolding new_stream_buffer
buffer-Takes = record { paged = omega arith; writable = refl; reach = λ x h. omega (arith, h) }

write_at_lem_example :
    ((write_at 4 buffer (0 ∷ 1 ∷ 2 ∷ 3 ∷ []) 0 0).0 ≡ wrote 4)
    × ((x : ℕ)
        → covered (write_at 4 buffer (0 ∷ 1 ∷ 2 ∷ 3 ∷ []) 0 0).1.coverage x
          ≡ (covered buffer.coverage x || (leb 0 x && ltb x 4)))
write_at_lem_example = write_at_lem 4 buffer (0 ∷ 1 ∷ 2 ∷ 3 ∷ []) 0 0 (omega arith) buffer-Takes

complete-Refines_example :
    ((complete (new_dispatch_gate 4) 0).1 ≡ true)
    × Refines (complete (new_dispatch_gate 4) 0).0 (with_chunk (λ s. false) 0)
    × ((complete (new_dispatch_gate 4) 0).0.window ≡ (new_dispatch_gate 4).window)
    × ((new_dispatch_gate 4).low ≤ (complete (new_dispatch_gate 4) 0).0.low)
unfolding admits new_dispatch_gate
complete-Refines_example =
    complete-Refines (new_dispatch_gate 4) (λ s. false) 0 (new-Refines 4 (omega arith)) refl refl

abbrev both_dispatched : Download
both_dispatched = dispatch 2 (dispatch 2 (new_download 2 2) 0) 1

dispatched_run : History object 4 2 both_dispatched []
unfolding new_download dispatch update admits num_chunks new_dispatch_gate
dispatched_run =
    History.dispatches 1
      (History.dispatches 0 (History.starts 2 (omega arith) (omega arith) (omega arith)) refl
        (omega arith) refl)
      refl (omega arith) refl

write_fits_example : (write_some both_dispatched.buffer (2 ∷ []) 2).0 ≢ Wrote.waits
unfolding new_download dispatch update chunk_end chunk_range new_stream_buffer
write_fits_example = write_fits object 4 2 1 2 2 [] dispatched_run refl (omega arith) (omega arith)

-- The second chunk is written and complete before the first.
abbrev all_complete : Download
all_complete = finish (finish (write (write both_dispatched 1 2 (2 ∷ 3 ∷ [])) 0 0 (0 ∷ 1 ∷ [])) 1) 0

complete_run : History object 4 2 all_complete []
unfolding new_download dispatch update write finish chunk_end chunk_range new_stream_buffer
    write_some store
complete_run =
    History.completes 0
      (History.completes 1
        (History.writes 0 0 0 (1 ∷ [])
          (History.writes 1 2 2 (3 ∷ []) dispatched_run refl (omega arith) second_bytes) refl
          (omega arith) first_bytes)
        refl)
      refl

download_lem_example :
    ([] ≡ values object 0 all_complete.buffer.read_off)
    × ((read all_complete.buffer 8).0 ≢ panics)
    × ((read all_complete.buffer 8).0 ≡ Got.fails eof → [] ≡ values object 0 4)
download_lem_example = download_lem object 4 2 8 complete_run

-- A server that breaks off its first response after a byte, and then answers in full.
abbrev range_header : ℕ → Header
range_header start =
    (codes "Content-Range", (codes "bytes " ++ format_nat start ++ codes "-") ∷ [])
    ∷ (codes "Etag", tag_a ∷ [])
    ∷ []

abbrev breaking : Server
breaking zero start end =
    Reply.replied (range_header start) (record { bytes = values object start 1; fails = true })
breaking (suc t) start end =
    Reply.replied (range_header start)
      (record { bytes = values object start (end - start); fails = false })

bytes_of_reply : Reply → List ℕ
bytes_of_reply (Reply.refused e) = []
bytes_of_reply (Reply.replied h body) = body.bytes

breaking-IsPinned : IsPinned object breaking tag_a
unfolding bytes_of_reply
breaking-IsPinned zero start end h body e ranged same =
    subst (λ p. Agrees object p start) (ap bytes_of_reply e) (get_elem?-values object start 1)
breaking-IsPinned (suc t) start end h body e ranged same =
    subst (λ p. Agrees object p start) (ap bytes_of_reply e)
      (get_elem?-values object start (end - start))

fetch_chunk-IsFetch_example :
    IsFetch object 2 4 16 (fetch_chunk breaking tag_a (λ left. true) 2 4 none 3 0)
fetch_chunk-IsFetch_example =
    fetch_chunk-IsFetch object breaking tag_a breaking-IsPinned (λ left. true) 2 4 3 0 none
      (omega arith) tt

window_bound_example :
    (2 * 4 * 8 ≤ max_int64)
    × (num_chunks 20 8 ≤ max_int64)
    × (2 * 8 + 8 ≤ max_int64)
    × ((chunk_range 20 8 2).0 < (chunk_range 20 8 2).1)
    × ((chunk_range 20 8 2).1 ≤ 20)
unfolding validate_parallel_params num_chunks
window_bound_example =
    window_bound 8 4 20 2 refl (omega arith) (omega arith) (omega arith) (omega arith)
