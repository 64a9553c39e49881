-- ===== src/Client/Buffer/Ring/Stream.antt =====
-- The stream that Read gives: the bytes of the object, in order, and all of them at its end.
use cachew.Base.{
  ℕ, zero, suc, ◌+◌, ◌-◌, ◌*◌, ◌/◌, ◌%◌, min, max, ◌≤◌, ◌<◌, ◌≡◌, ◌≢◌, refl, sym, ap, ◌∙◌, ◌⊎◌,
  true, false, Option, none, some, List, [], ◌++◌, length, ltb, append-nil, inl, inr, arith,
}
use mathlib.Core.Bool.{false≢true}
use cachew.Base.Arrays.{get_elem?, replicate, length-replicate, values, values-append}
use cachew.Client.Buffer.{Coverage, is_none_pending}
use cachew.Client.Buffer.Laws.{covered, IsApart, extend_locked_lem}
use cachew.Client.Buffer.Proper.{IsProper, extend_locked-IsProper}
use cachew.Client.Buffer.Ring.{
  StreamBuffer, eof, new_stream_buffer, page_of, store, write_some, Got, got, panics, read, emit,
  read_page, read_end, close_write, close,
}
use cachew.Client.Buffer.Ring.Store.{store-IsKept}
use cachew.Client.Buffer.Ring.Pages.{IsKept, Agrees, read_bytes, move-IsKept, flags-IsKept}

abbrev pub bytes_of : Got → List ℕ
bytes_of (got bytes) = bytes
bytes_of _ = []

module _ (content : ℕ → ℕ) where
  -- The histories of a buffer: writes of bytes of the object at offsets that are past the frontier,
  -- reads, and the two closes, with what the reads have given so far.
  pub data Run : StreamBuffer → List ℕ → Type 0 where
    starts :
        (chunk_size concurrency : ℕ)
        → 0 < chunk_size
        → Run (new_stream_buffer chunk_size concurrency) []
    writes :
        {s : StreamBuffer} {out : List ℕ} (p : List ℕ) (off : ℕ)
        → Run s out
        → s.coverage.frontier ≤ off
        → Agrees content p off
        → Run (write_some s p off).1 out
    reads :
        {s : StreamBuffer} {out : List ℕ} (len : ℕ)
        → Run s out
        → Run (read s len).1 (out ++ bytes_of (read s len).0)
    write_ends :
        {s : StreamBuffer} {out : List ℕ} (err : Option ℕ) → Run s out → Run (close_write s err) out
    read_ends : {s : StreamBuffer} {out : List ℕ} → Run s out → Run (close s) out

  pub record IsStream (s : StreamBuffer) (out : List ℕ) : Type 0 where
    kept : IsKept content s
    pub apart : IsApart s.coverage
    pub proper : IsProper s.coverage.pending
    given : out ≡ values content 0 s.read_off
    pub honest : s.err ≢ some eof
    whole : s.closed ≡ true → s.err ≡ none → is_none_pending s.coverage.pending ≡ true

  blank : (n i : ℕ) → page_of (get_elem? (replicate n none) i) ≡ none
  unfolding page_of
  blank zero i = refl
  blank (suc n) zero = refl
  blank (suc n) (suc i) = blank n i

  new-IsStream :
      (chunk_size concurrency : ℕ)
      → 0 < chunk_size
      → IsStream (new_stream_buffer chunk_size concurrency) []
  unfolding new_stream_buffer page_of
  new-IsStream chunk_size concurrency pos =
      let n = 2 * max concurrency 1 in
      record {
        kept = record {
          paged = pos;
          slots = omega arith;
          ring = length-replicate n none;
          sizes = λ i page e. cc (blank n i);
          emitted = omega arith;
          window = λ x c. ground arith;
          kept = λ x c far. ground arith;
        };
        apart = tt;
        proper = tt;
        given = refl;
        honest = λ e. cc;
        whole = λ c e. refl;
      }

  -- A write changes nothing, or stores bytes at an offset in the window while the buffer is open.
  write_cases :
      (s : StreamBuffer) (p : List ℕ) (off : ℕ)
      → ((write_some s p off).1 ≡ s)
        ⊎ ((off / s.chunk_size < s.read_off / s.chunk_size + s.n)
            × (s.closed ≡ false)
            × ((write_some s p off).1
                ≡ store s p off (min (length p) (s.chunk_size - off % s.chunk_size))))
  unfolding write_some
  write_cases s p off = ground arith

  store_open :
      (s : StreamBuffer) (p : List ℕ) (off n : ℕ)
      → ((store s p off n).read_off ≡ s.read_off)
        × ((store s p off n).closed ≡ s.closed)
        × ((store s p off n).err ≡ s.err)
  unfolding store
  store_open s p off n = (refl, refl, refl)

  store-IsApart : (s : StreamBuffer) (p : List ℕ) (off n : ℕ) → IsApart (store s p off n).coverage
  unfolding store
  store-IsApart s p off n = (extend_locked_lem s.coverage off (off + n) (omega arith)).1

  store-IsProper :
      (s : StreamBuffer) (p : List ℕ) (off n : ℕ)
      → IsProper s.coverage.pending
      → IsProper (store s p off n).coverage.pending
  unfolding store
  store-IsProper s p off n h = extend_locked-IsProper s.coverage off (off + n) (omega arith) h

  write-IsStream :
      (s : StreamBuffer) (out p : List ℕ) (off : ℕ)
      → s.coverage.frontier ≤ off
      → Agrees content p off
      → IsStream s out
      → IsStream (write_some s p off).1 out
  write-IsStream s out p off fresh agrees h = elim (write_cases s p off) [
    | inl same ↦ rw same h
    | inr (here, open_, e) ↦
        let n = min (length p) (s.chunk_size - off % s.chunk_size) in
        let (same_off, same_closed, same_err) = store_open s p off n in
        rw e (record {
          kept =
              store-IsKept content s h.kept p off n fresh here (omega arith) (omega arith) agrees;
          apart = store-IsApart s p off n;
          proper = store-IsProper s p off n h.proper;
          given = rw same_off h.given;
          honest = rw same_err h.honest;
          whole = λ c err. absurd (false≢true (sym open_ ∙ sym same_closed ∙ c));
        })
  ]

  -- What a call of Read does: nothing, or it emits bytes before the frontier.
  read_cases :
      (s : StreamBuffer) (len : ℕ)
      → (((read s len).1 ≡ s) × (bytes_of (read s len).0 ≡ []) × ((read s len).0 ≢ panics))
        ⊎ ((s.read_off < s.coverage.frontier) × (read s len ≡ emit s len))
  unfolding read read_end
  read_cases s len = ground arith

  more :
      (out : List ℕ) (off n : ℕ)
      → out ≡ values content 0 off
      → out ++ values content off n ≡ values content 0 (off + n)
  more out off n given =
      let same : 0 + off ≡ off = omega arith in
      ap (λ l. l ++ values content off n) given
      ∙ ap (λ k. values content 0 off ++ values content k n) (sym same)
      ∙ sym (values-append content 0 off n)

  -- A read of no bytes takes none from its page; any other finds the page.
  emit-IsStream :
      (s : StreamBuffer) (out : List ℕ) (len : ℕ)
      → s.read_off < s.coverage.frontier
      → IsStream s out
      → IsStream (emit s len).1 (out ++ bytes_of (emit s len).0) × ((emit s len).0 ≢ panics)
  unfolding emit read_page
  emit-IsStream s out len less h =
      let n =
        min (min len (s.coverage.frontier - s.read_off))
          (s.chunk_size - s.read_off % s.chunk_size) in
      let (page, found, bytes) = read_bytes content s h.kept n (omega arith) (omega arith) less in
      rw (found, bytes)
        (
          record {
            kept = move-IsKept content s h.kept n (omega arith);
            apart = h.apart;
            proper = h.proper;
            given = more out s.read_off n h.given;
            honest = h.honest;
            whole = h.whole;
          },
          λ e. cc,
        )

  read-IsStream :
      (s : StreamBuffer) (out : List ℕ) (len : ℕ)
      → IsStream s out
      → IsStream (read s len).1 (out ++ bytes_of (read s len).0) × ((read s len).0 ≢ panics)
  read-IsStream s out len h = elim (read_cases s len) [
    | inl (same, none_, fine) ↦ rw (same, none_, append-nil out) (h, fine)
    | inr (less, e) ↦ rw e (emit-IsStream s out len less h)
  ]

  honest_after :
      (s : StreamBuffer) (err : Option ℕ) → s.err ≢ some eof → (close_write s err).err ≢ some eof
  unfolding close_write
  honest_after s err h = λ e. ground (arith, h)

  close_write-IsStream :
      (s : StreamBuffer) (out : List ℕ) (err : Option ℕ)
      → IsStream s out
      → IsStream (close_write s err) out
  unfolding close_write
  close_write-IsStream s out err h = record {
    kept = flags-IsKept content s h.kept true s.rclosed _;
    apart = h.apart;
    proper = h.proper;
    given = h.given;
    honest = honest_after s err h.honest;
    whole = λ c e. ground arith;
  }

  close-IsStream : (s : StreamBuffer) (out : List ℕ) → IsStream s out → IsStream (close s) out
  unfolding close
  close-IsStream s out h = record {
    kept = flags-IsKept content s h.kept s.closed true s.err;
    apart = h.apart;
    proper = h.proper;
    given = h.given;
    honest = h.honest;
    whole = h.whole;
  }

  pub Run-IsStream : {s : StreamBuffer} {out : List ℕ} → Run s out → IsStream s out
  Run-IsStream (starts chunk_size concurrency pos) = new-IsStream chunk_size concurrency pos
  Run-IsStream (writes p off run fresh agrees) =
      write-IsStream _ _ p off fresh agrees (Run-IsStream run)
  Run-IsStream (reads len run) = (read-IsStream _ _ len (Run-IsStream run)).0
  Run-IsStream (write_ends err run) = close_write-IsStream _ _ err (Run-IsStream run)
  Run-IsStream (read_ends run) = close-IsStream _ _ (Run-IsStream run)

  -- Read ends the stream only when it has been closed, with no error, behind the last byte.
  pub eof_cases :
      (s : StreamBuffer) (len : ℕ)
      → (read s len).0 ≡ Got.fails eof
      → (s.err ≢ some eof)
      → (s.closed ≡ true) × (s.err ≡ none) × (s.coverage.frontier ≤ s.read_off)
  unfolding read emit read_page read_end
  eof_cases s len e honest = ground (arith, honest)

  covered_frontier :
      (c : Coverage) (x : ℕ) → is_none_pending c.pending ≡ true → covered c x ≡ ltb x c.frontier
  covered_frontier c x e = ground arith

  -- In any history of writes of an object's bytes past the frontier, reads and closes: the bytes that
  -- Read has given are the object's first, in order; Read never finds a page missing; and it reports
  -- the end of the stream only when every byte that was written has been given.
  pub read_lem :
      {s : StreamBuffer} {out : List ℕ} (len : ℕ)
      → Run s out
      → (out ≡ values content 0 s.read_off)
        × ((read s len).0 ≢ panics)
        × ((read s len).0 ≡ Got.fails eof → (x : ℕ) → covered s.coverage x ≡ ltb x s.read_off)
  read_lem {s} {out} len run =
      let h = Run-IsStream run in
      (
        h.given,
        (read-IsStream s out len h).1,
        λ e x.
            let (c, no_err, end_) = eof_cases s len e h.honest in
            let same : s.coverage.frontier ≡ s.read_off = omega (arith, end_, h.kept.emitted) in
            rw (← same) (covered_frontier s.coverage x (h.whole c no_err)),
      )
