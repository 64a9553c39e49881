-- ===== src/Client/Parallel/Download/Steps.antt =====
-- The steps of a download on its buffer: writes of the workers, reads, and its ends.
use cachew.Base.{
  ℕ, ◌+◌, ◌-◌, ◌/◌, ◌%◌, min, ◌≤◌, ◌<◌, ◌≡◌, refl, sym, ap, ◌∙◌, subst, ◌⊎◌, inl, inr, true, false,
  ◌&&◌, ◌||◌, Option, none, some, List, ◌∷◌, ◌++◌, length, ltb, leb, arith, Bool-cases,
}
use cachew.Base.Divide.{chunk_of}
use cachew.Client.Buffer.Laws.{covered}
use cachew.Client.Buffer.Ring.{
  StreamBuffer, wrote, store, write_some, read, emit, close_write, close,
}
use cachew.Client.Buffer.Ring.Pages.{Agrees}
use cachew.Client.Buffer.Ring.Stream.{Run, bytes_of}
use cachew.Client.Buffer.Ring.Finish.{covered-store}
use cachew.Client.Parallel.{num_chunks}
use cachew.Client.Parallel.Gate.{Refines}
use cachew.Client.Parallel.Download.{
  finished, fetching, Download, update, write, written, chunk_end, History,
}
use cachew.Client.Parallel.Download.Invariant.{
  is_finished, update_kept, position, InRange, IsDownload, new-IsDownload, places_update,
  ranges_update, not_ended, in_range, end_bounds, dispatch-IsDownload, finish-IsDownload,
}

-- What writeSome changes: nothing, or it stores some bytes, within the slice.
write_some_cases :
    (s : StreamBuffer) (p : List ℕ) (off : ℕ)
    → (((write_some s p off).1 ≡ s) × (written (write_some s p off).0 ≡ 0))
      ⊎ ((n : ℕ) × (n ≤ length p) × (write_some s p off ≡ (wrote n, store s p off n)))
unfolding write_some
write_some_cases s p off =
    let shut_cases = Bool-cases (s.rclosed || s.closed) in
    elim (Bool-cases (leb (s.read_off / s.chunk_size + s.n) (off / s.chunk_size))) [
      | inl far ↦ elim shut_cases [
        | inl shut ↦ rw (far, shut) (inl (refl, refl))
        | inr open_ ↦ rw (far, open_) (inl (refl, refl))
      ]
      | inr near ↦ elim shut_cases [
        | inl shut ↦ rw (near, shut) (inl (refl, refl))
        | inr open_ ↦
            rw (near, open_)
              (inr (min (length p) (s.chunk_size - off % s.chunk_size), omega arith, refl))
      ]
    ]

store_same :
    (s : StreamBuffer) (p : List ℕ) (off n : ℕ)
    → ((store s p off n).chunk_size ≡ s.chunk_size)
      × ((store s p off n).n ≡ s.n)
      × ((store s p off n).closed ≡ s.closed)
      × ((store s p off n).err ≡ s.err)
unfolding store
store_same s p off n = (refl, refl, refl, refl)

read_same :
    (s : StreamBuffer) (len : ℕ)
    → ((read s len).1.chunk_size ≡ s.chunk_size)
      × ((read s len).1.n ≡ s.n)
      × ((read s len).1.coverage ≡ s.coverage)
      × ((read s len).1.closed ≡ s.closed)
      × ((read s len).1.err ≡ s.err)
unfolding read emit
read_same s len = ground arith

-- A download that ends with an error leaves one.
no_error : (s : StreamBuffer) (err : Option ℕ) → (close_write s err).err ≡ none → err ≡ none
unfolding close_write
no_error s err e = ground arith

module _ (content : ℕ → ℕ) (total chunk_size : ℕ) where
  -- The position of a chunk that is fetched has not been written.
  pub missing :
      {d : Download} {out : List ℕ} (seq at : ℕ)
      → IsDownload content total chunk_size d out
      → d.phases seq ≡ fetching at
      → at < chunk_end total chunk_size seq
      → (at / chunk_size ≡ seq)
        × (covered d.buffer.coverage at ≡ false)
        × (d.buffer.coverage.frontier ≤ at)
  missing {d} seq at h e less =
      let (above, bound, inside, near) = in_range content total chunk_size seq (fetching at) h e in
      let (short, whole) = end_bounds content total chunk_size seq in
      let here = chunk_of chunk_size seq at h.paged above (omega (arith, less, short)) in
      let same : position content total chunk_size (d.phases (at / chunk_size)) (at / chunk_size)
          ≡ at =
        ap (λ s. position content total chunk_size (d.phases s) s) here
        ∙ ap (λ q. position content total chunk_size q seq) e in
      let open_ : covered d.buffer.coverage at ≡ false = ground (arith, h.places at, same) in
      (here, open_, ground (arith, open_))

  written_range :
      {d : Download} {out : List ℕ} (seq at n : ℕ) (p : List ℕ)
      → IsDownload content total chunk_size d out
      → d.phases seq ≡ fetching at
      → at + n ≤ chunk_end total chunk_size seq
      → (x : ℕ)
      → covered (store d.buffer p at n).coverage x
        ≡ ltb x (
            position content total chunk_size
              (update d.phases seq (fetching (at + n)) (x / chunk_size))
              (x / chunk_size))
  written_range {d} seq at n p h e fits =
      let (above, bound, inside, near) = in_range content total chunk_size seq (fetching at) h e in
      let (short, whole) = end_bounds content total chunk_size seq in
      places_update content total chunk_size d.phases seq (fetching at) (fetching (at + n))
        (covered d.buffer.coverage) (covered (store d.buffer p at n).coverage) e h.places
        (λ x same k. ground (arith, covered-store d.buffer p at n x, k))
        (λ x other. elim (Bool-cases (leb at x && ltb x (at + n))) [
          | inl inside_ ↦
              let low : at ≤ x = ground arith in
              let high : x < at + n = ground arith in
              absurd (
                other (
                  chunk_of chunk_size seq x h.paged (omega (arith, low, above))
                    (omega (arith, high, fits, short))))
          | inr out_ ↦ covered-store d.buffer p at n x ∙ ground (arith, out_)
        ])

  -- A step that only the buffer takes, and that leaves its written offsets as they are.
  buffer-IsDownload :
      {d : Download} {out out' : List ℕ} (s : StreamBuffer)
      → IsDownload content total chunk_size d out
      → s.chunk_size ≡ d.buffer.chunk_size
      → s.n ≡ d.buffer.n
      → s.coverage ≡ d.buffer.coverage
      → Run content s out'
      → (s.closed ≡ true
          → s.err ≡ none
          → (i : ℕ) → i < num_chunks total chunk_size
          → d.phases i ≡ finished)
      → IsDownload content total chunk_size (record d { buffer = s }) out'
  buffer-IsDownload s h size slots same run ends = record {
    sized = h.sized;
    paged = h.paged;
    page = size ∙ h.page;
    ring = h.ring ∙ sym slots;
    refines = h.refines;
    places = λ x. ap (λ c. covered c x) same ∙ h.places x;
    ranges = h.ranges;
    run = run;
    ends = ends;
  }

  write-IsDownload :
      {d : Download} {out : List ℕ} (seq at b : ℕ) (p : List ℕ)
      → IsDownload content total chunk_size d out
      → d.phases seq ≡ fetching at
      → at + length (b ∷ p) ≤ chunk_end total chunk_size seq
      → Agrees content (b ∷ p) at
      → IsDownload content total chunk_size (write d seq at (b ∷ p)) out
  unfolding write
  write-IsDownload {d} {out} seq at b p h e fits agrees =
      let (above, bound, inside, near) = in_range content total chunk_size seq (fetching at) h e in
      let unfinished : is_finished (d.phases seq) ≡ false = ap is_finished e in
      let (here, open_, fresh) = missing seq at h e (omega (arith, fits)) in
      let run = Run.writes (b ∷ p) at h.run fresh agrees in
      let keeps = λ (m : ℕ).
        subst (Refines d.gate) (update_kept d.phases seq (fetching (at + m)) unfinished)
          h.refines in
      let goes_on : (m : ℕ)
          → at + m ≤ chunk_end total chunk_size seq
          → (s : ℕ)
          → InRange content total chunk_size d.gate (update d.phases seq (fetching (at + m)) s) s =
        λ m most.
          ranges_update content total chunk_size d.gate d.phases seq (fetching (at + m)) h.ranges
            (omega (arith, above), most, inside, near) in
      elim (write_some_cases d.buffer (b ∷ p) at) [
        | inl (same, none_) ↦
            rw (same, none_)
              (record {
                sized = h.sized;
                paged = h.paged;
                page = h.page;
                ring = h.ring;
                refines = keeps 0;
                places =
                    places_update content total chunk_size d.phases seq (fetching at)
                      (fetching (at + 0)) (covered d.buffer.coverage) (covered d.buffer.coverage) e
                      h.places (λ x s k. ground (arith, k)) (λ x ne. refl);
                ranges = goes_on 0 (omega (arith, bound));
                run = h.run;
                ends = λ c err.
                    absurd (not_ended content total chunk_size seq h unfinished inside c err);
              })
        | inr (n, short, stored) ↦
            let (size, slots, closed, err) = store_same d.buffer (b ∷ p) at n in
            rw stored (record {
              sized = h.sized;
              paged = h.paged;
              page = size ∙ h.page;
              ring = h.ring ∙ sym slots;
              refines = keeps n;
              places = written_range seq at n (b ∷ p) h e (omega (arith, fits, short));
              ranges = goes_on n (omega (arith, fits, short));
              run = subst (λ w. Run content w out) (ap (λ r. r.1) stored) run;
              ends = λ c none_. absurd (
                  not_ended content total chunk_size seq h unfinished inside (sym closed ∙ c)
                    (sym err ∙ none_));
            })
      ]

  read-IsDownload :
      {d : Download} {out : List ℕ} (len : ℕ)
      → IsDownload content total chunk_size d out
      → IsDownload content total chunk_size
          (record d { buffer = (read d.buffer len).1 })
          (out ++ bytes_of (read d.buffer len).0)
  read-IsDownload {d} len h =
      let (size, slots, same, closed, err) = read_same d.buffer len in
      buffer-IsDownload (read d.buffer len).1 h size slots same (Run.reads len h.run)
        (λ c e. h.ends (sym closed ∙ c) (sym err ∙ e))

  close_write-IsDownload :
      {d : Download} {out : List ℕ} (err : Option ℕ)
      → IsDownload content total chunk_size d out
      → (err ≡ none → (i : ℕ) → i < num_chunks total chunk_size → d.phases i ≡ finished)
      → IsDownload content total chunk_size (record d { buffer = close_write d.buffer err }) out
  close_write-IsDownload {d} err h ends =
      buffer-IsDownload (close_write d.buffer err) h (unfold close_write in refl)
        (unfold close_write in refl) (unfold close_write in refl) (Run.write_ends err h.run)
        (λ c e. ends (no_error d.buffer err e))

  close-IsDownload :
      {d : Download} {out : List ℕ}
      → IsDownload content total chunk_size d out
      → IsDownload content total chunk_size (record d { buffer = close d.buffer }) out
  close-IsDownload {d} h =
      buffer-IsDownload (close d.buffer) h (unfold close in refl) (unfold close in refl)
        (unfold close in refl) (Run.read_ends h.run) (unfold close in h.ends)

  pub History-IsDownload :
      {d : Download} {out : List ℕ}
      → History content total chunk_size d out
      → IsDownload content total chunk_size d out
  History-IsDownload (History.starts concurrency sized paged pos) =
      new-IsDownload content total chunk_size concurrency sized paged pos
  History-IsDownload (History.dispatches seq run e inside admitted) =
      dispatch-IsDownload content total chunk_size seq (History-IsDownload run) e inside admitted
  History-IsDownload (History.writes seq at b p run e fits agrees) =
      write-IsDownload seq at b p (History-IsDownload run) e fits agrees
  History-IsDownload (History.completes seq run e) =
      finish-IsDownload content total chunk_size seq (History-IsDownload run) e
  History-IsDownload (History.reads len run) = read-IsDownload len (History-IsDownload run)
  History-IsDownload (History.succeeds run all_) =
      close_write-IsDownload none (History-IsDownload run) (λ e. all_)
  History-IsDownload (History.gives_up err run) =
      close_write-IsDownload (some err) (History-IsDownload run) (λ e. absurd cc)
  History-IsDownload (History.closes run) = close-IsDownload (History-IsDownload run)
