-- ===== src/Client/Parallel/Download/Result.antt =====
-- What ParallelGetReader gives, and that its workers do not wait for ever.
use cachew.Base.{
  ℕ, ◌+◌, ◌-◌, ◌*◌, ◌/◌, ◌≤◌, ◌<◌, ◌≡◌, ◌≢◌, refl, ap, ◌∙◌, true, false, List, ◌∷◌, arith,
}
use mathlib.Core.Bool.{false≢true}
use native.Mathlib.Decide.{dec_lt, ℕ_discrete}
use native.Mathlib.Nat.{le-div_iff_mul-le}
use cachew.Base.Arrays.{values}
use cachew.Base.Divide.{chunk_bounds, chunk_mono}
use cachew.Client.Buffer.Laws.{covered}
use cachew.Client.Buffer.Proper.{frontier_missing}
use cachew.Client.Buffer.Ring.{Wrote, eof, Got, panics, read, write_some}
use cachew.Client.Buffer.Ring.Stream.{Run-IsStream, read_lem, eof_cases}
use cachew.Client.Parallel.{num_chunks, chunk_range}
use cachew.Client.Parallel.Gate.{not_before}
use cachew.Client.Parallel.Download.{Phase, idle, finished, fetching, Download, chunk_end, History}
use cachew.Client.Parallel.Download.Invariant.{
  is_finished, finished_of, position, IsDownload, in_range, end_bounds, starts_inside,
}
use cachew.Client.Parallel.Download.Steps.{missing, History-IsDownload}

is_finished_lem : (phase : Phase) → is_finished phase ≡ true → phase ≡ finished
is_finished_lem finished h = refl
is_finished_lem idle h = absurd (false≢true h)
is_finished_lem (fetching at) h = absurd (false≢true h)

module _ (content : ℕ → ℕ) (total chunk_size : ℕ) where
  position_bound :
      {d : Download} {out : List ℕ}
      → IsDownload content total chunk_size d out
      → (s : ℕ) (phase : Phase) → s * chunk_size ≤ total
      → d.phases s ≡ phase
      → position content total chunk_size phase s ≤ total
  position_bound h s idle less e = less
  position_bound h s (fetching at) less e =
      let (above, bound, inside, near) = in_range content total chunk_size s (fetching at) h e in
      omega (arith, bound, end_bounds content total chunk_size s)
  position_bound h s finished less e = omega (arith, end_bounds content total chunk_size s)

  -- In a download whose chunks are all complete exactly the object's offsets are written.
  whole_object :
      {d : Download} {out : List ℕ}
      → IsDownload content total chunk_size d out
      → ((s : ℕ) → s < num_chunks total chunk_size → d.phases s ≡ finished)
      → (covered d.buffer.coverage (total - 1) ≡ true) × (covered d.buffer.coverage total ≡ false)
  whole_object {d} h all_ =
      let last = (total - 1) / chunk_size in
      let (low, high) = chunk_bounds chunk_size (total - 1) h.paged in
      let (low', high') = chunk_bounds chunk_size total h.paged in
      let in_last : last < num_chunks total chunk_size = unfold num_chunks in omega arith in
      let whole : position content total chunk_size (d.phases last) last
          ≡ chunk_end total chunk_size last =
        ap (λ q. position content total chunk_size q last) (all_ last in_last) in
      let reach : total - 1 < chunk_end total chunk_size last =
        unfold chunk_end chunk_range in omega (arith, high, h.sized) in
      let bound = position_bound h (total / chunk_size) _ low' refl in
      (ground (arith, h.places (total - 1), whole, reach), ground (arith, h.places total, bound))

  -- In any history of a parallel download, whatever the order in which its workers take chunks, write
  -- them and complete them: what the reader has been given are the first bytes of the object, in order;
  -- Read never finds a page missing; and when it reports the end of the stream it has given the whole
  -- object.
  pub download_lem :
      {d : Download} {out : List ℕ} (len : ℕ)
      → History content total chunk_size d out
      → (out ≡ values content 0 d.buffer.read_off)
        × ((read d.buffer len).0 ≢ panics)
        × ((read d.buffer len).0 ≡ Got.fails eof → out ≡ values content 0 total)
  download_lem {d} {out} len run =
      let h = History-IsDownload content total chunk_size run in
      let (given, fine, whole) = read_lem content len h.run in
      let honest = (Run-IsStream content h.run).honest in
      (
        given,
        fine,
        λ e.
            let (closed, none_, caught_up) = eof_cases content d.buffer len e honest in
            let (last, next) = whole_object h (h.ends closed none_) in
            let end_ : d.buffer.read_off ≡ total =
              ground (arith, whole e (total - 1), whole e total, last, next, h.sized) in
            given ∙ ap (values content 0) end_,
      )

  -- The oldest chunk that is not complete starts at or before the frontier.
  gate_frontier :
      {d : Download} {out : List ℕ}
      → IsDownload content total chunk_size d out
      → d.gate.low < num_chunks total chunk_size
      → d.gate.low * chunk_size ≤ d.buffer.coverage.frontier
  gate_frontier {d} h inside =
      let frontier = d.buffer.coverage.frontier in
      let s = frontier / chunk_size in
      let (low, high) = chunk_bounds chunk_size frontier h.paged in
      let stream = Run-IsStream content h.run in
      let missing_ = frontier_missing d.buffer.coverage stream.apart stream.proper in
      elim (dec_lt s d.gate.low) [
        | yes less ↦
            let complete_ = h.refines.0.before s less in
            let up = chunk_mono chunk_size s d.gate.low less in
            let start = starts_inside content total chunk_size d.gate.low h.sized h.paged inside in
            let ends : chunk_end total chunk_size s ≡ s * chunk_size + chunk_size =
              unfold chunk_end chunk_range in omega (arith, up, start) in
            let whole : position content total chunk_size (d.phases s) s
                ≡ chunk_end total chunk_size s =
              ap (λ q. position content total chunk_size q s)
                (is_finished_lem (d.phases s) complete_) in
            absurd (ground (arith, h.places frontier, missing_, whole, ends, high))
        | no not_less ↦ elim (ℕ_discrete s d.gate.low) [
          | yes e ↦ omega (arith, ap (λ k. k * chunk_size) e, low)
          | no ne ↦ omega (arith, chunk_mono chunk_size d.gate.low s (omega arith), low)
        ]
      ]

  -- A worker never waits for good: when the reader has taken all bytes before the frontier, no write
  -- of a chunk that is fetched waits for room.
  pub write_fits :
      {d : Download} {out : List ℕ} (seq at b : ℕ) (p : List ℕ)
      → History content total chunk_size d out
      → d.phases seq ≡ fetching at
      → at < chunk_end total chunk_size seq
      → d.buffer.coverage.frontier ≤ d.buffer.read_off
      → (write_some d.buffer (b ∷ p) at).0 ≢ Wrote.waits
  unfolding write_some
  write_fits {d} seq at b p run e less drained =
      let h = History-IsDownload content total chunk_size run in
      let (above, bound, inside, near) = in_range content total chunk_size seq (fetching at) h e in
      let (here, open_, fresh) = missing content total chunk_size seq at h e less in
      let low = not_before d.gate (finished_of d.phases) seq h.refines.0 (ap is_finished e) in
      let start = gate_frontier h (omega (arith, low, inside)) in
      let reached : d.gate.low ≤ d.buffer.read_off / chunk_size =
        (le-div_iff_mul-le h.paged).1 (omega (arith, start, drained)) in
      let room : at / d.buffer.chunk_size < d.buffer.read_off / d.buffer.chunk_size + d.buffer.n =
        rw h.page (omega (arith, here, near, h.ring, reached)) in
      λ waits. ground (arith, room)
