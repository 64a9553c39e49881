-- ===== src/Client/Parallel/Download/Invariant.antt =====
-- The offsets that a download has written are, chunk by chunk, those before the chunk's position.
use cachew.Base.{
  ℕ, ◌+◌, ◌-◌, ◌*◌, ◌/◌, ◌≤◌, ◌<◌, ◌≡◌, ◌≢◌, refl, sym, ap, ◌∙◌, subst, Bool, true, false, none,
  List, [], ltb, arith,
}
use mathlib.Core.Path.{fun_ext}
use mathlib.Core.Bool.{false≢true}
use native.Mathlib.Decide.{ℕ_discrete}
use native.Mathlib.Nat.{le-div_iff_mul-le}
use cachew.Base.Divide.{chunk_bounds}
use cachew.Client.Buffer.Laws.{covered}
use cachew.Client.Buffer.Ring.{new_stream_buffer}
use cachew.Client.Buffer.Ring.Stream.{Run}
use cachew.Client.Parallel.{
  DispatchGate, new_dispatch_gate, admits, complete, num_chunks, chunk_range,
}
use cachew.Client.Parallel.Gate.{Refines, with_chunk, not_before, new-Refines, complete-Refines}
use cachew.Client.Parallel.Download.{
  Phase, idle, finished, fetching, Download, update, new_download, dispatch, finish, chunk_end,
}

abbrev pub is_finished : Phase → Bool
is_finished finished = true
is_finished _ = false

abbrev pub finished_of : (ℕ → Phase) → ℕ → Bool
finished_of phases s = is_finished (phases s)

pub update_same :
    (phases : ℕ → Phase) (seq : ℕ) (phase : Phase) → update phases seq phase seq ≡ phase
unfolding update
update_same phases seq phase = ground arith

pub update_other :
    (phases : ℕ → Phase) (seq s : ℕ) (phase : Phase)
    → s ≢ seq
    → update phases seq phase s ≡ phases s
unfolding update
update_other phases seq s phase ne = ground (arith, ne)

pub update_kept :
    (phases : ℕ → Phase) (seq : ℕ) (phase : Phase)
    → is_finished (phases seq) ≡ is_finished phase
    → finished_of phases ≡ finished_of (update phases seq phase)
unfolding update
update_kept phases seq phase h = fun_ext (λ s. elim (ℕ_discrete s seq) [
  | yes e ↦ ground (arith, e, h, ap phases e)
  | no ne ↦ ground (arith, ne)
])

update_finished :
    (phases : ℕ → Phase) (seq : ℕ)
    → with_chunk (finished_of phases) seq ≡ finished_of (update phases seq finished)
unfolding update
update_finished phases seq = fun_ext (λ s. ground arith)

module _ (content : ℕ → ℕ) (total chunk_size : ℕ) where
  -- The offset that a chunk has been written up to.
  abbrev pub position : Phase → ℕ → ℕ
  position idle s = s * chunk_size
  position (fetching at) s = at
  position finished s = chunk_end total chunk_size s

  -- A chunk that has been dispatched is one of the object's, and one of the gate's window while it
  -- is fetched.
  abbrev pub InRange : DispatchGate → Phase → ℕ → Type 0
  InRange g idle s = Unit
  InRange g (fetching at) s =
      (s * chunk_size ≤ at)
      × (at ≤ chunk_end total chunk_size s)
      × (s < num_chunks total chunk_size)
      × (s < g.low + g.window)
  InRange g finished s = s < num_chunks total chunk_size

  pub record IsDownload (d : Download) (out : List ℕ) : Type 0 where
    pub sized : 0 < total
    pub paged : 0 < chunk_size
    pub page : d.buffer.chunk_size ≡ chunk_size
    pub ring : d.gate.window ≡ d.buffer.n
    pub refines : Refines d.gate (finished_of d.phases)
    pub places :
        (x : ℕ)
        → covered d.buffer.coverage x
          ≡ ltb x (position (d.phases (x / chunk_size)) (x / chunk_size))
    pub ranges : (s : ℕ) → InRange d.gate (d.phases s) s
    pub run : Run content d.buffer out
    pub ends :
        d.buffer.closed ≡ true
        → d.buffer.err ≡ none
        → (s : ℕ) → s < num_chunks total chunk_size
        → d.phases s ≡ finished

  pub starts_inside :
      (s : ℕ)
      → 0 < total
      → 0 < chunk_size
      → s < num_chunks total chunk_size
      → s * chunk_size < total
  unfolding num_chunks
  starts_inside s sized paged h =
      let below : s * chunk_size ≤ total - 1 = (le-div_iff_mul-le paged).0 (omega arith) in
      omega (arith, below)

  pub end_bounds :
      (s : ℕ)
      → (chunk_end total chunk_size s ≤ s * chunk_size + chunk_size)
        × (chunk_end total chunk_size s ≤ total)
  unfolding chunk_end
  end_bounds s = (omega arith, omega arith)

  pub new-IsDownload :
      (concurrency : ℕ)
      → 0 < total
      → 0 < chunk_size
      → 0 < concurrency
      → IsDownload (new_download chunk_size concurrency) []
  unfolding new_download new_stream_buffer
  new-IsDownload concurrency sized paged pos = record {
    sized = sized;
    paged = paged;
    page = refl;
    ring = unfold new_dispatch_gate in omega arith;
    refines = new-Refines (2 * concurrency) (omega arith);
    places = λ x. let (low, high) = chunk_bounds chunk_size x paged in ground (arith, low, high);
    ranges = λ s. tt;
    run = Run.starts chunk_size concurrency paged;
    ends = λ c e. absurd (false≢true c);
  }

  at_seq :
      (phases : ℕ → Phase) (seq x : ℕ) (phase : Phase)
      → x / chunk_size ≡ seq
      → phases seq ≡ phase
      → position (phases (x / chunk_size)) (x / chunk_size) ≡ position phase seq
  at_seq phases seq x phase e k = ap (λ s. position (phases s) s) e ∙ ap (λ q. position q seq) k

  -- One chunk goes on: the offsets of the others stay, and its own are those before its new position.
  pub places_update :
      (phases : ℕ → Phase) (seq : ℕ) (old phase : Phase) (before after : ℕ → Bool)
      → phases seq ≡ old
      → ((x : ℕ) → before x ≡ ltb x (position (phases (x / chunk_size)) (x / chunk_size)))
      → ((x : ℕ)
          → x / chunk_size ≡ seq
          → before x ≡ ltb x (position old seq)
          → after x ≡ ltb x (position phase seq))
      → ((x : ℕ) → x / chunk_size ≢ seq → after x ≡ before x)
      → (x : ℕ)
      → after x ≡ ltb x (position (update phases seq phase (x / chunk_size)) (x / chunk_size))
  places_update phases seq old phase before after e places here there x =
      elim (ℕ_discrete (x / chunk_size) seq) [
        | yes same ↦
            let moved =
              at_seq (update phases seq phase) seq x phase same (update_same phases seq phase) in
            here x same (places x ∙ ap (λ y. ltb x y) (at_seq phases seq x old same e))
            ∙ ap (λ y. ltb x y) (sym moved)
        | no other ↦
            let kept = update_other phases seq (x / chunk_size) phase other in
            there x other ∙ places x ∙ ap (λ q. ltb x (position q (x / chunk_size))) (sym kept)
      ]

  pub ranges_update :
      (g : DispatchGate) (phases : ℕ → Phase) (seq : ℕ) (phase : Phase)
      → ((s : ℕ) → InRange g (phases s) s)
      → InRange g phase seq
      → (s : ℕ) → InRange g (update phases seq phase s) s
  ranges_update g phases seq phase ranges new s = elim (ℕ_discrete s seq) [
    | yes e ↦ rw (e, update_same phases seq phase) new
    | no ne ↦ rw (update_other phases seq s phase ne) (ranges s)
  ]

  InRange-mono :
      (g g' : DispatchGate) (phase : Phase) (s : ℕ)
      → g.low ≤ g'.low
      → g'.window ≡ g.window
      → InRange g phase s
      → InRange g' phase s
  InRange-mono g g' idle s h k r = tt
  InRange-mono g g' (fetching at) s h k (a, b, c, d) = (a, b, c, omega (arith, h, k, d))
  InRange-mono g g' finished s h k r = r

  -- A chunk that is not complete: the download has not ended well.
  pub not_ended :
      {d : Download} {out : List ℕ} (seq : ℕ)
      → IsDownload d out
      → is_finished (d.phases seq) ≡ false
      → seq < num_chunks total chunk_size
      → d.buffer.closed ≡ true
      → d.buffer.err ≡ none
      → ⊥
  not_ended seq h unfinished inside c e =
      false≢true (sym unfinished ∙ ap is_finished (h.ends c e seq inside))

  pub in_range :
      {d : Download} {out : List ℕ} (seq : ℕ) (phase : Phase)
      → IsDownload d out
      → d.phases seq ≡ phase
      → InRange d.gate phase seq
  in_range {d} seq phase h e = subst (λ q. InRange d.gate q seq) e (h.ranges seq)

  pub dispatch-IsDownload :
      {d : Download} {out : List ℕ} (seq : ℕ)
      → IsDownload d out
      → d.phases seq ≡ idle
      → seq < num_chunks total chunk_size
      → admits d.gate seq ≡ true
      → IsDownload (dispatch chunk_size d seq) out
  unfolding dispatch admits
  dispatch-IsDownload {d} seq h e inside admitted =
      let unfinished : is_finished (d.phases seq) ≡ false = ap is_finished e in
      let low = not_before d.gate (finished_of d.phases) seq h.refines.0 unfinished in
      let near : seq < d.gate.low + d.gate.window = ground arith in
      let start = starts_inside seq h.sized h.paged inside in
      let bound : seq * chunk_size ≤ chunk_end total chunk_size seq =
        unfold chunk_end chunk_range in omega (arith, start) in
      record {
        sized = h.sized;
        paged = h.paged;
        page = h.page;
        ring = h.ring;
        refines =
            subst (Refines d.gate)
              (update_kept d.phases seq (fetching (seq * chunk_size)) unfinished) h.refines;
        places =
            places_update d.phases seq idle (fetching (seq * chunk_size))
              (covered d.buffer.coverage) (covered d.buffer.coverage) e h.places (λ x s k. k)
              (λ x ne. refl);
        ranges =
            ranges_update d.gate d.phases seq (fetching (seq * chunk_size)) h.ranges
              (omega arith, bound, inside, near);
        run = h.run;
        ends = λ c err. absurd (not_ended seq h unfinished inside c err);
      }

  pub finish-IsDownload :
      {d : Download} {out : List ℕ} (seq : ℕ)
      → IsDownload d out
      → d.phases seq ≡ fetching (chunk_end total chunk_size seq)
      → IsDownload (finish d seq) out
  unfolding finish
  finish-IsDownload {d} seq h e =
      let unfinished : is_finished (d.phases seq) ≡ false = ap is_finished e in
      let (above, bound, inside, near) = in_range seq _ h e in
      let low = not_before d.gate (finished_of d.phases) seq h.refines.0 unfinished in
      let admitted : admits d.gate seq ≡ true = unfold admits in ground arith in
      let (ended, refines, window, moved) =
        complete-Refines d.gate (finished_of d.phases) seq h.refines unfinished admitted in
      let gate = (complete d.gate seq).0 in
      record {
        sized = h.sized;
        paged = h.paged;
        page = h.page;
        ring = window ∙ h.ring;
        refines = subst (Refines gate) (update_finished d.phases seq) refines;
        places =
            places_update d.phases seq _ finished (covered d.buffer.coverage)
              (covered d.buffer.coverage) e h.places (λ x s k. k) (λ x ne. refl);
        ranges =
            ranges_update gate d.phases seq finished
              (λ s. InRange-mono d.gate gate (d.phases s) s moved window (h.ranges s)) inside;
        run = h.run;
        ends = λ c err. absurd (not_ended seq h unfinished inside c err);
      }
