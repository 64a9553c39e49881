-- ===== src/Git/Spool/Ends.antt =====
-- A reader of a complete spool ends.
use cachew.Base.{
  ℕ, zero, suc, ◌+◌, ◌-◌, ◌≤◌, ◌<◌, ◌≡◌, refl, sym, subst, Bool, true, false, ◌&&◌, ◌⊎◌, List, [],
  ltb, ◌==◌, if◌then◌else◌, min, Bool-cases, inl, inr, arith,
}
use cachew.Git.Spool.{
  SpoolError, Spool, Phase, waiting, following, reading, done, Reader, Turn, is_nil, buf_size, turn,
  turn_at, await_header, bytes_read, send_bytes, copy_bytes, read_round,
}
use cachew.Git.Spool.Flow.{Flow, Knows, Follows}
use cachew.Git.Spool.Turns.{turn-Follows}
use cachew.Git.Spool.Follow.{Flow-Follows, serve_to_lem}

-- A turn in which the file opens and is read, and the client takes a whole buffer
abbrev pub whole_turn : Turn
whole_turn = record { open_fails = false; read_fails = false; got = 0; accepted = buf_size }

-- ServeTo, of which `fuel` turns are taken
unfoldable pub serve_to : ℕ → Spool → Reader → Reader
serve_to zero s r = r
serve_to (suc fuel) s r = serve_to fuel s (turn whole_turn s r)

abbrev pub is_done : Phase → Bool
is_done waiting = false
is_done following = false
is_done (reading w c e) = false
is_done (done e) = true

-- The turns that are left, at most
measure : ℕ → ℕ → Phase → ℕ
measure written offset waiting = written - offset + 5
measure written offset following = written - offset + 3
measure written offset (reading w c e) = written - offset + (if c then 2 else 4)
measure written offset (done e) = 0

abbrev Nearer : Spool → Reader → Phase → Type 0
Nearer s r phase =
    (is_done (turn_at phase whole_turn s r).phase ≡ true)
    ⊎ (measure s.written (turn_at phase whole_turn s r).offset (turn_at phase whole_turn s r).phase
        < measure s.written r.offset phase)

small : (n : ℕ) → ltb buf_size (min n buf_size) ≡ false
small n = ground arith

module _ (s : Spool) (r : Reader) (closed : s.complete ≡ true)
    (served : ((s.status == 0) && is_nil s.errors) ≡ false) where
  waiting-Nearer : Nearer s r waiting
  unfolding turn_at measure
  waiting-Nearer = elim (Bool-cases (s.status == 0)) [
    | inl e ↦ inl (ground arith)
    | inr e ↦ inr (ground arith)
  ]

  following-Nearer : Nearer s r following
  unfolding turn_at measure
  following-Nearer = inr (ground arith)

  copied :
      (w : ℕ)
      → ((copy_bytes whole_turn w s r).offset ≡ r.offset + min (w - r.offset) buf_size)
        × ((copy_bytes whole_turn w s r).phase ≡ r.phase)
  unfolding copy_bytes bytes_read send_bytes
  copied w = rw (small (w - r.offset)) (refl, refl)

  reading-Nearer :
      (w : ℕ) (c : Bool) (e : List SpoolError)
      → r.phase ≡ reading w c e
      → w ≤ s.written
      → Nearer s r (reading w c e)
  unfolding turn_at read_round
  reading-Nearer w c e p below = elim (Bool-cases (ltb r.offset w)) [
    | inl q ↦
        let (off, phase) = copied w in rw (q, off, phase, p) (inr (unfold measure in ground arith))
    | inr q ↦ elim (Bool-cases c) [
      | inl a ↦ rw (q, a) (inl refl)
      | inr a ↦ rw (q, a) (inr (unfold measure in ground arith))
    ]
  ]

  phase-Nearer : Follows s r → (phase : Phase) → r.phase ≡ phase → Nearer s r phase
  phase-Nearer f waiting p = waiting-Nearer
  phase-Nearer f following p = following-Nearer
  phase-Nearer f (reading w c e) p =
      let (here, header, below, last) = subst (Knows s r) p f.knows in reading-Nearer w c e p below
  phase-Nearer f (done e) p = inl (unfold turn_at in rw p refl)

  nearer :
      Follows s r
      → (is_done (turn whole_turn s r).phase ≡ true)
        ⊎ (measure s.written (turn whole_turn s r).offset (turn whole_turn s r).phase
            < measure s.written r.offset r.phase)
  nearer f = unfold turn in phase-Nearer f r.phase refl

stays_at :
    (s : Spool) (r : Reader) → s.status ≡ 0 → s.errors ≡ [] → turn_at waiting whole_turn s r ≡ r
unfolding turn_at await_header
stays_at s r z e = rw (z, e) refl

stays_waiting :
    (s : Spool) (r : Reader)
    → s.status ≡ 0
    → s.errors ≡ []
    → r.phase ≡ waiting
    → turn whole_turn s r ≡ r
unfolding turn
stays_waiting s r z e p =
    subst (λ phase. turn_at phase whole_turn s r ≡ r) (sym p) (stays_at s r z e)

done_stays :
    (fuel : ℕ) (s : Spool) (r : Reader)
    → is_done r.phase ≡ true
    → is_done (serve_to fuel s r).phase ≡ true
unfolding serve_to
done_stays zero s r d = d
done_stays (suc fuel) s r d = done_stays fuel s (turn whole_turn s r) (done_turn r.phase refl d)
  where
    done_turn :
        (phase : Phase)
        → r.phase ≡ phase
        → is_done phase ≡ true
        → is_done (turn whole_turn s r).phase ≡ true
    done_turn waiting p q = cc
    done_turn following p q = cc
    done_turn (reading w c e) p q = cc
    done_turn (done e) p q = unfold turn turn_at in rw p q

module _ (s : Spool) (closed : s.complete ≡ true)
    (served : ((s.status == 0) && is_nil s.errors) ≡ false) where
  serve_to_ends :
      (fuel : ℕ) (r : Reader)
      → Follows s r
      → measure s.written r.offset r.phase < fuel
      → is_done (serve_to fuel s r).phase ≡ true
  unfolding serve_to
  serve_to_ends zero r f h = absurd (omega arith)
  serve_to_ends (suc fuel) r f h = elim (nearer s r closed served f) [
    | inl d ↦ done_stays fuel s (turn whole_turn s r) d
    | inr less ↦
        serve_to_ends fuel (turn whole_turn s r) (turn-Follows whole_turn s r f) (omega arith)
  ]

measure_bound : (written offset : ℕ) (phase : Phase) → measure written offset phase < written + 6
unfolding measure
measure_bound written offset waiting = omega arith
measure_bound written offset following = omega arith
measure_bound written offset (reading w c e) = ground arith
measure_bound written offset (done e) = omega arith

serve_to-Flow : (fuel : ℕ) {s : Spool} {r : Reader} → Flow s r → Flow s (serve_to fuel s r)
unfolding serve_to
serve_to-Flow zero h = h
serve_to-Flow (suc fuel) h = serve_to-Flow fuel (Flow.turns whole_turn h)

-- In any history of a spool's calls and a reader's turns, with one captured header: when the
-- spool is complete and has a header or an error, ServeTo returns within six turns more than
-- the spool has bytes, if its calls work; if it then gives no error, its client has the whole
-- file.
pub serve_to-ends :
    {s : Spool} {r : Reader}
    → Flow s r
    → s.complete ≡ true
    → ((s.status == 0) && is_nil s.errors) ≡ false
    → (is_done (serve_to (s.written + 6) s r).phase ≡ true)
      × ((serve_to (s.written + 6) s r).phase ≡ done []
          → (serve_to (s.written + 6) s r).sent ≡ s.file)
serve_to-ends {s} {r} h closed served = (
  serve_to_ends s closed served (s.written + 6) r (Flow-Follows h)
      (measure_bound s.written r.offset r.phase),
  λ p. ((serve_to_lem (serve_to-Flow (s.written + 6) h)).1 p).1,
)

-- But a spool that is complete with no header and no error keeps every reader of its header waiting,
-- however many turns it takes.
pub serve_to_waits :
    (s : Spool) (r : Reader) (fuel : ℕ)
    → s.status ≡ 0
    → s.errors ≡ []
    → r.phase ≡ waiting
    → serve_to fuel s r ≡ r
unfolding serve_to
serve_to_waits s r zero z e p = refl
serve_to_waits s r (suc fuel) z e p =
    let stays : turn whole_turn s r ≡ r = stays_waiting s r z e p in
    rw stays (serve_to_waits s r fuel z e p)
