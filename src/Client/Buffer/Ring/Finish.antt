-- ===== src/Client/Buffer/Ring/Finish.antt =====
-- WriteAt ends, with every byte written, while its range is in the window.
use cachew.Base.{
  ℕ, zero, suc, ◌+◌, ◌-◌, ◌/◌, ◌%◌, min, ◌≤◌, ◌<◌, ◌≡◌, ap, ◌∙◌, false, ◌&&◌, ◌||◌, List, [], ◌∷◌,
  length, drop, length-drop, ltb, leb, arith,
}
use native.Mathlib.Nat.{mod-lt}
use cachew.Client.Buffer.Laws.{covered, extend_locked_lem}
use cachew.Client.Buffer.Ring.{StreamBuffer, wrote, store, write_some, write_at}

-- A buffer that takes writes up to the offset `end`.
pub record Takes (s : StreamBuffer) (end : ℕ) : Type 0 where
  pub paged : 0 < s.chunk_size
  pub writable : (s.rclosed || s.closed) ≡ false
  pub reach : (x : ℕ) → x < end → x / s.chunk_size < s.read_off / s.chunk_size + s.n

written_now : StreamBuffer → List ℕ → ℕ → ℕ
written_now s p off = min (length p) (s.chunk_size - off % s.chunk_size)

write_some-Takes :
    (s : StreamBuffer) (p : List ℕ) (off end : ℕ)
    → off < end
    → Takes s end
    → write_some s p off ≡ (wrote (written_now s p off), store s p off (written_now s p off))
unfolding write_some written_now
write_some-Takes s p off end h t = ground (arith, t.writable, t.reach off)

store-Takes :
    (s : StreamBuffer) (p : List ℕ) (off n end : ℕ) → Takes s end → Takes (store s p off n) end
unfolding store
store-Takes s p off n end t = record { paged = t.paged; writable = t.writable; reach = t.reach }

pub covered-store :
    (s : StreamBuffer) (p : List ℕ) (off n x : ℕ)
    → covered (store s p off n).coverage x
      ≡ (covered s.coverage x || (leb off x && ltb x (off + n)))
unfolding store
covered-store s p off n x = (extend_locked_lem s.coverage off (off + n) (omega arith)).0 x

progress :
    (s : StreamBuffer) (b : ℕ) (p : List ℕ) (off : ℕ)
    → 0 < s.chunk_size
    → 0 < written_now s (b ∷ p) off
unfolding written_now
progress s b p off pos = omega (arith, mod-lt off pos)

write_at_step :
    (fuel : ℕ) (s s' : StreamBuffer) (b : ℕ) (p : List ℕ) (off written n : ℕ)
    → write_some s (b ∷ p) off ≡ (wrote n, s')
    → write_at (suc fuel) s (b ∷ p) off written
      ≡ write_at fuel s' (drop n (b ∷ p)) (off + n) (written + n)
unfolding write_at
write_at_step fuel s s' b p off written n e = ground (arith, e)

-- On an open buffer whose window has the whole range, WriteAt returns within as many rounds as there
-- are bytes, having written all of them; the offsets that are then written are the range and those
-- that were written before.
pub write_at_lem :
    (fuel : ℕ) (s : StreamBuffer) (p : List ℕ) (off written : ℕ)
    → length p ≤ fuel
    → Takes s (off + length p)
    → ((write_at fuel s p off written).0 ≡ wrote (written + length p))
      × ((x : ℕ)
          → covered (write_at fuel s p off written).1.coverage x
            ≡ (covered s.coverage x || (leb off x && ltb x (off + length p))))
unfolding write_at
write_at_lem fuel s [] off written h t = (ap wrote (omega arith), λ x. ground arith)
write_at_lem zero s (b ∷ p) off written h t = absurd (omega arith)
write_at_lem (suc fuel) s (b ∷ p) off written h t =
    let n = written_now s (b ∷ p) off in
    let rest = drop n (b ∷ p) in
    let some_ = progress s b p off t.paged in
    let inside : n ≤ suc (length p) = unfold written_now in omega arith in
    let left = length-drop n (b ∷ p) in
    let ends : off + n + length rest ≡ off + suc (length p) = omega (arith, left, inside) in
    let s' = store s (b ∷ p) off n in
    let again =
      write_at_lem fuel s' rest (off + n) (written + n) (omega (arith, left, some_))
        (rw ends (store-Takes s (b ∷ p) off n (off + suc (length p)) t)) in
    let step =
      write_at_step fuel s s' b p off written n
        (write_some-Takes s (b ∷ p) off (off + suc (length p)) (omega arith) t) in
    rw step (
      again.0 ∙ ap wrote (omega (arith, left, inside)),
      λ x. again.1 x ∙ ground (arith, ends, covered-store s (b ∷ p) off n x, inside),
    )
