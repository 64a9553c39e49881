-- ===== src/Git/Spool/Turns.antt =====
-- What the turns of a reader of the response spool keep.
use cachew.Base.{
  ℕ, zero, suc, ◌+◌, ◌-◌, ◌≤◌, ◌≡◌, refl, sym, ap, ◌∙◌, subst, Bool, true, false, ◌&&◌, not, List,
  [], ◌∷◌, ◌++◌, length, take, drop, length-append, length-take, append_assoc, append-nil, ltb, leb,
  ◌==◌, min, Bool-cases, inl, inr, arith,
}
use cachew.Git.Spool.{
  SpoolError, Spool, Phase, waiting, following, reading, done, Reader, Turn, is_nil, buf_size, turn,
  await_header, await_bytes, bytes_read, send_bytes, copy_bytes, read_round, turn_at, client_failed,
  read_failed,
}
use cachew.Git.Spool.Flow.{Knows, Follows}

-- The parts of a list on either side of a count
drop-append : (xs ys : List ℕ) → drop (length xs) (xs ++ ys) ≡ ys
drop-append [] ys = refl
drop-append (x ∷ xs) ys = drop-append xs ys

all_sent : (xs ys : List ℕ) → length ys ≡ 0 → xs ≡ xs ++ ys
all_sent xs [] h = sym (append-nil xs)
all_sent xs (y ∷ ys) h = absurd (omega (arith, h))

ltb→le_not : (a b : ℕ) → ltb a b ≡ false → b ≤ a
ltb→le_not a b h = ground arith

take-drop : (n : ℕ) (xs : List ℕ) → take n xs ++ drop n xs ≡ xs
take-drop zero xs = refl
take-drop (suc n) [] = refl
take-drop (suc n) (x ∷ xs) = ap (λ l. x ∷ l) (take-drop n xs)

take-take : (m n : ℕ) (xs : List ℕ) → m ≤ n → take m (take n xs) ≡ take m xs
take-take zero n xs h = refl
take-take (suc m) zero xs h = absurd (omega arith)
take-take (suc m) (suc n) [] h = refl
take-take (suc m) (suc n) (x ∷ xs) h = ap (λ l. x ∷ l) (take-take m n xs (omega arith))

module _ (s : Spool) (r : Reader) (f : Follows s r) where
  -- Sending a part of the rest goes on along the file.
  sent_more : (n : ℕ) → s.file ≡ (r.sent ++ take n f.rest) ++ drop n f.rest
  sent_more n = f.prefix ∙ rw append_assoc (ap (λ l. r.sent ++ l) (sym (take-drop n f.rest)))

  -- A reader that ends with an error.
  ends_badly : (e : SpoolError) (es : List SpoolError) → Knows s r (done (e ∷ es))
  ends_badly e es = λ q. cc q

  await_header-Follows : (t : Turn) → r.phase ≡ waiting → Follows s (await_header t s r)
  unfolding await_header
  await_header-Follows t w =
      let here : r.offset ≡ length r.sent = subst (Knows s r) w f.knows in
      elim (Bool-cases ((s.status == 0) && is_nil s.errors)) [
        | inl q ↦ rw q f
        | inr q ↦ elim (Bool-cases (s.status == 0)) [
          | inl z ↦
              rw (q, z)
                (record {
                  rest = f.rest;
                  prefix = f.prefix;
                  counted = f.counted;
                  knows = λ q'. cc q';
                })
          | inr z ↦ elim (Bool-cases t.open_fails) [
            | inl o ↦
                rw (q, z, o)
                  (record {
                    rest = f.rest;
                    prefix = f.prefix;
                    counted = f.counted;
                    knows = λ q'. cc q';
                  })
            | inr o ↦
                rw (q, z, o)
                  (record {
                    rest = f.rest;
                    prefix = f.prefix;
                    counted = f.counted;
                    knows = (here, (ground arith, refl, refl));
                  })
          ]
        ]
      ]

  await_bytes-Follows : r.phase ≡ following → Follows s (await_bytes s r)
  unfolding await_bytes
  await_bytes-Follows w =
      let (here, header) = subst (Knows s r) w f.knows in
      elim (Bool-cases (leb s.written r.offset && (not s.complete && is_nil s.errors))) [
        | inl q ↦ rw q f
        | inr q ↦ rw q (record {
          rest = f.rest;
          prefix = f.prefix;
          counted = f.counted;
          knows = (here, header, omega arith, λ c. (c, refl));
        })
      ]

  module _ (here : r.offset ≡ length r.sent) where
    bytes_are : (n : ℕ) → take n (drop r.offset s.file) ≡ take n f.rest
    bytes_are n = ap (take n) (rw (here, f.prefix) (drop-append r.sent f.rest))

    -- The reader after sending `n` bytes
    sends :
        (n : ℕ) (phase : Phase) (offset : ℕ)
        → (let r' = record r {
          sent = r.sent ++ take n (drop r.offset s.file);
          offset = offset;
          phase = phase;
        } in
            Knows s r' phase)
        → Follows s (record r {
          sent = r.sent ++ take n (drop r.offset s.file);
          offset = offset;
          phase = phase;
        })
    sends n phase offset k = record {
      rest = drop n f.rest;
      prefix = rw (bytes_are n) (sent_more n);
      counted = f.counted;
      knows = k;
    }

  send_bytes-Follows :
      (t : Turn) (n w : ℕ) (c : Bool) (e : List SpoolError)
      → r.phase ≡ reading w c e
      → r.offset + n ≤ w
      → Follows s (send_bytes t n s r)
  unfolding send_bytes
  send_bytes-Follows t n w c e p within =
      let (here, header, below, last) = subst (Knows s r) p f.knows in
      elim (Bool-cases (ltb t.accepted n)) [
        | inl a ↦
            rw (a, take-take t.accepted n (drop r.offset s.file) (ground arith))
              (sends here t.accepted (done (client_failed ∷ [])) r.offset (λ q. cc q))
        | inr a ↦ elim (Bool-cases t.read_fails) [
          | inl b ↦ rw (a, b) (sends here n (done (read_failed ∷ [])) (r.offset + n) (λ q. cc q))
          | inr b ↦
              rw (a, b)
                (sends here n r.phase (r.offset + n) (
                  rw p (
                    rw (bytes_are here n) (
                        omega (
                          arith,
                          here,
                          f.counted,
                          below,
                          ap length f.prefix,
                          length-append {0} r.sent f.rest,
                          length-append {0} r.sent (take n f.rest),
                          length-take {0} n f.rest,
                        )),
                    header,
                    below,
                    last,
                  )))
        ]
      ]

  reads_within :
      (t : Turn) (w : ℕ)
      → ltb r.offset w ≡ true
      → r.offset + bytes_read t (min (w - r.offset) buf_size) ≤ w
  unfolding bytes_read
  reads_within t w q = ground arith

  read_round-Follows :
      (t : Turn) (w : ℕ) (c : Bool) (e : List SpoolError)
      → r.phase ≡ reading w c e
      → Follows s (read_round t w c e s r)
  unfolding read_round copy_bytes
  read_round-Follows t w c e p =
      let (here, header, below, last) = subst (Knows s r) p f.knows in
      elim (Bool-cases (ltb r.offset w)) [
        | inl q ↦ rw q (
            send_bytes-Follows t (bytes_read t (min (w - r.offset) buf_size)) w c e p
              (reads_within t w q))
        | inr q ↦ elim (Bool-cases c) [
          | inl a ↦
              let (closed, all) = last a in
              let none : length f.rest ≡ 0 = omega (
                arith,
                here,
                all,
                f.counted,
                ltb→le_not r.offset w q,
                ap length f.prefix,
                length-append {0} r.sent f.rest,
              ) in
              rw (q, a)
                (record {
                  rest = f.rest;
                  prefix = f.prefix;
                  counted = f.counted;
                  knows = λ _. (closed, all_sent r.sent f.rest none ∙ sym f.prefix, header);
                })
          | inr a ↦
              rw (q, a)
                (record {
                  rest = f.rest;
                  prefix = f.prefix;
                  counted = f.counted;
                  knows = (here, header);
                })
        ]
      ]

turn_at-Follows :
    (t : Turn) (s : Spool) (r : Reader) (phase : Phase)
    → r.phase ≡ phase
    → Follows s r
    → Follows s (turn_at phase t s r)
unfolding turn_at
turn_at-Follows t s r waiting p f = await_header-Follows s r f t p
turn_at-Follows t s r following p f = await_bytes-Follows s r f p
turn_at-Follows t s r (reading w c e) p f = read_round-Follows s r f t w c e p
turn_at-Follows t s r (done e) p f = f

pub turn-Follows : (t : Turn) (s : Spool) (r : Reader) → Follows s r → Follows s (turn t s r)
turn-Follows t s r f = unfold turn in turn_at-Follows t s r r.phase refl f
