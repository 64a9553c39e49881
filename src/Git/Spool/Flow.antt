-- ===== src/Git/Spool/Flow.antt =====
-- Histories of the response spool and a reader, and what the writer's calls keep.
use cachew.Base.{
  ℕ, ◌+◌, ◌≤◌, ◌<◌, ◌≡◌, refl, sym, ap, ◌∙◌, Bool, true, List, [], ◌++◌, length, take,
  length-append, length-take, append_assoc, append-nil, if◌then◌else◌, min, Bool-cases, inl, inr,
  arith,
}
use cachew.Http.{Header}
use cachew.Git.Spool.{
  SpoolError, Spool, Phase, waiting, following, reading, done, Reader, Turn, is_nil,
  new_response_spool, capture_header, write, mark_complete, mark_error, new_reader, turn,
}

-- The histories of a spool and one of its readers, in any order of the writer's calls and the
-- reader's turns. The header is captured once, with a status that is not 0.
pub data Flow : Spool → Reader → Type 0 where
  starts : Flow new_response_spool new_reader
  captures :
      {s : Spool} {r : Reader} (status : ℕ) (headers : Header)
      → Flow s r
      → s.status ≡ 0
      → 0 < status
      → Flow (capture_header status headers s) r
  writes :
      {s : Spool} {r : Reader} (accepted : ℕ) (p : List ℕ)
      → Flow s r
      → Flow (write accepted p s).0 r
  completes :
      {s : Spool} {r : Reader} (close_fails : Bool)
      → Flow s r
      → Flow (mark_complete close_fails s) r
  marks :
      {s : Spool} {r : Reader} (close_fails : Bool) (e : SpoolError)
      → Flow s r
      → Flow (mark_error close_fails e s) r
  turns : {s : Spool} {r : Reader} (t : Turn) → Flow s r → Flow s (turn t s r)

-- The reader's client has the header that was captured.
abbrev pub HasHeader : Spool → Reader → Type 0
HasHeader s r = (0 < s.status) × (r.status ≡ s.status) × (r.headers ≡ s.headers)

-- What a reader knows, by its phase.
abbrev pub Knows : Spool → Reader → Phase → Type 0
Knows s r waiting = r.offset ≡ length r.sent
Knows s r following = (r.offset ≡ length r.sent) × HasHeader s r
Knows s r (reading w c e) =
    (r.offset ≡ length r.sent)
    × HasHeader s r
    × (w ≤ s.written)
    × (c ≡ true → (s.complete ≡ true) × (w ≡ s.written))
Knows s r (done e) = e ≡ [] → (s.complete ≡ true) × (r.sent ≡ s.file) × HasHeader s r

-- A reader has sent the file up to some byte.
pub record Follows (s : Spool) (r : Reader) : Type 0 where
  pub rest : List ℕ
  pub prefix : s.file ≡ r.sent ++ rest
  pub counted : s.written ≡ length s.file
  pub knows : Knows s r r.phase

-- The file of a spool grows, until the spool is complete.
pub record Grows (s s' : Spool) : Type 0 where
  pub more : List ℕ
  pub file : s'.file ≡ s.file ++ more
  pub written : s'.written ≡ s.written + length more
  pub status : s'.status ≡ s.status
  pub headers : s'.headers ≡ s.headers
  pub final : s.complete ≡ true → (s'.complete ≡ true) × (more ≡ [])

module _ (s s' : Spool) (g : Grows s s') where
  grows-HasHeader : (r : Reader) → HasHeader s r → HasHeader s' r
  grows-HasHeader r (a, b, c) = let p = g.status in let q = g.headers in (omega (arith, p), cc, cc)

  grows-final :
      s.complete ≡ true → (s'.complete ≡ true) × (s'.file ≡ s.file) × (s'.written ≡ s.written)
  grows-final c =
      let (closed, nothing) = g.final c in
      (closed, g.file ∙ rw nothing (append-nil s.file), omega (arith, g.written, ap length nothing))

  grows-Knows : (r : Reader) (phase : Phase) → Knows s r phase → Knows s' r phase
  grows-Knows r waiting k = k
  grows-Knows r following (a, h) = (a, grows-HasHeader r h)
  grows-Knows r (reading w c e) (a, h, below, last) = (
    a,
    grows-HasHeader r h,
    omega (arith, below, g.written),
    λ q.
        let (closed, all) = last q in
        let (closed', _, same) = grows-final closed in (closed', all ∙ sym same),
  )
  grows-Knows r (done e) k = λ q.
      let (c, all, h) = k q in
      let (c', same, _) = grows-final c in (c', all ∙ sym same, grows-HasHeader r h)

  pub grows-Follows : (r : Reader) → Follows s r → Follows s' r
  grows-Follows r f = record {
    rest = f.rest ++ g.more;
    prefix = g.file ∙ rw f.prefix (append_assoc r.sent f.rest g.more);
    counted =
        omega (arith, g.written, f.counted, ap length g.file, length-append {0} s.file g.more);
    knows = grows-Knows r r.phase f.knows;
  }

pub write-Grows : (accepted : ℕ) (p : List ℕ) (s : Spool) → Grows s (write accepted p s).0
unfolding write
write-Grows accepted p s = elim (Bool-cases (is_nil s.errors)) [
  | inr e ↦ rw e (record {
    more = [];
    file = sym (append-nil s.file);
    written = omega arith;
    status = refl;
    headers = refl;
    final = λ c. (c, refl);
  })
  | inl e ↦
      let n = if s.complete then 0 else min accepted (length p) in
      rw e (record {
        more = take n p;
        file = refl;
        written = ground (arith, length-take {0} n p);
        status = refl;
        headers = refl;
        final = λ c. (c, rw c refl);
      })
]

stays-Grows :
    (s s' : Spool)
    → (s'.file ≡ s.file)
      × (s'.written ≡ s.written)
      × (s'.status ≡ s.status)
      × (s'.headers ≡ s.headers)
    → (s.complete ≡ true → s'.complete ≡ true)
    → Grows s s'
stays-Grows s s' (f, w, st, h) c = record {
  more = [];
  file = f ∙ sym (append-nil s.file);
  written = omega (arith, w);
  status = st;
  headers = h;
  final = λ q. (c q, refl);
}

pub mark_complete-Grows : (close_fails : Bool) (s : Spool) → Grows s (mark_complete close_fails s)
mark_complete-Grows close_fails s =
    unfold mark_complete in
    stays-Grows s (mark_complete close_fails s)
      (ground arith, ground arith, ground arith, ground arith) (λ q. ground arith)

pub mark_error-Grows :
    (close_fails : Bool) (e : SpoolError) (s : Spool) → Grows s (mark_error close_fails e s)
mark_error-Grows close_fails e s =
    unfold mark_error in
    stays-Grows s (mark_error close_fails e s)
      (ground arith, ground arith, ground arith, ground arith) (λ q. ground arith)

pub capture-Follows :
    (status : ℕ) (headers : Header) (s : Spool) (r : Reader)
    → s.status ≡ 0
    → Follows s r
    → Follows (capture_header status headers s) r
capture-Follows status headers s r z f = record {
  rest = f.rest;
  prefix = unfold capture_header in f.prefix;
  counted = unfold capture_header in f.counted;
  knows = new_knows r.phase f.knows;
}
  where
    new_knows : (phase : Phase) → Knows s r phase → Knows (capture_header status headers s) r phase
    new_knows waiting k = k
    new_knows following (a, h) = absurd (omega (arith, z, h.0))
    new_knows (reading w c e) (a, h, b, k) = absurd (omega (arith, z, h.0))
    new_knows (done e) k = λ q. absurd (omega (arith, z, (k q).2.0))
