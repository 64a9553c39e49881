-- ===== src/Client/Parallel/Fetch/Laws.antt =====
-- What the requests of a chunk write, against a server whose tag pins the object.
use cachew.Base.{
  ℕ, zero, suc, ◌+◌, ◌-◌, ◌*◌, ◌≤◌, ◌≡◌, refl, ◌∙◌, Bool, true, false, ◌&&◌, ◌||◌, ◌⊎◌, Option,
  none, some, List, [], ◌∷◌, ◌++◌, All, All-append, Text, text_eq, length, take, ltb, leb, arith,
  Bool-cases, inl, inr, length-take,
}
use cachew.Base.Result.{Result, ok, err}
use cachew.Base.Arrays.{get_elem?-take}
use cachew.Http
use cachew.Http.{Header, etag_key}
use cachew.Client.Buffer.Ring.Pages.{Agrees}
use cachew.Client.Parallel.Fetch.{
  ChunkError, Body, Reply, refused, replied, Server, is_range_from, open_chunk, write_chunk_at,
  Piece, Fetched, body_for, write_body, attempt, is_resumed, fetch_chunk,
}

-- A response with the tag and the range of a request has bytes of the object, from the start on.
abbrev pub IsPinned : (ℕ → ℕ) → Server → Text → Type 0
IsPinned content server etag =
    (t start end : ℕ) (h : Header) (body : Body)
    → server t start end ≡ replied h body
    → is_range_from start h ≡ true
    → text_eq (Http.get h etag_key) etag ≡ true
    → Agrees content body.bytes start

-- The offsets that are written.
abbrev pub wrote : List Piece → ℕ → Bool
wrote [] x = false
wrote (p ∷ ps) x = (leb p.offset x && ltb x (p.offset + length p.bytes)) || wrote ps x

wrote-append : (ps qs : List Piece) (x : ℕ) → wrote (ps ++ qs) x ≡ (wrote ps x || wrote qs x)
wrote-append [] qs x = refl
wrote-append (p ∷ ps) qs x = ground (arith, wrote-append ps qs x)

reply_cases :
    (r : Reply)
    → ((e : ChunkError) × (r ≡ refused e)) ⊎ ((h : Header) × (body : Body) × (r ≡ replied h body))
reply_cases (refused e) = inl (e, refl)
reply_cases (replied h body) = inr (h, body, refl)

module _ (content : ℕ → ℕ) where
  abbrev IsPiece : Piece → Type 0
  IsPiece p = Agrees content p.bytes p.offset

  -- From `start`, with a number of requests at most, the bytes of the object are written up to the
  -- offset that is reached, and no others; with no error that is `end`.
  abbrev pub IsFetch : ℕ → ℕ → ℕ → Fetched → Type 0
  IsFetch start end requests f =
      (start ≤ f.start)
      × (f.start ≤ end)
      × (f.requests ≤ requests)
      × All IsPiece f.pieces
      × ((x : ℕ) → wrote f.pieces x ≡ (leb start x && ltb x f.start))
      × (f.error ≡ none → f.start ≡ end)

  weaken :
      (start end few more : ℕ) (f : Fetched)
      → few ≤ more
      → IsFetch start end few f
      → IsFetch start end more f
  weaken start end few more f h (low, high, count, pieces, places, done) =
      (low, high, omega (arith, count, h), pieces, places, done)

  abbrev IsBody : ℕ → Result ChunkError Body → Type 0
  IsBody start (err e) = Unit
  IsBody start (ok body) = Agrees content body.bytes start

  take-Agrees : (n off : ℕ) (p : List ℕ) → Agrees content p off → Agrees content (take n p) off
  take-Agrees n off p h i less =
      get_elem?-take n p i (omega (arith, less, length-take n p))
      ∙ h i (omega (arith, less, length-take n p))

  taken : (len : ℕ) (body : Body) → (write_chunk_at len body).0 ≡ take len body.bytes
  unfolding write_chunk_at
  taken len body = ground arith

  filled :
      (len : ℕ) (body : Body)
      → (write_chunk_at len body).1 ≡ none
      → length (take len body.bytes) ≡ len
  unfolding write_chunk_at
  filled len body e = ground arith

  write_body-IsFetch :
      (start end t : ℕ) (r : Result ChunkError Body)
      → start ≤ end
      → IsBody start r
      → IsFetch start end t (write_body start end (r, t))
  unfolding write_body write_chunk_at
  write_body-IsFetch start end t (err e) inside h =
      (omega arith, inside, omega arith, tt, (λ x. ground arith), λ e'. cc)
  write_body-IsFetch start end t (ok body) inside h =
      let n = take (end - start) body.bytes in
      let short = length-take (end - start) body.bytes in
      let full = filled (end - start) body in
      rw (taken (end - start) body) (
        omega arith,
        omega (arith, short, inside),
        omega arith,
        (take-Agrees (end - start) start body.bytes h, tt),
        (λ x. ground arith),
        λ e. omega (arith, full e, inside),
      )

  module _ (server : Server) (etag : Text) (pinned : IsPinned content server etag) where
    open_chunk-IsBody :
        (start end left t : ℕ)
        → IsBody start (open_chunk server etag start end left t).0
          × ((open_chunk server etag start end left t).1 ≤ t + suc left)
    unfolding open_chunk
    open_chunk-IsBody start end zero t = elim (reply_cases (server t start end)) [
      | inl (e, r) ↦ rw (open_chunk, r) (tt, omega arith)
      | inr (h, body, r) ↦ elim (Bool-cases (is_range_from start h)) [
        | inr ignored ↦ rw (open_chunk, r, ignored) (tt, omega arith)
        | inl ranged ↦ elim (Bool-cases (text_eq (Http.get h etag_key) etag)) [
          | inr changed ↦ rw (open_chunk, r, ranged, changed) (tt, omega arith)
          | inl same ↦
              let agrees = pinned t start end h body r ranged same in
              rw (open_chunk, r, ranged, same) (agrees, omega arith)
        ]
      ]
    ]
    open_chunk-IsBody start end (suc left) t =
        let (rest, count) = open_chunk-IsBody start end left (suc t) in
        elim (reply_cases (server t start end)) [
          | inl (e, r) ↦ rw (open_chunk, r) (tt, omega arith)
          | inr (h, body, r) ↦ elim (Bool-cases (is_range_from start h)) [
            | inr ignored ↦ rw (open_chunk, r, ignored) (rest, omega (arith, count))
            | inl ranged ↦ elim (Bool-cases (text_eq (Http.get h etag_key) etag)) [
              | inr changed ↦ rw (open_chunk, r, ranged, changed) (tt, omega arith)
              | inl same ↦
                  let agrees = pinned t start end h body r ranged same in
                  rw (open_chunk, r, ranged, same) (agrees, omega arith)
            ]
          ]
        ]

    abbrev pub IsStart : ℕ → Option Body → Type 0
    IsStart start none = Unit
    IsStart start (some body) = Agrees content body.bytes start

    attempt-IsFetch :
        (start end t : ℕ) (body : Option Body)
        → start ≤ end
        → IsStart start body
        → IsFetch start end (t + 4) (attempt server etag start end body t)
    unfolding attempt body_for
    attempt-IsFetch start end t (some body) inside h =
        weaken start end t (t + 4) (write_body start end (ok body, t)) (omega arith)
          (write_body-IsFetch start end t (ok body) inside h)
    attempt-IsFetch start end t none inside h =
        let (is_body, count) = open_chunk-IsBody start end 3 t in
        let opened = open_chunk server etag start end 3 t in
        weaken start end opened.1 (t + 4) (write_body start end opened) count
          (write_body-IsFetch start end opened.1 opened.0 inside is_body)

    -- Against a server whose tag pins the object, fetchChunk asks at most four times for each of its
    -- attempts; whatever breaks, it writes bytes of the object only, exactly those from `start` up to
    -- the offset that it reaches, inside the chunk; and if it reports no error, that is the end.
    pub fetch_chunk-IsFetch :
        (waits : ℕ → Bool) (start end left t : ℕ) (body : Option Body)
        → start ≤ end
        → IsStart start body
        → IsFetch start end (t + 4 * suc left) (fetch_chunk server etag waits start end body left t)
    unfolding fetch_chunk
    fetch_chunk-IsFetch waits start end zero t body inside h =
        weaken start end (t + 4) (t + 4 * suc zero) (attempt server etag start end body t)
          (omega arith) (attempt-IsFetch start end t body inside h)
    fetch_chunk-IsFetch waits start end (suc left) t body inside h =
        let f = attempt server etag start end body t in
        let (low, high, count, pieces, places, done) = attempt-IsFetch start end t body inside h in
        let (low', high', count', pieces', places', done') =
          fetch_chunk-IsFetch waits f.start end left f.requests none high tt in
        let rest = fetch_chunk server etag waits f.start end none left f.requests in
        elim (Bool-cases (is_resumed f && waits (suc left))) [
          | inr ends ↦
              rw (fetch_chunk, ends) (low, high, omega (arith, count), pieces, places, done)
          | inl again ↦
              rw (fetch_chunk, again)
                (
                  omega (arith, low, low'),
                  high',
                  omega (arith, count, count'),
                  All-append IsPiece f.pieces rest.pieces pieces pieces',
                  (λ x.
                      wrote-append f.pieces rest.pieces x
                      ∙ ground (arith, places x, places' x, low, low')),
                  done',
                )
        ]
