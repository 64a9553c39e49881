-- ===== src/Client/Buffer/Ring/Pages.antt =====
-- The pages of the ring against an object: what they keep, and what a read finds.
use cachew.Base.{
  ℕ, ◌+◌, ◌-◌, ◌/◌, ◌%◌, ◌≤◌, ◌<◌, ◌≡◌, Bool, true, Option, some, List, length, take, drop, arith,
}
use cachew.Base.Arrays.{get_elem?, values, take-drop}
use cachew.Base.Divide.{same_page, div_mono}
use cachew.Client.Buffer.Laws.{covered}
use cachew.Client.Buffer.Ring.{StreamBuffer, StreamError, page_of}

-- The page that stands for an offset.
abbrev pub page_at : StreamBuffer → ℕ → Option (List ℕ)
page_at s x = page_of (get_elem? s.pages ((x / s.chunk_size) % s.n))

-- The buffer has the byte of an offset.
abbrev pub HasByte : (ℕ → ℕ) → StreamBuffer → ℕ → Type 0
HasByte content s x =
    (page : List ℕ) × (page_at s x ≡ some page)
    × (get_elem? page (x % s.chunk_size) ≡ some (content x))

-- Every written offset that is not behind the page of the reader is in the window, and its byte is
-- kept; the offsets before the frontier are not behind the reader.
pub record IsKept (content : ℕ → ℕ) (s : StreamBuffer) : Type 0 where
  pub paged : 0 < s.chunk_size
  pub slots : 0 < s.n
  pub ring : length s.pages ≡ s.n
  pub sizes :
      (i : ℕ) (page : List ℕ)
      → page_of (get_elem? s.pages i) ≡ some page
      → length page ≡ s.chunk_size
  pub emitted : s.read_off ≤ s.coverage.frontier
  pub window :
      (x : ℕ) → covered s.coverage x ≡ true → x / s.chunk_size < s.read_off / s.chunk_size + s.n
  pub kept :
      (x : ℕ)
      → covered s.coverage x ≡ true
      → s.read_off / s.chunk_size ≤ x / s.chunk_size
      → HasByte content s x

-- The bytes `p` are those of the object from `off` on.
abbrev pub Agrees : (ℕ → ℕ) → List ℕ → ℕ → Type 0
Agrees content p off = (i : ℕ) → i < length p → get_elem? p i ≡ some (content (off + i))

module _ (content : ℕ → ℕ) (s : StreamBuffer) (h : IsKept content s) where
  byte_at :
      (x m : ℕ) (page : List ℕ)
      → HasByte content s x
      → page_at s s.read_off ≡ some page
      → x / s.chunk_size ≡ s.read_off / s.chunk_size
      → x % s.chunk_size ≡ m
      → get_elem? page m ≡ some (content x)
  byte_at x m page (page', found', e) found same place =
      let again : page_at s s.read_off ≡ some page' = rw same at found' in
      let one : page ≡ page' = cc in
      let e' : get_elem? page' m ≡ some (content x) = rw place at e in rw one e'

  -- What Read copies out of a page is a stretch of the object.
  pub read_bytes :
      (n : ℕ)
      → n ≤ s.coverage.frontier - s.read_off
      → n ≤ s.chunk_size - s.read_off % s.chunk_size
      → s.read_off < s.coverage.frontier
      → (page : List ℕ) × (page_at s s.read_off ≡ some page)
        × (take n (drop (s.read_off % s.chunk_size) page) ≡ values content s.read_off n)
  read_bytes n inside fits pos =
      let (page, found, first) = h.kept s.read_off (ground arith) (omega arith) in
      (
        page,
        found,
        take-drop content n (s.read_off % s.chunk_size) s.read_off page
            (λ i less. byte page found i less),
      )
    where
      byte :
          (page : List ℕ)
          → page_at s s.read_off ≡ some page
          → (i : ℕ) → i < n
          → get_elem? page (s.read_off % s.chunk_size + i) ≡ some (content (s.read_off + i))
      byte page found i less =
          let (same, offset) =
            same_page s.chunk_size (s.read_off + i) s.read_off h.paged (omega arith)
              (omega arith) in
          let place : (s.read_off + i) % s.chunk_size ≡ s.read_off % s.chunk_size + i =
            omega (arith, offset) in
          byte_at (s.read_off + i) (s.read_off % s.chunk_size + i) page
            (h.kept (s.read_off + i) (ground arith) (omega (arith, same))) found same place

  pub flags-IsKept :
      (closed rclosed : Bool) (err : Option StreamError)
      → IsKept content (record s { closed = closed; err = err; rclosed = rclosed })
  flags-IsKept closed rclosed err = record {
    paged = h.paged;
    slots = h.slots;
    ring = h.ring;
    sizes = h.sizes;
    emitted = h.emitted;
    window = h.window;
    kept = h.kept;
  }

  -- The reader moves on, not past the frontier.
  pub move-IsKept :
      (n : ℕ)
      → n ≤ s.coverage.frontier - s.read_off
      → IsKept content (record s { read_off = s.read_off + n })
  move-IsKept n inside =
      let later = div_mono s.read_off (s.read_off + n) s.chunk_size h.paged (omega arith) in
      record {
        paged = h.paged;
        slots = h.slots;
        ring = h.ring;
        sizes = h.sizes;
        emitted = omega (arith, h.emitted);
        window = λ x c. omega (arith, h.window x c, later);
        kept = λ x c far. h.kept x c (omega (arith, far, later));
      }
