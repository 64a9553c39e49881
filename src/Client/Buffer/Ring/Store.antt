-- ===== src/Client/Buffer/Ring/Store.antt =====
-- What a write stores in the pages of the ring.
use cachew.Base.{
  ℕ, ◌+◌, ◌-◌, ◌*◌, ◌/◌, ◌%◌, ◌≤◌, ◌<◌, ◌≡◌, ◌≢◌, refl, sym, ap, ◌∙◌, true, false, ◌&&◌, ◌||◌, some,
  List, length, take, ltb, leb, length-take_of_le, Bool-cases, Option-cases, inl, inr, arith,
}
use native.Mathlib.Nat.{mod-lt, div-add-mod}
use native.Mathlib.Decide.{ℕ_discrete, dec_lt}
use cachew.Base.Arrays.{
  get_elem?, copy_at, length-set, length-copy_at, length-replicate, get_elem?-set_self,
  get_elem?-set_ne, get_elem?-copy_in, get_elem?-copy_before, get_elem?-copy_after, get_elem?-take,
}
use cachew.Base.Divide.{same_page, div_mono, slot_injective}
use cachew.Client.Buffer.Laws.{covered, extend_locked_lem, frontier-extend_locked}
use cachew.Client.Buffer.Ring.{StreamBuffer, page_of, page_or_new, store}
use cachew.Client.Buffer.Ring.Pages.{IsKept, Agrees}

module _ (content : ℕ → ℕ) (s : StreamBuffer) (h : IsKept content s) where
  old_page : ℕ → List ℕ
  old_page i = page_or_new s.chunk_size (page_of (get_elem? s.pages i))

  length-old_page : (i : ℕ) → length (old_page i) ≡ s.chunk_size
  unfolding old_page page_or_new
  length-old_page i = elim (Option-cases (page_of (get_elem? s.pages i))) [
    | inl e ↦ rw e (length-replicate s.chunk_size 0)
    | inr (page, e) ↦ rw e (h.sizes i page e)
  ]

  -- A write of bytes of the object, at an offset that is past the frontier and in the window.
  module _ (p : List ℕ) (off n : ℕ) (fresh : s.coverage.frontier ≤ off)
      (here : off / s.chunk_size < s.read_off / s.chunk_size + s.n) (short : n ≤ length p)
      (fits : n ≤ s.chunk_size - off % s.chunk_size) (agrees : Agrees content p off) where
    slot : ℕ
    slot = (off / s.chunk_size) % s.n

    slot_in : slot < length s.pages
    unfolding slot
    slot_in = rw h.ring (mod-lt (off / s.chunk_size) h.slots)

    new_page : List ℕ
    new_page = copy_at (old_page slot) (off % s.chunk_size) (take n p)

    page_written : page_of (get_elem? (store s p off n).pages slot) ≡ some new_page
    unfolding store page_of new_page slot old_page
    page_written = rw (get_elem?-set_self s.pages slot (some new_page) slot_in) refl

    page_other : (i : ℕ) → i ≢ slot → get_elem? (store s p off n).pages i ≡ get_elem? s.pages i
    unfolding store slot new_page old_page
    page_other i ne = get_elem?-set_ne s.pages slot i (some new_page) (λ e. ne (sym e))

    length-new_page : length new_page ≡ s.chunk_size
    unfolding new_page
    length-new_page =
        length-copy_at (old_page slot) (off % s.chunk_size) (take n p) ∙ length-old_page slot

    sizes' :
        (i : ℕ) (page : List ℕ)
        → page_of (get_elem? (store s p off n).pages i) ≡ some page
        → length page ≡ s.chunk_size
    sizes' i page e = elim (ℕ_discrete i slot) [
      | yes same ↦
          let at_slot : page_of (get_elem? (store s p off n).pages slot) ≡ some page =
            rw same at e in
          let one : page ≡ new_page = cc page_written in rw one length-new_page
      | no ne ↦ h.sizes i page (rw (page_other i ne) at e)
    ]

    -- The new bytes.
    new_byte :
        (x : ℕ)
        → off ≤ x
        → x < off + n
        → (x / s.chunk_size ≡ off / s.chunk_size)
          × (get_elem? new_page (x % s.chunk_size) ≡ some (content x))
    unfolding new_page
    new_byte x low high =
        let (same, offset) = same_page s.chunk_size x off h.paged low (omega arith) in
        let back : off + (x - off) ≡ x = omega arith in
        let room : off % s.chunk_size + (x - off) < length (old_page slot) =
          omega (arith, length-old_page slot) in
        let taken : x - off < length (take n p) = omega (arith, length-take_of_le n p short) in
        (
          same,
          rw offset (
              get_elem?-copy_in (old_page slot) (off % s.chunk_size) (take n p) (x - off) taken room
              ∙ get_elem?-take n p (x - off) (omega arith)
              ∙ agrees (x - off) (omega arith)
              ∙ ap (λ y. some (content y)) back),
        )

    covered_after :
        (x : ℕ)
        → covered (store s p off n).coverage x
          ≡ (covered s.coverage x || (leb off x && ltb x (off + n)))
    unfolding store
    covered_after x = (extend_locked_lem s.coverage off (off + n) (omega arith)).0 x

    window' :
        (x : ℕ)
        → covered (store s p off n).coverage x ≡ true
        → x / s.chunk_size < s.read_off / s.chunk_size + s.n
    window' x c = elim (Bool-cases (covered s.coverage x)) [
      | inl old ↦ h.window x old
      | inr not_old ↦
          let range : (leb off x && ltb x (off + n)) ≡ true = ground (arith, covered_after x) in
          let low : off ≤ x = ground arith in
          let high : x < off + n = ground arith in omega (arith, (new_byte x low high).0)
    ]

    Stored : ℕ → Type 0
    Stored x =
        (page : List ℕ) × (page_of (get_elem? (store s p off n).pages ((x / s.chunk_size) % s.n))
          ≡ some page)
        × (get_elem? page (x % s.chunk_size) ≡ some (content x))

    old_page_is :
        (i : ℕ) (page : List ℕ) → page_of (get_elem? s.pages i) ≡ some page → old_page i ≡ page
    unfolding old_page page_or_new
    old_page_is i page e = rw e refl

    -- A byte of the same page that the write leaves alone.
    beside :
        (x : ℕ)
        → x / s.chunk_size ≡ off / s.chunk_size
        → (leb off x && ltb x (off + n)) ≡ false
        → get_elem? new_page (x % s.chunk_size) ≡ get_elem? (old_page slot) (x % s.chunk_size)
    unfolding new_page
    beside x same out = elim (dec_lt x off) [
      | yes before ↦
          let low : x % s.chunk_size < off % s.chunk_size = omega (
            arith,
            div-add-mod x s.chunk_size,
            div-add-mod off s.chunk_size,
            ap (λ q. s.chunk_size * q) same,
          ) in
          get_elem?-copy_before (old_page slot) (off % s.chunk_size) (take n p) (x % s.chunk_size)
            low
      | no not_before ↦
          let past : off + n ≤ x = ground arith in
          let high : off % s.chunk_size + length (take n p) ≤ x % s.chunk_size = omega (
            arith,
            length-take_of_le n p short,
            div-add-mod x s.chunk_size,
            div-add-mod off s.chunk_size,
            ap (λ q. s.chunk_size * q) same,
          ) in
          get_elem?-copy_after (old_page slot) (off % s.chunk_size) (take n p) (x % s.chunk_size)
            high
    ]

    old-Stored :
        (x : ℕ)
        → covered s.coverage x ≡ true
        → s.read_off / s.chunk_size ≤ x / s.chunk_size
        → (leb off x && ltb x (off + n)) ≡ false
        → Stored x
    unfolding Stored
    old-Stored x old far out =
        let (page, found, e) = h.kept x old far in
        elim (ℕ_discrete ((x / s.chunk_size) % s.n) slot) [
          | yes hit ↦
              let same : x / s.chunk_size ≡ off / s.chunk_size =
                unfold slot in
                slot_injective s.n (s.read_off / s.chunk_size) (x / s.chunk_size)
                  (off / s.chunk_size) far (h.window x old)
                  (div_mono s.read_off off s.chunk_size h.paged (omega (arith, h.emitted))) here
                  hit in
              let held : page_of (get_elem? s.pages slot) ≡ some page = rw hit at found in
              let kept_ : get_elem? (old_page slot) (x % s.chunk_size) ≡ some (content x) =
                rw (old_page_is slot page held) e in
              (new_page, rw hit page_written, beside x same out ∙ kept_)
          | no ne ↦ (page, rw (page_other ((x / s.chunk_size) % s.n) ne) found, e)
        ]

    new-Stored : (x : ℕ) → off ≤ x → x < off + n → Stored x
    unfolding Stored
    new-Stored x low high =
        let (same, e) = new_byte x low high in (new_page, rw same (unfold slot in page_written), e)

    pub store-IsKept : IsKept content (store s p off n)
    unfolding store Stored
    store-IsKept = record {
      paged = h.paged;
      slots = h.slots;
      ring = length-set s.pages _ _ ∙ h.ring;
      sizes = sizes';
      emitted =
          omega (arith, h.emitted, frontier-extend_locked s.coverage off (off + n) (omega arith));
      window = window';
      kept = λ x c far. elim (Bool-cases (leb off x && ltb x (off + n))) [
        | inl range ↦ new-Stored x (ground arith) (ground arith)
        | inr out ↦ old-Stored x (ground (arith, covered_after x)) far out
      ];
    }
