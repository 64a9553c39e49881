-- ===== src/Cache/Disk/Reads.antt =====
-- What the reads of the disk cache do, when the calls work.
use cachew.Base.{
  ℕ, ◌≡◌, refl, true, false, ◌&&◌, none, some, List, [], ◌∷◌, Text, ltb, if◌then◌else◌, is_some,
  Bool-cases, Option-cases, inl, inr, arith, text_eq, text_eq_iff,
}
use cachew.Base.Assoc.{insert-IsMap}
use cachew.Client.Key.{Key}
use cachew.Client.Options.{RequestOption}
use cachew.Http.{Header}
use cachew.Cache.Short.{not_exist}
use cachew.Cache.Disk.{File, Disk, View, works, cache, delete}
use cachew.Cache.Disk.Open.{failed, touched, stat, stat_file, open_entry, read_file}
use cachew.Cache.Disk.Meta
use cachew.Cache.Disk.Meta.{composite_key, get_ttl, get_headers}
use cachew.Cache.Disk.Names.{IsEntry}
use cachew.Cache.Disk.State.{file_of, IsWritten, IsSound, All-insert, entry-insert}
use cachew.Cache.Disk.Laws.{without, without-IsSound, delete_hit, delete_miss}

-- The disk after an Open that writes a new expiry.
unfoldable pub touch : Text → Key → ℕ → Disk → Disk
touch n k expires_at d = record d { db = Meta.set_ttl n k expires_at d.db }

module _ (n : Text) (k : Key) (x : ℕ) (d : Disk) (h : IsEntry n k) where
  pub touch-lookup :
      (m : Text) (j : Key)
      → IsEntry m j
      → (file_of m j (touch n k x d) ≡ file_of m j d)
        × (get_ttl m j (touch n k x d).db
            ≡ (if text_eq n m && text_eq k j then some x else get_ttl m j d.db))
        × (get_headers m j (touch n k x d).db ≡ get_headers m j d.db)
  unfolding touch get_ttl get_headers Meta.set_ttl
  touch-lookup m j g = (refl, entry-insert n m k j h g x d.db.ttl, refl)

  -- Whether the entries of two names are there is the same, when the names are.
  same_there :
      (m : Text) (j : Key) → (text_eq n m && text_eq k j) ≡ true → file_of n k d ≡ file_of m j d
  same_there m j e = ground (arith, text_eq_iff n m, text_eq_iff k j)

  pub touch-IsSound : is_some (file_of n k d) ≡ true → IsSound d → IsSound (touch n k x d)
  touch-IsSound there s = record {
    files_map = unfold touch in s.files_map;
    ttl_map = unfold touch Meta.set_ttl in insert-IsMap _ _ d.db.ttl s.ttl_map;
    written =
        unfold touch Meta.set_ttl in
        All-insert (λ p. IsWritten p) (composite_key n k) x d.db.ttl
          (record { namespace = n; key = k }, h, refl) s.written;
    counted = unfold touch in s.counted;
    timed = λ m j g. elim (Bool-cases (text_eq n m && text_eq k j)) [
      | inl e ↦
          rw ((touch-lookup m j g).1, (touch-lookup m j g).0, e, ← (same_there m j e), there) refl
      | inr e ↦ rw ((touch-lookup m j g).1, (touch-lookup m j g).0, e) (s.timed m j g)
    ];
    described = λ m j g. rw ((touch-lookup m j g).2, (touch-lookup m j g).0) (s.described m j g);
  }

-- An entry as its parts stand on a disk.
pub record Stands (n : Text) (k : Key) (d : Disk) (f : File) (x : ℕ) (h : Header) : Type 0 where
  pub file : file_of n k d ≡ some f
  pub ttl : get_ttl n k d.db ≡ some x
  pub headers : get_headers n k d.db ≡ some h

module _ (v : View) (now : ℕ) (key : Key) (opts : List RequestOption) (d : Disk) where
  pub open_miss :
      file_of v.namespace key d ≡ none
      → open_entry works v now key opts d ≡ (d, failed (cache not_exist ∷ []))
  unfolding open_entry
  open_miss absent = ground arith

  pub stat_miss :
      file_of v.namespace key d ≡ none
      → stat works v now key opts d ≡ (d, failed (cache not_exist ∷ []))
  unfolding stat
  stat_miss absent = ground arith

  module _ (f : File) (x : ℕ) (h : Header) (s : Stands v.namespace key d f x h) where
    pub open_hit :
        ltb x now ≡ false
        → open_entry works v now key opts d
          ≡ (touch v.namespace key (touched v.config.max_ttl now x) d, read_file f h opts)
    unfolding open_entry touch get_ttl get_headers
    open_hit alive = rw (s.file, open_entry) (rw (s.ttl, open_entry) (rw alive (rw s.headers refl)))

    pub stat_hit : ltb x now ≡ false → stat works v now key opts d ≡ (d, stat_file f h opts)
    unfolding stat get_ttl get_headers
    stat_hit alive = ground (arith, s.file, s.ttl, s.headers)

    pub open_expired :
        ltb x now ≡ true
        → open_entry works v now key opts d
          ≡ (without v.namespace key f d, failed (cache not_exist ∷ cache not_exist ∷ []))
    unfolding open_entry get_ttl without
    open_expired late = ground (arith, s.file, s.ttl)

    pub stat_expired :
        ltb x now ≡ true
        → stat works v now key opts d
          ≡ (without v.namespace key f d, failed (cache not_exist ∷ cache not_exist ∷ []))
    unfolding stat get_ttl without
    stat_expired late = ground (arith, s.file, s.ttl)

-- A disk that is sound has an entry whole or not at all.
pub Stands-of :
    (n : Text) (k : Key) (d : Disk) (f : File)
    → IsEntry n k
    → IsSound d
    → file_of n k d ≡ some f
    → (x : ℕ) × (h : Header) × Stands n k d f x h
Stands-of n k d f g s found = elim (Option-cases (get_ttl n k d.db)) [
  | inl e ↦ absurd (cc (s.timed n k g, e, found))
  | inr (x, e) ↦ elim (Option-cases (get_headers n k d.db)) [
    | inl e' ↦ absurd (cc (s.described n k g, e', found))
    | inr (h, e') ↦ (x, h, record { file = found; ttl = e; headers = e' })
  ]
]

-- Every way in which a disk that is sound answers a read.
module _ (v : View) (now : ℕ) (key : Key) (opts : List RequestOption) (d : Disk)
    (g : IsEntry v.namespace key) (s : IsSound d) where
  pub open-IsSound : IsSound (open_entry works v now key opts d).0
  open-IsSound = elim (Option-cases (file_of v.namespace key d)) [
    | inl e ↦ rw (open_miss v now key opts d e) s
    | inr (f, e) ↦
        let (x, h, st) = Stands-of v.namespace key d f g s e in
        elim (Bool-cases (ltb x now)) [
          | inl late ↦
              rw (open_expired v now key opts d f x h st late)
                (without-IsSound v.namespace key f d g e s)
          | inr alive ↦
              rw (open_hit v now key opts d f x h st alive)
                (touch-IsSound v.namespace key (touched v.config.max_ttl now x) d g (rw e refl) s)
        ]
  ]

  pub stat-IsSound : IsSound (stat works v now key opts d).0
  stat-IsSound = elim (Option-cases (file_of v.namespace key d)) [
    | inl e ↦ rw (stat_miss v now key opts d e) s
    | inr (f, e) ↦
        let (x, h, st) = Stands-of v.namespace key d f g s e in
        elim (Bool-cases (ltb x now)) [
          | inl late ↦
              rw (stat_expired v now key opts d f x h st late)
                (without-IsSound v.namespace key f d g e s)
          | inr alive ↦ rw (stat_hit v now key opts d f x h st alive) s
        ]
  ]

  pub delete-IsSound : IsSound (delete works v now key d).0
  delete-IsSound = elim (Option-cases (file_of v.namespace key d)) [
    | inl e ↦ rw (delete_miss v now key d e) s
    | inr (f, e) ↦ rw (delete_hit v now key d f e) (without-IsSound v.namespace key f d g e s)
  ]
