-- ===== src/Cache/Disk/Served.antt =====
-- What a client of the disk cache reads after a write: internal/cache/disk.go.
use cachew.Base.{
  ℕ, ◌+◌, ◌≤◌, ◌≡◌, refl, ◌∙◌, true, false, ◌&&◌, some, [], ltb, arith, text_eq, text_eq_refl,
}
use cachew.Client.Key.{Key}
use cachew.Client.Options.{new_request_options, check}
use cachew.Client.ByteRange.{resolve_range}
use cachew.Http.{Header}
use cachew.Cache.Short.{conditional_short_circuit, range_short_circuit}
use cachew.Cache.Disk.{File, Disk, View, Writer, works, close_writer}
use cachew.Cache.Disk.Open.{touched, open_entry, read_file}
use cachew.Cache.Disk.Names.{IsEntry}
use cachew.Cache.Disk.Laws.{file_from, committed, close_writer_lem, committed-lookup}
use cachew.Cache.Disk.Reads.{Stands, open_hit, touch, touch-lookup}

-- A plain read of a file gives its bytes.
read_file_plain :
    (f : File) (h : Header)
    → ((read_file f h []).body ≡ some f.bytes) × ((read_file f h []).errors ≡ [])
unfolding read_file conditional_short_circuit range_short_circuit new_request_options check
    resolve_range
read_file_plain f h = (ground arith, ground arith)

touched_later :
    (m now later x : ℕ)
    → now ≤ later
    → later ≤ x
    → later ≤ now + m
    → ltb (touched m now x) later ≡ false
touched_later m now later x h g k = ground arith

-- A plain read of an entry that has not expired.
plain :
    (v : View) (now : ℕ) (key : Key) (d : Disk) (f : File) (x : ℕ) (h : Header)
    → Stands v.namespace key d f x h
    → now ≤ x
    → ((open_entry works v now key [] d).1.body ≡ some f.bytes)
      × ((open_entry works v now key [] d).1.errors ≡ [])
plain v now key d f x h st alive =
    rw (open_hit v now key [] d f x h st (ground arith)) (read_file_plain f h)

module _ (w : Writer) (v : View) (d : Disk) (g : IsEntry w.namespace w.key)
    (same : v.namespace ≡ w.namespace) where
  committed-Stands : Stands v.namespace w.key (committed w d) (file_from w) w.expires_at w.headers
  committed-Stands = rw same (
      let (a, b, c) = committed-lookup w d w.namespace w.key g g in
      let self : (text_eq w.namespace w.namespace && text_eq w.key w.key) ≡ true =
        rw (text_eq_refl w.namespace, text_eq_refl w.key) refl in
      record { file = rw self at a; ttl = rw self at b; headers = rw self at c })

  touched-Stands :
      (now : ℕ)
      → Stands v.namespace w.key
          (touch v.namespace w.key (touched v.config.max_ttl now w.expires_at) (committed w d))
          (file_from w)
          (touched v.config.max_ttl now w.expires_at)
          w.headers
  touched-Stands now =
      let x = touched v.config.max_ttl now w.expires_at in
      let st = committed-Stands in
      let g' : IsEntry v.namespace w.key = rw same g in
      let (a, b, c) = touch-lookup v.namespace w.key x (committed w d) g' v.namespace w.key g' in
      let self : (text_eq v.namespace v.namespace && text_eq w.key w.key) ≡ true =
        rw (text_eq_refl v.namespace, text_eq_refl w.key) refl in
      record { file = a ∙ st.file; ttl = rw self at b; headers = c ∙ st.headers }

  -- With working calls a writer of a valid name that is neither closed nor cancelled closes with
  -- no error; an Open with no options of its entry, before it expires, returns the bytes that
  -- were written, and so does a later one that comes before the entry expires and within the
  -- maximal time to live of the first; a second Close changes nothing on the disk.
  pub close_writer_open :
      (now later : ℕ)
      → w.closed ≡ false
      → w.cancelled_ctx ≡ false
      → now ≤ later
      → later ≤ w.expires_at
      → later ≤ now + v.config.max_ttl
      → ((close_writer works w d).2 ≡ [])
        × ((open_entry works v now w.key [] (close_writer works w d).1).1.body ≡ some w.written)
        × ((open_entry works v later w.key []
              (open_entry works v now w.key [] (close_writer works w d).1).0).1.body
            ≡ some w.written)
        × ((close_writer works (close_writer works w d).0 (close_writer works w d).1).1
            ≡ (close_writer works w d).1)
  close_writer_open now later p q h alive recent =
      let d' = committed w d in
      let st = committed-Stands in
      let first =
        open_hit v now w.key [] d' (file_from w) w.expires_at w.headers st (ground arith) in
      rw (close_writer_lem w d p q) (
        refl,
        (plain v now w.key d' (file_from w) w.expires_at w.headers st (omega arith)).0,
        rw first
            (plain v later w.key _ (file_from w) (touched v.config.max_ttl now w.expires_at)
              w.headers (touched-Stands now) (omega arith)).0,
        unfold close_writer in refl,
      )
