-- ===== src/Cache/Disk/Evict/Visits.antt =====
-- The walk of the eviction over the database: which entries it meets, and what it makes of them.
use cachew.Base.{
  ℕ, ◌≡◌, refl, sym, ◌∙◌, Bool, true, false, ◌&&◌, not, Option, none, some, List, [], ◌∷◌, ◌++◌,
  All, Text, length, ltb, if◌then◌else◌, keep, map, Bool-cases, inl, inr, arith, text_eq,
  text_eq_iff, append_assoc, append-nil,
}
use cachew.Base.Pairs.{Pairs}
use cachew.Base.Assoc.{Assoc, Fresh, IsMap, lookup, remove}
use cachew.Client.Key.{Key}
use cachew.Cache.Disk.{File, Disk, key_to_path, works}
use cachew.Cache.Disk.Meta.{EntryKey, composite_key, decode_key, walk}
use cachew.Cache.Disk.Names.{IsEntry, text_eq-composite, decode_key-composite_key}
use cachew.Cache.Disk.State.{IsWritten, file-remove}
use cachew.Cache.Disk.Evict.{FileInfo, Walk, info, drop_file, visit, visit_all}

abbrev pub Timed : Type 0
Timed = EntryKey × ℕ

abbrev pub IsTimed : Timed → Type 0
IsTimed t = IsEntry t.0.namespace t.0.key

-- Whether two entries are one.
abbrev pub same : EntryKey → EntryKey → Bool
same a b = text_eq a.namespace b.namespace && text_eq a.key b.key

-- The key and value of the database for an entry.
abbrev pub encode : Timed → Text × ℕ
encode t = (composite_key t.0.namespace t.0.key, t.1)

walk_step :
    (sha256 : Text → Key) (p : Text) (x : ℕ) (ttl : Assoc ℕ) (e : EntryKey)
    → decode_key sha256 p ≡ some e
    → walk sha256 ((p, x) ∷ ttl) ≡ (e, x) ∷ walk sha256 ttl
unfolding walk
walk_step sha256 p x ttl e h = ground arith

-- The walk meets the entries that were written, in the order of the bucket.
pub encode-walk :
    (sha256 : Text → Key) (ttl : Assoc ℕ)
    → All (λ p. IsWritten p) ttl
    → (map encode (walk sha256 ttl) ≡ ttl) × All IsTimed (walk sha256 ttl)
encode-walk sha256 [] h = unfold walk in (refl, tt)
encode-walk sha256 ((p, x) ∷ ttl) ((e, valid, named), h) =
    let (rest, all) = encode-walk sha256 ttl h in
    let read : decode_key sha256 p ≡ some e =
      rw named (decode_key-composite_key sha256 e.namespace e.key valid) in
    rw (walk_step sha256 p x ttl e read) (rw (rest, named) refl, (valid, all))

-- The expiry of an entry among those of a list.
abbrev pub expiry_in : Text → Key → List Timed → Option ℕ
expiry_in n k [] = none
expiry_in n k ((e, x) ∷ es) =
    if text_eq e.namespace n && text_eq e.key k then some x else expiry_in n k es

pub lookup-encode :
    (n : Text) (k : Key) (es : List Timed)
    → IsEntry n k
    → All IsTimed es
    → lookup (composite_key n k) (map encode es) ≡ expiry_in n k es
unfolding lookup
lookup-encode n k [] h hs = refl
lookup-encode n k ((e, x) ∷ es) h (g, hs) =
    rw (text_eq-composite e.namespace n e.key k g h, lookup-encode n k es h hs) refl

abbrev pub Distinct : Timed → Timed → Type 0
Distinct s t = same s.0 t.0 ≡ false

Fresh-cons :
    (p q : Text) (x : ℕ) (m : Assoc ℕ) → Fresh p ((q, x) ∷ m) → (text_eq q p ≡ false) × Fresh p m
unfolding lookup
Fresh-cons p q x m h = ground arith

same-swap : (a b : EntryKey) → same a b ≡ false → same b a ≡ false
same-swap a b h = ground (
  arith,
  text_eq_iff a.namespace b.namespace,
  text_eq_iff b.namespace a.namespace,
  text_eq_iff a.key b.key,
  text_eq_iff b.key a.key,
)

Fresh-Distinct :
    (e : EntryKey) (es : List Timed)
    → IsEntry e.namespace e.key
    → All IsTimed es
    → Fresh (composite_key e.namespace e.key) (map encode es)
    → All (λ t. same e t.0 ≡ false) es
Fresh-Distinct e [] g hs f = tt
Fresh-Distinct e ((e', y) ∷ es) g (h, hs) f =
    let (a, b) = Fresh-cons _ _ y (map encode es) f in
    (
      same-swap e' e (sym (text_eq-composite e'.namespace e.namespace e'.key e.key h g) ∙ a),
      Fresh-Distinct e es g hs b,
    )

pub map-Distinct : (es : List Timed) → All IsTimed es → IsMap (map encode es) → Pairs Distinct es
map-Distinct [] hs m = tt
map-Distinct ((e, x) ∷ es) (h, hs) (f, m) = (Fresh-Distinct e es h hs f, map-Distinct es hs m)

-- What evict knows of an entry and its file.
file_or : Option File → File
file_or none = record { bytes = []; mod_time = 0 }
file_or (some f) = f

unfoldable pub info_of : Assoc File → Timed → FileInfo
unfolding file_or
info_of files (e, x) = info e x (file_or (lookup (key_to_path e.namespace e.key) files))

unfoldable pub infos : Assoc File → List Timed → List FileInfo
infos files es = map (info_of files) es

abbrev pub gone_by : ℕ → FileInfo → Bool
gone_by now i = ltb i.expires_at now

abbrev pub dead : ℕ → List FileInfo → List FileInfo
dead now is = keep (gone_by now) is

abbrev pub live : ℕ → List FileInfo → List FileInfo
live now is = keep (λ i. not (gone_by now i)) is

abbrev pub entries : List FileInfo → List EntryKey
entries is = map (λ i. i.entry) is

-- The files of a list, dropped in turn
unfoldable pub drop_files : List FileInfo → Disk → Disk
drop_files [] d = d
drop_files (i ∷ is) d = drop_files is (drop_file i.path i.size d)

abbrev pub HasFile : Assoc File → Timed → Type 0
HasFile files t = (f : File) × (lookup (key_to_path t.0.namespace t.0.key) files ≡ some f)

-- Dropping one file leaves what is known of the others.
module _ (e : EntryKey) (g : IsEntry e.namespace e.key) (files : Assoc File) where
  abbrev less : Assoc File
  less = remove (key_to_path e.namespace e.key) files

  less-lookup :
      (t : Timed)
      → IsTimed t
      → same e t.0 ≡ false
      → lookup (key_to_path t.0.namespace t.0.key) less
        ≡ lookup (key_to_path t.0.namespace t.0.key) files
  less-lookup t h other =
      file-remove e.namespace t.0.namespace e.key t.0.key g h files ∙ rw other refl

  less-infos :
      (es : List Timed)
      → All IsTimed es
      → All (λ t. same e t.0 ≡ false) es
      → infos less es ≡ infos files es
  unfolding infos info_of
  less-infos [] h o = refl
  less-infos (t ∷ es) (h, hs) (o, os) = rw (less-lookup t h o, less-infos es hs os) refl

  less-HasFile :
      (es : List Timed)
      → All IsTimed es
      → All (λ t. same e t.0 ≡ false) es
      → All (HasFile files) es
      → All (HasFile less) es
  less-HasFile [] h o fs = tt
  less-HasFile (t ∷ es) (h, hs) (o, os) ((f, found), fs) =
      ((f, less-lookup t h o ∙ found), less-HasFile es hs os fs)

-- The state of the walk after entries with their infos.
abbrev pub after : ℕ → List FileInfo → Disk → List FileInfo → List EntryKey → Walk
after now is d r t = record {
  disk = drop_files (dead now is) d;
  remaining = r ++ live now is;
  expired = t ++ entries (dead now is);
  errors = [];
}

abbrev pub walking : Disk → List FileInfo → List EntryKey → Walk
walking d r t = record { disk = d; remaining = r; expired = t; errors = [] }

module _ (now : ℕ) (e : EntryKey) (x : ℕ) (d : Disk) (r : List FileInfo) (t : List EntryKey)
    (f : File) (found : lookup (key_to_path e.namespace e.key) d.files ≡ some f) where
  visit_dead :
      ltb x now ≡ true
      → visit works now e x (walking d r t)
        ≡ walking (drop_file (key_to_path e.namespace e.key) (length f.bytes) d) r (t ++ e ∷ [])
  unfolding visit
  visit_dead q = ground arith

  visit_live :
      ltb x now ≡ false → visit works now e x (walking d r t) ≡ walking d (r ++ info e x f ∷ []) t
  unfolding visit
  visit_live q = ground arith

  info_found : info_of d.files (e, x) ≡ info e x f
  unfolding info_of file_or
  info_found = rw found refl

module _ (now : ℕ) where
  -- The walk drops the files of the entries that have expired, and lists the others.
  pub visit_all_lem :
      (es : List Timed) (d : Disk) (r : List FileInfo) (t : List EntryKey)
      → All IsTimed es
      → Pairs Distinct es
      → All (HasFile d.files) es
      → visit_all works now es (walking d r t) ≡ after now (infos d.files es) d r t
  unfolding visit_all infos drop_files
  visit_all_lem [] d r t h p fs = rw (append-nil r, append-nil t) refl
  visit_all_lem ((e, x) ∷ es) d r t (h, hs) (o, p) ((f, found), fs) =
      elim (Bool-cases (ltb x now)) [
        | inl q ↦
            let d' = drop_file (key_to_path e.namespace e.key) (length f.bytes) d in
            let files : d'.files ≡ less e h d.files = unfold drop_file in refl in
            let rest =
              visit_all_lem es d' r (t ++ e ∷ []) hs p
                (rw files (less-HasFile e h d.files es hs o fs)) in
            rw (visit_dead now e x d r t f found q, info_found now e x d r t f found, q)
              (rest ∙ rw (files, less-infos e h d.files es hs o, append_assoc) refl)
        | inr q ↦
            let rest = visit_all_lem es d (r ++ info e x f ∷ []) t hs p fs in
            rw (visit_live now e x d r t f found q, info_found now e x d r t f found, q)
              (rest ∙ rw append_assoc refl)
      ]
