-- ===== src/Cache/Disk/Evict/Result.antt =====
-- What evict removes, what it leaves, and when it stops.
use mathlib.Core.List.{Permᴰ}
use cachew.Base.{
  ℕ, ◌≡◌, refl, sym, ap, ◌∙◌, Bool, true, ◌&&◌, ◌||◌, not, none, List, [], ◌∷◌, ◌++◌, All, All-map,
  Text, ltb, is_some, keep, map, Bool-cases, Option-cases, inl, inr, arith, text_eq, text_eq_iff,
  text_eq_refl,
}
use cachew.Base.Pairs.{Pairs}
use cachew.Base.Int.{pos, leb_ℤ}
use cachew.Base.Assoc.{Assoc, lookup}
use cachew.Client.Key.{Key}
use cachew.Cache.Disk.{DiskConfig, File, Disk, works, limit_bytes, is_expired}
use cachew.Cache.Disk.Meta
use cachew.Cache.Disk.Meta.{MetaDb, EntryKey, composite_key, walk, get_ttl, get_headers}
use cachew.Cache.Disk.Names.{IsEntry}
use cachew.Cache.Disk.State.{file_of, IsSound}
use cachew.Cache.Disk.Evict.{
  FileInfo, Sorter, evict, evict_walked, evict_rest, evict_by_size, delete_evicted,
  delete_expired_entries, start,
}
use cachew.Cache.Disk.Evict.Visits.{
  Timed, IsTimed, HasFile, Distinct, same, info_of, infos, drop_files, dead, live, encode,
  encode-walk, expiry_in, lookup-encode, map-Distinct, visit_all_lem,
}
use cachew.Cache.Disk.Evict.Drops.{names_entry, drop_files-db, victims, shrink_lem, victims_none}
use cachew.Cache.Disk.Evict.Erase.{erase}

same_names :
    (n : Text) (k : Key) (e e' : EntryKey)
    → (text_eq e.namespace n && text_eq e.key k) ≡ true
    → same e e' ≡ (text_eq e'.namespace n && text_eq e'.key k)
same_names n k e e' h = ground (
  arith,
  text_eq_iff e.namespace n,
  text_eq_iff e.key k,
  text_eq_iff e.namespace e'.namespace,
  text_eq_iff e.key e'.key,
  text_eq_iff e'.namespace n,
  text_eq_iff e'.key k,
)

-- An entry that differs from all of a list has no expiry there.
expiry_in-none :
    (n : Text) (k : Key) (e : EntryKey) (x : ℕ) (es : List Timed)
    → (text_eq e.namespace n && text_eq e.key k) ≡ true
    → All (Distinct (e, x)) es
    → expiry_in n k es ≡ none
expiry_in-none n k e x [] h o = refl
expiry_in-none n k e x ((e', y) ∷ es) h (o, os) =
    rw (sym (same_names n k e e' h) ∙ o, expiry_in-none n k e x es h os) refl

-- The entries that have expired are those that the walk finds dead.
pub names-dead :
    (now : ℕ) (files : Assoc File) (n : Text) (k : Key) (es : List Timed)
    → Pairs Distinct es
    → names_entry (dead now (infos files es)) n k ≡ is_expired now (expiry_in n k es)
unfolding infos info_of is_expired
names-dead now files n k [] p = refl
names-dead now files n k ((e, x) ∷ es) (o, p) =
    let rest = names-dead now files n k es p in
    elim (Bool-cases (text_eq e.namespace n && text_eq e.key k)) [
      | inl m ↦
          let alone = rw (expiry_in-none n k e x es m o) at rest in
          elim (Bool-cases (ltb x now)) [ inl q ↦ rw (q, m, q) refl | inr q ↦ rw (q, m, q) alone ]
      | inr m ↦ elim (Bool-cases (ltb x now)) [ inl q ↦ rw (q, m) rest | inr q ↦ rw (q, m) rest ]
    ]

pub names-infos :
    (files : Assoc File) (n : Text) (k : Key) (es : List Timed)
    → names_entry (infos files es) n k ≡ is_some (expiry_in n k es)
unfolding infos info_of
names-infos files n k [] = refl
names-infos files n k ((e, x) ∷ es) = ground (arith, names-infos files n k es)

pub names-keep :
    (p : FileInfo → Bool) (n : Text) (k : Key) (is : List FileInfo)
    → (names_entry (keep p is) n k || names_entry (keep (λ i. not (p i)) is) n k)
      ≡ names_entry is n k
names-keep p n k [] = refl
names-keep p n k (i ∷ is) = ground (arith, names-keep p n k is)

pub names-append :
    (n : Text) (k : Key) (is js : List FileInfo)
    → names_entry (is ++ js) n k ≡ (names_entry is n k || names_entry js n k)
names-append n k [] js = refl
names-append n k (i ∷ is) js = ground (arith, names-append n k is js)

pub names-perm :
    (n : Text) (k : Key) {is js : List FileInfo}
    → Permᴰ is js
    → names_entry is n k ≡ names_entry js n k
names-perm n k Permᴰ.nil = refl
names-perm n k (Permᴰ.cons e d) = rw (e, names-perm n k d) refl
names-perm n k (Permᴰ.swap e f) = rw (e, f) (ground arith)
names-perm n k (Permᴰ.trans d d') = names-perm n k d ∙ names-perm n k d'

expiry_in-own :
    (es : List Timed) → All (λ t. is_some (expiry_in t.0.namespace t.0.key es) ≡ true) es
expiry_in-own [] = tt
expiry_in-own ((e, x) ∷ es) = (
  rw (text_eq_refl e.namespace, text_eq_refl e.key) refl,
  All-map (λ t. is_some (expiry_in t.0.namespace t.0.key es) ≡ true)
      (λ t. is_some (expiry_in t.0.namespace t.0.key ((e, x) ∷ es)) ≡ true) (λ t h. ground arith) es
      (expiry_in-own es),
)

-- The entries of the database as the walk meets them.
module _ (sha256 : Text → Key) (d : Disk) (s : IsSound d) where
  abbrev pub met : List Timed
  met = walk sha256 d.db.ttl

  pub met-IsTimed : All IsTimed met
  met-IsTimed = (encode-walk sha256 d.db.ttl s.written).1

  met-encode : map encode met ≡ d.db.ttl
  met-encode = (encode-walk sha256 d.db.ttl s.written).0

  pub met-Distinct : Pairs Distinct met
  met-Distinct = map-Distinct met met-IsTimed (rw met-encode s.ttl_map)

  pub met-expiry : (n : Text) (k : Key) → IsEntry n k → get_ttl n k d.db ≡ expiry_in n k met
  unfolding get_ttl
  met-expiry n k g =
      ap (λ (t : Assoc ℕ). lookup (composite_key n k) t) (sym met-encode)
      ∙ lookup-encode n k met g met-IsTimed

  MetIn : Timed → Type 0
  MetIn t = is_some (get_ttl t.0.namespace t.0.key d.db) ≡ true

  found-HasFile : (es : List Timed) → All IsTimed es → All MetIn es → All (HasFile d.files) es
  unfolding MetIn
  found-HasFile [] h m = tt
  found-HasFile (t ∷ es) (h, hs) (m, ms) =
      let there = sym (s.timed t.0.namespace t.0.key h) ∙ m in
      (
        elim (Option-cases (file_of t.0.namespace t.0.key d)) [
          | inl e ↦ absurd (cc)
          | inr (f, e) ↦ (f, e)
        ],
        found-HasFile es hs ms,
      )

  in_met :
      (es : List Timed)
      → All IsTimed es
      → All (λ t. is_some (expiry_in t.0.namespace t.0.key met) ≡ true) es
      → All MetIn es
  unfolding MetIn
  in_met [] h o = tt
  in_met (t ∷ es) (h, hs) (o, os) = (rw (met-expiry t.0.namespace t.0.key h) o, in_met es hs os)

  pub met-HasFile : All (HasFile d.files) met
  met-HasFile = found-HasFile met met-IsTimed (in_met met met-IsTimed (expiry_in-own met))

-- The two deletions from the database.
delete_expired_lem :
    (es : List EntryKey) (d : Disk)
    → delete_expired_entries works es d ≡ (record d { db = Meta.delete_all es d.db }, [])
unfolding delete_expired_entries Meta.delete_all
delete_expired_lem [] d = refl
delete_expired_lem (e ∷ es) d = refl

erase_none : (d : Disk) → erase [] d ≡ d
unfolding erase drop_files Meta.delete_all
erase_none d = refl

evict_by_size_lem :
    (by_access : Sorter) (limit : ℕ) (is : List FileInfo) (d : Disk)
    → evict_by_size works by_access limit is d ≡ (erase (victims limit (by_access is) d.size) d, [])
unfolding evict_by_size delete_evicted erase
evict_by_size_lem by_access limit is d = elim (Bool-cases (leb_ℤ d.size (pos limit))) [
  | inl e ↦
      rw (e, victims_none limit (by_access is) d.size e)
        (ap (λ (x : Disk). (x, [])) (sym (erase_none d)))
  | inr e ↦
      rw (e, shrink_lem limit (by_access is) d) (rw delete_expired_lem (rw drop_files-db refl))
]

-- The dead of a disk, and what is left when they are gone.
unfoldable pub dead_of : (Text → Key) → ℕ → Disk → List FileInfo
dead_of sha256 now d = dead now (infos d.files (walk sha256 d.db.ttl))

unfoldable pub live_of : (Text → Key) → ℕ → Disk → List FileInfo
live_of sha256 now d = live now (infos d.files (walk sha256 d.db.ttl))

unfoldable pub cleaned : (Text → Key) → ℕ → Disk → Disk
cleaned sha256 now d = erase (dead_of sha256 now d) d

module _ (sha256 : Text → Key) (by_access : Sorter) (config : DiskConfig) (now : ℕ) (d : Disk)
    (s : IsSound d) where
  unfoldable pub gone_of : List FileInfo
  gone_of =
      victims (limit_bytes config) (by_access (live_of sha256 now d)) (cleaned sha256 now d).size

  pub evict_lem :
      evict sha256 works by_access config now d ≡ (erase gone_of (cleaned sha256 now d), [])
  unfolding evict evict_walked evict_rest start gone_of cleaned dead_of live_of erase
  evict_lem =
      rw
        (visit_all_lem now (met sha256 d s) d [] [] (met-IsTimed sha256 d s)
          (met-Distinct sha256 d s) (met-HasFile sha256 d s))
        (rw (delete_expired_lem, drop_files-db)
          (evict_by_size_lem by_access (limit_bytes config) (live_of sha256 now d)
            (cleaned sha256 now d)))
