-- ===== src/Cache/Disk/Meta.antt =====
-- The metadata of the disk cache, internal/cache/disk_metadb.go: two buckets of bbolt, as maps with
-- the keys that compositeKey writes, and the namespaces that have been seen.
use cachew.Base.{
  ℕ, Bool, true, Option, none, some, List, [], ◌∷◌, ◌++◌, Text, length, ◌==◌, if◌then◌else◌,
}
use cachew.Base.Strings.{cut}
use cachew.Base.Assoc.{Assoc, lookup, insert, remove}
use cachew.Client.Key.{Key, key_string, unmarshal_text}
use cachew.Client.Options.{is_blank}
use cachew.Http.{Header}

-- diskMetaDB; a `sync.Map` of namespaces is the map to `true`.
pub record MetaDb : Type 0 where
  pub ttl : Assoc ℕ
  pub headers : Assoc Header
  pub namespaces_cache : Assoc Bool

-- evictEntryKey
pub record EntryKey : Type 0 where
  pub namespace : Text
  pub key : Key

-- compositeKey
unfoldable pub composite_key : Text → Key → Text
composite_key namespace key =
    if is_blank namespace then key_string key else namespace ++ b'/' ∷ key_string key

store_namespace : Text → Assoc Bool → Assoc Bool
store_namespace namespace cache = if is_blank namespace then cache else insert namespace true cache

-- newDiskMetaDB: the namespaces of the entries that the file has.
scan_namespace : Option (Text × Text) → Assoc Bool → Assoc Bool
unfolding store_namespace
scan_namespace none cache = cache
scan_namespace (some (namespace, rest)) cache = store_namespace namespace cache

scan_namespaces : Assoc ℕ → Assoc Bool → Assoc Bool
unfolding scan_namespace
scan_namespaces [] cache = cache
scan_namespaces ((k, _) ∷ ttl) cache = scan_namespaces ttl (scan_namespace (cut b'/' k) cache)

unfoldable pub new_disk_meta_db : Assoc ℕ → Assoc Header → MetaDb
unfolding scan_namespaces
new_disk_meta_db ttl headers = record {
  ttl = ttl;
  headers = headers;
  namespaces_cache = scan_namespaces ttl [];
}

-- setTTL
unfoldable pub set_ttl : Text → Key → ℕ → MetaDb → MetaDb
unfolding store_namespace
set_ttl namespace key expires_at db = record db {
  ttl = insert (composite_key namespace key) expires_at db.ttl;
  namespaces_cache = store_namespace namespace db.namespaces_cache;
}

-- set
unfoldable pub set : Key → Text → ℕ → Header → MetaDb → MetaDb
unfolding store_namespace
set key namespace expires_at headers db = record {
  ttl = insert (composite_key namespace key) expires_at db.ttl;
  headers = insert (composite_key namespace key) headers db.headers;
  namespaces_cache = store_namespace namespace db.namespaces_cache;
}

-- getTTL and getHeaders; none is fs.ErrNotExist.
unfoldable pub get_ttl : Text → Key → MetaDb → Option ℕ
get_ttl namespace key db = lookup (composite_key namespace key) db.ttl

unfoldable pub get_headers : Text → Key → MetaDb → Option Header
get_headers namespace key db = lookup (composite_key namespace key) db.headers

-- delete
unfoldable pub delete : Text → Key → MetaDb → MetaDb
delete namespace key db = record db {
  ttl = remove (composite_key namespace key) db.ttl;
  headers = remove (composite_key namespace key) db.headers;
}

-- deleteAll
unfoldable pub delete_all : List EntryKey → MetaDb → MetaDb
unfolding delete
delete_all [] db = db
delete_all (e ∷ es) db = delete_all es (delete e.namespace e.key db)

-- The part of walk that reads a key of the bucket; none is one that it passes over.
read_key : (Text → Key) → Text → Text → Option EntryKey
read_key sha256 namespace hex_key =
    if length hex_key == 64
    then some (record { namespace = namespace; key = unmarshal_text sha256 hex_key })
    else none

unfoldable pub decode_key : (Text → Key) → Text → Option EntryKey
unfolding read_key
decode_key sha256 k = elim (cut b'/' k) [
  | none ↦ read_key sha256 [] k
  | some (before, hex_key) ↦ read_key sha256 before hex_key
]

-- walk: the entries for which it calls the function, in the order of the bucket.
unfoldable pub walk : (Text → Key) → Assoc ℕ → List (EntryKey × ℕ)
unfolding decode_key
walk sha256 [] = []
walk sha256 ((k, expires_at) ∷ ttl) =
    let rest = walk sha256 ttl in
    elim (decode_key sha256 k) [ none ↦ rest | some e ↦ (e, expires_at) ∷ rest ]

-- count
unfoldable pub count : MetaDb → ℕ
count db = length db.ttl

-- listNamespaces, before its sort
unfoldable pub list_namespaces : Assoc Bool → List Text
list_namespaces [] = []
list_namespaces ((n, _) ∷ cache) = n ∷ list_namespaces cache
