-- ===== src/Cache/Memory.antt =====
-- The in-memory backend, internal/cache/memory.go. A `Store` is what the namespaced views share; a
-- `View` is one `*Memory`. Times and durations are numbers of one clock, read by the caller.
pub mod Evict
pub mod Laws
use cachew.Base.{
  ℕ, zero, suc, ◌+◌, ◌-◌, ◌*◌, Bool, true, false, ◌&&◌, not, Option, none, some, List, [], ◌∷◌,
  ◌++◌, Text, length, take, drop, ltb, leb, ◌==◌, if◌then◌else◌, text_eq,
}
use cachew.Base.Int.{ℤ, pos, ◌+ℤ◌, ◌-ℤ◌, ltb_ℤ, leb_ℤ}
use cachew.Base.Decimal.{format_nat}
use cachew.Base.Result.{Result, ok, err}
use cachew.Base.Assoc.{Assoc, lookup, insert, remove}
use cachew.Client.Options.{CondError, RequestOption, is_blank}
use cachew.Http
use cachew.Http.{Header, content_length, last_modified, transport_headers}
use cachew.Cache.Short.{
  CacheError, Conditional, Ranged, not_exist, cond, bad_etag, cancelled, writer_closed,
  panic_nil_map, conditional_short_circuit, range_short_circuit, set_create_etag,
}

-- MemoryConfig
pub record MemoryConfig : Type 0 where
  pub limit_mb : ℕ
  pub max_ttl : ℕ

-- memoryEntry
pub record Entry : Type 0 where
  pub bytes : List ℕ
  pub expires_at : ℕ
  pub headers : Header

-- namespace -> key -> entry
abbrev pub Entries : Type 0
Entries = Assoc (Assoc Entry)

pub record Store : Type 0 where
  pub entries : Entries
  pub current_size : ℤ

-- A view is open until its Close sets its own `entries` to nil.
pub record View : Type 0 where
  pub config : MemoryConfig
  pub namespace : Text
  pub open_view : Bool

abbrev pub limit_bytes : MemoryConfig → ℕ
limit_bytes c = c.limit_mb * 1024 * 1024

-- m.entries
abbrev visible : View → Store → Entries
visible v st = if v.open_view then st.entries else []

find_in : Option (Assoc Entry) → Text → Option Entry
find_in none key = none
find_in (some ns_entries) key = lookup key ns_entries

unfoldable pub find : Entries → Text → Text → Option Entry
unfolding find_in lookup
find entries namespace key = find_in (lookup namespace entries) key

-- The entry that a read sees: it is there and `now` is not after its expiry.
live : View → Store → ℕ → Text → Option Entry
live v st now key = elim (find (visible v st) v.namespace key) [
  | none ↦ none
  | some e ↦ if ltb e.expires_at now then none else some e
]

sized_headers : Entry → Header
sized_headers e = Http.set e.headers content_length (format_nat (length e.bytes))

-- Stat: the headers and the error; and its part for an entry that it has found.
unfoldable pub stat_found : Entry → List RequestOption → Option Header × Option CacheError
unfolding sized_headers
stat_found e opts =
    let c = conditional_short_circuit (sized_headers e) opts in
    elim c.error [ some x ↦ (c.returned, some (cond x)) | none ↦ (some c.headers, none) ]

unfoldable pub stat :
    View → Store → ℕ → Text → List RequestOption → Option Header × Option CacheError
unfolding live stat_found
stat v st now key opts = elim (live v st now key) [
  | none ↦ (none, some not_exist)
  | some e ↦ stat_found e opts
]

pub record Opened : Type 0 where
  pub body : Option (List ℕ)
  pub headers : Option Header
  pub error : Option CacheError

-- The parts of Open after the two short circuits, for an entry that it has found.
unfoldable pub open_window : Entry → Ranged → Opened
open_window e r = elim r.error [
  | some x ↦ record { body = none; headers = some r.headers; error = some (cond x) }
  | none ↦ record {
    body = some (if r.partial then take r.length (drop r.start e.bytes) else e.bytes);
    headers = some r.headers;
    error = none;
  }
]

unfoldable pub open_checked : Entry → List RequestOption → Conditional → Opened
unfolding open_window
open_checked e opts c = elim c.error [
  | some x ↦ record { body = none; headers = c.returned; error = some (cond x) }
  | none ↦ open_window e (range_short_circuit c.headers (length e.bytes) opts)
]

unfoldable pub open_found : Entry → List RequestOption → Opened
unfolding sized_headers open_checked
open_found e opts = open_checked e opts (conditional_short_circuit (sized_headers e) opts)

-- Open
unfoldable pub open_entry : View → Store → ℕ → Text → List RequestOption → Opened
unfolding live open_found
open_entry v st now key opts = elim (live v st now key) [
  | none ↦ record { body = none; headers = none; error = some not_exist }
  | some e ↦ open_found e opts
]

-- memoryWriter; `cancelled_ctx` is whether its context has ended.
pub record Writer : Type 0 where
  pub view : View
  pub key : Text
  pub buf : List ℕ
  pub expires_at : ℕ
  pub headers : Header
  pub closed : Bool
  pub cancelled_ctx : Bool

-- Create; `date` is the print of the time and `fresh` that of a new UUID.
unfoldable pub create :
    View → ℕ → Text → Text → Text → Header → ℕ → List RequestOption → Result CacheError Writer
create v now date fresh key headers ttl opts =
    let ttl' = if ttl == 0 then v.config.max_ttl else ttl in
    let h = Http.filter_headers headers transport_headers in
    let h' = if is_blank (Http.get h last_modified) then Http.set h last_modified date else h in
    elim (set_create_etag h' opts fresh) [
      | err e ↦ err (bad_etag e)
      | ok h'' ↦ ok (record {
        view = v;
        key = key;
        buf = [];
        expires_at = now + ttl';
        headers = h'';
        closed = false;
        cancelled_ctx = false;
      })
    ]

-- Write
unfoldable pub write : Writer → List ℕ → Writer × Option CacheError
write w p = if w.closed then (w, some writer_closed) else (record w { buf = w.buf ++ p }, none)

-- entries[namespace] = f(entries[namespace]), where the namespace has a map
unfoldable pub modify : Text → (Assoc Entry → Assoc Entry) → Entries → Entries
modify namespace f [] = []
modify namespace f ((n, m) ∷ rest) =
    if text_eq n namespace then (n, f m) ∷ rest else (n, m) ∷ modify namespace f rest

-- Delete
unfoldable pub delete : View → Store → Text → Store × Option CacheError
unfolding modify remove
delete v st key = elim (find (visible v st) v.namespace key) [
  | none ↦ (st, some not_exist)
  | some e ↦ (
    record {
      entries = modify v.namespace (remove key) st.entries;
      current_size = st.current_size -ℤ pos (length e.bytes);
    },
    none,
  )
]

-- Invalidate: a missing entry is no error.
unfoldable pub invalidate : View → Store → Text → Store × Option CacheError
invalidate v st key =
    let (st', error) = delete v st key in
    (st', elim error [ some not_exist ↦ none | other ↦ other ])

-- Close
unfoldable pub close : View → View
close v = record v { open_view = false }

-- Namespace
unfoldable pub with_namespace : View → Text → View
with_namespace v namespace = record v { namespace = namespace }

count_objects : Entries → ℕ
count_objects [] = 0
count_objects ((n, m) ∷ rest) = length m + count_objects rest

pub record Stats : Type 0 where
  pub objects : ℕ
  pub size : ℤ
  pub capacity : ℕ

-- Stats
unfoldable pub stats : View → Store → Stats
unfolding count_objects
stats v st = record {
  objects = count_objects (visible v st);
  size = st.current_size;
  capacity = limit_bytes v.config;
}

names : Entries → List Text
names [] = []
names ((n, m) ∷ rest) = if is_blank n then names rest else n ∷ names rest

-- ListNamespaces
unfoldable pub list_namespaces : View → Store → List Text
unfolding names
list_namespaces v st = names (visible v st)
