-- ===== src/Cache/Memory/Evict.antt =====
-- evictOldest and the commit of a writer, internal/cache/memory.go.
pub mod Sort
pub mod Accounting
pub mod Gather
pub mod Order
pub mod Write
pub mod Commit
use cachew.Base.{
  ℕ, zero, suc, ◌+◌, ◌-◌, Bool, true, false, ◌&&◌, Option, none, some, List, [], ◌∷◌, ◌++◌, Text,
  length, ltb, leb, if◌then◌else◌, is_some,
}
use cachew.Base.Int.{ℤ, pos, ◌+ℤ◌, ◌-ℤ◌, ltb_ℤ, leb_ℤ}
use cachew.Base.Assoc.{Assoc, lookup, insert, remove}
use cachew.Cache.Short.{CacheError, cancelled, panic_nil_map}
use cachew.Cache.Memory.{Entry, Entries, Store, View, Writer, limit_bytes, modify, find}

-- entryInfo
pub record Info : Type 0 where
  pub namespace : Text
  pub key : Text
  pub size : ℕ
  pub expires_at : ℕ

abbrev pub info : Text → Text → Entry → Info
info n k e = record { namespace = n; key = k; size = length e.bytes; expires_at = e.expires_at }

unfoldable pub gather_in : Text → Assoc Entry → List Info
gather_in n [] = []
gather_in n ((k, e) ∷ m) = info n k e ∷ gather_in n m

-- The entries of every namespace, in the order of the maps.
unfoldable pub gather : Entries → List Info
unfolding gather_in
gather [] = []
gather ((n, m) ∷ rest) = gather_in n m ++ gather rest

-- The inner loop of the sort: `x` stands at i, and is exchanged with every later entry that expires
-- before it.
unfoldable pub exchange : Info → List Info → Info × List Info
exchange x [] = (x, [])
exchange x (y ∷ ys) =
    let swap = ltb y.expires_at x.expires_at in
    let (first, rest) = exchange (if swap then y else x) ys in
    (first, (if swap then x else y) ∷ rest)

-- The outer loop, over the positions that are left.
unfoldable pub sort_rounds : ℕ → List Info → List Info
unfolding exchange
sort_rounds _ [] = []
sort_rounds zero (x ∷ xs) = x ∷ xs
sort_rounds (suc n) (x ∷ xs) = let (first, rest) = exchange x xs in first ∷ sort_rounds n rest

unfoldable pub sort_by_expiry : List Info → List Info
unfolding sort_rounds
sort_by_expiry entries = sort_rounds (length entries) entries

-- One round of the loop that deletes.
unfoldable pub evict_one : Info → Store → Store
unfolding modify remove
evict_one e st = record {
  entries = modify e.namespace (remove e.key) st.entries;
  current_size = st.current_size -ℤ pos e.size;
}

unfoldable pub evict_loop : List Info → ℤ → ℕ → Store → Store
unfolding evict_one
evict_loop [] needed freed st = st
evict_loop (e ∷ es) needed freed st =
    let rest = evict_loop es needed (freed + e.size) (evict_one e st) in
    if leb_ℤ needed (pos freed) then st else rest

-- evictOldest
unfoldable pub evict_oldest : ℤ → Store → Store
unfolding gather sort_by_expiry evict_loop
evict_oldest needed st = evict_loop (sort_by_expiry (gather st.entries)) needed 0 st

-- The namespace gets a map if it has none.
unfoldable pub ensure : Text → Entries → Entries
ensure n entries = if is_some (lookup n entries) then entries else insert n [] entries

unfoldable pub old_size : Option Entry → ℕ
old_size none = 0
old_size (some e) = length e.bytes

-- The space that a write of `new` bytes over `old` needs beyond the limit.
unfoldable pub needed_space : Store → ℕ → ℕ → ℕ → ℤ
needed_space st old new limit = st.current_size -ℤ pos old +ℤ pos new -ℤ pos limit

unfoldable pub make_room : Store → ℕ → ℕ → ℕ → Store
unfolding needed_space evict_oldest
make_room st old new limit =
    let needed = needed_space st old new limit in
    if ltb 0 limit && ltb_ℤ (pos 0) needed then evict_oldest needed st else st

unfoldable pub entry_of : Writer → Entry
entry_of w = record { bytes = w.buf; expires_at = w.expires_at; headers = w.headers }

-- The part of Close under the lock.
unfoldable pub commit : Writer → Store → Store
unfolding ensure old_size make_room entry_of insert lookup find modify
commit w st =
    let entries = ensure w.view.namespace st.entries in
    let old = old_size (find entries w.view.namespace w.key) in
    let new = length w.buf in
    let st' = make_room (record st { entries = entries }) old new (limit_bytes w.view.config) in
    record {
      entries = modify w.view.namespace (insert w.key (entry_of w)) st'.entries;
      current_size = st'.current_size -ℤ pos old +ℤ pos new;
    }

-- memoryWriter.Close
unfoldable pub close_writer : Writer → Store → Writer × Store × Option CacheError
close_writer w st =
    let w' = record w { closed = true } in
    if w.closed
    then (w, st, none)
    else if w.cancelled_ctx
    then (w', st, some cancelled)
    else if w.view.open_view
    then (record w' { buf = [] }, commit w st, none)
    else (w', st, some panic_nil_map)

-- memoryWriter.Abort
unfoldable pub abort : Writer → Store → Writer × Store × Option CacheError
unfolding close_writer
abort w st = close_writer (record w { cancelled_ctx = true }) st
