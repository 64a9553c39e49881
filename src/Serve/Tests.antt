-- ===== src/Serve/Tests.antt =====
-- A range request for an entry of the in-memory backend.
use cachew.Base.{◌≡◌, refl, true, some, [], ◌∷◌, Text, codes, length, text_eq, arith}
use cachew.Base.Int.{pos}
use cachew.Base.Assoc.{lookup}
use cachew.Client.Options.{check}
use cachew.Client.ByteRange.{resolve_range}
use cachew.Http
use cachew.Http.{Header, etag_key}
use cachew.Cache.Memory.{Entry, Store, View, find, open_entry, stat}
use cachew.Serve.{conditional_options, check_conditionals, serve_cache_hit, serve_cache_stat}
use cachew.Serve.Laws.{expected, answer, options_of, or_ok, serve-open}

abbrev name : Text
name = codes "git"

abbrev served_entry : Entry
served_entry = record {
  bytes = 1 ∷ 2 ∷ 3 ∷ 4 ∷ [];
  expires_at = 50;
  headers = (codes "Etag", codes "\"v1\"" ∷ []) ∷ [];
}

abbrev served_view : View
served_view = record {
  config = record { limit_mb = 1; max_ttl = 100 };
  namespace = name;
  open_view = true;
}

abbrev served_store : Store
served_store = record { entries = (name, (name, served_entry) ∷ []) ∷ []; current_size = pos 4 }

abbrev ranged_request : Header
ranged_request =
    (codes "Range", codes "bytes=1-2" ∷ []) ∷ (codes "If-Range", codes "\"v1\"" ∷ []) ∷ []

serve-open_example :
    let tag = Http.get served_entry.headers etag_key in
    let opts = conditional_options ranged_request in
    (answer (serve_cache_hit (λ w stored. w) [] (open_entry served_view served_store 10 name opts))
      ≡ some (
          expected
            (check (options_of ranged_request) tag)
            (resolve_range (options_of ranged_request) (length served_entry.bytes) tag)
            served_entry.bytes))
    × (answer (serve_cache_stat [] (stat served_view served_store 10 name opts))
        ≡ some (or_ok (check_conditionals ranged_request tag), []))
unfolding find lookup text_eq
serve-open_example =
    serve-open served_view served_store 10 name served_entry (λ w stored. w) [] ranged_request refl
      refl (omega arith)
