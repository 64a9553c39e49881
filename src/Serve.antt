-- ===== src/Serve.antt =====
-- Answers to HTTP requests from the outcomes of a cache, internal/httputil/conditional.go.
pub mod Laws
mod Tests
use cachew.Base.{
  ℕ, Bool, true, false, not, Option, none, some, List, [], ◌∷◌, ◌++◌, Text, codes, if◌then◌else◌,
}
use cachew.Base.Assoc.{insert}
use cachew.Client.Options.{
  CondError, not_modified, precondition_failed, range_not_satisfiable, RequestOption, if_match,
  if_none_match, if_range, raw_range, is_blank, new_request_options, check,
}
use cachew.Http
use cachew.Http.{Header, content_range}
use cachew.Cache.Short.{CacheError, cond}
use cachew.Cache.Memory.{Opened}

option_of : (Text → RequestOption) → Text → List RequestOption
option_of f v = if is_blank v then [] else f v ∷ []

-- ConditionalOptions, of the request's headers
unfoldable pub conditional_options : Header → List RequestOption
unfolding option_of
conditional_options r =
    option_of if_match (Http.get r (codes "If-Match"))
    ++ option_of if_none_match (Http.get r (codes "If-None-Match"))
    ++ option_of raw_range (Http.get r (codes "Range"))
    ++ option_of if_range (Http.get r (codes "If-Range"))

-- CheckConditionals
unfoldable pub check_conditionals : Header → Text → ℕ
check_conditionals r tag = elim (check (new_request_options (conditional_options r)) tag) [
  | some not_modified ↦ 304
  | some precondition_failed ↦ 412
  | other ↦ 0
]

-- What is written to the http.ResponseWriter; no status written is 200.
pub record Response : Type 0 where
  pub status : ℕ
  pub headers : Header
  pub body : List ℕ

-- maps.Copy, in the order of the source's entries
unfoldable pub copy : Header → Header → Header
copy w [] = w
copy w ((name, values) ∷ h) = copy (insert name values w) h

stored_headers : Option Header → Header
stored_headers none = []
stored_headers (some h) = h

accept_ranges : Header → Header
accept_ranges w = Http.set w (codes "Accept-Ranges") (codes "bytes")

body_of : Option (List ℕ) → List ℕ
body_of none = []
body_of (some body) = body

-- The decorator of a ServeOption, run on the response's headers and the stored ones.
abbrev pub Decorator : Type 0
Decorator = Header → Header → Header

-- ServeCacheHit, with a body that reads and closes without an error; none is handled = false.
unfoldable pub serve_cache_hit : Decorator → Header → Opened → Option Response
unfolding stored_headers accept_ranges body_of copy
serve_cache_hit decorate w opened =
    let stored = stored_headers opened.headers in
    let plain = copy w stored in
    let full = decorate (accept_ranges plain) stored in
    elim opened.error [
      | none ↦ some (record {
        status = if is_blank (Http.get stored content_range) then 200 else 206;
        headers = full;
        body = body_of opened.body;
      })
      | some (cond not_modified) ↦ some (record { status = 304; headers = plain; body = [] })
      | some (cond precondition_failed) ↦ some (record { status = 412; headers = w; body = [] })
      | some (cond range_not_satisfiable) ↦
          some (record { status = 416; headers = full; body = [] })
      | some other ↦ none
    ]

-- ServeCacheStat
unfoldable pub serve_cache_stat : Header → Option Header × Option CacheError → Option Response
unfolding stored_headers accept_ranges copy
serve_cache_stat w (headers, error) =
    let plain = copy w (stored_headers headers) in
    elim error [
      | none ↦ some (record { status = 200; headers = accept_ranges plain; body = [] })
      | some (cond not_modified) ↦ some (record { status = 304; headers = plain; body = [] })
      | some (cond precondition_failed) ↦ some (record { status = 412; headers = w; body = [] })
      | some other ↦ none
    ]
