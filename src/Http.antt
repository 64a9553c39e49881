-- ===== src/Http.antt =====
-- http.Header of net/http as far as the code uses it, and FilterHeaders of internal/httputil/headers.go.
-- A header name is kept under its canonical spelling, as net/textproto writes it.
pub mod Laws
use cachew.Base.{
  ℕ, ◌+◌, ◌-◌, Bool, true, false, ◌&&◌, ◌||◌, Option, none, some, List, [], ◌∷◌, Text, codes, leb,
  ◌==◌, if◌then◌else◌, text_eq, contains_rune,
}
use cachew.Base.Assoc.{Assoc, lookup, insert, remove}

abbrev pub Header : Type 0
Header = Assoc (List Text)

is_token_char : ℕ → Bool
is_token_char c =
    leb b'a' c && leb c b'z'
    || (leb b'A' c && leb c b'Z'
        || (leb b'0' c && leb c b'9' || contains_rune (codes "!#$%&'*+-.^_`|~") c))

is_token : Text → Bool
is_token [] = true
is_token (c ∷ s) = is_token_char c && is_token s

capitalise : Bool → Text → Text
capitalise start [] = []
capitalise start (c ∷ s) =
    let c' =
      if start
      then if leb b'a' c && leb c b'z' then c - 32 else c
      else if leb b'A' c && leb c b'Z'
      then c + 32
      else c in
    c' ∷ capitalise (c == b'-') s

-- http.CanonicalHeaderKey
unfoldable pub canonical : Text → Text
unfolding is_token_char is_token capitalise contains_rune
canonical name = if is_token name then capitalise true name else name

first_value : Option (List Text) → Text
first_value none = []
first_value (some []) = []
first_value (some (v ∷ vs)) = v

-- Header.Get: the first value, or the empty text.
unfoldable pub get : Header → Text → Text
unfolding first_value lookup
get h name = first_value (lookup (canonical name) h)

-- Header.Set
unfoldable pub set : Header → Text → Text → Header
unfolding insert
set h name v = insert (canonical name) (v ∷ []) h

-- Header.Del
unfoldable pub del : Header → Text → Header
unfolding remove
del h name = remove (canonical name) h

-- The set of names to skip.
unfoldable pub skips : List Text → Text → Bool
skips [] name = false
skips (s ∷ skip) name = text_eq (canonical s) (canonical name) || skips skip name

-- FilterHeaders
unfoldable pub filter_headers : Header → List Text → Header
unfolding skips
filter_headers [] skip = []
filter_headers ((name, values) ∷ h) skip =
    let rest = filter_headers h skip in if skips skip name then rest else (name, values) ∷ rest

-- TransportHeaders
abbrev pub transport_headers : List Text
transport_headers =
    codes "Content-Length"
    ∷ codes "Date"
    ∷ codes "Accept-Encoding"
    ∷ codes "User-Agent"
    ∷ codes "Transfer-Encoding"
    ∷ codes "Time-To-Live"
    ∷ codes "If-Match"
    ∷ codes "If-None-Match"
    ∷ codes "Range"
    ∷ codes "If-Range"
    ∷ codes "Content-Range"
    ∷ []

-- The header names that the code writes.
unfoldable pub content_length : Text
content_length = codes "Content-Length"

unfoldable pub content_range : Text
content_range = codes "Content-Range"

unfoldable pub etag_key : Text
etag_key = codes "ETag"

unfoldable pub last_modified : Text
last_modified = codes "Last-Modified"
