-- ===== src/Client/Etag.antt =====
-- Entity tags: the second half of client/preconditions.go. The errors carry what the message names.
pub mod Laws
use cachew.Base.{
  ℕ, suc, ◌-◌, ◌<◌, ◌≡◌, Bool, true, false, ◌&&◌, ◌||◌, not, Option, none, some, List, [], ◌∷◌,
  ◌++◌, Text, codes, text_eq, contains_rune, leb, ltb, ◌==◌, if◌then◌else◌,
}
use cachew.Base.Result.{Result, ok, err, ◌>>=◌}
use cachew.Base.Strings.{split, trim_space}

pub data EtagError : Type 0 where
  empty_etag : EtagError
  invalid_character : ℕ → EtagError
  not_quoted : Text → EtagError

abbrev pub quote : ℕ
quote = 34

-- isRawETagChar
unfoldable pub is_raw_etag_char : ℕ → Bool
unfolding contains_rune
is_raw_etag_char r =
    leb b'a' r && leb r b'z'
    || (leb b'A' r && leb r b'Z' || (leb b'0' r && leb r b'9' || contains_rune (codes "._-:/+=") r))

-- The loop of ValidateRawETag: none when every character is allowed.
unfoldable pub check_chars : Text → Option EtagError
unfolding is_raw_etag_char
check_chars [] = none
check_chars (r ∷ s) =
    if ltb 127 r || not (is_raw_etag_char r) then some (invalid_character r) else check_chars s

-- ValidateRawETag
unfoldable pub validate_raw_etag : Text → Option EtagError
unfolding check_chars
validate_raw_etag [] = some empty_etag
validate_raw_etag (r ∷ s) = check_chars (r ∷ s)

-- FormatETag
unfoldable pub format_etag : Text → Result EtagError Text
unfolding validate_raw_etag
format_etag etag = elim (validate_raw_etag etag) [
  | some e ↦ err e
  | none ↦ ok (quote ∷ etag ++ quote ∷ [])
]

-- The text before a last quote: etag[1:len(etag)-1] once the first character is off.
unfoldable pub before_quote : Text → Option Text
before_quote [] = none
before_quote (c ∷ []) = if c == quote then some [] else none
before_quote (c ∷ d ∷ s) = elim (before_quote (d ∷ s)) [ none ↦ none | some raw ↦ some (c ∷ raw) ]

-- RawETagFromHeader
unfoldable pub raw_etag_from_header : Text → Result EtagError Text
unfolding validate_raw_etag before_quote
raw_etag_from_header [] = err (not_quoted [])
raw_etag_from_header (c ∷ s) =
    if c == quote
    then elim (before_quote s) [
      | none ↦ err (not_quoted (c ∷ s))
      | some raw ↦ elim (validate_raw_etag raw) [ some e ↦ err e | none ↦ ok raw ]
    ]
    else err (not_quoted (c ∷ s))

any_matches : List Text → Text → Bool
any_matches [] etag = false
any_matches (candidate ∷ rest) etag =
    let c = trim_space candidate in text_eq c (codes "*") || text_eq c etag || any_matches rest etag

-- etagListMatches
unfoldable pub etag_list_matches : Text → Text → Bool
unfolding any_matches
etag_list_matches header etag = any_matches (split b',' header) etag
