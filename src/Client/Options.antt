-- ===== src/Client/Options.antt =====
-- Conditional requests: RequestOptions, its functional options and Check of client/preconditions.go.
pub mod Laws
use cachew.Base.{
  Bool, true, false, ◌&&◌, ◌||◌, not, Option, none, some, List, [], ◌∷◌, Text, text_eq,
  if◌then◌else◌,
}
use cachew.Client.Etag.{etag_list_matches}

-- The sentinel errors that a conditional Open, Stat or Check reports.
pub data CondError : Type 0 where
  not_modified precondition_failed range_not_satisfiable : CondError

pub record RequestOptions : Type 0 where
  pub if_match : Text
  pub if_none_match : Text
  pub range : Text
  pub if_range : Text
  pub etag : Text
  pub etag_set : Bool

-- RequestOption
abbrev pub RequestOption : Type 0
RequestOption = RequestOptions → RequestOptions

abbrev pub no_options : RequestOptions
no_options = record {
  if_match = [];
  if_none_match = [];
  range = [];
  if_range = [];
  etag = [];
  etag_set = false;
}

unfoldable pub if_match : Text → RequestOption
if_match tag o = record o { if_match = tag }

unfoldable pub if_none_match : Text → RequestOption
if_none_match tag o = record o { if_none_match = tag }

unfoldable pub if_range : Text → RequestOption
if_range tag o = record o { if_range = tag }

unfoldable pub raw_range : Text → RequestOption
raw_range spec o = record o { range = spec }

unfoldable pub with_etag : Text → RequestOption
with_etag tag o = record o { etag = tag; etag_set = true }

apply_options : RequestOptions → List RequestOption → RequestOptions
apply_options o [] = o
apply_options o (opt ∷ opts) = apply_options (opt o) opts

-- NewRequestOptions
unfoldable pub new_request_options : List RequestOption → RequestOptions
unfolding apply_options
new_request_options opts = apply_options no_options opts

abbrev pub is_blank : Text → Bool
is_blank [] = true
is_blank (c ∷ s) = false

-- RequestOptions.Check: none when every precondition passes.
unfoldable pub check : RequestOptions → Text → Option CondError
check o tag =
    if not (is_blank o.if_match) && (is_blank tag || not (etag_list_matches o.if_match tag))
    then some precondition_failed
    else if not (is_blank o.if_none_match)
        && (not (is_blank tag) && etag_list_matches o.if_none_match tag)
    then some not_modified
    else none

-- RequestOptions.IfRangeMisses
unfoldable pub if_range_misses : RequestOptions → Text → Bool
if_range_misses o tag =
    not (is_blank o.range) && (not (is_blank o.if_range) && not (text_eq o.if_range tag))
