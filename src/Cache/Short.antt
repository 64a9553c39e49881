-- ===== src/Cache/Short.antt =====
-- Short circuits of a request: internal/cache/conditional.go, range.go and etag.go.
use cachew.Base.{
  ℕ, ◌+◌, ◌-◌, Bool, true, false, not, Option, none, some, List, ◌∷◌, ◌++◌, Text, codes,
  if◌then◌else◌,
}
use cachew.Base.Decimal.{format_nat}
use cachew.Base.Result.{Result, ok, err}
use cachew.Client.Etag.{EtagError, format_etag}
use cachew.Client.Options.{
  CondError, not_modified, range_not_satisfiable, RequestOption, new_request_options, check,
}
use cachew.Client.ByteRange.{Window, RangeOutcome, resolve_range}
use cachew.Http
use cachew.Http.{Header, content_length, content_range, etag_key}

-- What a cache operation reports. A panic on a nil map is a value here.
pub data CacheError : Type 0 where
  not_exist : CacheError
  cond : CondError → CacheError
  bad_etag : EtagError → CacheError
  cancelled writer_closed panic_nil_map : CacheError

-- conditionalShortCircuit: the headers, which it changes in place; the headers that it returns; the
-- error.
pub record Conditional : Type 0 where
  pub headers : Header
  pub returned : Option Header
  pub error : Option CondError

conditional_result : Header → Option CondError → Conditional
conditional_result h none = record { headers = h; returned = none; error = none }
conditional_result h (some not_modified) = record {
  headers = h;
  returned = some h;
  error = some not_modified;
}
conditional_result h (some e) = record { headers = h; returned = none; error = some e }

unfoldable pub conditional_short_circuit : Header → List RequestOption → Conditional
unfolding conditional_result
conditional_short_circuit headers opts =
    let h = Http.del headers content_range in
    conditional_result h (check (new_request_options opts) (Http.get h etag_key))

-- rangeShortCircuit: the headers, changed in place; the window; whether it is partial; the error.
pub record Ranged : Type 0 where
  pub headers : Header
  pub start : ℕ
  pub length : ℕ
  pub partial : Bool
  pub error : Option CondError

unfoldable pub ranged_result : Header → ℕ → Window → Ranged
ranged_result headers size w = elim w.outcome [
  | RangeOutcome.range_partial ↦
      let h = Http.set headers content_range (
        codes "bytes "
        ++ format_nat w.start
        ++ b'-' ∷ format_nat (w.start + w.length - 1)
        ++ b'/' ∷ format_nat size) in
      record {
        headers = Http.set h content_length (format_nat w.length);
        start = w.start;
        length = w.length;
        partial = true;
        error = none;
      }
  | RangeOutcome.range_not_satisfiable ↦
      let h = Http.set headers content_range (codes "bytes */" ++ format_nat size) in
      record {
        headers = Http.del h content_length;
        start = 0;
        length = 0;
        partial = false;
        error = some range_not_satisfiable;
      }
  | RangeOutcome.range_full ↦ record {
    headers = headers;
    start = 0;
    length = size;
    partial = false;
    error = none;
  }
]

unfoldable pub range_short_circuit : Header → ℕ → List RequestOption → Ranged
unfolding ranged_result
range_short_circuit headers size opts =
    ranged_result headers size
      (resolve_range (new_request_options opts) size (Http.get headers etag_key))

-- createETag; `fresh` is the text of a new UUID.
unfoldable pub create_etag : List RequestOption → Text → Result EtagError Text
create_etag opts fresh =
    let ro = new_request_options opts in format_etag (if not ro.etag_set then fresh else ro.etag)

-- setCreateETag
unfoldable pub set_create_etag : Header → List RequestOption → Text → Result EtagError Header
unfolding create_etag
set_create_etag headers opts fresh = elim (create_etag opts fresh) [
  | err e ↦ err e
  | ok quoted ↦ ok (Http.set headers etag_key quoted)
]
