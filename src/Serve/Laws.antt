-- ===== src/Serve/Laws.antt =====
-- What a client of the in-memory backend is answered over HTTP.
use cachew.Base.Decimal.{format_nat}
use cachew.Base.{
  ℕ, ◌≤◌, ◌≡◌, refl, sym, ap, ◌∙◌, inl, inr, true, Option, none, some, List, [], Text, length, take,
  drop, if◌then◌else◌, arith, ◌==◌, text_eq, Option-cases,
}
use cachew.Client.Options.{
  CondError, not_modified, precondition_failed, range_not_satisfiable, RequestOptions,
  RequestOption, new_request_options, check,
}
use cachew.Client.ByteRange.{Window, RangeOutcome, resolve_range}
use cachew.Http
use cachew.Http.{Header, etag_key, content_range, content_length, canonical}
use cachew.Http.Laws.{get-set, get-del}
use cachew.Cache.Short.{conditional_short_circuit, range_short_circuit, ranged_result}
use cachew.Cache.Memory.{
  Entry, Store, View, find, open_entry, open_found, open_checked, open_window, stat, stat_found,
}
use cachew.Serve.{
  Response, Decorator, conditional_options, check_conditionals, serve_cache_hit, serve_cache_stat,
}

-- The status and the body that RFC 9110 asks for.
abbrev pub expected : Option CondError → Window → List ℕ → ℕ × List ℕ
expected (some not_modified) w bytes = (304, [])
expected (some precondition_failed) w bytes = (412, [])
expected (some range_not_satisfiable) w bytes = (416, [])
expected none w bytes = elim w.outcome [
  | RangeOutcome.range_full ↦ (200, bytes)
  | RangeOutcome.range_partial ↦ (206, take w.length (drop w.start bytes))
  | RangeOutcome.range_not_satisfiable ↦ (416, [])
]

abbrev pub answer : Option Response → Option (ℕ × List ℕ)
answer none = none
answer (some r) = some (r.status, r.body)

etag-served :
    (h : Header) (v : Text)
    → Http.get (Http.del (Http.set h content_length v) content_range) etag_key ≡ Http.get h etag_key
unfolding canonical content_length content_range etag_key text_eq
etag-served h v =
    get-del (Http.set h content_length v) content_range etag_key
    ∙ get-set h content_length etag_key v

dropped : (h : Header) → Http.get (Http.del h content_range) content_range ≡ []
unfolding canonical content_range text_eq
dropped h = get-del h content_range content_range

ranged :
    (h : Header) (v x : Text)
    → Http.get (Http.set (Http.set h content_range v) content_length x) content_range ≡ v
unfolding canonical content_length content_range text_eq
ranged h v x =
    get-set (Http.set h content_range v) content_length content_range x
    ∙ get-set h content_range content_range v

-- A request for a live entry: its options, and the tag that they are checked against.
abbrev pub options_of : Header → RequestOptions
options_of req = new_request_options (conditional_options req)

found_live :
    (v : View) (st : Store) (now : ℕ) (key : Text) (e : Entry) (opts : List RequestOption)
    → v.open_view ≡ true
    → find st.entries v.namespace key ≡ some e
    → now ≤ e.expires_at
    → open_entry v st now key opts ≡ open_found e opts
unfolding open_entry
found_live v st now key e opts is_open found alive = ground arith

refused_as :
    (e : Entry) (decorate : Decorator) (w : Header) (opts : List RequestOption) (c : CondError)
    (window : Window)
    → check (new_request_options opts) (Http.get e.headers etag_key) ≡ some c
    → answer (serve_cache_hit decorate w (open_found e opts))
      ≡ some (expected (some c) window e.bytes)
unfolding serve_cache_hit open_found conditional_short_circuit
refused_as e decorate w opts not_modified window h =
    rw
      (
        serve_cache_hit,
        open_found,
        conditional_short_circuit,
        etag-served e.headers (format_nat (length e.bytes)),
        h,
      )
      refl
refused_as e decorate w opts precondition_failed window h =
    rw
      (
        serve_cache_hit,
        open_found,
        conditional_short_circuit,
        etag-served e.headers (format_nat (length e.bytes)),
        h,
      )
      refl
refused_as e decorate w opts range_not_satisfiable window h =
    rw
      (
        serve_cache_hit,
        open_found,
        conditional_short_circuit,
        etag-served e.headers (format_nat (length e.bytes)),
        h,
      )
      refl

-- The headers of an entry that Open goes on with: its length is set, and no stored range is left.
abbrev cleared : Entry → Header
cleared e = Http.del (Http.set e.headers content_length (format_nat (length e.bytes))) content_range

cleared_lem :
    (e : Entry) (opts : List RequestOption)
    → check (new_request_options opts) (Http.get e.headers etag_key) ≡ none
    → conditional_short_circuit
        (Http.set e.headers content_length (format_nat (length e.bytes)))
        opts
      ≡ record { headers = cleared e; returned = none; error = none }
unfolding conditional_short_circuit
cleared_lem e opts pass = rw (etag-served e.headers (format_nat (length e.bytes)), pass) refl

ranged_lem :
    (e : Entry) (opts : List RequestOption) (window : Window)
    → resolve_range (new_request_options opts) (length e.bytes) (Http.get e.headers etag_key)
      ≡ window
    → range_short_circuit (cleared e) (length e.bytes) opts
      ≡ ranged_result (cleared e) (length e.bytes) window
unfolding range_short_circuit
ranged_lem e opts window found = ap (ranged_result (cleared e) (length e.bytes)) (
    ap (resolve_range (new_request_options opts) (length e.bytes))
      (etag-served e.headers (format_nat (length e.bytes)))
    ∙ found)

window_lem :
    (e : Entry) (opts : List RequestOption) (window : Window)
    → check (new_request_options opts) (Http.get e.headers etag_key) ≡ none
    → resolve_range (new_request_options opts) (length e.bytes) (Http.get e.headers etag_key)
      ≡ window
    → open_found e opts ≡ open_window e (ranged_result (cleared e) (length e.bytes) window)
unfolding open_found open_checked
window_lem e opts window pass found =
    ap (open_checked e opts) (cleared_lem e opts pass)
    ∙ ap (open_window e) (ranged_lem e opts window found)

served_as :
    (e : Entry) (decorate : Decorator) (w : Header) (start len : ℕ) (outcome : RangeOutcome)
    → let window : Window = record { start = start; length = len; outcome = outcome } in
      answer (
        serve_cache_hit decorate w
          (open_window e (ranged_result (cleared e) (length e.bytes) window)))
      ≡ some (expected none window e.bytes)
unfolding serve_cache_hit open_window ranged_result
served_as e decorate w start len RangeOutcome.range_full =
    rw (dropped (Http.set e.headers content_length (format_nat (length e.bytes)))) refl
served_as e decorate w start len RangeOutcome.range_partial =
    rw (ranged (cleared e) _ (format_nat len)) refl
served_as e decorate w start len RangeOutcome.range_not_satisfiable = refl

-- What is served for an entry that is found, by the verdict on its tag and the window of the range.
serve_found :
    (e : Entry) (decorate : Decorator) (w : Header) (opts : List RequestOption)
    → let tag = Http.get e.headers etag_key in
      let ro = new_request_options opts in
      answer (serve_cache_hit decorate w (open_found e opts))
      ≡ some (expected (check ro tag) (resolve_range ro (length e.bytes) tag) e.bytes)
serve_found e decorate w opts =
    let ro = new_request_options opts in
    let tag = Http.get e.headers etag_key in
    let window = resolve_range ro (length e.bytes) tag in
    elim (Option-cases (check ro tag)) [
      | inl pass ↦
          rw (pass, window_lem e opts window pass refl)
            (served_as e decorate w window.start window.length window.outcome)
      | inr (c, h) ↦ rw h (refused_as e decorate w opts c window h)
    ]

never_range : (ro : RequestOptions) (tag : Text) → check ro tag ≡ some range_not_satisfiable → ⊥
unfolding check
never_range ro tag h = ground (arith, h)

stat_live :
    (v : View) (st : Store) (now : ℕ) (key : Text) (e : Entry) (opts : List RequestOption)
    → v.open_view ≡ true
    → find st.entries v.namespace key ≡ some e
    → now ≤ e.expires_at
    → stat v st now key opts ≡ stat_found e opts
unfolding stat
stat_live v st now key e opts is_open found alive = ground arith

-- The status that a status of zero stands for.
abbrev pub or_ok : ℕ → ℕ
or_ok status = if status == 0 then 200 else status

abbrev status_of : Option CondError → ℕ
status_of (some not_modified) = 304
status_of (some precondition_failed) = 412
status_of other = 0

conditionals_as :
    (req : Header) (tag : Text) (verdict : Option CondError)
    → check (options_of req) tag ≡ verdict
    → check_conditionals req tag ≡ status_of verdict
unfolding check_conditionals
conditionals_as req tag none h = rw (check_conditionals, h) refl
conditionals_as req tag (some not_modified) h = rw (check_conditionals, h) refl
conditionals_as req tag (some precondition_failed) h = rw (check_conditionals, h) refl
conditionals_as req tag (some range_not_satisfiable) h = rw (check_conditionals, h) refl

stat_as :
    (e : Entry) (w : Header) (opts : List RequestOption) (verdict : Option CondError)
    → check (new_request_options opts) (Http.get e.headers etag_key) ≡ verdict
    → answer (serve_cache_stat w (stat_found e opts)) ≡ some (or_ok (status_of verdict), [])
unfolding serve_cache_stat stat_found conditional_short_circuit
stat_as e w opts none h = rw (stat_found, cleared_lem e opts h) refl
stat_as e w opts (some not_modified) h =
    rw
      (
        serve_cache_stat,
        stat_found,
        conditional_short_circuit,
        etag-served e.headers (format_nat (length e.bytes)),
        h,
      )
      refl
stat_as e w opts (some precondition_failed) h =
    rw
      (
        serve_cache_stat,
        stat_found,
        conditional_short_circuit,
        etag-served e.headers (format_nat (length e.bytes)),
        h,
      )
      refl
stat_as e w opts (some range_not_satisfiable) h =
    absurd (never_range (new_request_options opts) (Http.get e.headers etag_key) h)

-- Over the in-memory backend a request for an entry that has not expired is answered as its headers
-- ask: 304 or 412 with no body by If-Match and If-None-Match, and else 200 with all bytes, 206 with
-- the bytes of the window that Range and If-Range give, or 416 with no body. A HEAD request has no
-- body and the status of CheckConditionals, or 200.
pub serve-open :
    (v : View) (st : Store) (now : ℕ) (key : Text) (e : Entry) (decorate : Decorator)
    (w req : Header)
    → v.open_view ≡ true
    → find st.entries v.namespace key ≡ some e
    → now ≤ e.expires_at
    → let tag = Http.get e.headers etag_key in
      let opts = conditional_options req in
      (answer (serve_cache_hit decorate w (open_entry v st now key opts))
        ≡ some (
            expected
              (check (options_of req) tag)
              (resolve_range (options_of req) (length e.bytes) tag)
              e.bytes))
      × (answer (serve_cache_stat w (stat v st now key opts))
          ≡ some (or_ok (check_conditionals req tag), []))
serve-open v st now key e decorate w req is_open found alive =
    let opts = conditional_options req in
    (
      ap (λ o. answer (serve_cache_hit decorate w o))
            (found_live v st now key e opts is_open found alive)
          ∙ serve_found e decorate w opts,
      ap (λ o. answer (serve_cache_stat w o)) (stat_live v st now key e opts is_open found alive)
          ∙ stat_as e w opts _ refl
          ∙ ap (λ n. some (or_ok n, []))
              (sym (conditionals_as req (Http.get e.headers etag_key) _ refl)),
    )
