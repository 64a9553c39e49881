-- ===== src/Client/ByteRange.antt =====
-- Byte ranges: formatByteRange, Range, ResolveRange and resolveByteRange of client/preconditions.go.
-- Offsets and sizes of objects are not negative; a parsed number is an int64, which may be.
pub mod Laws
use cachew.Base.{
  ℕ, zero, suc, ◌+◌, ◌-◌, ◌≡◌, refl, Bool, true, false, ◌&&◌, ◌||◌, Option, none, some, List, [],
  ◌∷◌, ◌++◌, Text, codes, drop, length, ltb, leb, ◌==◌, if◌then◌else◌, has_prefix, contains_rune,
}
use cachew.Base.Int.{ℤ, pos, negsuc}
use cachew.Base.Decimal.{parse_int, format_nat}
use cachew.Base.Strings.{cut, trim_space}
use cachew.Client.Options.{RequestOptions, RequestOption, is_blank, if_range_misses}

pub data RangeOutcome : Type 0 where
  range_full range_partial range_not_satisfiable : RangeOutcome

-- The three results of ResolveRange.
pub record Window : Type 0 where
  pub start : ℕ
  pub length : ℕ
  pub outcome : RangeOutcome

abbrev pub full : ℕ → Window
full size = record { start = 0; length = size; outcome = range_full }

abbrev pub unsatisfiable : ℕ → Window
unsatisfiable size = record { start = 0; length = size; outcome = range_not_satisfiable }

abbrev pub window : ℕ → ℕ → Window
window start length = record { start = start; length = length; outcome = range_partial }

-- formatByteRange, at a start that is not negative
unfoldable pub format_byte_range : ℕ → ℤ → Text
format_byte_range start (negsuc _) = codes "bytes=" ++ format_nat start ++ b'-' ∷ []
format_byte_range start (pos zero) = codes "bytes=" ++ format_nat start ++ b'-' ∷ codes "-1"
format_byte_range start (pos (suc last)) =
    codes "bytes=" ++ format_nat start ++ b'-' ∷ format_nat last

-- Range
unfoldable pub range : ℕ → ℤ → RequestOption
range start end o = record o { range = format_byte_range start end }

-- The suffix range "-N".
suffix_range : Option ℤ → ℕ → Window
suffix_range none size = full size
suffix_range (some (negsuc _)) size = unsatisfiable size
suffix_range (some (pos n)) size =
    if n == 0 || size == 0
    then unsatisfiable size
    else let n' = if ltb size n then size else n in window (size - n') n'

-- What follows once the start is known to lie in the object.
end_range : ℕ → Option ℤ → ℕ → Window
end_range start none size = full size
end_range start (some (negsuc _)) size = full size
end_range start (some (pos end)) size =
    if ltb end start
    then full size
    else let end' = if leb size end then size - 1 else end in window start (end' - start + 1)

start_range : Option ℤ → Text → ℕ → Window
start_range none end size = full size
start_range (some (negsuc _)) end size = full size
start_range (some (pos start)) end size =
    if leb size start
    then unsatisfiable size
    else if is_blank end
    then window start (size - start)
    else end_range start (parse_int end) size

-- The specifier behind "bytes=".
unfoldable pub resolve_spec : Text → ℕ → Window
unfolding suffix_range start_range end_range
resolve_spec spec size =
    if is_blank spec || contains_rune spec b',' then full size else elim (cut b'-' spec) [
      | none ↦ full size
      | some (before, after) ↦
          let start = trim_space before in
          let end = trim_space after in
          if is_blank start
          then suffix_range (parse_int end) size
          else start_range (parse_int start) end size
    ]

-- resolveByteRange
unfoldable pub resolve_byte_range : Text → ℕ → Window
unfolding resolve_spec
resolve_byte_range spec size =
    if has_prefix spec (codes "bytes=")
    then resolve_spec (trim_space (drop 6 spec)) size
    else full size

-- RequestOptions.ResolveRange
unfoldable pub resolve_range : RequestOptions → ℕ → Text → Window
unfolding resolve_byte_range
resolve_range o size tag =
    if is_blank o.range || if_range_misses o tag then full size else resolve_byte_range o.range size
