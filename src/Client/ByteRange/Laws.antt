-- ===== src/Client/ByteRange/Laws.antt =====
-- Every window lies in its object, and a range that the client formats is resolved to itself.
use cachew.Base.{
  ℕ, zero, suc, ◌+◌, ◌-◌, ◌≤◌, ◌<◌, ◌^◌, min, ◌≡◌, ◌≢◌, refl, ◌∙◌, false, Option, none, some, [],
  ◌∷◌, ◌++◌, Text, All, All-append, drop, leb, ◌==◌, if◌then◌else◌, has_prefix, contains_rune,
  Option-cases, inl, inr, arith,
}
use cachew.Base.Int.{ℤ, pos, negsuc}
use cachew.Base.Decimal.{
  parse_int, format_nat, IsDigit, format_nat-All, format_nat-ne-nil, parse_int-format_nat,
}
use cachew.Base.Strings.{cut, cut-append, Avoids, trim_space, trim_space_solid, IsSolid, is_space}
use cachew.Client.Options.{RequestOptions, is_blank, if_range_misses}
use cachew.Client.ByteRange.{
  Window, range_partial, full, unsatisfiable, window, format_byte_range, suffix_range, end_range,
  start_range, resolve_spec, resolve_byte_range, resolve_range, range,
}

-- A served window lies in the object and is not empty if it is partial; any other is the whole.
pub record IsWindow (size : ℕ) (w : Window) : Type 0 where
  pub inside : w.start + w.length ≤ size
  pub nonempty : w.outcome ≡ range_partial → 0 < w.length
  pub whole : w.outcome ≢ range_partial → (w.start ≡ 0) × (w.length ≡ size)

full-IsWindow : (size : ℕ) → IsWindow size (full size)
full-IsWindow size = record { inside = omega arith; nonempty = λ e. cc; whole = λ e. (refl, refl) }

unsatisfiable-IsWindow : (size : ℕ) → IsWindow size (unsatisfiable size)
unsatisfiable-IsWindow size = record {
  inside = omega arith;
  nonempty = λ e. cc;
  whole = λ e. (refl, refl);
}

window-IsWindow :
    (size start length : ℕ)
    → start + length ≤ size
    → 0 < length
    → IsWindow size (window start length)
window-IsWindow size start length h k = record {
  inside = h;
  nonempty = λ e. k;
  whole = λ e. absurd (e refl);
}

suffix_range-IsWindow : (n : Option ℤ) (size : ℕ) → IsWindow size (suffix_range n size)
unfolding suffix_range
suffix_range-IsWindow none size = full-IsWindow size
suffix_range-IsWindow (some (negsuc n)) size = unsatisfiable-IsWindow size
suffix_range-IsWindow (some (pos n)) size = ground arith

end_range-IsWindow :
    (start : ℕ) (n : Option ℤ) (size : ℕ) → start < size → IsWindow size (end_range start n size)
unfolding end_range
end_range-IsWindow start none size h = full-IsWindow size
end_range-IsWindow start (some (negsuc n)) size h = full-IsWindow size
end_range-IsWindow start (some (pos n)) size h = ground arith

start_range-IsWindow :
    (n : Option ℤ) (end : Text) (size : ℕ) → IsWindow size (start_range n end size)
unfolding start_range
start_range-IsWindow none end size = full-IsWindow size
start_range-IsWindow (some (negsuc n)) end size = full-IsWindow size
start_range-IsWindow (some (pos n)) end size = ground (
  arith,
  end_range-IsWindow n (parse_int end) size,
  window-IsWindow size n (size - n),
  unsatisfiable-IsWindow size,
)

resolve_spec-IsWindow : (spec : Text) (size : ℕ) → IsWindow size (resolve_spec spec size)
unfolding resolve_spec
resolve_spec-IsWindow spec size = elim (Option-cases (cut b'-' spec)) [
  | inl e ↦ ground (arith, full-IsWindow size)
  | inr ((before, after), e) ↦ ground (
    arith,
    full-IsWindow size,
    suffix_range-IsWindow (parse_int (trim_space after)) size,
    start_range-IsWindow (parse_int (trim_space before)) (trim_space after) size,
  )
]

-- Whatever the Range and If-Range headers, the window to serve lies in the object; a partial one is
-- not empty, and any other is the whole object.
pub resolve_range-IsWindow :
    (o : RequestOptions) (size : ℕ) (tag : Text) → IsWindow size (resolve_range o size tag)
unfolding resolve_range
resolve_range-IsWindow o size tag =
    ground (arith, full-IsWindow size, resolve_spec-IsWindow (trim_space (drop 6 o.range)) size)

digit_plain :
    (c : ℕ) → IsDigit c → ((c == b'-') ≡ false) × ((c == b',') ≡ false) × (is_space c ≡ false)
unfolding is_space
digit_plain c h = ground arith

-- Texts with no dash, no comma and no space.
abbrev IsPlain : ℕ → Type 0
IsPlain c = ((c == b'-') ≡ false) × ((c == b',') ≡ false) × (is_space c ≡ false)

All-map : {P Q : ℕ → Type 0} → ((c : ℕ) → P c → Q c) → (s : Text) → All P s → All Q s
All-map f [] h = tt
All-map f (c ∷ s) (p, h) = (f c p, All-map f s h)

contains_rune-Avoids : (s : Text) (r : ℕ) → Avoids r s → contains_rune s r ≡ false
unfolding contains_rune
contains_rune-Avoids [] r h = refl
contains_rune-Avoids (c ∷ s) r h = ground (arith, contains_rune-Avoids s r)

nonblank : (s : Text) → s ≢ [] → is_blank s ≡ false
nonblank [] h = absurd (h refl)
nonblank (c ∷ s) h = refl

nonblank-append : (s : Text) (c : ℕ) (t : Text) → is_blank (s ++ c ∷ t) ≡ false
nonblank-append [] c t = refl
nonblank-append (d ∷ s) c t = refl

-- What a specifier with a plain start and end means.
resolve_spec-dash :
    (before after : Text) (size : ℕ)
    → before ≢ []
    → All IsPlain before
    → All IsPlain after
    → resolve_spec (trim_space (before ++ b'-' ∷ after)) size
      ≡ start_range (parse_int before) after size
unfolding resolve_spec is_space
resolve_spec-dash before after size ne hb ha =
    let solid_b : All IsSolid before = All-map (λ c h. h.2) before hb in
    let solid_a : All IsSolid after = All-map (λ c h. h.2) after ha in
    let commas : contains_rune (before ++ b'-' ∷ after) b',' ≡ false = contains_rune-Avoids _ b',' (
      All-append _ before (b'-' ∷ after) (All-map (λ c h. h.1) before hb)
        (refl, All-map (λ c h. h.1) after ha)) in
    rw
      (trim_space_solid (before ++ b'-' ∷ after)
        (All-append _ before (b'-' ∷ after) solid_b (refl, solid_a)))
      (ground (
        arith,
        commas,
        nonblank-append before b'-' after,
        nonblank before ne,
        cut-append b'-' before after (All-map (λ c h. h.0) before hb),
        trim_space_solid before solid_b,
        trim_space_solid after solid_a,
      ))

-- The part of the half-open range [start, end) that lies in an object; a negative end is the size.
abbrev pub clip : ℕ → ℤ → ℕ → Window
clip start (negsuc _) size =
    if leb size start then unsatisfiable size else window start (size - start)
clip start (pos end) size =
    if leb size start then unsatisfiable size else window start (min end size - start)

-- A range that is not empty, of int64 offsets.
abbrev pub IsProper : ℕ → ℤ → Type 0
IsProper start (negsuc _) = start < 2 ^ 63
IsProper start (pos end) = (start < end) × (end < 2 ^ 63)

IsPlain-of_digits : (n : ℕ) → All IsPlain (format_nat n)
IsPlain-of_digits n = All-map digit_plain (format_nat n) (format_nat-All n)

start_range-format :
    (start : ℕ) (after : Text) (size : ℕ)
    → start < 2 ^ 63
    → start_range (parse_int (format_nat start)) after size ≡ (
        if leb size start
        then unsatisfiable size
        else if is_blank after
        then window start (size - start)
        else end_range start (parse_int after) size)
unfolding start_range
start_range-format start after size h = rw (parse_int-format_nat start h) refl

resolve-format :
    (start : ℕ) (end : ℤ) (size : ℕ)
    → IsProper start end
    → resolve_byte_range (format_byte_range start end) size ≡ clip start end size
unfolding resolve_byte_range format_byte_range has_prefix
resolve-format start (negsuc n) size h =
    resolve_spec-dash (format_nat start) [] size (format_nat-ne-nil start) (IsPlain-of_digits start)
      tt
    ∙ start_range-format start [] size h
resolve-format start (pos zero) size h = absurd (omega arith)
resolve-format start (pos (suc last)) size h =
    resolve_spec-dash (format_nat start) (format_nat last) size (format_nat-ne-nil start)
      (IsPlain-of_digits start) (IsPlain-of_digits last)
    ∙ start_range-format start (format_nat last) size (omega arith)
    ∙ unfold end_range in
      rw
        (
          nonblank (format_nat last) (format_nat-ne-nil last),
          parse_int-format_nat last (omega arith),
        )
        (ground arith)

format_nonblank : (start : ℕ) (end : ℤ) → is_blank (format_byte_range start end) ≡ false
unfolding format_byte_range
format_nonblank start (negsuc n) = refl
format_nonblank start (pos zero) = refl
format_nonblank start (pos (suc last)) = refl

-- A Range option of a proper half-open range resolves to the part of it that lies in the object, and
-- is not satisfiable exactly when it starts at or past the end, if the If-Range option does not miss.
pub resolve_range-range :
    (start : ℕ) (end : ℤ) (o : RequestOptions) (size : ℕ) (tag : Text)
    → IsProper start end
    → if_range_misses (range start end o) tag ≡ false
    → resolve_range (range start end o) size tag ≡ clip start end size
unfolding resolve_range range
resolve_range-range start end o size tag h misses =
    ground (arith, resolve-format start end size h, format_nonblank start end)
