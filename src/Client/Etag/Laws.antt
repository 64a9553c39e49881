-- ===== src/Client/Etag/Laws.antt =====
-- Formatting an entity tag and reading it back, and matching it against a list in a header.
use mathlib.Core.List.{Mem, mem-cons, mem-cons_self, mem-cons_of_mem, not-mem-nil}
use mathlib.Core.Logic.Or
use cachew.Base.{
  ℕ, ◌≡◌, ◌≢◌, refl, sym, ap, subst, ◌∙◌, Bool, true, false, ◌||◌, none, some, List, [], ◌∷◌, ◌++◌,
  Text, All, All-append, text_eq, text_eq_refl, text_eq_sound, ◌==◌, Bool-cases, Option-cases, inl,
  inr, arith, ◌↔◌,
}
use cachew.Base.Result.{ok}
use cachew.Base.Strings.{
  is_space, trim_space, trim_space_solid, IsSolid, Avoids, split, split_one, split-append,
}
use cachew.Client.Etag.{
  quote, is_raw_etag_char, check_chars, validate_raw_etag, format_etag, before_quote,
  raw_etag_from_header, any_matches, etag_list_matches,
}

before_quote-append : (s : Text) → before_quote (s ++ quote ∷ []) ≡ some s
unfolding before_quote
before_quote-append [] = refl
before_quote-append (c ∷ []) = refl
before_quote-append (c ∷ d ∷ s) = ground (arith, before_quote-append (d ∷ s))

before_quote_sound : (s raw : Text) → before_quote s ≡ some raw → s ≡ raw ++ quote ∷ []
unfolding before_quote
before_quote_sound [] raw h = ground arith
before_quote_sound (c ∷ []) raw h = ground arith
before_quote_sound (c ∷ d ∷ s) raw h = elim (Option-cases (before_quote (d ∷ s))) [
  | inl e ↦ ground arith
  | inr (r, e) ↦ ground (arith, before_quote_sound (d ∷ s) r e)
]

header_of_format :
    (raw header : Text)
    → format_etag raw ≡ ok header
    → (validate_raw_etag raw ≡ none) × (header ≡ quote ∷ raw ++ quote ∷ [])
unfolding format_etag
header_of_format raw header h = ground arith

format_of_valid :
    (raw : Text) → validate_raw_etag raw ≡ none → format_etag raw ≡ ok (quote ∷ raw ++ quote ∷ [])
unfolding format_etag
format_of_valid raw h = ground arith

header_of_raw :
    (header raw : Text)
    → raw_etag_from_header header ≡ ok raw
    → (validate_raw_etag raw ≡ none) × (header ≡ quote ∷ raw ++ quote ∷ [])
unfolding raw_etag_from_header
header_of_raw [] raw h = ground arith
header_of_raw (c ∷ s) raw h = elim (Option-cases (before_quote s)) [
  | inl e ↦ ground arith
  | inr (r, e) ↦ ground (arith, before_quote_sound s r e)
]

raw_of_quoted :
    (raw : Text)
    → validate_raw_etag raw ≡ none
    → raw_etag_from_header (quote ∷ raw ++ quote ∷ []) ≡ ok raw
unfolding raw_etag_from_header
raw_of_quoted raw h = rw (before_quote-append raw, h)

-- A raw tag is formatted to a header value exactly when that value is read back as the tag.
pub raw_etag_iff_format_etag :
    (raw header : Text) → (format_etag raw ≡ ok header) ↔ (raw_etag_from_header header ≡ ok raw)
raw_etag_iff_format_etag raw header = (
  λ h. let (v, e) = header_of_format raw header h in rw e (raw_of_quoted raw v),
  λ h. let (v, e) = header_of_raw header raw h in rw e (format_of_valid raw v),
)

-- The characters of a raw tag are neither commas nor spaces.
char_avoids : (r : ℕ) → is_raw_etag_char r ≡ true → ((r == b',') ≡ false) × (is_space r ≡ false)
unfolding is_raw_etag_char is_space
char_avoids r h = ground arith

check_chars-Avoids : (s : Text) → check_chars s ≡ none → Avoids b',' s × All IsSolid s
unfolding check_chars
check_chars-Avoids [] h = (tt, tt)
check_chars-Avoids (r ∷ s) h = ground (arith, char_avoids r, check_chars-Avoids s)

valid-Avoids : (s : Text) → validate_raw_etag s ≡ none → Avoids b',' s × All IsSolid s
unfolding validate_raw_etag
valid-Avoids [] h = (tt, tt)
valid-Avoids (r ∷ s) h = check_chars-Avoids (r ∷ s) h

-- The formatted tag.
abbrev pub quoted : Text → Text
quoted raw = quote ∷ raw ++ quote ∷ []

abbrev pub IsTag : Text → Type 0
IsTag raw = validate_raw_etag raw ≡ none

quoted-Avoids : (raw : Text) → IsTag raw → Avoids b',' (quoted raw) × All IsSolid (quoted raw)
unfolding is_space
quoted-Avoids raw v =
    let (commas, spaces) = valid-Avoids raw v in
    (
      (refl, All-append _ raw (quote ∷ []) commas (refl, tt)),
      (refl, All-append _ raw (quote ∷ []) spaces (refl, tt)),
    )

-- The value of an If-Match or If-None-Match header that lists tags, as clients write it.
unfoldable pub tag_list : Text → List Text → Text
tag_list first [] = quoted first
tag_list first (next ∷ rest) = quoted first ++ b',' ∷ b' ' ∷ tag_list next rest

one_of : Text → List Text → Bool
one_of etag [] = false
one_of etag (tag ∷ rest) = text_eq (quoted tag) etag || one_of etag rest

split-ne-nil : (sep : ℕ) (s : Text) → split sep s ≢ []
unfolding split
split-ne-nil sep [] h = cc
split-ne-nil sep (c ∷ s) h = elim (Bool-cases (c == sep)) [
  | inl e ↦ ground arith
  | inr e ↦ ground (arith, split-ne-nil sep s)
]

any_matches_space :
    (s etag : Text) → any_matches (split b',' (b' ' ∷ s)) etag ≡ any_matches (split b',' s) etag
unfolding any_matches split trim_space
any_matches_space s etag = ground (arith, split-ne-nil b',' s)

any_matches_head :
    (raw etag : Text) (rest : List Text)
    → IsTag raw
    → any_matches (quoted raw ∷ rest) etag ≡ (text_eq (quoted raw) etag || any_matches rest etag)
unfolding any_matches text_eq
any_matches_head raw etag rest v = rw (trim_space_solid (quoted raw) (quoted-Avoids raw v).1) refl

any_matches_nil : (etag : Text) → any_matches [] etag ≡ false
unfolding any_matches
any_matches_nil etag = refl

any_matches_list :
    (first : Text) (rest : List Text) (etag : Text)
    → All IsTag (first ∷ rest)
    → any_matches (split b',' (tag_list first rest)) etag ≡ one_of etag (first ∷ rest)
unfolding tag_list one_of
any_matches_list first [] etag v = rw (split_one b',' (quoted first) (quoted-Avoids first v.0).0) (
    any_matches_head first etag [] v.0
    ∙ ap (λ b. text_eq (quoted first) etag || b) (any_matches_nil etag))
any_matches_list first (next ∷ rest) etag v =
    rw (split-append b',' (quoted first) (b' ' ∷ tag_list next rest) (quoted-Avoids first v.0).0) (
      any_matches_head first etag _ v.0
      ∙ ap (λ b. text_eq (quoted first) etag || b)
          (any_matches_space (tag_list next rest) etag ∙ any_matches_list next rest etag v.1))

quoted_injective : (a b : Text) → quoted a ≡ quoted b → a ≡ b
quoted_injective a b e =
    let same : a ++ quote ∷ [] ≡ b ++ quote ∷ [] = cc in
    let read : some a ≡ some b =
      sym (before_quote-append a) ∙ ap before_quote same ∙ before_quote-append b in
    cc

one_of_sound : (tag : Text) (tags : List Text) → one_of (quoted tag) tags ≡ true → Mem tag tags
unfolding one_of
one_of_sound tag [] h = cc
one_of_sound tag (first ∷ rest) h = elim (Bool-cases (text_eq (quoted first) (quoted tag))) [
  | inl same ↦
      subst (λ x. Mem tag (x ∷ rest)) (sym (quoted_injective first tag (text_eq_sound _ _ same)))
        mem-cons_self
  | inr other ↦ mem-cons_of_mem first (one_of_sound tag rest (ground arith))
]

one_of_complete : (tag : Text) (tags : List Text) → Mem tag tags → one_of (quoted tag) tags ≡ true
unfolding one_of
one_of_complete tag [] m = absurd (not-mem-nil m)
one_of_complete tag (first ∷ rest) m =
    Or.elim (hlevel) (mem-cons.0 m) (λ e. rw (e, text_eq_refl) refl)
      (λ later. ground (arith, one_of_complete tag rest later))

-- A header that lists raw tags, quoted and separated by commas, matches a quoted tag exactly when
-- the tag is one of them.
pub etag_list_matches_iff :
    (tag first : Text) (rest : List Text)
    → All IsTag (first ∷ rest)
    → (etag_list_matches (tag_list first rest) (quoted tag) ≡ true) ↔ Mem tag (first ∷ rest)
unfolding etag_list_matches
etag_list_matches_iff tag first rest v =
    let same = any_matches_list first rest (quoted tag) v in
    (
      λ h. one_of_sound tag (first ∷ rest) (sym same ∙ h),
      λ m. same ∙ one_of_complete tag (first ∷ rest) m,
    )
