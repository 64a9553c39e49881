-- ===== src/Cache/Disk/Names.antt =====
-- The names of the disk cache tell entries apart: paths, keys of the database, and their reading.
use cachew.Base.{
  ◌≡◌, refl, sym, ap, ◌∙◌, true, ◌&&◌, ◌⊎◌, none, some, [], ◌∷◌, ◌++◌, Text, length, take,
  length-append, length-take_of_le, text_eq, text_eq_iff, text_eq_refl, Bool-cases, inl, inr, arith,
  append_assoc,
}
use cachew.Base.Strings.{Avoids, cut, cut-append}
use cachew.Client.Key.{
  Key, IsKey, key_string, validate_namespace, hex_decode, hex_decode-key_string, length-key_string,
  unmarshal_text-key_string, key_string-Avoids, validate_namespace-Avoids,
}
use cachew.Cache.Disk.{key_to_path}
use cachew.Cache.Disk.Meta.{composite_key, decode_key}

-- A namespace of a view: none, or one that is valid.
abbrev pub IsNamespace : Text → Type 0
IsNamespace n = (n ≡ []) ⊎ (validate_namespace n ≡ true)

-- An entry has a namespace of a view and a key.
pub record IsEntry (n : Text) (k : Key) : Type 0 where
  pub named : IsNamespace n
  pub keyed : IsKey k

hex_length : (k : Key) → IsKey k → length (key_string k) ≡ 64
hex_length k h = omega (arith, length-key_string k, h.size)

-- Two texts with ends of one length are one where their parts are.
append_split : (a b c d : Text) → length c ≡ length d → a ++ c ≡ b ++ d → (a ≡ b) × (c ≡ d)
append_split [] [] c d l e = (refl, e)
append_split [] (y ∷ b) c d l e = absurd (omega (arith, ap length e, length-append {0} b d))
append_split (x ∷ a) [] c d l e = absurd (omega (arith, ap length e, length-append {0} a c))
append_split (x ∷ a) (y ∷ b) c d l e = let tails = append_split a b c d l (cc) in ground arith

key_string_injective : (k j : Key) → IsKey k → IsKey j → key_string k ≡ key_string j → k ≡ j
key_string_injective k j hk hj e =
    let a = hex_decode-key_string k hk.bytes in
    let b = hex_decode-key_string j hj.bytes in
    let c : hex_decode (key_string k) ≡ hex_decode (key_string j) = ap hex_decode e in cc

prefix : Text → Text
prefix [] = []
prefix (c ∷ n) = (c ∷ n) ++ b'/' ∷ []

prefix_injective : (n m : Text) → prefix n ≡ prefix m → n ≡ m
unfolding prefix
prefix_injective [] [] e = refl
prefix_injective [] (y ∷ m) e = cc
prefix_injective (x ∷ n) [] e = cc
prefix_injective (x ∷ n) (y ∷ m) e = (append_split (x ∷ n) (y ∷ m) _ _ refl e).0

append_slash : (n t : Text) → (n ++ b'/' ∷ []) ++ t ≡ n ++ b'/' ∷ t
append_slash n t = append_assoc n (b'/' ∷ []) t

composite_prefix : (n : Text) (k : Key) → composite_key n k ≡ prefix n ++ key_string k
unfolding composite_key prefix
composite_prefix [] k = refl
composite_prefix (c ∷ n) k = sym (append_slash (c ∷ n) (key_string k))

file_path : Key → Text
file_path k = take 2 (key_string k) ++ b'/' ∷ key_string k

path_prefix : (n : Text) (k : Key) → key_to_path n k ≡ prefix n ++ file_path k
unfolding key_to_path prefix file_path
path_prefix [] k = refl
path_prefix (c ∷ n) k = sym (append_slash (c ∷ n) _)

file_path-length : (k : Key) → IsKey k → length (file_path k) ≡ 67
unfolding file_path
file_path-length k h = omega (
  arith,
  hex_length k h,
  length-append {0} (take 2 (key_string k)) (b'/' ∷ key_string k),
  length-take_of_le 2 (key_string k),
)

file_path_injective : (k j : Key) → IsKey k → IsKey j → file_path k ≡ file_path j → k ≡ j
unfolding file_path
file_path_injective k j hk hj e =
    let sizes : length (b'/' ∷ key_string k) ≡ length (b'/' ∷ key_string j) =
      omega (arith, hex_length k hk, hex_length j hj) in
    key_string_injective k j hk hj
      (cc ((append_split (take 2 (key_string k)) (take 2 (key_string j)) _ _ sizes e).1))

module _ (n m : Text) (k j : Key) (h : IsEntry n k) (g : IsEntry m j) where
  composite_injective : composite_key n k ≡ composite_key m j → (n ≡ m) × (k ≡ j)
  composite_injective e =
      let split =
        append_split (prefix n) (prefix m) (key_string k) (key_string j)
          (hex_length k h.keyed ∙ sym (hex_length j g.keyed))
          (sym (composite_prefix n k) ∙ e ∙ composite_prefix m j) in
      (prefix_injective n m split.0, key_string_injective k j h.keyed g.keyed split.1)

  path_injective : key_to_path n k ≡ key_to_path m j → (n ≡ m) × (k ≡ j)
  path_injective e =
      let split =
        append_split (prefix n) (prefix m) (file_path k) (file_path j)
          (file_path-length k h.keyed ∙ sym (file_path-length j g.keyed))
          (sym (path_prefix n k) ∙ e ∙ path_prefix m j) in
      (prefix_injective n m split.0, file_path_injective k j h.keyed g.keyed split.1)

  -- Different entries have different keys in the database, and different files.
  pub text_eq-composite :
      text_eq (composite_key n k) (composite_key m j) ≡ (text_eq n m && text_eq k j)
  text_eq-composite = elim (Bool-cases (text_eq (composite_key n k) (composite_key m j))) [
    | inl e ↦
        let (a, b) = composite_injective ((text_eq_iff _ _).0 e) in
        ground (arith, text_eq_iff n m, text_eq_iff k j)
    | inr e ↦ ground (arith, text_eq_iff n m, text_eq_iff k j, text_eq_refl (composite_key n k))
  ]

  pub text_eq-path : text_eq (key_to_path n k) (key_to_path m j) ≡ (text_eq n m && text_eq k j)
  text_eq-path = elim (Bool-cases (text_eq (key_to_path n k) (key_to_path m j))) [
    | inl e ↦
        let (a, b) = path_injective ((text_eq_iff _ _).0 e) in
        ground (arith, text_eq_iff n m, text_eq_iff k j)
    | inr e ↦ ground (arith, text_eq_iff n m, text_eq_iff k j, text_eq_refl (key_to_path n k))
  ]

cut-none : (s : Text) → Avoids b'/' s → cut b'/' s ≡ none
unfolding cut
cut-none [] h = refl
cut-none (c ∷ s) h = ground (arith, cut-none s h.1)

IsNamespace-Avoids : (n : Text) → IsNamespace n → Avoids b'/' n
IsNamespace-Avoids n (inl e) = rw e tt
IsNamespace-Avoids n (inr h) = validate_namespace-Avoids n h

-- For a valid namespace or none, and a key of 32 bytes, the walk over the database reads the
-- entry that the key of the database was written for.
pub decode_key-composite_key :
    (sha256 : Text → Key) (n : Text) (k : Key)
    → IsEntry n k
    → decode_key sha256 (composite_key n k) ≡ some (record { namespace = n; key = k })
unfolding decode_key composite_key
decode_key-composite_key sha256 [] k h = ground (
  arith,
  cut-none (key_string k) (key_string-Avoids k),
  hex_length k h.keyed,
  unmarshal_text-key_string sha256 k h.keyed,
)
decode_key-composite_key sha256 (c ∷ n) k h = ground (
  arith,
  cut-append b'/' (c ∷ n) (key_string k) (IsNamespace-Avoids (c ∷ n) h.named),
  hex_length k h.keyed,
  unmarshal_text-key_string sha256 k h.keyed,
)
