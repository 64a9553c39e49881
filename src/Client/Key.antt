-- ===== src/Client/Key.antt =====
-- Keys and namespaces of the cache: client/key.go and client/namespace.go. A Key is its 32 bytes, and
-- SHA-256 is a parameter.
use cachew.Base.{
  ℕ, ◌+◌, ◌-◌, ◌*◌, ◌/◌, ◌%◌, ◌<◌, ◌≡◌, refl, Bool, true, false, ◌&&◌, ◌||◌, Option, none, some,
  List, [], ◌∷◌, Text, All, length, ltb, leb, ◌==◌, if◌then◌else◌, arith,
}
use cachew.Base.Strings.{Avoids}

abbrev pub Key : Type 0
Key = List ℕ

-- [32]byte
pub record IsKey (k : Key) : Type 0 where
  pub size : length k ≡ 32
  pub bytes : All (λ b. b < 256) k

hex_digit : ℕ → ℕ
hex_digit d = if ltb d 10 then b'0' + d else b'a' + (d - 10)

-- hex.EncodeToString, of the bytes of a Key: String
unfoldable pub key_string : Key → Text
unfolding hex_digit
key_string [] = []
key_string (b ∷ k) = hex_digit (b / 16) ∷ hex_digit (b % 16) ∷ key_string k

unhex_digit : ℕ → Option ℕ
unhex_digit c =
    if leb b'0' c && leb c b'9'
    then some (c - b'0')
    else if leb b'a' c && leb c b'f'
    then some (c - b'a' + 10)
    else if leb b'A' c && leb c b'F'
    then some (c - b'A' + 10)
    else none

unhex_byte : Option ℕ → Option ℕ → Option Key → Option Key
unhex_byte (some a) (some b) (some k) = some ((a * 16 + b) ∷ k)
unhex_byte _ _ _ = none

-- hex.DecodeString
unfoldable pub hex_decode : Text → Option Key
unfolding unhex_byte unhex_digit
hex_decode [] = some []
hex_decode (c ∷ []) = none
hex_decode (c ∷ d ∷ s) = unhex_byte (unhex_digit c) (unhex_digit d) (hex_decode s)

-- UnmarshalText, and so ParseKey. `sha256` is what NewKey gives for a text.
unfoldable pub unmarshal_text : (Text → Key) → Text → Key
unmarshal_text sha256 text =
    if length text == 64
    then elim (hex_decode text) [
      | some bytes ↦ if length bytes == 32 then bytes else sha256 text
      | none ↦ sha256 text
    ]
    else sha256 text

is_alphanumeric : ℕ → Bool
is_alphanumeric c =
    leb b'a' c && leb c b'z' || (leb b'A' c && leb c b'Z' || leb b'0' c && leb c b'9')

all_name_chars : Text → Bool
unfolding is_alphanumeric
all_name_chars [] = true
all_name_chars (c ∷ s) = (is_alphanumeric c || (c == b'-' || c == b'_')) && all_name_chars s

-- ValidateNamespace: whether the name matches namespaceRe.
unfoldable pub validate_namespace : Text → Bool
unfolding all_name_chars is_alphanumeric
validate_namespace [] = false
validate_namespace (c ∷ s) = is_alphanumeric c && all_name_chars s

pub length-key_string : (k : Key) → length (key_string k) ≡ length k * 2
unfolding key_string
length-key_string [] = omega arith
length-key_string (b ∷ k) = omega (arith, length-key_string k)

unhex_digit-hex_digit : (d : ℕ) → d < 16 → unhex_digit (hex_digit d) ≡ some d
unfolding unhex_digit hex_digit
unhex_digit-hex_digit d h = ground arith

-- Hexadecimal digits are read back.
pub hex_decode-key_string : (k : Key) → All (λ b. b < 256) k → hex_decode (key_string k) ≡ some k
unfolding hex_decode key_string unhex_byte
hex_decode-key_string [] h = refl
hex_decode-key_string (b ∷ k) (h, hs) =
    ground (
      arith,
      unhex_digit-hex_digit (b / 16),
      unhex_digit-hex_digit (b % 16),
      hex_decode-key_string k,
    )

-- The text of a key is read as that key.
pub unmarshal_text-key_string :
    (sha256 : Text → Key) (k : Key) → IsKey k → unmarshal_text sha256 (key_string k) ≡ k
unfolding unmarshal_text
unmarshal_text-key_string sha256 k h =
    let decoded = hex_decode-key_string k h.bytes in
    let size = length-key_string k in let size' = h.size in ground arith

hex_digit_no_slash : (d : ℕ) → (hex_digit d == b'/') ≡ false
unfolding hex_digit
hex_digit_no_slash d = ground arith

pub key_string-Avoids : (k : Key) → Avoids b'/' (key_string k)
unfolding key_string
key_string-Avoids [] = tt
key_string-Avoids (b ∷ k) =
    (hex_digit_no_slash (b / 16), (hex_digit_no_slash (b % 16), key_string-Avoids k))

all_name_chars-Avoids : (s : Text) → all_name_chars s ≡ true → Avoids b'/' s
unfolding all_name_chars is_alphanumeric
all_name_chars-Avoids [] h = tt
all_name_chars-Avoids (c ∷ s) h = (ground arith, all_name_chars-Avoids s (ground arith))

-- A valid namespace is not empty and has no slash.
pub validate_namespace-Avoids : (s : Text) → validate_namespace s ≡ true → Avoids b'/' s
unfolding validate_namespace is_alphanumeric
validate_namespace-Avoids [] h = tt
validate_namespace-Avoids (c ∷ s) h = (ground arith, all_name_chars-Avoids s (ground arith))
