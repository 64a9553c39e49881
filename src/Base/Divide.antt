-- ===== src/Base/Divide.antt =====
-- Quotients and remainders: offsets in one page, and pages in one window of a ring.
use Prim.Native.Nat.{ℕ, suc, ◌+◌, ◌-◌, ◌*◌, ◌/◌, ◌%◌, ◌≤◌, ◌<◌}
use mathlib.Core.Path.{◌≡◌, sym, ap, ◌∙◌}
use native.Mathlib.Nat.{
  mul_comm, mul-add-div, div-eq_of_lt, mul-add-mod_self_left, mod-eq_of_lt, div-add-mod, mod-lt,
  mul-suc, mul-le-mul_left, le-div_iff_mul-le, div-mul-le_self,
}
use native.Mathlib.Decide.{dec_lt}
use native.Mathlib.Omega.{arith}

-- An offset less than a page's rest after `y` lies in the page of `y`.
pub same_page :
    (size x y : ℕ)
    → 0 < size
    → y ≤ x
    → x < y + (size - y % size)
    → (x / size ≡ y / size) × (x % size ≡ y % size + (x - y))
same_page size x y pos h k =
    let split : x ≡ size * (y / size) + (y % size + (x - y)) = omega (arith, div-add-mod y size) in
    let small : y % size + (x - y) < size = omega (arith, mod-lt y pos) in
    (
      ap (λ m. m / size) split
          ∙ mul-add-div pos (y / size) (y % size + (x - y))
          ∙ ap (λ m. y / size + m) (div-eq_of_lt small)
          ∙ omega arith,
      ap (λ m. m % size) split
          ∙ mul-add-mod_self_left size (y / size) (y % size + (x - y))
          ∙ mod-eq_of_lt small,
    )

pub div_mono : (a b n : ℕ) → 0 < n → a ≤ b → a / n ≤ b / n
div_mono a b n pos h = (le-div_iff_mul-le pos).1 (omega (arith, div-mul-le_self a n))

pub slot_ne : (n a b : ℕ) → a < b → b < a + n → a % n ≡ b % n → ⊥
slot_ne n a b h k e = elim (dec_lt (a / n) (b / n)) [
  | yes less ↦
      let up : n * suc (a / n) ≤ n * (b / n) = mul-le-mul_left n less in
      omega (arith, up, mul-suc n (a / n), div-add-mod a n, div-add-mod b n)
  | no not_less ↦
      let down : n * (b / n) ≤ n * (a / n) = mul-le-mul_left n (omega arith) in
      omega (arith, down, div-add-mod a n, div-add-mod b n)
]

-- Pages of one window of `n` pages are one page if they have one slot of the ring.
pub slot_injective : (n r a b : ℕ) → r ≤ a → a < r + n → r ≤ b → b < r + n → a % n ≡ b % n → a ≡ b
slot_injective n r a b ha ka hb kb e = elim (dec_lt a b) [
  | yes less ↦ absurd (slot_ne n a b less (omega arith) e)
  | no not_less ↦ elim (dec_lt b a) [
    | yes more ↦ absurd (slot_ne n b a more (omega arith) (sym e))
    | no not_more ↦ omega arith
  ]
]

-- The chunk of an offset, and its range.
pub chunk_bounds :
    (size x : ℕ) → 0 < size → ((x / size) * size ≤ x) × (x < (x / size) * size + size)
chunk_bounds size x pos =
    let rest = mod-lt x pos in
    let turn : (x / size) * size ≡ size * (x / size) = mul_comm (x / size) size in
    (omega (arith, turn, div-add-mod x size), omega (arith, turn, div-add-mod x size, rest))

pub chunk_mono : (size a b : ℕ) → a < b → a * size + size ≤ b * size
chunk_mono size a b h =
    let up : size * suc a ≤ size * b = mul-le-mul_left size h in
    omega (arith, up, mul-suc size a, mul_comm a size, mul_comm b size)

pub chunk_of : (size s x : ℕ) → 0 < size → s * size ≤ x → x < s * size + size → x / size ≡ s
chunk_of size s x pos h k =
    let (low, high) = chunk_bounds size x pos in
    elim (dec_lt (x / size) s) [
      | yes less ↦ absurd (omega (arith, chunk_mono size (x / size) s less))
      | no not_less ↦ elim (dec_lt s (x / size)) [
        | yes more ↦ absurd (omega (arith, chunk_mono size s (x / size) more))
        | no not_more ↦ omega arith
      ]
    ]
