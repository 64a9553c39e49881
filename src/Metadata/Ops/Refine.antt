-- ===== src/Metadata/Ops/Refine.antt =====
-- A namespace as registers, sets, integer maps, maps and lists: what a history of operations reads as.
pub mod Collections
pub mod Sequences
use cachew.Base.{
  ℕ, zero, suc, ◌+◌, ◌≡◌, refl, ap, sym, ◌∙◌, Bool, true, false, ◌||◌, ◌&&◌, not, Option, none,
  some, List, [], ◌∷◌, ◌++◌, Text, if◌then◌else◌, is_some, All, length, length-append, text_eq,
  text_eq_iff, text_eq_refl, Option-cases, Bool-cases, inl, inr, arith, append_assoc,
}
use cachew.Base.Int.{ℤ, pos, negsuc, ◌+ℤ◌, ◌*ℤ◌, ◌/ℤ◌, wrap64}
use cachew.Base.Assoc.{Assoc, lookup, insert, remove, lookup-insert, lookup-remove}
use cachew.Metadata.Value.{
  Value, bool, int, object, of_assoc, as_map, as_map-object, as_list, as_list-list, list, of_list,
}
use cachew.Metadata.Ops.{
  Codec, Op, State, marshal_key, to_int64, get_or_create_submap, put_submap, delete_in,
  int_map_update, is_zero, apply_op, apply_ops, submap_get, or_nil, ReadOp, Answer, number, truth,
  found, nothing, count, query_state,
}
use cachew.Metadata.Ops.Observe.{
  key_of, cell, lookup-apply_op, cell-put, cell-delete_in, sub-put_submap,
}

module _ (c : Codec) where
  open c use {Float, marshal}

  -- Reading a history: the operations on one key, by their effect on what is read there.
  abbrev pub effects {ℓ} : {X : Type ℓ} → Text → (Op Float → X → X) → X → List (Op Float) → X
  effects key effect x [] = x
  effects key effect x (o ∷ ops) =
      effects key effect (if text_eq (key_of o) key then effect o x else x) ops

  module _ {X : Type 0} (key : Text) (view : State c → X) (effect : Op Float → X → X)
      (Fits : Op Float → Type 0)
      (own : (s : State c) (o : Op Float)
        → text_eq (key_of o) key ≡ true
        → Fits o
        → view (apply_op c s o) ≡ effect o (view s))
      (others : (s t : State c) → lookup key s ≡ lookup key t → view s ≡ view t) where
    pub history :
        (s : State c) (ops : List (Op Float))
        → All (λ o. text_eq (key_of o) key ≡ true → Fits o) ops
        → view (apply_ops c s ops) ≡ effects key effect (view s) ops
    unfolding apply_ops
    history s [] h = refl
    history s (o ∷ ops) (fits, h) = elim (Bool-cases (text_eq (key_of o) key)) [
      | inl e ↦
          rw e (
            history (apply_op c s o) ops h
            ∙ ap (λ x. effects key effect x ops) (own s o e (fits e)))
      | inr e ↦ rw e (
          history (apply_op c s o) ops h
          ∙ ap (λ x. effects key effect x ops) (others _ _ (lookup-apply_op c s o key e)))
    ]

  -- An integer register.
  abbrev pub IsIntOp : Op Float → Type 0
  IsIntOp (Op.int_set _ _) = Unit
  IsIntOp (Op.int_add _ _) = Unit
  IsIntOp (Op.int_mul _ _) = Unit
  IsIntOp (Op.int_div _ _) = Unit
  IsIntOp (Op.scalar_delete _) = Unit
  IsIntOp _ = ⊥

  abbrev pub int_effect : Op Float → ℤ → ℤ
  int_effect (Op.int_set _ n) x = n
  int_effect (Op.int_add _ d) x = wrap64 (x +ℤ d)
  int_effect (Op.int_mul _ f) x = wrap64 (x *ℤ f)
  int_effect (Op.int_div _ d) x = if is_zero d then x else wrap64 (x /ℤ d)
  int_effect (Op.scalar_delete _) x = pos 0
  int_effect _ x = x

  int_own :
      (key : Text) (s : State c) (o : Op Float)
      → text_eq (key_of o) key ≡ true
      → IsIntOp o
      → to_int64 c (lookup key (apply_op c s o)) ≡ int_effect o (to_int64 c (lookup key s))
  unfolding key_of apply_op to_int64
  int_own key s (Op.int_set k n) e h = rw (lookup-insert, e) refl
  int_own key s (Op.int_add k d) e h = rw (lookup-insert, e, (text_eq_iff k key).0 e) refl
  int_own key s (Op.int_mul k d) e h = rw (lookup-insert, e, (text_eq_iff k key).0 e) refl
  int_own key s (Op.int_div k d) e h = elim (Bool-cases (is_zero d)) [
    | inl z ↦ rw z refl
    | inr z ↦ rw (z, lookup-insert, e, (text_eq_iff k key).0 e) refl
  ]
  int_own key s (Op.scalar_delete k) e h = rw (lookup-remove, e) refl
  int_own key s _ e h = absurd h

  -- If the operations of a history on one key are integer operations and deletions, IntGet of the key
  -- then reads what these operations make of the integer that it read before, in int64 arithmetic, and
  -- operations on other keys do not matter.
  pub int_history :
      (key : Text) (s : State c) (ops : List (Op Float))
      → All (λ o. text_eq (key_of o) key ≡ true → IsIntOp o) ops
      → query_state c (apply_ops c s ops) (ReadOp.int_get key)
        ≡ number (effects key int_effect (to_int64 c (lookup key s)) ops)
  unfolding query_state
  int_history key s ops h = ap number (
      history key (λ t. to_int64 c (lookup key t)) int_effect IsIntOp (int_own key)
        (λ s t e. ap (to_int64 c) e) s ops h)
