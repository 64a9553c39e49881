-- ===== src/Metadata/Ops/Refine/Collections.antt =====
-- Sets, integer maps, maps and lists: what a history of operations reads as.
use cachew.Base.{
  ◌≡◌, refl, ap, Bool, true, false, ◌||◌, ◌&&◌, not, Option, none, some, List, Text, if◌then◌else◌,
  is_some, All, text_eq, text_eq_iff, Option-cases, Bool-cases, inl, inr, arith,
}
use cachew.Base.Int.{ℤ, pos, negsuc, ◌+ℤ◌, ◌*ℤ◌, ◌/ℤ◌, wrap64}
use cachew.Base.Assoc.{lookup, insert, remove, lookup-remove}
use cachew.Metadata.Value.{Value, bool, int, as_map}
use cachew.Metadata.Ops.{
  Codec, Op, State, marshal_key, to_int64, get_or_create_submap, put_submap, delete_in,
  int_map_update, is_zero, apply_op, apply_ops, submap_get, ReadOp, number, truth, query_state,
}
use cachew.Metadata.Ops.Observe.{key_of, cell, cell-put, cell-delete_in, created}
use cachew.Metadata.Ops.Refine.{effects, history}

zero_div : (d : ℤ) → wrap64 (pos 0 /ℤ d) ≡ pos 0
unfolding wrap64 ◌/ℤ◌
zero_div (pos b) = ground arith
zero_div (negsuc b) = ground arith

module _ (c : Codec) where
  open c use {Float}

  -- Whether a member of a set, and an integer under a map key, and a value under one.
  module _ (key : Text) (m : Value Float) where
    abbrev at_member : State c → Option (Value Float)
    at_member s = cell c s key (marshal_key c m)

    abbrev pub same_key : Value Float → Bool
    same_key x = text_eq (marshal_key c x) (marshal_key c m)

    cell_same : (s t : State c) → lookup key s ≡ lookup key t → at_member s ≡ at_member t
    cell_same s t e = ap (λ o. submap_get c (as_map o) (marshal_key c m)) e

    cell_deleted : (s : State c) (k : Text) → text_eq k key ≡ true → at_member (remove k s) ≡ none
    unfolding submap_get
    cell_deleted s k e = rw (lookup-remove, e) (unfold as_map in refl)

    put_own :
        (s : State c) (k : Text) (x v : Value Float)
        → text_eq k key ≡ true
        → at_member (put_submap c s k (insert (marshal_key c x) v (get_or_create_submap c s k)))
          ≡ (if same_key x then some v else at_member s)
    put_own s k x v e =
        rw ((text_eq_iff k key).0 e) (cell-put c s key (marshal_key c x) (marshal_key c m) v)

    delete_own :
        (s : State c) (k : Text) (x : Value Float)
        → text_eq k key ≡ true
        → at_member (delete_in c s k (marshal_key c x)) ≡ (if same_key x then none else at_member s)
    delete_own s k x e =
        rw ((text_eq_iff k key).0 e) (cell-delete_in c s key (marshal_key c x) (marshal_key c m))

    abbrev pub IsSetOp : Op Float → Type 0
    IsSetOp (Op.set_add _ _) = Unit
    IsSetOp (Op.set_remove _ _) = Unit
    IsSetOp (Op.scalar_delete _) = Unit
    IsSetOp _ = ⊥

    abbrev pub set_effect : Op Float → Bool → Bool
    set_effect (Op.set_add _ x) b = same_key x || b
    set_effect (Op.set_remove _ x) b = not (same_key x) && b
    set_effect (Op.scalar_delete _) b = false
    set_effect _ b = b

    set_own :
        (s : State c) (o : Op Float)
        → text_eq (key_of o) key ≡ true
        → IsSetOp o
        → is_some (at_member (apply_op c s o)) ≡ set_effect o (is_some (at_member s))
    unfolding key_of apply_op
    set_own s (Op.set_add k x) e h = rw (put_own s k x (bool true) e) (ground arith)
    set_own s (Op.set_remove k x) e h = rw (delete_own s k x e) (ground arith)
    set_own s (Op.scalar_delete k) e h = rw (cell_deleted s k e) refl
    set_own s _ e h = absurd h

    -- If the operations of a history on one key are SetAdd, SetRemove and deletion, SetContains of a
    -- member is true after it exactly as for a set to which these operations add members and from
    -- which they take them, members being the same that have the same encoding.
    pub set_history :
        (s : State c) (ops : List (Op Float))
        → All (λ o. text_eq (key_of o) key ≡ true → IsSetOp o) ops
        → query_state c (apply_ops c s ops) (ReadOp.set_contains key m)
          ≡ truth (effects c key set_effect (is_some (at_member s)) ops)
    unfolding query_state
    set_history s ops h = ap truth (
        history c key (λ t. is_some (at_member t)) set_effect IsSetOp set_own
          (λ s t e. ap is_some (cell_same s t e)) s ops h)

    abbrev pub IsIntMapOp : Op Float → Type 0
    IsIntMapOp (Op.int_map_set _ _ _) = Unit
    IsIntMapOp (Op.int_map_add _ _ _) = Unit
    IsIntMapOp (Op.int_map_mul _ _ _) = Unit
    IsIntMapOp (Op.int_map_div _ _ _) = Unit
    IsIntMapOp (Op.int_map_delete _ _) = Unit
    IsIntMapOp (Op.scalar_delete _) = Unit
    IsIntMapOp _ = ⊥

    abbrev pub int_map_effect : Op Float → ℤ → ℤ
    int_map_effect (Op.int_map_set _ x n) a = if same_key x then n else a
    int_map_effect (Op.int_map_add _ x d) a = if same_key x then wrap64 (a +ℤ d) else a
    int_map_effect (Op.int_map_mul _ x f) a = if same_key x then wrap64 (a *ℤ f) else a
    int_map_effect (Op.int_map_div _ x d) a =
        if is_zero d then a else if same_key x then wrap64 (a /ℤ d) else a
    int_map_effect (Op.int_map_delete _ x) a = if same_key x then pos 0 else a
    int_map_effect (Op.scalar_delete _) a = pos 0
    int_map_effect _ a = a

    abbrev int_at : State c → ℤ
    int_at s = to_int64 c (at_member s)

    value_before :
        (s : State c) (k : Text) (x : Value Float)
        → text_eq k key ≡ true
        → same_key x ≡ true
        → lookup (marshal_key c x) (get_or_create_submap c s k) ≡ at_member s
    value_before s k x e same =
        rw ((text_eq_iff k key).0 e, (text_eq_iff (marshal_key c x) (marshal_key c m)).0 same)
          (created c s key (marshal_key c m))

    -- A key that holds no map reads as zero.
    int_at_no_map : (s : State c) → as_map (lookup key s) ≡ none → int_at s ≡ pos 0
    unfolding submap_get to_int64
    int_at_no_map s e = ground arith

    update_own :
        (s : State c) (k : Text) (x : Value Float) (f : ℤ → ℤ)
        → text_eq k key ≡ true
        → int_at (int_map_update c s k (marshal_key c x) f)
          ≡ (if same_key x then f (int_at s) else int_at s)
    unfolding int_map_update to_int64
    update_own s k x f e =
        let F = f (to_int64 c (lookup (marshal_key c x) (get_or_create_submap c s k))) in
        rw (put_own s k x (int F) e) (ground (arith, value_before s k x e))

    div_skips :
        (s : State c) (k : Text) (x : Value Float) (d : ℤ)
        → is_zero d || not (is_some (as_map (lookup k s))) ≡ true
        → apply_op c s (Op.int_map_div k x d) ≡ s
    unfolding apply_op
    div_skips s k x d h = ground arith

    div_steps :
        (s : State c) (k : Text) (x : Value Float) (d : ℤ)
        → is_zero d || not (is_some (as_map (lookup k s))) ≡ false
        → apply_op c s (Op.int_map_div k x d)
          ≡ int_map_update c s k (marshal_key c x) (λ n. wrap64 (n /ℤ d))
    unfolding apply_op
    div_steps s k x d h = ground arith

    div_own :
        (s : State c) (k : Text) (x : Value Float) (d : ℤ)
        → text_eq k key ≡ true
        → int_at (apply_op c s (Op.int_map_div k x d))
          ≡ int_map_effect (Op.int_map_div k x d) (int_at s)
    div_own s k x d e = elim (Bool-cases (is_zero d)) [
      | inl z ↦ rw (div_skips s k x d (rw z refl), z) refl
      | inr z ↦ elim (Option-cases (as_map (lookup k s))) [
        | inl none_ ↦
            let zero_ = int_at_no_map s (rw ((text_eq_iff k key).0 e) at none_) in
            rw (div_skips s k x d (rw (z, none_) refl), z) (ground (arith, zero_, zero_div d))
        | inr (t, some_) ↦
            rw (div_steps s k x d (rw (z, some_) refl), z)
              (update_own s k x (λ n. wrap64 (n /ℤ d)) e)
      ]
    ]

    int_map_own :
        (s : State c) (o : Op Float)
        → text_eq (key_of o) key ≡ true
        → IsIntMapOp o
        → int_at (apply_op c s o) ≡ int_map_effect o (int_at s)
    unfolding key_of apply_op to_int64
    int_map_own s (Op.int_map_set k x n) e h = rw (put_own s k x (int n) e) (ground arith)
    int_map_own s (Op.int_map_add k x d) e h = update_own s k x (λ n. wrap64 (n +ℤ d)) e
    int_map_own s (Op.int_map_mul k x f) e h = update_own s k x (λ n. wrap64 (n *ℤ f)) e
    int_map_own s (Op.int_map_div k x d) e h = div_own s k x d e
    int_map_own s (Op.int_map_delete k x) e h = rw (delete_own s k x e) (ground arith)
    int_map_own s (Op.scalar_delete k) e h = rw (cell_deleted s k e) refl
    int_map_own s _ e h = absurd h

    -- If the operations of a history on one key are operations on an integer map and deletion,
    -- IntMapGet of a map key then reads what those with that map key make of the integer before.
    pub int_map_history :
        (s : State c) (ops : List (Op Float))
        → All (λ o. text_eq (key_of o) key ≡ true → IsIntMapOp o) ops
        → query_state c (apply_ops c s ops) (ReadOp.int_map_get key m)
          ≡ number (effects c key int_map_effect (int_at s) ops)
    unfolding query_state
    int_map_history s ops h = ap number (
        history c key int_at int_map_effect IsIntMapOp int_map_own
          (λ s t e. ap (to_int64 c) (cell_same s t e)) s ops h)
