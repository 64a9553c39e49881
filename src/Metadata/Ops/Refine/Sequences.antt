-- ===== src/Metadata/Ops/Refine/Sequences.antt =====
-- Lists: what a history of appends reads as.
use cachew.Base.{◌≡◌, refl, ap, true, List, [], ◌∷◌, ◌++◌, Text, All, length, text_eq, text_eq_iff}
use cachew.Base.Assoc.{lookup, lookup-insert, lookup-remove}
use cachew.Metadata.Value.{Value, as_list, as_list-list}
use cachew.Metadata.Ops.{Codec, Op, State, apply_op, apply_ops, or_nil, ReadOp, count, query_state}
use cachew.Metadata.Ops.Observe.{key_of}
use cachew.Metadata.Ops.Refine.{effects, history}

module _ (c : Codec) (key : Text) where
  open c use {Float}

  -- The list that a key holds; a key with anything else holds none.
  abbrev pub list_at : State c → List (Value Float)
  list_at s = or_nil c (as_list (lookup key s))

  abbrev pub IsListOp : Op Float → Type 0
  IsListOp (Op.list_append _ _) = Unit
  IsListOp (Op.scalar_delete _) = Unit
  IsListOp _ = ⊥

  abbrev pub list_effect : Op Float → List (Value Float) → List (Value Float)
  list_effect (Op.list_append _ v) l = l ++ v ∷ []
  list_effect (Op.scalar_delete _) l = []
  list_effect _ l = l

  list_own :
      (s : State c) (o : Op Float)
      → text_eq (key_of o) key ≡ true
      → IsListOp o
      → list_at (apply_op c s o) ≡ list_effect o (list_at s)
  unfolding key_of apply_op or_nil
  list_own s (Op.list_append k v) e h =
      rw (lookup-insert, e, (text_eq_iff k key).0 e)
        (ap (or_nil c) (as_list-list (list_at s ++ v ∷ [])))
  list_own s (Op.scalar_delete k) e h = rw (lookup-remove, e) (unfold as_list in refl)
  list_own s _ e h = absurd h

  -- If the operations of a history on one key are ListAppend and deletion, the key then holds the list
  -- that these make of the one before, and ListLen reads its length.
  pub list_history :
      (s : State c) (ops : List (Op Float))
      → All (λ o. text_eq (key_of o) key ≡ true → IsListOp o) ops
      → (list_at (apply_ops c s ops) ≡ effects c key list_effect (list_at s) ops)
        × (query_state c (apply_ops c s ops) (ReadOp.list_len key)
            ≡ count (length (effects c key list_effect (list_at s) ops)))
  unfolding query_state
  list_history s ops h =
      let held =
        history c key list_at list_effect IsListOp list_own
          (λ s t e. ap (λ o. or_nil c (as_list o)) e) s ops h in
      (held, ap (λ l. count (length l)) held)
