-- ===== src/Metadata/Ops/Observe.antt =====
-- One operation, seen through the reads.
use cachew.Base.{
  ◌≡◌, refl, ap, ◌∙◌, false, ◌||◌, not, Option, none, some, Text, if◌then◌else◌, is_some, text_eq,
  text_eq_refl, Option-cases, Bool-cases, inl, inr, arith,
}
use cachew.Base.Assoc.{Assoc, lookup, insert, remove, lookup-insert, lookup-remove}
use cachew.Metadata.Value.{Value, int, object, of_assoc, as_map, as_map-object}
use cachew.Metadata.Ops.{
  Codec, Op, State, marshal_key, get_or_create_submap, put_submap, delete_in, int_map_update,
  is_zero, apply_op, submap_get,
}

-- The key that an operation is about.
unfoldable pub key_of : {F : Type 0} → Op F → Text
key_of (Op.scalar_set key _) = key
key_of (Op.scalar_delete key) = key
key_of (Op.int_set key _) = key
key_of (Op.int_add key _) = key
key_of (Op.int_mul key _) = key
key_of (Op.int_div key _) = key
key_of (Op.set_add key _) = key
key_of (Op.set_remove key _) = key
key_of (Op.int_map_set key _ _) = key
key_of (Op.int_map_add key _ _) = key
key_of (Op.int_map_mul key _ _) = key
key_of (Op.int_map_div key _ _) = key
key_of (Op.int_map_delete key _) = key
key_of (Op.map_set key _ _) = key
key_of (Op.map_delete key _) = key
key_of (Op.list_append key _) = key

module _ (c : Codec) where
  open c use {Float, marshal}

  -- What the key `j` holds under the map key `k`.
  abbrev pub cell : State c → Text → Text → Option (Value Float)
  cell s j k = submap_get c (as_map (lookup j s)) k

  lookup-put_submap :
      (s : State c) (key j : Text) (m : Assoc (Value Float))
      → lookup j (put_submap c s key m)
        ≡ (if text_eq key j then some (object (of_assoc m)) else lookup j s)
  unfolding put_submap
  lookup-put_submap s key j m = lookup-insert key j (object (of_assoc m)) s

  pub lookup-delete_in :
      (s : State c) (key k j : Text)
      → text_eq key j ≡ false
      → lookup j (delete_in c s key k) ≡ lookup j s
  unfolding delete_in
  lookup-delete_in s key k j e = elim (Option-cases (as_map (lookup key s))) [
    | inl m ↦ ground arith
    | inr (m, f) ↦ ground (arith, lookup-put_submap s key j (remove k m))
  ]

  -- An operation leaves every other key alone.
  pub lookup-apply_op :
      (s : State c) (o : Op Float) (j : Text)
      → text_eq (key_of o) j ≡ false
      → lookup j (apply_op c s o) ≡ lookup j s
  unfolding key_of apply_op int_map_update
  lookup-apply_op s (Op.scalar_set key v) j e = ground (arith, lookup-insert key j v s)
  lookup-apply_op s (Op.scalar_delete key) j e = ground (arith, lookup-remove key j s)
  lookup-apply_op s (Op.int_set key n) j e = ground (arith, lookup-insert key j (int n) s)
  lookup-apply_op s (Op.int_add key d) j e = rw (lookup-insert, e) refl
  lookup-apply_op s (Op.int_mul key d) j e = rw (lookup-insert, e) refl
  lookup-apply_op s (Op.int_div key d) j e = elim (Bool-cases (is_zero d)) [
    | inl z ↦ rw z refl
    | inr z ↦ rw (z, lookup-insert, e) refl
  ]
  lookup-apply_op s (Op.set_add key x) j e = rw (lookup-put_submap, e) refl
  lookup-apply_op s (Op.set_remove key x) j e = lookup-delete_in s key (marshal_key c x) j e
  lookup-apply_op s (Op.int_map_set key k n) j e = rw (lookup-put_submap, e) refl
  lookup-apply_op s (Op.int_map_add key k n) j e = rw (lookup-put_submap, e) refl
  lookup-apply_op s (Op.int_map_mul key k n) j e = rw (lookup-put_submap, e) refl
  lookup-apply_op s (Op.int_map_div key k d) j e =
      elim (Bool-cases (is_zero d || not (is_some (as_map (lookup key s))))) [
        | inl z ↦ rw z refl
        | inr z ↦ rw (z, lookup-put_submap, e) refl
      ]
  lookup-apply_op s (Op.int_map_delete key k) j e = lookup-delete_in s key (marshal_key c k) j e
  lookup-apply_op s (Op.map_set key k v) j e = rw (lookup-put_submap, e) refl
  lookup-apply_op s (Op.map_delete key k) j e = lookup-delete_in s key (marshal_key c k) j e
  lookup-apply_op s (Op.list_append key v) j e = rw (lookup-insert, e) refl

  pub sub-put_submap :
      (s : State c) (key : Text) (m : Assoc (Value Float))
      → as_map (lookup key (put_submap c s key m)) ≡ some m
  sub-put_submap s key m = rw (lookup-put_submap s key key m, text_eq_refl key) (as_map-object m)

  pub created :
      (s : State c) (key k' : Text) → lookup k' (get_or_create_submap c s key) ≡ cell s key k'
  unfolding get_or_create_submap submap_get lookup
  created s key k' = ground arith

  -- The map keys under a key after a write into its submap and after a delete in it.
  pub cell-put :
      (s : State c) (key k k' : Text) (v : Value Float)
      → cell (put_submap c s key (insert k v (get_or_create_submap c s key))) key k'
        ≡ (if text_eq k k' then some v else cell s key k')
  unfolding submap_get
  cell-put s key k k' v =
      ap (λ o. submap_get c o k') (sub-put_submap s key (insert k v (get_or_create_submap c s key)))
      ∙ lookup-insert k k' v (get_or_create_submap c s key)
      ∙ ap (λ o. if text_eq k k' then some v else o) (created s key k')

  pub cell-delete_in :
      (s : State c) (key k k' : Text)
      → cell (delete_in c s key k) key k' ≡ (if text_eq k k' then none else cell s key k')
  unfolding delete_in submap_get
  cell-delete_in s key k k' = elim (Option-cases (as_map (lookup key s))) [
    | inl e ↦ ground arith
    | inr (m, e) ↦ ground (arith, sub-put_submap s key (remove k m), lookup-remove k k' m)
  ]
