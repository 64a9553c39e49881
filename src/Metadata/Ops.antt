-- ===== src/Metadata/Ops.antt =====
-- The operations of internal/metadatadb/ops.go on the state of a namespace. encoding/json and the
-- conversion of a float are parameters: `marshal` is json.Marshal, `decode` a decoder with UseNumber,
-- `display` fmt.Sprint of what it decodes, `trunc` the conversion to int64.
pub mod Observe
pub mod Refine
pub mod Backend
use cachew.Base.{
  ℕ, ◌≡◌, Bool, true, false, ◌||◌, not, Option, none, some, List, [], ◌∷◌, ◌++◌, Text, length, ◌==◌,
  if◌then◌else◌, is_some, map,
}
use cachew.Base.Int.{ℤ, pos, negsuc, ◌+ℤ◌, ◌*ℤ◌, ◌/ℤ◌, wrap64}
use cachew.Base.Assoc.{Assoc, lookup, insert, remove}
use cachew.Metadata.Value.{
  Value, bool, int, float, list, object, of_assoc, of_list, as_map, as_list, null, text,
}

-- encoding/json and the floats.
pub record Codec : Type 1 where
  pub Float : Type 0
  pub trunc : Float → ℤ
  pub marshal : Value Float → Text
  pub decode : Text → Option (Value Float)
  pub display : Value Float → Text

-- Op: the write operations. A member, a map key and a value are any JSON values.
pub data Op (F : Type 0) : Type 0 where
  scalar_set : Text → Value F → Op F
  scalar_delete : Text → Op F
  int_set int_add int_mul int_div : Text → ℤ → Op F
  set_add set_remove : Text → Value F → Op F
  int_map_set int_map_add int_map_mul int_map_div : Text → Value F → ℤ → Op F
  int_map_delete : Text → Value F → Op F
  map_set : Text → Value F → Value F → Op F
  map_delete : Text → Value F → Op F
  list_append : Text → Value F → Op F

-- ReadOp
pub data ReadOp (F : Type 0) : Type 0 where
  scalar_get int_get : Text → ReadOp F
  set_contains : Text → Value F → ReadOp F
  set_members : Text → ReadOp F
  int_map_get : Text → Value F → ReadOp F
  int_map_keys int_map_entries : Text → ReadOp F
  map_get : Text → Value F → ReadOp F
  map_keys map_entries list_entries list_len : Text → ReadOp F

-- What queryState returns: nil, a queryResult, an integer, a truth value, raw keys, decoded entries,
-- a state value as it is, or a length.
pub data Answer (F : Type 0) : Type 0 where
  nothing : Answer F
  found raw : Value F → Answer F
  number : ℤ → Answer F
  truth : Bool → Answer F
  keys : List Text → Answer F
  entries : Assoc (Value F) → Answer F
  count : ℕ → Answer F

abbrev pub is_zero : ℤ → Bool
is_zero (pos n) = n == 0
is_zero (negsuc n) = false

module _ (c : Codec) where
  open c use {Float, trunc, marshal, decode, display}

  abbrev pub State : Type 0
  State = Assoc (Value Float)

  is_composite : Text → Bool
  is_composite [] = false
  is_composite (b ∷ _) = b == b'{' || b == b'['

  recoded : Text → Option (Value Float) → Text
  recoded data_ none = data_
  recoded data_ (some v) = marshal v

  -- marshalKey
  unfoldable pub marshal_key : Value Float → Text
  unfolding is_composite recoded
  marshal_key v =
      let data_ = marshal v in if is_composite data_ then recoded data_ (decode data_) else data_

  -- toInt64, of a value that may be absent
  unfoldable pub to_int64 : Option (Value Float) → ℤ
  to_int64 (some (int n)) = n
  to_int64 (some (float f)) = trunc f
  to_int64 _ = pos 0

  unfoldable pub or_empty : Option (Assoc (Value Float)) → Assoc (Value Float)
  or_empty none = []
  or_empty (some m) = m

  -- getOrCreateSubmap: the map at a key, in place of any other value
  unfoldable pub get_or_create_submap : State → Text → Assoc (Value Float)
  unfolding or_empty as_map lookup
  get_or_create_submap s key = or_empty (as_map (lookup key s))

  -- the state with a submap stored again
  unfoldable pub put_submap : State → Text → Assoc (Value Float) → State
  unfolding insert
  put_submap s key m = insert key (object (of_assoc m)) s

  -- delete(m, k) where the key holds a map
  unfoldable pub delete_in : State → Text → Text → State
  unfolding put_submap as_map lookup remove
  delete_in s key k = elim (as_map (lookup key s)) [
    | none ↦ s
    | some m ↦ put_submap s key (remove k m)
  ]

  unfoldable pub int_map_update : State → Text → Text → (ℤ → ℤ) → State
  unfolding get_or_create_submap put_submap to_int64 lookup insert
  int_map_update s key k f =
      let m = get_or_create_submap s key in
      put_submap s key (insert k (int (f (to_int64 (lookup k m)))) m)

  unfoldable pub or_nil : Option (List (Value Float)) → List (Value Float)
  or_nil none = []
  or_nil (some l) = l

  -- ApplyOp
  unfoldable pub apply_op : State → Op Float → State
  unfolding marshal_key to_int64 get_or_create_submap put_submap delete_in int_map_update or_nil
      as_map as_list lookup insert remove
  apply_op s (Op.scalar_set key v) = insert key v s
  apply_op s (Op.scalar_delete key) = remove key s
  apply_op s (Op.int_set key n) = insert key (int n) s
  apply_op s (Op.int_add key d) = insert key (int (wrap64 (to_int64 (lookup key s) +ℤ d))) s
  apply_op s (Op.int_mul key f) = insert key (int (wrap64 (to_int64 (lookup key s) *ℤ f))) s
  apply_op s (Op.int_div key d) =
      if is_zero d then s else insert key (int (wrap64 (to_int64 (lookup key s) /ℤ d))) s
  apply_op s (Op.set_add key x) =
      put_submap s key (insert (marshal_key x) (bool true) (get_or_create_submap s key))
  apply_op s (Op.set_remove key x) = delete_in s key (marshal_key x)
  apply_op s (Op.int_map_set key k n) =
      put_submap s key (insert (marshal_key k) (int n) (get_or_create_submap s key))
  apply_op s (Op.int_map_add key k d) = int_map_update s key (marshal_key k) (λ n. wrap64 (n +ℤ d))
  apply_op s (Op.int_map_mul key k f) = int_map_update s key (marshal_key k) (λ n. wrap64 (n *ℤ f))
  apply_op s (Op.int_map_div key k d) =
      if is_zero d || not (is_some (as_map (lookup key s)))
      then s
      else int_map_update s key (marshal_key k) (λ n. wrap64 (n /ℤ d))
  apply_op s (Op.int_map_delete key k) = delete_in s key (marshal_key k)
  apply_op s (Op.map_set key k v) =
      put_submap s key (insert (marshal_key k) v (get_or_create_submap s key))
  apply_op s (Op.map_delete key k) = delete_in s key (marshal_key k)
  apply_op s (Op.list_append key v) =
      insert key (list (of_list (or_nil (as_list (lookup key s)) ++ v ∷ []))) s

  unfoldable pub apply_ops : State → List (Op Float) → State
  apply_ops s [] = s
  apply_ops s (o ∷ ops) = apply_ops (apply_op s o) ops

  key_names : Assoc (Value Float) → List Text
  key_names [] = []
  key_names ((k, v) ∷ m) = k ∷ key_names m

  decoded_name : Text → Text
  decoded_name k = elim (decode k) [ none ↦ k | some v ↦ display v ]

  -- decodeMapKeys
  unfoldable pub decode_map_keys : Assoc (Value Float) → Assoc (Value Float)
  unfolding decoded_name insert
  decode_map_keys [] = []
  decode_map_keys ((k, v) ∷ m) = insert (decoded_name k) v (decode_map_keys m)

  of_found : Option (Value Float) → Answer Float
  of_found none = nothing
  of_found (some v) = found v

  of_raw : Option (Value Float) → Answer Float
  of_raw none = nothing
  of_raw (some v) = raw v

  of_keys : Option (Assoc (Value Float)) → Answer Float
  unfolding key_names
  of_keys none = nothing
  of_keys (some m) = keys (key_names m)

  of_entries : Option (Assoc (Value Float)) → Answer Float
  unfolding decode_map_keys
  of_entries none = nothing
  of_entries (some m) = entries (decode_map_keys m)

  unfoldable pub submap_get : Option (Assoc (Value Float)) → Text → Option (Value Float)
  submap_get none k = none
  submap_get (some m) k = lookup k m

  -- queryState
  unfoldable pub query_state : State → ReadOp Float → Answer Float
  unfolding marshal_key to_int64 submap_get or_nil of_found of_raw of_keys of_entries as_map as_list
      lookup
  query_state s (ReadOp.scalar_get key) = of_found (lookup key s)
  query_state s (ReadOp.int_get key) = number (to_int64 (lookup key s))
  query_state s (ReadOp.set_contains key x) =
      truth (is_some (submap_get (as_map (lookup key s)) (marshal_key x)))
  query_state s (ReadOp.set_members key) = of_keys (as_map (lookup key s))
  query_state s (ReadOp.int_map_get key k) =
      number (to_int64 (submap_get (as_map (lookup key s)) (marshal_key k)))
  query_state s (ReadOp.int_map_keys key) = of_keys (as_map (lookup key s))
  query_state s (ReadOp.int_map_entries key) = of_entries (as_map (lookup key s))
  query_state s (ReadOp.map_get key k) =
      of_found (submap_get (as_map (lookup key s)) (marshal_key k))
  query_state s (ReadOp.map_keys key) = of_keys (as_map (lookup key s))
  query_state s (ReadOp.map_entries key) = of_entries (as_map (lookup key s))
  query_state s (ReadOp.list_entries key) = of_raw (lookup key s)
  query_state s (ReadOp.list_len key) = count (length (or_nil (as_list (lookup key s))))
