-- ===== src/Metadata/Value.antt =====
-- The `any` values of a namespace's state, as encoding/json gives them. An int64 and a json.Number
-- that is the print of one are the same value here, since the code reads both by toInt64; a number
-- that is not an int64 is a `float`, over a type of floats that is not modelled.
use cachew.Base.{◌≡◌, refl, ap, Bool, Option, none, some, List, [], ◌∷◌, Text}
use cachew.Base.Int.{ℤ}
use cachew.Base.Assoc.{Assoc}

mutual
  pub data Value (F : Type 0) : Type 0 where
    null : Value F
    bool : Bool → Value F
    int : ℤ → Value F
    float : F → Value F
    text : Text → Value F
    list : Values F → Value F
    object : Fields F → Value F

  pub data Values (F : Type 0) : Type 0 where
    nil : Values F
    cons : Value F → Values F → Values F

  pub data Fields (F : Type 0) : Type 0 where
    end : Fields F
    field : Text → Value F → Fields F → Fields F

module _ {F : Type 0} where
  unfoldable pub to_assoc : Fields F → Assoc (Value F)
  to_assoc end = []
  to_assoc (field k v fs) = (k, v) ∷ to_assoc fs

  unfoldable pub of_assoc : Assoc (Value F) → Fields F
  of_assoc [] = end
  of_assoc ((k, v) ∷ m) = field k v (of_assoc m)

  pub to_assoc-of_assoc : (m : Assoc (Value F)) → to_assoc (of_assoc m) ≡ m
  unfolding to_assoc of_assoc
  to_assoc-of_assoc [] = refl
  to_assoc-of_assoc ((k, v) ∷ m) = ap (λ (t : Assoc (Value F)). (k, v) ∷ t) (to_assoc-of_assoc m)

  unfoldable pub to_list : Values F → List (Value F)
  to_list nil = []
  to_list (cons v vs) = v ∷ to_list vs

  unfoldable pub of_list : List (Value F) → Values F
  of_list [] = nil
  of_list (v ∷ vs) = cons v (of_list vs)

  pub to_list-of_list : (l : List (Value F)) → to_list (of_list l) ≡ l
  unfolding to_list of_list
  to_list-of_list [] = refl
  to_list-of_list (v ∷ vs) = ap (λ (t : List (Value F)). v ∷ t) (to_list-of_list vs)

  -- The type assertions of the code: x.(map[string]any) and x.([]any), of a value that may be absent.
  unfoldable pub as_map : Option (Value F) → Option (Assoc (Value F))
  as_map (some (object fs)) = some (to_assoc fs)
  as_map _ = none

  unfoldable pub as_list : Option (Value F) → Option (List (Value F))
  as_list (some (list vs)) = some (to_list vs)
  as_list _ = none

  pub as_map-object : (m : Assoc (Value F)) → as_map (some (object (of_assoc m))) ≡ some m
  unfolding as_map
  as_map-object m = ap some (to_assoc-of_assoc m)

  pub as_list-list : (l : List (Value F)) → as_list (some (list (of_list l))) ≡ some l
  unfolding as_list
  as_list-list l = ap some (to_list-of_list l)
