-- ===== src/Metadata/Ops/Backend.antt =====
-- The in-memory backend, internal/metadatadb/memory.go. Its state maps a namespace to its state.
use cachew.Base.{
  ◌≡◌, Option, none, some, List, [], Text, text_eq, text_eq_iff, if◌then◌else◌, arith,
}
use cachew.Base.Assoc.{Assoc, lookup, insert, lookup-insert}
use cachew.Metadata.Ops.{Codec, Op, ReadOp, Answer, State, apply_ops, query_state}

module _ (c : Codec) where
  open c use {Float}

  abbrev pub MemoryBackend : Type 0
  MemoryBackend = Assoc (State c)

  state_or_new : Option (State c) → State c
  state_or_new none = []
  state_or_new (some s) = s

  -- ns: the state of a namespace, made if it is missing, and the backend after that.
  unfoldable pub ns : MemoryBackend → Text → State c × MemoryBackend
  unfolding state_or_new lookup insert
  ns b namespace = elim (lookup namespace b) [
    | none ↦ ([], insert namespace [] b)
    | some s ↦ (s, b)
  ]

  -- MemoryBackend.Apply
  unfoldable pub apply : MemoryBackend → Text → List (Op Float) → MemoryBackend
  unfolding ns insert
  apply b namespace ops = let (s, b') = ns b namespace in insert namespace (apply_ops c s ops) b'

  -- MemoryBackend.Query: the answer, and the backend, in which it may make the namespace.
  unfoldable pub query : MemoryBackend → Text → ReadOp Float → Answer Float × MemoryBackend
  unfolding ns
  query b namespace q = let (s, b') = ns b namespace in (query_state c s q, b')

  ns-insert :
      (b : MemoryBackend) (n m : Text) (s : State c)
      → (ns (insert n s b) m).0 ≡ (if text_eq n m then s else (ns b m).0)
  unfolding ns
  ns-insert b n m s = ground (arith, lookup-insert n m s b)

  ns-ns : (b : MemoryBackend) (n m : Text) → (ns (ns b n).1 m).0 ≡ (ns b m).0
  unfolding ns
  ns-ns b n m = ground (arith, lookup-insert n m ([]) b, text_eq_iff n m)

  -- A query of a namespace after an Apply answers from the state that the operations make of the
  -- namespace, if it is the one written to, and as before if it is another; and a query, though it may
  -- make a namespace, changes no later answer.
  pub query-apply :
      (b : MemoryBackend) (n m : Text) (ops : List (Op Float)) (q r : ReadOp Float)
      → ((query (apply b n ops) m q).0
          ≡ (if text_eq n m then query_state c (apply_ops c (ns b m).0 ops) q else (query b m q).0))
        × ((query (query b n r).1 m q).0 ≡ (query b m q).0)
  unfolding query apply
  query-apply b n m ops q r = (
    ground (
      arith,
      ns-insert (ns b n).1 n m (apply_ops c (ns b n).0 ops),
      ns-ns b n m,
      text_eq_iff n m,
    ),
    ground (arith, ns-ns b n m),
  )

  -- A query of a namespace that is missing adds it to the map, under the read lock.
  pub query_writes :
      (b : MemoryBackend) (n : Text) (q : ReadOp Float)
      → lookup n b ≡ none
      → (query b n q).1 ≡ insert n [] b
  unfolding query ns
  query_writes b n q h = ground arith
