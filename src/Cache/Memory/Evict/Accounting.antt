-- ===== src/Cache/Memory/Evict/Accounting.antt =====
-- The size counter against the bytes that are stored, through evictOldest.
use cachew.Base.{
  ℕ, ◌+◌, ◌≡◌, ap, false, ◌&&◌, none, some, List, [], ◌∷◌, All, Text, length, if◌then◌else◌,
  Bool-cases, Option-cases, inl, inr, arith, text_eq, text_eq_iff,
}
use cachew.Base.Int.{pos, pos_part, neg_part, int_laws}
use cachew.Base.Assoc.{
  Assoc, Fresh, IsMap, lookup, remove, lookup-remove, remove-IsMap, remove_absent,
}
use cachew.Cache.Memory.{Entry, Entries, Store, find, modify}
use cachew.Cache.Memory.Evict.{Info, evict_one}

-- The bytes that are stored.
abbrev pub total_in : Assoc Entry → ℕ
total_in [] = 0
total_in ((k, e) ∷ m) = length e.bytes + total_in m

abbrev pub total : Entries → ℕ
total [] = 0
total ((n, m) ∷ rest) = total_in m + total rest

-- Every namespace has one map, and every map each key once.
abbrev pub AreMaps : Entries → Type 0
AreMaps entries = IsMap entries × All (λ (x : Text × Assoc Entry). IsMap x.1) entries

-- The counter is the number of bytes that are stored.
pub record IsSound (st : Store) : Type 0 where
  pub maps : AreMaps st.entries
  pub counted : st.current_size ≡ pos (total st.entries)

total_in-remove :
    (k : Text) (m : Assoc Entry) (e : Entry)
    → IsMap m
    → lookup k m ≡ some e
    → total_in (remove k m) + length e.bytes ≡ total_in m
unfolding lookup remove
total_in-remove k [] e h p = cc
total_in-remove k ((j, w) ∷ m) e (fresh, h) p = elim (Bool-cases (text_eq j k)) [
  | inl same ↦
      let same_key = (text_eq_iff j k).0 same in
      let gone : remove k m ≡ m = remove_absent k m (rw same_key at fresh) in ground (arith, gone)
  | inr other ↦ ground (arith, total_in-remove k m e h)
]

pub lookup-modify :
    (n j : Text) (f : Assoc Entry → Assoc Entry) (entries : Entries)
    → lookup j (modify n f entries) ≡ (
        if text_eq n j
        then elim (lookup j entries) [ none ↦ none | some m ↦ some (f m) ]
        else lookup j entries)
unfolding lookup modify
lookup-modify n j f [] = ground arith
lookup-modify n j f ((i, m) ∷ rest) =
    ground (arith, lookup-modify n j f rest, text_eq_iff n j, text_eq_iff i n, text_eq_iff i j)

pub find-evict :
    (n k n' k' : Text) (entries : Entries)
    → find (modify n (remove k) entries) n' k'
      ≡ (if text_eq n n' && text_eq k k' then none else find entries n' k')
unfolding find
find-evict n k n' k' entries = elim (Option-cases (lookup n' entries)) [
  | inl e ↦ ground (arith, lookup-modify n n' (remove k) entries)
  | inr (m, e) ↦ ground (arith, lookup-modify n n' (remove k) entries, lookup-remove k k' m)
]

pub total-remove :
    (n k : Text) (entries : Entries) (e : Entry)
    → AreMaps entries
    → find entries n k ≡ some e
    → total (modify n (remove k) entries) + length e.bytes ≡ total entries
unfolding find modify lookup
total-remove n k [] e h p = cc
total-remove n k ((i, m) ∷ rest) e ((fi, hr), (hm, ha)) p =
    ground (arith, total-remove n k rest e (hr, ha), total_in-remove k m e hm)

modify-Fresh :
    (n j : Text) (f : Assoc Entry → Assoc Entry) (entries : Entries)
    → Fresh j entries
    → Fresh j (modify n f entries)
modify-Fresh n j f entries h = rw lookup-modify (ground arith)

pub modify-AreMaps :
    (n : Text) (f : Assoc Entry → Assoc Entry) (entries : Entries)
    → ((m : Assoc Entry) → IsMap m → IsMap (f m))
    → AreMaps entries
    → AreMaps (modify n f entries)
unfolding modify
modify-AreMaps n f [] keeps h = h
modify-AreMaps n f ((i, m) ∷ rest) keeps ((fi, hr), (hm, ha)) = elim (Bool-cases (text_eq i n)) [
  | inl e ↦ rw e ((fi, hr), (keeps m hm, ha))
  | inr e ↦
      let (a, b) = modify-AreMaps n f rest keeps (hr, ha) in
      rw e ((modify-Fresh n i f rest fi, a), (hm, b))
]

-- An info names a stored entry and its size.
abbrev pub IsPresent : Entries → Info → Type 0
IsPresent entries i =
    (e : Entry) × (find entries i.namespace i.key ≡ some e) × (length e.bytes ≡ i.size)

-- Two infos name different entries.
abbrev pub Differ : Info → Info → Type 0
Differ x y = (text_eq x.namespace y.namespace && text_eq x.key y.key) ≡ false

pub Differ-swap : (x y : Info) → Differ x y → Differ y x
Differ-swap x y h = ground (
  arith,
  text_eq_iff x.namespace y.namespace,
  text_eq_iff y.namespace x.namespace,
  text_eq_iff x.key y.key,
  text_eq_iff y.key x.key,
)

pub evict_one-IsSound :
    (x : Info) (st : Store) → IsPresent st.entries x → IsSound st → IsSound (evict_one x st)
unfolding evict_one
evict_one-IsSound x st (e, found, size) h = record {
  maps = modify-AreMaps x.namespace (remove x.key) st.entries (λ m. remove-IsMap x.key m) h.maps;
  counted = omega (
    int_laws,
    total-remove x.namespace x.key st.entries e h.maps found,
    ap pos_part h.counted,
    ap neg_part h.counted,
  );
}

evict_one-IsPresent :
    (x y : Info) (st : Store)
    → Differ x y
    → IsPresent st.entries y
    → IsPresent (evict_one x st).entries y
unfolding evict_one
evict_one-IsPresent x y st d (e, found, size) =
    (e, rw (find-evict x.namespace x.key y.namespace y.key st.entries, d) found, size)

pub evict_one-All :
    (x : Info) (ys : List Info) (st : Store)
    → All (Differ x) ys
    → All (IsPresent st.entries) ys
    → All (IsPresent (evict_one x st).entries) ys
evict_one-All x [] st d h = tt
evict_one-All x (y ∷ ys) st (d, ds) (p, ps) =
    (evict_one-IsPresent x y st d p, evict_one-All x ys st ds ps)
