-- ===== src/Cache/Memory/Evict/Write.antt =====
-- One entry written into a namespace that has a map, and the map that it gets if it has none.
use cachew.Base.{
  ℕ, ◌+◌, ◌≡◌, refl, ap, sym, ◌∙◌, true, ◌&&◌, some, List, [], ◌∷◌, All, Text, length, is_some,
  if◌then◌else◌, Bool-cases, Option-cases, inl, inr, arith, text_eq, text_eq_iff, text_eq_refl,
}
use cachew.Base.Int.{ℤ, pos}
use cachew.Base.Assoc.{Assoc, Fresh, IsMap, lookup, insert, remove, lookup-insert, insert-IsMap}
use cachew.Cache.Memory.{Entry, Entries, Store, find, modify}
use cachew.Cache.Memory.Evict.{Info, evict_one, evict_loop, ensure, old_size}
use cachew.Cache.Memory.Evict.Accounting.{total_in, total, IsSound, lookup-modify}

total_in-insert :
    (k : Text) (w : Entry) (m : Assoc Entry)
    → total_in (insert k w m) + old_size (lookup k m) ≡ total_in m + length w.bytes
unfolding insert lookup old_size
total_in-insert k w [] = omega arith
total_in-insert k w ((j, e) ∷ m) = ground (arith, total_in-insert k w m)

-- A namespace with a map: the total after one entry is written.
pub total-insert :
    (n k : Text) (w : Entry) (entries : Entries)
    → is_some (lookup n entries) ≡ true
    → total (modify n (insert k w) entries) + old_size (find entries n k)
      ≡ total entries + length w.bytes
unfolding find modify lookup
total-insert n k w [] h = cc
total-insert n k w ((i, m) ∷ rest) h =
    ground (arith, total-insert n k w rest, total_in-insert k w m)

pub find-insert :
    (n k n' k' : Text) (w : Entry) (entries : Entries)
    → is_some (lookup n entries) ≡ true
    → find (modify n (insert k w) entries) n' k'
      ≡ (if text_eq n n' && text_eq k k' then some w else find entries n' k')
unfolding find
find-insert n k n' k' w entries h = elim (Option-cases (lookup n' entries)) [
  | inl e ↦ ground (arith, lookup-modify n n' (insert k w) entries, text_eq_iff n n')
  | inr (m, e) ↦ ground (arith, lookup-modify n n' (insert k w) entries, lookup-insert k k' w m)
]

-- `ensure` gives the namespace a map and changes no entry.
pub lookup-ensure : (n : Text) (entries : Entries) → is_some (lookup n (ensure n entries)) ≡ true
unfolding ensure
lookup-ensure n entries = elim (Bool-cases (is_some (lookup n entries))) [
  | inl e ↦ rw e e
  | inr e ↦ rw (e, lookup-insert n n [] entries, text_eq_refl n) refl
]

pub find-ensure :
    (n n' k' : Text) (entries : Entries) → find (ensure n entries) n' k' ≡ find entries n' k'
unfolding ensure find lookup
find-ensure n n' k' entries = ground (arith, lookup-insert n n' [] entries, text_eq_iff n n')

total-Fresh :
    (n : Text) (entries : Entries) → Fresh n entries → total (insert n [] entries) ≡ total entries
unfolding insert lookup
total-Fresh n [] h = refl
total-Fresh n ((i, m) ∷ rest) h = ground (arith, total-Fresh n rest)

All-fresh :
    (n : Text) (entries : Entries)
    → All (λ (x : Text × Assoc Entry). IsMap x.1) entries
    → All (λ (x : Text × Assoc Entry). IsMap x.1) (insert n [] entries)
unfolding insert
All-fresh n [] h = (tt, tt)
All-fresh n ((i, m) ∷ rest) (hm, h) = elim (Bool-cases (text_eq i n)) [
  | inl e ↦ rw e (tt, h)
  | inr e ↦ rw e (hm, All-fresh n rest h)
]

pub ensure-IsSound :
    (n : Text) (st : Store) → IsSound st → IsSound (record st { entries = ensure n st.entries })
unfolding ensure
ensure-IsSound n st h = elim (Option-cases (lookup n st.entries)) [
  | inl e ↦
      rw (e, is_some)
        (record {
          maps = (insert-IsMap n [] st.entries h.maps.0, All-fresh n st.entries h.maps.1);
          counted = h.counted ∙ ap pos (sym (total-Fresh n st.entries e));
        })
  | inr (m, e) ↦ rw (e, is_some) h
]

is_some-modify :
    (n j : Text) (f : Assoc Entry → Assoc Entry) (entries : Entries)
    → is_some (lookup j (modify n f entries)) ≡ is_some (lookup j entries)
is_some-modify n j f entries = ground (arith, lookup-modify n j f entries)

pub is_some-loop :
    (j : Text) (es : List Info) (needed : ℤ) (freed : ℕ) (st : Store)
    → is_some (lookup j (evict_loop es needed freed st).entries) ≡ is_some (lookup j st.entries)
unfolding evict_loop
is_some-loop j [] needed freed st = refl
is_some-loop j (e ∷ es) needed freed st = ground (
  arith,
  is_some-loop j es needed (freed + e.size) (evict_one e st),
  is_some-modify e.namespace j (remove e.key) st.entries,
)
