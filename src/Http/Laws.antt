-- ===== src/Http/Laws.antt =====
-- Reading a header after a write, and what FilterHeaders keeps.
use cachew.Base.{
  ◌≡◌, refl, ap, ◌∙◌, Bool, true, false, ◌||◌, Option, none, some, List, [], ◌∷◌, Text, codes,
  if◌then◌else◌, text_eq, text_eq_iff, text_eq_refl, arith,
}
use cachew.Base.Assoc.{lookup, lookup-insert, lookup-remove}
use cachew.Http.{Header, canonical, get, set, del, skips, filter_headers}

pub get-set :
    (h : Header) (n m v : Text)
    → get (set h n v) m ≡ (if text_eq (canonical n) (canonical m) then v else get h m)
unfolding get set
get-set h n m v = rw (lookup-insert (canonical n) (canonical m) (v ∷ []) h) (ground arith)

pub get-del :
    (h : Header) (n m : Text)
    → get (del h n) m ≡ (if text_eq (canonical n) (canonical m) then [] else get h m)
unfolding get del
get-del h n m = rw (lookup-remove (canonical n) (canonical m) h) (ground arith)

skips_same : (skip : List Text) (n m : Text) → text_eq n m ≡ true → skips skip n ≡ skips skip m
skips_same skip n m e = ap (skips skip) ((text_eq_iff n m).0 e)

-- FilterHeaders drops the names that the list has in any spelling, and keeps every other name with
-- its values.
pub lookup-filter_headers :
    (h : Header) (skip : List Text) (n : Text)
    → lookup n (filter_headers h skip) ≡ (if skips skip n then none else lookup n h)
unfolding filter_headers lookup
lookup-filter_headers [] skip n = ground arith
lookup-filter_headers ((m, v) ∷ h) skip n =
    ground (arith, lookup-filter_headers h skip n, skips_same skip m n)

pub ruleset header_laws = (get-set, get-del, text_eq_refl)
