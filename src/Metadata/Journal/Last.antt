-- ===== src/Metadata/Journal/Last.antt =====
-- The last mark of sorted segments is above all of them.
use cachew.Base.{◌≡◌, refl, sym, ◌∙◌, true, false, List, [], ◌∷◌, Text, All, Bool-cases, inl, inr}
use cachew.Base.Sort.{insert_in, sort}
use cachew.Metadata.Journal.{Mark, covers, CacheEntry, replays_before, last_mark}
use cachew.Metadata.Journal.Order.{covers_self, covers_total, covers_trans}

module _ (Op : Type 0) where
  abbrev pub Item : Type 0
  Item = Text × CacheEntry Op

  abbrev pub mark_of : Item → Mark
  mark_of (k, e) = record { lm = e.lm; key = k }

  abbrev pub IsListed : Item → Type 0
  IsListed x = x.1.listed ≡ true

  abbrev pub Under : Mark → Item → Type 0
  Under m x = covers m x.1.lm x.0 ≡ true

  before_covers :
      (x y : Item) → IsListed x → IsListed y → replays_before x y ≡ covers (mark_of y) x.1.lm x.0
  unfolding replays_before covers
  before_covers x y hx hy = rw (hx, hy) refl

  -- What the last mark has, when every entry's mark has it and so has the mark before.
  pub last_mark-has :
      (P : Mark → Type 0) (m : Mark) (ys : List Item)
      → P m
      → All (λ y. P (mark_of y)) ys
      → P (last_mark m ys)
  unfolding last_mark
  last_mark-has P m [] h hs = h
  last_mark-has P m (y ∷ ys) h hs = last_mark-has P (mark_of y) ys hs.0 hs.1

  -- The last mark of a sorted list is above every entry of it.
  unfoldable pub IsTopped : Mark → List Item → Type 0
  IsTopped m ys = All IsListed ys × All (Under (last_mark m ys)) ys

  inserted :
      (P : Item → Type 0) (x : Item) (ys : List Item) → All P (insert_in replays_before x ys) → P x
  unfolding insert_in
  inserted P x [] = λ h. h.0
  inserted P x (y ∷ ys) = elim (Bool-cases (replays_before x y)) [
    | inl e ↦ rw e (λ h. h.0)
    | inr e ↦ rw e (λ h. inserted P x ys h.1)
  ]

  Under-trans :
      (m : Mark) (x y : Item)
      → IsListed x
      → IsListed y
      → replays_before x y ≡ true
      → Under m y
      → Under m x
  Under-trans m x y hx hy e h =
      covers_trans (mark_of y) m x.1.lm x.0 h (sym (before_covers x y hx hy) ∙ e)

  turned :
      (x y : Item)
      → IsListed x
      → IsListed y
      → replays_before x y ≡ false
      → replays_before y x ≡ true
  turned x y hx hy e =
      before_covers y x hy hx
      ∙ covers_total (mark_of y) (mark_of x) (sym (before_covers x y hx hy) ∙ e)

  insert_in-IsTopped :
      (m : Mark) (x : Item) (ys : List Item)
      → IsListed x
      → IsTopped m ys
      → IsTopped m (insert_in replays_before x ys)
  unfolding insert_in last_mark IsTopped
  insert_in-IsTopped m x [] hx h = ((hx, tt), (covers_self (mark_of x), tt))
  insert_in-IsTopped m x (y ∷ ys) hx ((hy, hys), (ty, tys)) =
      let rest = insert_in-IsTopped (mark_of y) x ys hx (hys, tys) in
      let new_top = last_mark (mark_of y) (insert_in replays_before x ys) in
      elim (Bool-cases (replays_before x y)) [
        | inl e ↦
            rw e
              ((hx, (hy, hys)), (Under-trans (last_mark (mark_of y) ys) x y hx hy e ty, (ty, tys)))
        | inr e ↦ rw e (
          (hy, rest.0),
          (
            Under-trans new_top y x hy hx (turned x y hx hy e)
                (inserted (Under new_top) x ys rest.1),
            rest.1,
          ),
        )
      ]

  pub sort-IsTopped :
      (m : Mark) (xs : List Item) → All IsListed xs → IsTopped m (sort replays_before xs)
  unfolding sort IsTopped
  sort-IsTopped m [] h = (tt, tt)
  sort-IsTopped m (x ∷ xs) h =
      insert_in-IsTopped m x (sort replays_before xs) h.0 (sort-IsTopped m xs h.1)

  inserted_rest :
      (P : Item → Type 0) (x : Item) (ys : List Item)
      → All P (insert_in replays_before x ys)
      → All P ys
  unfolding insert_in
  inserted_rest P x [] = λ h. tt
  inserted_rest P x (y ∷ ys) =
      let rest = inserted_rest P x ys in
      elim (Bool-cases (replays_before x y)) [
        | inl e ↦ rw e (λ h. h.1)
        | inr e ↦ rw e (λ h. (h.0, rest h.1))
      ]

  pub sorted : (P : Item → Type 0) (xs : List Item) → All P (sort replays_before xs) → All P xs
  unfolding sort
  sorted P [] h = tt
  sorted P (x ∷ xs) h = (
    inserted P x (sort replays_before xs) h,
    sorted P xs (inserted_rest P x (sort replays_before xs) h),
  )
