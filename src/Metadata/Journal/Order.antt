-- ===== src/Metadata/Journal/Order.antt =====
-- The canonical order of the journal, on keys and on marks.
use cachew.Base.{ℕ, ◌≡◌, refl, true, false, Text, [], ◌∷◌, inl, inr, Bool-cases, arith}
use cachew.Metadata.Journal.{Mark, text_le, covers}

pub text_le_total : (s t : Text) → text_le s t ≡ false → text_le t s ≡ true
unfolding text_le
text_le_total [] t h = ground arith
text_le_total (x ∷ s) [] h = refl
text_le_total (x ∷ s) (y ∷ t) h = grind (arith, text_le_total s t)

pub text_le_trans : (s t u : Text) → text_le s t ≡ true → text_le t u ≡ true → text_le s u ≡ true
unfolding text_le
text_le_trans [] t u h g = refl
text_le_trans (x ∷ s) [] u h g = ground arith
text_le_trans (x ∷ s) (y ∷ t) [] h g = ground arith
text_le_trans (x ∷ s) (y ∷ t) (z ∷ u) h g = grind (arith, text_le_trans s t u)

pub covers_total : (m n : Mark) → covers m n.lm n.key ≡ false → covers n m.lm m.key ≡ true
unfolding covers
covers_total m n h = grind (arith, text_le_total n.key m.key)

pub covers_trans :
    (m n : Mark) (lm : ℕ) (key : Text)
    → covers n m.lm m.key ≡ true
    → covers m lm key ≡ true
    → covers n lm key ≡ true
unfolding covers
covers_trans m n lm key h g = grind (arith, text_le_trans key m.key n.key)

pub covers_self : (m : Mark) → covers m m.lm m.key ≡ true
covers_self m = elim (Bool-cases (covers m m.lm m.key)) [ inl e ↦ e | inr e ↦ covers_total m m e ]
