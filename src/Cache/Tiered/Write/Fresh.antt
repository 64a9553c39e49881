-- ===== src/Cache/Tiered/Write/Fresh.antt =====
-- The entity tags that the tiered writer records, and what Open serves by them.
use cachew.Base.{
  ◌≡◌, refl, true, false, Option, none, some, List, [], ◌∷◌, ◌++◌, All, Text, length, arith,
  Bool-cases, inl, inr,
}
use cachew.Base.Assoc.{Assoc, lookup, insert, lookup-insert_self}
use cachew.Client.Options.{RequestOptions}
use cachew.Cache.Tiered.{TierError, OpenAnswer, open_tiers}
use cachew.Cache.Tiered.Open.{IsFresh, open_tiers_lem}
use cachew.Cache.Tiered.Write.{TieredWriter, join, close, abort}

all_none : (results : List (Option TierError)) → All (λ r. r ≡ none) results → join results ≡ []
unfolding join
all_none [] h = refl
all_none (r ∷ results) (e, h) = rw e (all_none results h)

commit_tag :
    (w : TieredWriter) (results : List (Option TierError)) (etags : Assoc Text)
    → w.closed ≡ false
    → w.aborted ≡ false
    → w.replace_etag ≡ true
    → join results ≡ []
    → close w results none etags ≡ (record w { closed = true }, insert w.key w.etag etags, [])
unfolding close
commit_tag w results etags is_open live replaces e = ground (arith, is_open, live, replaces, e)

join_failed :
    (results : List (Option TierError)) (e : TierError)
    → (f : TierError) × (fs : List TierError) × (join (results ++ some e ∷ []) ≡ f ∷ fs)
unfolding join
join_failed [] e = (e, [], refl)
join_failed (none ∷ results) e = join_failed results e
join_failed (some g ∷ results) e = (g, join (results ++ some e ∷ []), refl)

close_failed :
    (w : TieredWriter) (results : List (Option TierError)) (etags : Assoc Text) (e : TierError)
    → (close w (results ++ some e ∷ []) none etags).1 ≡ etags
unfolding close
close_failed w results etags e =
    let (f, fs, same) = join_failed results e in
    elim (Bool-cases w.closed) [ inl c ↦ rw c refl | inr c ↦ rw (c, same) refl ]

close_closed :
    (w : TieredWriter) (results : List (Option TierError)) (etags : Assoc Text)
    → (close (record w { closed = true }) results none etags).1 ≡ etags
unfolding close
close_closed w results etags = refl

abort_kept :
    (w : TieredWriter) (results : List (Option TierError)) (etags : Assoc Text)
    → join results ≡ []
    → (abort w results none etags).1 ≡ etags
unfolding abort close
abort_kept w results etags e = elim (Bool-cases w.closed) [
  | inl c ↦ rw c refl
  | inr c ↦ rw (c, e) refl
]

-- A writer that is not aborted, replaces the tag and whose tiers all close commits with no error and
-- records its tag: from then on nothing that Open serves of the key from a tier before the last has
-- another tag. A second Close, an Abort, or a tier that fails leaves every recorded tag alone.
pub close-IsFresh :
    (w : TieredWriter) (results : List (Option TierError)) (etags : Assoc Text)
    (ro : RequestOptions) (first : OpenAnswer) (tiers : List OpenAnswer)
    → w.closed ≡ false
    → w.aborted ≡ false
    → w.replace_etag ≡ true
    → All (λ r. r ≡ none) results
    → let (w', etags', errors) = close w results none etags in
      let o = (open_tiers (lookup w.key etags') ro (first ∷ tiers)).0 in
      (errors ≡ [])
      × IsFresh (some w.etag) (length (first ∷ tiers)) o.tier o.headers
      × ((close w' results none etags').1 ≡ etags')
      × ((abort w results none etags).1 ≡ etags)
      × ((e : TierError) → (close w (results ++ some e ∷ []) none etags).1 ≡ etags)
close-IsFresh w results etags ro first tiers is_open live replaces all_closed =
    let none_ = all_none results all_closed in
    let committed = commit_tag w results etags is_open live replaces none_ in
    let tagged = lookup-insert_self w.key w.etag etags in
    rw (committed, tagged)
      (
        refl,
        (open_tiers_lem (some w.etag) ro first tiers).2,
        close_closed w results (insert w.key w.etag etags),
        abort_kept w results etags none_,
        close_failed w results etags,
      )
