-- ===== src/Client/Options/Laws.antt =====
-- What Check decides for the headers that clients write.
use mathlib.Core.List.{Mem}
use cachew.Base.{
  ◌≡◌, refl, ◌↔◌, Bool, true, false, Option, none, some, List, [], ◌∷◌, Text, All, arith,
}
use cachew.Client.Etag.{etag_list_matches}
use cachew.Client.Etag.Laws.{IsTag, quoted, tag_list, etag_list_matches_iff}
use cachew.Client.Options.{
  is_blank, CondError, RequestOptions, not_modified, precondition_failed, check, if_match,
  if_none_match, new_request_options,
}

tag_list_nonblank : (first : Text) (rest : List Text) → is_blank (tag_list first rest) ≡ false
unfolding tag_list
tag_list_nonblank first [] = refl
tag_list_nonblank first (next ∷ rest) = refl

verdict : Bool → Bool → Option CondError
verdict true true = some not_modified
verdict true false = none
verdict false listed = some precondition_failed

check-verdict :
    (o : RequestOptions) (tag : Text)
    → is_blank o.if_match ≡ false
    → is_blank o.if_none_match ≡ false
    → is_blank tag ≡ false
    → check o tag
      ≡ verdict (etag_list_matches o.if_match tag) (etag_list_matches o.if_none_match tag)
unfolding check verdict
check-verdict o tag h k l = ground arith

verdict_iff :
    {P Q : Type 0} (a b : Bool)
    → (a ≡ true) ↔ P
    → (b ≡ true) ↔ Q
    → ((verdict a b ≡ none) ↔ (P × (¬ Q)))
      × ((verdict a b ≡ some not_modified) ↔ (P × Q))
      × ((verdict a b ≡ some precondition_failed) ↔ (¬ P))
unfolding verdict
verdict_iff true true p q = (
  (λ e. cc, λ h. absurd (h.1 (q.0 refl))),
  (λ e. (p.0 refl, q.0 refl), λ h. refl),
  (λ e. cc, λ h. absurd (h (p.0 refl))),
)
verdict_iff true false p q = (
  (λ e. (p.0 refl, λ y. cc (q.1 y)), λ h. refl),
  (λ e. cc, λ h. cc (q.1 h.1)),
  (λ e. cc, λ h. absurd (h (p.0 refl))),
)
verdict_iff false true p q =
    ((λ e. cc, λ h. cc (p.1 h.0)), (λ e. cc, λ h. cc (p.1 h.0)), (λ e y. cc (p.1 y), λ h. refl))
verdict_iff false false p q =
    ((λ e. cc, λ h. cc (p.1 h.0)), (λ e. cc, λ h. cc (p.1 h.0)), (λ e y. cc (p.1 y), λ h. refl))

-- The options of a request with both headers, each with a list of raw tags.
abbrev pub both_lists : Text → List Text → Text → List Text → RequestOptions
both_lists m ms n ns =
    new_request_options (if_match (tag_list m ms) ∷ if_none_match (tag_list n ns) ∷ [])

-- Against a stored entity tag, a request whose If-Match and If-None-Match headers list raw tags
-- passes exactly when the stored tag is in the first list and not in the second, is not modified
-- exactly when it is in both, and fails its precondition exactly when it is not in the first.
pub check_lists :
    (tag m : Text) (ms : List Text) (n : Text) (ns : List Text)
    → All IsTag (m ∷ ms)
    → All IsTag (n ∷ ns)
    → ((check (both_lists m ms n ns) (quoted tag) ≡ none)
        ↔ (Mem tag (m ∷ ms) × (¬ Mem tag (n ∷ ns))))
      × ((check (both_lists m ms n ns) (quoted tag) ≡ some not_modified)
          ↔ (Mem tag (m ∷ ms) × Mem tag (n ∷ ns)))
      × ((check (both_lists m ms n ns) (quoted tag) ≡ some precondition_failed)
          ↔ (¬ Mem tag (m ∷ ms)))
unfolding new_request_options if_match if_none_match
check_lists tag m ms n ns vm vn =
    rw
      (check-verdict (both_lists m ms n ns) (quoted tag) (tag_list_nonblank m ms)
        (tag_list_nonblank n ns) refl)
      (verdict_iff _ _ (etag_list_matches_iff tag m ms vm) (etag_list_matches_iff tag n ns vn))
