-- ===== src/Cache/Tiered/Agree.antt =====
-- Stat and Open of the tiered cache, on the same tiers and with no range.
use cachew.Base.{
  ℕ, suc, ◌≡◌, refl, sym, ap, subst, ◌∙◌, Bool, true, false, ◌&&◌, not, Option, none, some, List,
  [], ◌∷◌, ◌++◌, All, append-nil, Text, Bool-cases, inl, inr, arith,
}
use cachew.Client.Options.{
  not_modified, precondition_failed, range_not_satisfiable, RequestOptions, is_blank,
}
use cachew.Http
use cachew.Http.{etag_key}
use cachew.Cache.Tiered.{
  TierError, missing, conditional, failed, OpenAnswer, opened, refused, StatAnswer, Action, opens,
  discards, invalidates, is_stale, is_last, Stated, StatState, stat_settle, stat_turn, stat_end,
  stat_loop, stat, Opened, OpenState, discard_held, refuse, take_reader, open_turn, joined,
  open_end, open_loop, open_tiers,
}
use cachew.Cache.Tiered.Plain.{never_misses}

-- A tier answers Stat and Open alike: with the same headers and error.
abbrev pub IsAlike : StatAnswer → OpenAnswer → Type 0
IsAlike a (opened h body) = (a.headers ≡ h) × (a.error ≡ none)
IsAlike a (refused h e) = (a.headers ≡ h) × (a.error ≡ some e)

-- The answers of the same tiers to Stat and to Open, each alike
abbrev pub AllAlike : List StatAnswer → List OpenAnswer → Type 0
AllAlike [] [] = Unit
AllAlike [] (b ∷ opens_) = ⊥
AllAlike (a ∷ stats) [] = ⊥
AllAlike (a ∷ stats) (b ∷ opens_) = IsAlike a b × AllAlike stats opens_

-- The one answer to Stat that is like an answer to Open
as_stat : OpenAnswer → StatAnswer
as_stat (opened h body) = record { headers = h; error = none }
as_stat (refused h e) = record { headers = h; error = some e }

stats_of : List OpenAnswer → List StatAnswer
stats_of [] = []
stats_of (a ∷ tiers) = as_stat a ∷ stats_of tiers

cong_answer : (a b : StatAnswer) → a.headers ≡ b.headers → a.error ≡ b.error → a ≡ b
cong_answer a b p q = λ i. record { headers = p i; error = q i }

alike_answer : (a : StatAnswer) (b : OpenAnswer) → IsAlike a b → a ≡ as_stat b
unfolding as_stat
alike_answer a (opened h body) (p, q) = cong_answer a (record { headers = h; error = none }) p q
alike_answer a (refused h e) (p, q) = cong_answer a (record { headers = h; error = some e }) p q

alike_answers :
    (stats : List StatAnswer) (tiers : List OpenAnswer)
    → AllAlike stats tiers
    → stats ≡ stats_of tiers
unfolding stats_of
alike_answers [] [] h = refl
alike_answers [] (b ∷ tiers) h = absurd h
alike_answers (a ∷ stats) [] h = absurd h
alike_answers (a ∷ stats) (b ∷ tiers) (h, hs) =
    rw (alike_answer a b h, alike_answers stats tiers hs) refl

abbrev pub invalidations : List Action → List ℕ
invalidations [] = []
invalidations (opens i ∷ log) = invalidations log
invalidations (discards i ∷ log) = invalidations log
invalidations (invalidates i ∷ log) = i ∷ invalidations log

invalidations-append :
    (xs ys : List Action) → invalidations (xs ++ ys) ≡ invalidations xs ++ invalidations ys
invalidations-append [] ys = refl
invalidations-append (opens i ∷ xs) ys = invalidations-append xs ys
invalidations-append (discards i ∷ xs) ys = invalidations-append xs ys
invalidations-append (invalidates i ∷ xs) ys = ap (λ l. i ∷ l) (invalidations-append xs ys)

-- An answer to a request with no range, that is not a 304 for a stale copy.
abbrev pub IsSettled : Option Text → OpenAnswer → Type 0
IsSettled want (opened h body) = Unit
IsSettled want (refused h missing) = Unit
IsSettled want (refused h (failed e)) = Unit
IsSettled want (refused h (conditional precondition_failed)) = Unit
IsSettled want (refused h (conditional not_modified)) = is_stale want h ≡ false
IsSettled want (refused h (conditional range_not_satisfiable)) = ⊥

abbrev pub Agree : Stated × List Action → Opened × List Action → Type 0
Agree (s, slog) (o, olog) =
    (s.headers ≡ o.headers) × (s.errors ≡ o.errors) × (invalidations slog ≡ invalidations olog)

last_same : (tiers : List OpenAnswer) → is_last (stats_of tiers) ≡ is_last tiers
unfolding stats_of
last_same [] = refl
last_same (a ∷ tiers) = refl

abbrev stat_state : Bool → List TierError → List TierError → List Action → StatState
stat_state rejected probe_errs errs log = record {
  rejected = rejected;
  probe_errs = probe_errs;
  errs = errs;
  log = log;
}

abbrev open_state : Bool → List TierError → List TierError → List Action → OpenState
open_state rejected probe_errs errs log = record {
  fallback = none;
  rejected = rejected;
  probe_errs = probe_errs;
  errs = errs;
  log = log;
}

same_more :
    (xs ys more more' : List Action)
    → invalidations xs ≡ invalidations ys
    → invalidations more ≡ invalidations more'
    → invalidations (xs ++ more) ≡ invalidations (ys ++ more')
same_more xs ys more more' e k =
    invalidations-append xs more
    ∙ ap (λ l. l ++ invalidations more) e
    ∙ ap (λ l. invalidations ys ++ l) k
    ∙ sym (invalidations-append ys more')

module _ (want : Option Text) (ro : RequestOptions) (plain : is_blank ro.range ≡ true) where
  loops_match :
      (i : ℕ) (rejected : Bool) (probe_errs errs : List TierError) (slog olog : List Action)
      (tiers : List OpenAnswer)
      → All (IsSettled want) tiers
      → invalidations slog ≡ invalidations olog
      → Agree
          (stat_loop want i (stat_state rejected probe_errs errs slog) (stats_of tiers))
          (open_loop want ro i (open_state rejected probe_errs errs olog) tiers)
  unfolding stats_of as_stat stat_loop stat_turn stat_settle stat_end open_loop open_turn open_end
      take_reader refuse joined discard_held
  loops_match i rejected (p ∷ ps) errs slog olog [] all logs =
      (refl, refl, logs ∙ sym (ap invalidations (append-nil olog)))
  loops_match i rejected [] errs slog olog [] all logs = (refl, refl, logs)
  loops_match i rejected ps errs slog olog (refused h missing ∷ tiers) (a, all) logs =
      loops_match (suc i) rejected ps (errs ++ missing ∷ []) slog olog tiers all logs
  loops_match i rejected ps errs slog olog (refused h (conditional precondition_failed) ∷ tiers)
        (a, all) logs =
      loops_match (suc i) true ps (errs ++ conditional precondition_failed ∷ []) slog olog tiers all
        logs
  loops_match i rejected ps errs slog olog (refused h (conditional range_not_satisfiable) ∷ tiers)
        (a, all) logs =
      absurd a
  loops_match i rejected ps errs slog olog (refused h (conditional not_modified) ∷ tiers) (a, all)
        logs =
      let fresh : (not (is_last tiers) && is_stale want h) ≡ false = ground (arith, a) in
      rw (stat_loop, open_loop, last_same tiers, fresh)
        (refl, refl, logs ∙ sym (ap invalidations (append-nil olog)))
  loops_match i true ps errs slog olog (refused h (failed e) ∷ tiers) (a, all) logs =
      loops_match (suc i) true (ps ++ failed e ∷ []) (errs ++ failed e ∷ []) slog olog tiers all
        logs
  loops_match i false ps errs slog olog (refused h (failed e) ∷ tiers) (a, all) logs =
      (refl, refl, logs)
  loops_match i rejected ps errs slog olog (opened h body ∷ tiers) (a, all) logs =
      let opened_log = olog ++ opens i ∷ [] in
      let logs' = same_more slog olog [] (opens i ∷ []) logs refl in
      let same : invalidations slog ≡ invalidations opened_log =
        ap invalidations (sym (append-nil slog)) ∙ logs' in
      let later =
        loops_match (suc i) rejected ps errs (slog ++ invalidates i ∷ [])
          (opened_log ++ invalidates i ∷ discards i ∷ []) tiers all
          (same_more slog opened_log _ _ same refl) in
      elim (Bool-cases (not (is_last tiers) && is_stale want h)) [
        | inl e ↦ rw (stat_loop, open_loop, last_same tiers, e, append-nil errs) later
        | inr e ↦
            rw
              (
                stat_loop,
                open_loop,
                last_same tiers,
                e,
                never_misses ro (Http.get h etag_key) plain,
              )
              (refl, refl, same ∙ sym (ap invalidations (append-nil opened_log)))
      ]

  -- For a request with no range, when each tier answers Stat and Open with the same headers and the
  -- same error, and no tier says 304 of a stale copy or 416, Stat and Open return the same headers and the same errors, and invalidate the same tiers in
  -- the same order.
  pub stat-open :
      (stats : List StatAnswer) (tiers : List OpenAnswer)
      → AllAlike stats tiers
      → All (IsSettled want) tiers
      → Agree (stat want stats) (open_tiers want ro tiers)
  unfolding stat open_tiers
  stat-open stats tiers alike all =
      subst (λ s. Agree (stat want s) (open_tiers want ro tiers))
        (sym (alike_answers stats tiers alike)) (loops_match 0 false [] [] [] [] tiers all refl)
