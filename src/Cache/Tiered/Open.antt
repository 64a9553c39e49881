-- ===== src/Cache/Tiered/Open.antt =====
-- What Open of the tiered cache returns, whatever its tiers answer.
use cachew.Base.{
  ℕ, suc, ◌+◌, ◌<◌, ◌≡◌, refl, sym, ap, subst, Bool, true, false, ◌&&◌, ◌||◌, not, ◌⊎◌, Option,
  none, some, List, [], ◌∷◌, ◌++◌, Text, text_eq, text_eq_iff, length, is_some, Bool-cases,
  Option-cases, inl, inr, arith,
}
use mathlib.Core.Bool.{false≢true}
use cachew.Client.Options.{
  CondError, not_modified, precondition_failed, range_not_satisfiable, RequestOptions,
  if_range_misses,
}
use cachew.Http
use cachew.Http.{Header, etag_key}
use cachew.Cache.Tiered.{
  TierError, missing, conditional, failed, OpenAnswer, opened, refused, Action, opens, discards,
  invalidates, is_stale, is_last, Opened, Fallback, OpenState, OpenTurn, discard_held, refuse,
  take_reader, open_turn, joined, open_end, open_loop, open_start, open_tiers,
}
use cachew.Cache.Tiered.Readers.{one_at, opens_at, discards_at, held_tier, more_counts, held_counts}
use cachew.Base.Arrays.{get_elem?}

abbrev pub is_nil : List TierError → Bool
is_nil [] = true
is_nil (e ∷ es) = false

-- Headers that a tier other than the last has served carry the recorded entity tag.
abbrev pub IsFresh : Option Text → ℕ → Option ℕ → Option Header → Type 0
IsFresh want n tier headers =
    (i : ℕ) (w : Text) (h : Header)
    → tier ≡ some i
    → suc i < n
    → want ≡ some w
    → headers ≡ some h
    → Http.get h etag_key ≡ w

-- The tier whose reader is returned
abbrev pub returned : Option (List ℕ) → Option ℕ → Option ℕ
returned none tier = none
returned (some body) tier = tier

-- Bytes and headers are those with which a tier has answered.
abbrev pub IsAnswer : List OpenAnswer → Option ℕ → Option Header → Option (List ℕ) → Type 0
IsAnswer tiers tier headers none = Unit
IsAnswer tiers tier headers (some body) =
    (i : ℕ) × (h : Header) × (tier ≡ some i)
    × (headers ≡ some h)
    × (get_elem? tiers i ≡ some (opened h body))

abbrev pub IsGood : Option Text → List OpenAnswer → Opened × List Action → Type 0
IsGood want tiers (o, log) =
    (is_some o.body ≡ is_nil o.errors)
    × ((j : ℕ) → opens_at j log ≡ discards_at j log + one_at (returned o.body o.tier) j)
    × IsFresh want (length tiers) o.tier o.headers
    × IsAnswer tiers o.tier o.headers o.body

abbrev held_body : Option Fallback → Option (List ℕ)
held_body none = none
held_body (some held) = some held.body

abbrev held_headers : Option Fallback → Option Header
held_headers none = none
held_headers (some held) = some held.headers

-- Whether the end of the loop has something to return.
abbrev is_answered : OpenState → Bool
is_answered s =
    is_some s.fallback || (s.rejected || (not (is_nil s.probe_errs) || not (is_nil s.errs)))

errors_cases :
    (es : List TierError) → (es ≡ []) ⊎ ((e : TierError) × (es' : List TierError) × (es ≡ e ∷ es'))
errors_cases [] = inl refl
errors_cases (e ∷ es) = inr (e, es, refl)

nonempty : (es : List TierError) (e : TierError) → is_nil (es ++ e ∷ []) ≡ false
nonempty [] e = refl
nonempty (x ∷ es) e = refl

noted : (s : OpenState) (e : TierError) → is_answered (record s { errs = s.errs ++ e ∷ [] }) ≡ true
noted s e = ground (arith, nonempty s.errs e)

inner_tier :
    (i n : ℕ) (rest : List OpenAnswer)
    → i + suc (length rest) ≡ n
    → suc i < n
    → is_last rest ≡ false
inner_tier i n [] sized less = absurd (omega (arith, sized, less))
inner_tier i n (a ∷ rest) sized less = refl

module _ (want : Option Text) (all : List OpenAnswer) where
  abbrev n : ℕ
  n = length all

  -- The answers that are left, from the tier `i` on
  abbrev IsRest : ℕ → List OpenAnswer → Type 0
  IsRest i tiers = (k : ℕ) → get_elem? all (i + k) ≡ get_elem? tiers k

  IsRest-first :
      (i : ℕ) (a : OpenAnswer) (tiers : List OpenAnswer)
      → IsRest i (a ∷ tiers)
      → get_elem? all i ≡ some a
  IsRest-first i a tiers h = subst (λ k. get_elem? all k ≡ some a) (omega arith) (h 0)

  IsRest-more :
      (i : ℕ) (a : OpenAnswer) (tiers : List OpenAnswer)
      → IsRest i (a ∷ tiers)
      → IsRest (suc i) tiers
  IsRest-more i a tiers h k =
      subst (λ m. get_elem? all m ≡ get_elem? tiers k) (omega arith) (h (suc k))

  record IsKept (s : OpenState) : Type 0 where
    counts : (j : ℕ) → opens_at j s.log ≡ discards_at j s.log + one_at (held_tier s.fallback) j
    fresh : IsFresh want n (held_tier s.fallback) (held_headers s.fallback)
    answer : IsAnswer all (held_tier s.fallback) (held_headers s.fallback) (held_body s.fallback)

  abbrev IsTurn : Bool → OpenTurn → Type 0
  IsTurn last (OpenTurn.returns o log) = IsGood want all (o, log)
  IsTurn last (OpenTurn.goes_on s) = IsKept s × (last ≡ true → is_answered s ≡ true)

  not_stale :
      (last : Bool) (i : ℕ) (h : Header)
      → (suc i < n → last ≡ false)
      → (not last && is_stale want h) ≡ false
      → IsFresh want n (some i) (some h)
  unfolding is_stale
  not_stale last i h inner e j w h' same less recorded headers =
      let here : i ≡ j = cc in
      let same_headers : h ≡ h' = cc in
      let deeper : last ≡ false = inner (omega (arith, here, less)) in
      let equal : text_eq w (Http.get h etag_key) ≡ true = ground (arith, e, deeper, recorded) in
      rw (← same_headers) (sym ((text_eq_iff w (Http.get h etag_key)).0 equal))

  refuse-IsTurn :
      (last : Bool) (i : ℕ) (s : OpenState) (h : Header) (c : CondError)
      → (suc i < n → last ≡ false)
      → IsKept s
      → IsTurn last (refuse want last i s h c)
  unfolding refuse discard_held
  refuse-IsTurn last i s h c inner k = elim (Bool-cases (not last && is_stale want h)) [
    | inl e ↦ rw e (
      record {
        counts = λ j. more_counts j s.log (invalidates i ∷ []) _ _ (k.counts j) (omega arith);
        fresh = k.fresh;
        answer = k.answer;
      },
      λ l. absurd (ground (arith, e, l)),
    )
    | inr e ↦ rw e (
      refl,
      λ j. held_counts j s.log s.fallback 0 (omega (arith, k.counts j)),
      not_stale last i h inner e,
      tt,
    )
  ]

  take_reader-IsTurn :
      (ro : RequestOptions) (last : Bool) (i : ℕ) (s : OpenState) (h : Header) (body : List ℕ)
      → (suc i < n → last ≡ false)
      → get_elem? all i ≡ some (opened h body)
      → IsKept s
      → IsTurn last (take_reader want ro last i s h body)
  unfolding take_reader discard_held
  take_reader-IsTurn ro last i s h body inner here k =
      let log = s.log ++ opens i ∷ [] in
      let counted : (j : ℕ)
          → opens_at j log
            ≡ discards_at j log + (one_at (held_tier s.fallback) j + one_at (some i) j) =
        λ j. more_counts j s.log (opens i ∷ []) _ _ (k.counts j) (omega arith) in
      elim (Bool-cases (not last && is_stale want h)) [
        | inl e ↦ rw e (
          record {
            counts = λ j.
                more_counts j log (invalidates i ∷ discards i ∷ []) _ _ (counted j) (omega arith);
            fresh = k.fresh;
            answer = k.answer;
          },
          λ l. absurd (ground (arith, e, l)),
        )
        | inr e ↦ elim (Bool-cases (if_range_misses ro (Http.get h etag_key))) [
          | inl misses ↦ elim (Option-cases s.fallback) [
            | inl none_ ↦
                rw (e, misses, none_)
                  (
                    record {
                      counts =
                          λ j. omega (arith, counted j, ap (λ f. one_at (held_tier f) j) none_);
                      fresh = not_stale last i h inner e;
                      answer = (i, h, refl, refl, here);
                    },
                    λ l. refl,
                  )
            | inr (held, e') ↦
                rw (e, misses, e')
                  (
                    record {
                      counts = λ j. omega (
                        arith,
                        more_counts j log (discards i ∷ []) _ (one_at (held_tier s.fallback) j)
                            (counted j) (omega arith),
                        ap (λ f. one_at (held_tier f) j) e',
                      );
                      fresh = rw e' at k.fresh;
                      answer = rw e' at k.answer;
                    },
                    λ l. refl,
                  )
          ]
          | inr serves ↦
              rw (e, serves)
                (
                  refl,
                  λ j. held_counts j log s.fallback (one_at (some i) j) (omega (arith, counted j)),
                  not_stale last i h inner e,
                  (i, h, refl, refl, here),
                )
        ]
      ]

  open_turn-IsTurn :
      (ro : RequestOptions) (last : Bool) (i : ℕ) (s : OpenState) (a : OpenAnswer)
      → (suc i < n → last ≡ false)
      → get_elem? all i ≡ some a
      → IsKept s
      → IsTurn last (open_turn want ro last i s a)
  unfolding open_turn
  open_turn-IsTurn ro last i s (opened h body) inner here k =
      take_reader-IsTurn ro last i s h body inner here k
  open_turn-IsTurn ro last i s (refused h missing) inner here k =
      (record { counts = k.counts; fresh = k.fresh; answer = k.answer }, λ l. noted s missing)
  open_turn-IsTurn ro last i s (refused h (conditional precondition_failed)) inner here k =
      (record { counts = k.counts; fresh = k.fresh; answer = k.answer }, λ l. ground arith)
  open_turn-IsTurn ro last i s (refused h (conditional not_modified)) inner here k =
      refuse-IsTurn last i s h not_modified inner k
  open_turn-IsTurn ro last i s (refused h (conditional range_not_satisfiable)) inner here k =
      refuse-IsTurn last i s h range_not_satisfiable inner k
  open_turn-IsTurn ro last i s (refused h (failed e)) inner here k =
      elim (Bool-cases (is_some s.fallback || s.rejected)) [
        | inl late ↦ rw late (
          record { counts = k.counts; fresh = k.fresh; answer = k.answer },
          λ l. ground (arith, late),
        )
        | inr first ↦
            let alone : s.fallback ≡ none = ground (arith, first) in
            rw first (
              refl,
              λ j. omega (arith, k.counts j, ap (λ f. one_at (held_tier f) j) alone),
              λ j w h' same. cc,
              tt,
            )
      ]

  open_end-IsGood : (s : OpenState) → IsKept s → is_answered s ≡ true → IsGood want all (open_end s)
  unfolding open_end joined discard_held
  open_end-IsGood s k h = elim (errors_cases s.probe_errs) [
    | inr (e, es, probed) ↦ rw probed (
      refl,
      λ j. held_counts j s.log s.fallback 0 (omega (arith, k.counts j)),
      λ j w h' same. cc,
      tt,
    )
    | inl calm ↦ elim (Option-cases s.fallback) [
      | inr (held, e) ↦
          rw (calm, e)
            (
              refl,
              λ j. omega (arith, k.counts j, ap (λ f. one_at (held_tier f) j) e),
              rw e at k.fresh,
              rw e at k.answer,
            )
      | inl none_ ↦
          rw (calm, none_)
            (
              ground (arith, calm, none_, h),
              λ j. omega (arith, k.counts j, ap (λ f. one_at (held_tier f) j) none_),
              λ j w h' same. cc,
              tt,
            )
    ]
  ]

  run_turn :
      (ro : RequestOptions) (last : Bool) (i : ℕ) (turn : OpenTurn) (rest : List OpenAnswer)
      → IsTurn last turn
      → ((s : OpenState)
          → IsKept s
          → (last ≡ true → is_answered s ≡ true)
          → IsGood want all (open_loop want ro i s rest))
      → IsGood want all (elim turn [
        | OpenTurn.returns result log ↦ (result, log)
        | OpenTurn.goes_on s ↦ open_loop want ro i s rest
      ])
  run_turn ro last i (OpenTurn.returns o log) rest good later = good
  run_turn ro last i (OpenTurn.goes_on s) rest (k, answered) later = later s k answered

  open_loop-IsGood :
      (ro : RequestOptions) (i : ℕ) (s : OpenState) (tiers : List OpenAnswer)
      → i + length tiers ≡ n
      → IsRest i tiers
      → IsKept s
      → (is_last tiers ≡ true → is_answered s ≡ true)
      → IsGood want all (open_loop want ro i s tiers)
  unfolding open_loop
  open_loop-IsGood ro i s [] sized left k answered = open_end-IsGood s k (answered refl)
  open_loop-IsGood ro i s (a ∷ rest) sized left k answered =
      run_turn ro (is_last rest) (suc i) (open_turn want ro (is_last rest) i s a) rest
        (open_turn-IsTurn ro (is_last rest) i s a (inner_tier i n rest sized)
          (IsRest-first i a rest left) k)
        (λ s' k' answered'.
          open_loop-IsGood ro (suc i) s' rest (omega (arith, sized)) (IsRest-more i a rest left) k'
            answered')

-- Whatever at least one tier answers: Open gives a reader exactly when it gives no error; of each
-- tier it closes every reader that it opened, but for the one that it returns; that reader and the
-- headers are those with which its tier has answered; and what it serves from a tier before the
-- last has the entity tag recorded for the key, when one is recorded.
pub open_tiers_lem :
    (want : Option Text) (ro : RequestOptions) (first : OpenAnswer) (tiers : List OpenAnswer)
    → IsGood want (first ∷ tiers) (open_tiers want ro (first ∷ tiers))
unfolding open_tiers
open_tiers_lem want ro first tiers =
    open_loop-IsGood want (first ∷ tiers) ro 0 open_start (first ∷ tiers) (omega arith)
      (λ k.
        subst (λ m. get_elem? (first ∷ tiers) m ≡ get_elem? (first ∷ tiers) k) (omega arith) refl)
      (record { counts = λ j. refl; fresh = λ i w h same. cc; answer = tt })
      (λ e. absurd (false≢true e))
