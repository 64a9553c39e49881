-- ===== src/Cache/Tiered/Plain.antt =====
-- What Open of the tiered cache serves for a plain request.
use cachew.Base.{
  ℕ, suc, ◌≡◌, refl, sym, subst, true, false, ◌&&◌, not, Option, some, List, [], ◌∷◌, ◌++◌, Text,
  text_eq, text_eq_iff, Bool-cases, All, inl, inr, arith, if◌then◌else◌,
}
use cachew.Client.Options.{RequestOptions, if_range_misses, is_blank}
use cachew.Http
use cachew.Http.{Header, etag_key}
use cachew.Cache.Tiered.{
  missing, conditional, failed, OpenAnswer, opened, refused, Action, opens, discards, invalidates,
  is_stale, is_last, Opened, OpenState, OpenTurn, take_reader, open_turn, open_loop, open_start,
  open_tiers,
}

more_tiers : (tiers : List OpenAnswer) (a : OpenAnswer) → is_last (tiers ++ a ∷ []) ≡ false
more_tiers [] a = refl
more_tiers (t ∷ tiers) a = refl

-- Answers to a plain request of tiers that do not fail: the object, or that it is missing.
abbrev pub IsPlain : OpenAnswer → Type 0
IsPlain (opened h body) = Unit
IsPlain (refused h missing) = Unit
IsPlain (refused h (conditional c)) = ⊥
IsPlain (refused h (failed e)) = ⊥

-- The first copy with the recorded tag; `h` and `body` are that of the last tier.
unfoldable pub first_copy : Text → Header → List ℕ → List OpenAnswer → Header × List ℕ
first_copy w h body [] = (h, body)
first_copy w h body (refused g e ∷ tiers) = first_copy w h body tiers
first_copy w h body (opened g bytes ∷ tiers) =
    let rest = first_copy w h body tiers in
    if text_eq w (Http.get g etag_key) then (g, bytes) else rest

-- An outcome of Open is a copy with the recorded tag, and no error.
abbrev pub Serves : Text → Header × List ℕ → Opened → Type 0
Serves w (h, body) o =
    (o.headers ≡ some h) × (o.body ≡ some body) × (o.errors ≡ []) × (Http.get h etag_key ≡ w)

pub never_misses :
    (ro : RequestOptions) (tag : Text) → is_blank ro.range ≡ true → if_range_misses ro tag ≡ false
unfolding if_range_misses
never_misses ro tag plain = ground (arith, plain)

loop_returns :
    (want : Option Text) (ro : RequestOptions) (i : ℕ) (s : OpenState) (a : OpenAnswer)
    (rest : List OpenAnswer) (o : Opened) (log : List Action)
    → open_turn want ro (is_last rest) i s a ≡ OpenTurn.returns o log
    → (open_loop want ro i s (a ∷ rest)).0 ≡ o
unfolding open_loop
loop_returns want ro i s a rest o log e = rw (e, open_loop) refl

-- A copy that is fresh and that no If-Range misses is served.
serving :
    (w : Text) (ro : RequestOptions) (i : ℕ) (s : OpenState) (h : Header) (body : List ℕ)
    (rest : List OpenAnswer)
    → is_blank ro.range ≡ true
    → Http.get h etag_key ≡ w
    → Serves w (h, body) (open_loop (some w) ro i s (opened h body ∷ rest)).0
unfolding open_turn take_reader is_stale
serving w ro i s h body rest plain tag =
    let same : text_eq w (Http.get h etag_key) ≡ true =
      (text_eq_iff w (Http.get h etag_key)).1 (sym tag) in
    let fresh : (not (is_last rest) && not (text_eq w (Http.get h etag_key))) ≡ false =
      ground (arith, same) in
    let turn : (o : Opened) × (log : List Action) × Serves w (h, body) o
        × (open_turn (some w) ro (is_last rest) i s (opened h body) ≡ OpenTurn.returns o log) =
      rw (fresh, never_misses ro (Http.get h etag_key) plain)
        (_, _, (refl, refl, refl, tag), refl) in
    let (o, log, serves, e) = turn in
    subst (Serves w (h, body)) (sym (loop_returns (some w) ro i s (opened h body) rest o log e))
      serves

serve_loop :
    (w : Text) (ro : RequestOptions) (i : ℕ) (s : OpenState) (tiers : List OpenAnswer) (h : Header)
    (body : List ℕ)
    → is_blank ro.range ≡ true
    → All IsPlain tiers
    → Http.get h etag_key ≡ w
    → Serves w
        (first_copy w h body tiers)
        (open_loop (some w) ro i s (tiers ++ opened h body ∷ [])).0
unfolding first_copy open_loop open_turn take_reader is_stale
serve_loop w ro i s [] h body plain all tag = serving w ro i s h body [] plain tag
serve_loop w ro i s (refused g missing ∷ tiers) h body plain (p, all) tag =
    serve_loop w ro (suc i) _ tiers h body plain all tag
serve_loop w ro i s (refused g (conditional c) ∷ tiers) h body plain (p, all) tag = absurd p
serve_loop w ro i s (refused g (failed e) ∷ tiers) h body plain (p, all) tag = absurd p
serve_loop w ro i s (opened g bytes ∷ tiers) h body plain (p, all) tag =
    let log = s.log ++ opens i ∷ [] in
    let later =
      serve_loop w ro (suc i) (record s { log = log ++ invalidates i ∷ discards i ∷ [] }) tiers h
        body plain all tag in
    elim (Bool-cases (text_eq w (Http.get g etag_key))) [
      | inl same ↦ rw same (
          serving w ro i s g bytes (tiers ++ opened h body ∷ []) plain
            (sym ((text_eq_iff w (Http.get g etag_key)).0 same)))
      | inr stale ↦ rw (stale, more_tiers tiers (opened h body), open_loop) later
    ]

-- For a request with no range, when the last tier has the recorded version and the others answer with
-- a copy or that it is missing, Open returns no error and the bytes and headers of the first copy
-- whose tag is the recorded one, whatever stale copies lie before it.
pub open_tiers-Serves :
    (w : Text) (ro : RequestOptions) (tiers : List OpenAnswer) (h : Header) (body : List ℕ)
    → is_blank ro.range ≡ true
    → All IsPlain tiers
    → Http.get h etag_key ≡ w
    → Serves w (first_copy w h body tiers) (open_tiers (some w) ro (tiers ++ opened h body ∷ [])).0
unfolding open_tiers
open_tiers-Serves w ro tiers h body plain all tag =
    serve_loop w ro 0 open_start tiers h body plain all tag
