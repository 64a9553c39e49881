-- ===== src/Client/Parallel/Gate.antt =====
-- dispatchGate keeps, in its ring of cells, the chunks of the window that are complete.
use cachew.Base.{
  ℕ, zero, suc, ◌+◌, ◌%◌, ◌≤◌, ◌<◌, ◌≡◌, ◌≢◌, refl, sym, ap, ◌∙◌, Bool, true, false, ◌||◌, some,
  length, ◌==◌, Bool-cases, inl, inr, arith,
}
use mathlib.Core.Bool.{false≢true}
use native.Mathlib.Nat.{mod-lt, add-mod_right}
use native.Mathlib.Decide.{dec_lt, ℕ_discrete}
use cachew.Base.Divide.{slot_ne}
use cachew.Base.Arrays.{
  get_elem?, set, length-set, length-replicate, get_elem?-set_self, get_elem?-set_ne,
  get_elem?-replicate,
}
use cachew.Client.Parallel.{DispatchGate, new_dispatch_gate, admits, is_done, sweep, complete}

-- The cells of the gate hold the completed chunks of the window, all chunks before it are complete,
-- and none behind it.
pub record Tracks (g : DispatchGate) (completed : ℕ → Bool) : Type 0 where
  pub pos : 0 < g.window
  pub ring : length g.done ≡ g.window
  pub before : (s : ℕ) → s < g.low → completed s ≡ true
  pub cells :
      (s : ℕ)
      → g.low ≤ s
      → s < g.low + g.window
      → get_elem? g.done (s % g.window) ≡ some (completed s)
  pub behind : (s : ℕ) → g.low + g.window ≤ s → completed s ≡ false

-- A gate at rest: also, its `low` is the oldest chunk that is not complete.
abbrev pub Refines : DispatchGate → (ℕ → Bool) → Type 0
Refines g completed = Tracks g completed × (completed g.low ≡ false)

abbrev pub with_chunk : (ℕ → Bool) → ℕ → ℕ → Bool
with_chunk completed seq s = completed s || (s == seq)

distinct_slots : (n a b : ℕ) → a ≢ b → a < b + n → b < a + n → a % n ≢ b % n
distinct_slots n a b h k l = λ e. elim (dec_lt a b) [
  | yes less ↦ slot_ne n a b less l e
  | no not_less ↦ elim (dec_lt b a) [
    | yes more ↦ slot_ne n b a more k (sym e)
    | no not_more ↦ h (omega arith)
  ]
]

-- The gate after a round of the loop.
next : DispatchGate → DispatchGate
next g = record g { done = set g.done (g.low % g.window) false; low = suc g.low }

next_cells :
    (g : DispatchGate) (completed : ℕ → Bool) (t : Tracks g completed) (s : ℕ)
    → suc g.low ≤ s
    → s < suc g.low + g.window
    → get_elem? (set g.done (g.low % g.window) false) (s % g.window) ≡ some (completed s)
next_cells g completed t s h k = elim (dec_lt s (g.low + g.window)) [
  | yes inside ↦
      get_elem?-set_ne g.done (g.low % g.window) (s % g.window) false
        (distinct_slots g.window g.low s (omega arith) (omega arith) (omega arith))
      ∙ t.cells s (omega arith) inside
  | no last ↦
      let same : s ≡ g.low + g.window = omega arith in
      let empty_ : completed s ≡ false = t.behind s (omega arith) in
      let slot : s % g.window ≡ g.low % g.window =
        ap (λ x. x % g.window) same ∙ add-mod_right g.low g.window in
      rw (slot, empty_)
        (get_elem?-set_self g.done (g.low % g.window) false
          (omega (arith, mod-lt g.low t.pos, t.ring)))
]

next-Tracks :
    (g : DispatchGate) (completed : ℕ → Bool)
    → Tracks g completed
    → completed g.low ≡ true
    → Tracks (next g) completed
unfolding next
next-Tracks g completed t e = record {
  pos = t.pos;
  ring = length-set g.done (g.low % g.window) false ∙ t.ring;
  before = λ s h. elim (dec_lt s g.low) [
    | yes less ↦ t.before s less
    | no not_less ↦ let same : s ≡ g.low = omega arith in ap completed same ∙ e
  ];
  cells = next_cells g completed t;
  behind = λ s h. t.behind s (omega arith);
}

low_cell :
    (g : DispatchGate) (completed : ℕ → Bool)
    → Tracks g completed
    → is_done (get_elem? g.done (g.low % g.window)) ≡ completed g.low
low_cell g completed t = let pos = t.pos in ap is_done (t.cells g.low (omega arith) (omega arith))

-- The loop ends by its test, at the oldest chunk that is not complete, when it is given a round for
-- each chunk up to one that no complete chunk reaches, and one more.
sweep-Refines :
    (fuel m : ℕ) (g : DispatchGate) (completed : ℕ → Bool)
    → Tracks g completed
    → ((s : ℕ) → m ≤ s → completed s ≡ false)
    → m < g.low + fuel
    → ((sweep fuel g).1 ≡ true)
      × Refines (sweep fuel g).0 completed
      × ((sweep fuel g).0.window ≡ g.window)
      × (g.low ≤ (sweep fuel g).0.low)
unfolding sweep next
sweep-Refines zero m g completed t over h =
    absurd (false≢true (sym (over m (omega arith)) ∙ t.before m (omega arith)))
sweep-Refines (suc fuel) m g completed t over h =
    let cell = low_cell g completed t in
    elim (Bool-cases (completed g.low)) [
      | inl e ↦
          let (ends, refines, window, low) =
            sweep-Refines fuel m (next g) completed (next-Tracks g completed t e) over
              (omega arith) in
          rw (cell ∙ e) (ends, refines, window, omega (arith, low))
      | inr e ↦ rw (cell ∙ e) (refl, (t, e), refl, omega arith)
    ]

pub new-Refines : (window : ℕ) → 0 < window → Refines (new_dispatch_gate window) (λ s. false)
unfolding new_dispatch_gate
new-Refines window pos = (
  record {
    pos = pos;
    ring = length-replicate window false;
    before = λ s h. absurd (omega (arith, h));
    cells = λ s h k. get_elem?-replicate window (s % window) false (mod-lt s pos);
    behind = λ s h. refl;
  },
  refl,
)

with_self : (completed : ℕ → Bool) (seq : ℕ) → with_chunk completed seq seq ≡ true
with_self completed seq = ground arith

with_other : (completed : ℕ → Bool) (seq s : ℕ) → s ≢ seq → with_chunk completed seq s ≡ completed s
with_other completed seq s h = ground (arith, h)

mark : DispatchGate → ℕ → DispatchGate
mark g seq = record g { done = set g.done (seq % g.window) true }

mark-Tracks :
    (g : DispatchGate) (completed : ℕ → Bool) (seq : ℕ)
    → Tracks g completed
    → g.low ≤ seq
    → seq < g.low + g.window
    → Tracks (mark g seq) (with_chunk completed seq)
unfolding mark
mark-Tracks g completed seq t h k = record {
  pos = t.pos;
  ring = length-set g.done (seq % g.window) true ∙ t.ring;
  before = λ s l. with_other completed seq s (λ e. omega (arith, e, h, l)) ∙ t.before s l;
  cells = λ s l r. elim (ℕ_discrete s seq) [
    | yes e ↦
        rw (e, with_self completed seq)
          (get_elem?-set_self g.done (seq % g.window) true
            (omega (arith, mod-lt seq t.pos, t.ring)))
    | no ne ↦ rw (with_other completed seq s ne) (
        get_elem?-set_ne g.done (seq % g.window) (s % g.window) true (
          distinct_slots g.window seq s (λ e. ne (sym e)) (omega (arith, k, l))
            (omega (arith, h, r)))
        ∙ t.cells s l r)
  ];
  behind = λ s l. with_other completed seq s (λ e. omega (arith, e, k, l)) ∙ t.behind s l;
}

pub not_before :
    (g : DispatchGate) (completed : ℕ → Bool) (seq : ℕ)
    → Tracks g completed
    → completed seq ≡ false
    → g.low ≤ seq
not_before g completed seq t new = elim (dec_lt seq g.low) [
  | yes less ↦ absurd (false≢true (sym new ∙ t.before seq less))
  | no not_less ↦ omega arith
]

-- A chunk that the gate admits, and that is not complete, is completed: the loop of complete ends by its test, and the gate has
-- that chunk beside those that it had; it moves on to the oldest chunk that is not complete.
pub complete-Refines :
    (g : DispatchGate) (completed : ℕ → Bool) (seq : ℕ)
    → Refines g completed
    → completed seq ≡ false
    → admits g seq ≡ true
    → ((complete g seq).1 ≡ true)
      × Refines (complete g seq).0 (with_chunk completed seq)
      × ((complete g seq).0.window ≡ g.window)
      × (g.low ≤ (complete g seq).0.low)
unfolding complete admits mark
complete-Refines g completed seq (t, missing) new k =
    let h = not_before g completed seq t new in
    let inside : seq < g.low + g.window = ground arith in
    let marked = mark-Tracks g completed seq t h inside in
    elim (Bool-cases (seq == g.low)) [
      | inl e ↦ rw e (
          sweep-Refines (suc g.window) (g.low + g.window) (mark g seq) (with_chunk completed seq)
            marked marked.behind (omega arith))
      | inr e ↦
          let other : g.low ≢ seq = λ same. ground arith in
          rw e (refl, (marked, with_other completed seq g.low other ∙ missing), refl, omega arith)
    ]
