-- ===== src/Client/Parallel.antt =====
-- Parallel downloads, client/parallel_get.go: the parameters, the chunks, and the gate that bounds
-- how far ahead of the oldest incomplete chunk a chunk may start.
pub mod Gate
pub mod Download
pub mod Fetch
pub mod Bounds
use cachew.Base.{
  ℕ, zero, suc, ◌+◌, ◌-◌, ◌*◌, ◌/◌, ◌%◌, min, max, ◌^◌, Bool, true, false, Option, none, some, List,
  [], ltb, leb, ◌==◌, if◌then◌else◌,
}
use cachew.Base.Arrays.{get_elem?, set, replicate}

-- maxParallelGetConcurrency
abbrev pub max_parallel_get_concurrency : ℕ
max_parallel_get_concurrency = 1024

-- math.MaxInt64
abbrev pub max_int64 : ℕ
max_int64 = 2 ^ 63 - 1

pub data ParallelParams : Type 0 where
  valid bad_chunk_size too_concurrent overflows : ParallelParams

-- validateParallelParams, for a chunk size and a concurrency that are not negative and, as in
-- ParallelGet, a concurrency that is not zero.
unfoldable pub validate_parallel_params : ℕ → ℕ → ParallelParams
validate_parallel_params chunk_size concurrency =
    if chunk_size == 0
    then bad_chunk_size
    else if ltb max_parallel_get_concurrency concurrency
    then too_concurrent
    else if ltb (max_int64 / (2 * concurrency)) chunk_size
    then overflows
    else valid

-- The chunks of ParallelGet: their number, and the range of one.
unfoldable pub num_chunks : ℕ → ℕ → ℕ
num_chunks total chunk_size = 1 + (total - 1) / chunk_size

unfoldable pub chunk_range : ℕ → ℕ → ℕ → ℕ × ℕ
chunk_range total chunk_size seq = (seq * chunk_size, min (seq * chunk_size + chunk_size) total)

-- dispatchGate
pub record DispatchGate : Type 0 where
  pub window : ℕ
  pub done : List Bool
  pub low : ℕ

-- newDispatchGate
unfoldable pub new_dispatch_gate : ℕ → DispatchGate
new_dispatch_gate window = record { window = window; done = replicate window false; low = 0 }

-- The test on which wait returns; `seq` is at least `low`.
unfoldable pub admits : DispatchGate → ℕ → Bool
admits g seq = ltb (seq - g.low) g.window

abbrev pub is_done : Option Bool → Bool
is_done none = false
is_done (some b) = b

-- The loop of complete, on fuel; the second part is whether its test ended it.
unfoldable pub sweep : ℕ → DispatchGate → DispatchGate × Bool
sweep zero g = (g, false)
sweep (suc fuel) g =
    let rest =
      sweep fuel (record g { done = set g.done (g.low % g.window) false; low = suc g.low }) in
    if is_done (get_elem? g.done (g.low % g.window)) then rest else (g, true)

-- complete; a round of the loop clears a cell, so that `window` rounds and a last test are enough
unfoldable pub complete : DispatchGate → ℕ → DispatchGate × Bool
unfolding sweep
complete g seq =
    let g' = record g { done = set g.done (seq % g.window) true } in
    if seq == g.low then sweep (suc g.window) g' else (g', true)
