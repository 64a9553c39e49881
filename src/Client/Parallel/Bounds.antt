-- ===== src/Client/Parallel/Bounds.antt =====
-- The parameters that validateParallelParams lets pass.
use cachew.Base.{ℕ, ◌+◌, ◌-◌, ◌*◌, ◌/◌, ◌≤◌, ◌<◌, ◌≡◌, arith}
use native.Mathlib.Nat.{le-div_iff_mul-le, div-le_self, mul_comm}
use cachew.Client.Parallel.{
  valid, max_parallel_get_concurrency, max_int64, validate_parallel_params, num_chunks, chunk_range,
}

valid_lem :
    (chunk_size concurrency : ℕ)
    → validate_parallel_params chunk_size concurrency ≡ valid
    → (0 < chunk_size)
      × (concurrency ≤ max_parallel_get_concurrency)
      × (chunk_size ≤ max_int64 / (2 * concurrency))
unfolding validate_parallel_params
valid_lem chunk_size concurrency h = ground (arith, h)

-- With valid parameters and two workers or more, for an object whose size has room for one more chunk
-- within int64: the bytes of the buffer's pages, the number of chunks, and a chunk's start plus the
-- size of a chunk are within int64; and a chunk is not empty and lies in the object.
pub window_bound :
    (chunk_size concurrency total seq : ℕ)
    → validate_parallel_params chunk_size concurrency ≡ valid
    → 1 < concurrency
    → 0 < total
    → total + chunk_size ≤ max_int64
    → seq < num_chunks total chunk_size
    → (2 * concurrency * chunk_size ≤ max_int64)
      × (num_chunks total chunk_size ≤ max_int64)
      × (seq * chunk_size + chunk_size ≤ max_int64)
      × ((chunk_range total chunk_size seq).0 < (chunk_range total chunk_size seq).1)
      × ((chunk_range total chunk_size seq).1 ≤ total)
unfolding num_chunks chunk_range
window_bound chunk_size concurrency total seq h many sized most inside =
    let (pos, few, fits) = valid_lem chunk_size concurrency h in
    let some_ : 0 < 2 * concurrency = omega arith in
    let pages : chunk_size * (2 * concurrency) ≤ max_int64 = (le-div_iff_mul-le some_).0 fits in
    let turn : 2 * concurrency * chunk_size ≡ chunk_size * (2 * concurrency) =
      mul_comm (2 * concurrency) chunk_size in
    let count : (total - 1) / chunk_size ≤ total - 1 = div-le_self (total - 1) chunk_size in
    let start : seq * chunk_size ≤ total - 1 = (le-div_iff_mul-le pos).0 (omega arith) in
    (
      omega (arith, pages, turn),
      omega (arith, count, most, sized),
      omega (arith, start, most, sized),
      omega (arith, start, pos, sized),
      omega arith,
    )
