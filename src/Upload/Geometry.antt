-- ===== src/Upload/Geometry.antt =====
-- How the chunks of a session lie in the file.
use native.Mathlib.Nat.{div-add-mod', mod-lt}
use negare_api.Base.{
  ℕ, suc, ◌+◌, ◌*◌, ◌/◌, ◌≤◌, ◌<◌, ◌≡◌, sym, ◌∙◌, ap, arith, Bool-cases, inl, inr, ==_iff, ◌==◌,
}
use native.Mathlib.Decide.{dec_lt}
use negare_api.Upload.Types.{UploadStatus}
use negare_api.Upload.Session.{expected_length}
use negare_api.Upload.WellFormed.{WellFormed, ceil_div_bounds}

module _ (s : UploadStatus) (w : WellFormed s) where
  total_bounds :
      (s.size ≤ s.total_chunks * s.chunk_size)
      × (s.total_chunks * s.chunk_size < s.size + s.chunk_size)
  total_bounds =
      let (a, b) = ceil_div_bounds s.size s.chunk_size w.positive in (rw w.total a, rw w.total b)

  -- Multiplying an order of indexes by the size of a chunk.
  index_step : (i j : ℕ) → i < j → i * s.chunk_size + s.chunk_size ≤ j * s.chunk_size
  index_step i j h = grind arith

  mul-le_left : (i j : ℕ) → i ≤ j → i * s.chunk_size ≤ j * s.chunk_size
  mul-le_left i j h = grind arith

  next : (i : ℕ) → suc i * s.chunk_size ≡ i * s.chunk_size + s.chunk_size
  next i = omega arith

  in_order : (i j : ℕ) → i * s.chunk_size < j * s.chunk_size → i < j
  in_order i j h = elim (dec_lt i j) [
    | yes below ↦ below
    | no above ↦
        let reach : j * s.chunk_size ≤ i * s.chunk_size = mul-le_left j i (omega arith) in
        absurd (omega arith)
  ]

  -- Every chunk has at least one byte and at most a chunk's, and ends within the file.
  pub expected_length_bounds :
      (i : ℕ)
      → i < s.total_chunks
      → (0 < expected_length s i)
        × (expected_length s i ≤ s.chunk_size)
        × (i * s.chunk_size + expected_length s i ≤ s.size)
  unfolding expected_length
  expected_length_bounds i h =
      let step = index_step i s.total_chunks h in
      let (a, b) = total_bounds in
      elim (Bool-cases (i + 1 == s.total_chunks)) [
        | inl last ↦
            let e : s.total_chunks * s.chunk_size ≡ i * s.chunk_size + s.chunk_size =
              ap (λ (n : ℕ). n * s.chunk_size) (sym ((==_iff _ _).0 last)) ∙ omega arith in
            rw last (omega arith)
        | inr inner ↦
            let later : i + 1 < s.total_chunks = ground arith in
            let far = index_step (i + 1) s.total_chunks later in
            rw inner (omega (arith, w.positive))
      ]

  -- In a well formed record the byte at `j`, below the size, lies in the chunk `j / chunk_size`.
  pub covers :
      (j : ℕ)
      → j < s.size
      → (j / s.chunk_size < s.total_chunks)
        × (j / s.chunk_size * s.chunk_size ≤ j)
        × (j < j / s.chunk_size * s.chunk_size + expected_length s (j / s.chunk_size))
  unfolding expected_length
  covers j h =
      let q = j / s.chunk_size in
      let split_j = div-add-mod' j s.chunk_size in
      let short = mod-lt j w.positive in
      let (a, b) = total_bounds in
      let inside : q < s.total_chunks = in_order q s.total_chunks (omega arith) in
      elim (Bool-cases (q + 1 == s.total_chunks)) [
        | inl last ↦ rw last (inside, omega arith, omega arith)
        | inr inner ↦ rw inner (inside, omega arith, omega arith)
      ]

  -- In a well formed record a chunk that holds the byte at `j` has the index `j / chunk_size`.
  pub covers_once :
      (i j : ℕ)
      → i < s.total_chunks
      → i * s.chunk_size ≤ j
      → j < i * s.chunk_size + expected_length s i
      → i ≡ j / s.chunk_size
  covers_once i j h a b =
      let q = j / s.chunk_size in
      let split_j = div-add-mod' j s.chunk_size in
      let short = mod-lt j w.positive in
      let (_, full, _) = expected_length_bounds i h in
      let below : i < suc q = in_order i (suc q) (omega (arith, next q)) in
      let above : q < suc i = in_order q (suc i) (omega (arith, next i)) in omega arith
