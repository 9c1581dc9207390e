-- ===== src/Api/Handler/Blocks.antt =====
-- The status of a blocked request.
use zorch.Prelude.{ℕ, ◌≤◌, Option, none, some, ◌≡◌, arith, leb, Bool-cases, inl, inr, ◌&&◌}
use zorch.Api.Handler.{block_status}

-- A blocked request is answered with a status from 100 to 599, whatever status the script asked for,
-- and with the one it asked for if that is in this range: `from_u16` gives no status but the one of
-- its number, and knows those of the range.
block_status-bounds :
    (from_u16 : ℕ → Option ℕ)
    → ((code : ℕ) → 100 ≤ code → code ≤ 599 → from_u16 code ≡ some code)
    → (asked : Option ℕ)
    → (100 ≤ block_status from_u16 asked)
      × (block_status from_u16 asked ≤ 599)
      × ((code : ℕ)
          → asked ≡ some code
          → 100 ≤ code
          → code ≤ 599
          → block_status from_u16 asked ≡ code)
unfolding block_status
block_status-bounds from_u16 known none =
    (omega arith, omega arith, λ code e h i. ground (arith, e))
block_status-bounds from_u16 known (some asked) =
    elim (Bool-cases (leb 100 asked && leb asked 599)) [
      | inl b ↦
          let lower : 100 ≤ asked = ground (arith, b) in
          let upper : asked ≤ 599 = ground (arith, b) in
          let e = known asked lower upper in
          let s : block_status from_u16 (some asked) ≡ asked = ground (arith, b, e) in
          rw s (lower, upper, λ code q h i. ground (arith, q))
      | inr b ↦
          let s : block_status from_u16 (some asked) ≡ 400 = ground (arith, b) in
          rw s (omega arith, omega arith, λ code q h i. ground (arith, q, b, h, i))
    ]
