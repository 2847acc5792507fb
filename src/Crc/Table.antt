-- ===== src/Crc/Table.antt =====
-- A table of 256 words, filled by a loop over the index.
use lib_ftn.Common.{ℕ, zero, suc, ◌+◌, ◌<◌, ◌≡◌, List, [], ◌∷◌, get_or, arith, ap}

-- `for (i = from; i < from + count; i++) table[i] = entry(i);`
unfoldable pub tabulate : (ℕ → ℕ) → ℕ → ℕ → List ℕ
tabulate entry zero i = []
tabulate entry (suc count) i = entry i ∷ tabulate entry count (i + 1)

pub get_or-tabulate :
    (entry : ℕ → ℕ) (count i j : ℕ)
    → j < count
    → get_or (tabulate entry count i) j 0 ≡ entry (i + j)
unfolding tabulate
get_or-tabulate entry zero i j h = absurd (omega arith)
get_or-tabulate entry (suc count) i zero h = ap entry (omega arith)
get_or-tabulate entry (suc count) i (suc j) h =
    ground (arith, get_or-tabulate entry count (i + 1) j, ap entry index)
  where
    index : i + 1 + j ≡ i + suc j
    index = omega arith
