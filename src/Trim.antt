-- ===== src/Trim.antt =====
-- `ftn_trim` of src/ftn.c: white space at both ends is cut off.
pub mod Laws
use lib_ftn.Common.{ℕ, Bool, List, [], ◌∷◌, if◌then◌else◌}
use lib_ftn.Common.Text.{is_space, skip_space}

-- A character in front of a text without white space at its end.
abbrev pub put_front : ℕ → List ℕ → List ℕ
put_front c [] = if is_space c then [] else c ∷ []
put_front c (x ∷ s) = c ∷ x ∷ s

unfoldable pub trim_end : List ℕ → List ℕ
trim_end [] = []
trim_end (c ∷ s) = put_front c (trim_end s)

unfoldable pub trim : List ℕ → List ℕ
unfolding trim_end
trim s = trim_end (skip_space s)
