-- ===== src/Trim/Laws.antt =====
-- What is left by `ftn_trim` of src/ftn.c.
use lib_ftn.Common.{◌<◌, length, arith, All, ℕ, true, false, List, [], ◌∷◌, ◌++◌, ◌≡◌, refl, ap}
use lib_ftn.Common.{Bool-cases, inl, inr}
use lib_ftn.Common.Text.{is_space, skip_space}
use lib_ftn.Trim.{put_front, trim_end, trim}

-- The text ends with something else than white space.
abbrev pub EndsSolid : List ℕ → Type 0
EndsSolid [] = Unit
EndsSolid (c ∷ []) = is_space c ≡ false
EndsSolid (c ∷ x ∷ s) = EndsSolid (x ∷ s)

abbrev pub StartsSolid : List ℕ → Type 0
StartsSolid [] = Unit
StartsSolid (c ∷ s) = is_space c ≡ false

-- No white space at either end.
abbrev pub IsTrimmed : List ℕ → Type 0
IsTrimmed s = StartsSolid s × EndsSolid s

pub EndsSolid-cons : (c : ℕ) (s : List ℕ) → 0 < length s → EndsSolid s → EndsSolid (c ∷ s)
EndsSolid-cons c [] full h = absurd (omega arith)
EndsSolid-cons c (x ∷ s) full h = h

put_front-EndsSolid : (c : ℕ) (s : List ℕ) → EndsSolid s → EndsSolid (put_front c s)
put_front-EndsSolid c [] h = elim (Bool-cases (is_space c)) [
  | inl blank ↦ rw blank tt
  | inr solid ↦ rw solid solid
]
put_front-EndsSolid c (x ∷ s) h = h

trim_end-EndsSolid : (s : List ℕ) → EndsSolid (trim_end s)
unfolding trim_end
trim_end-EndsSolid [] = tt
trim_end-EndsSolid (c ∷ s) = put_front-EndsSolid c (trim_end s) (trim_end-EndsSolid s)

skip_space-StartsSolid : (s : List ℕ) → StartsSolid (skip_space s)
unfolding skip_space
skip_space-StartsSolid [] = tt
skip_space-StartsSolid (c ∷ s) = elim (Bool-cases (is_space c)) [
  | inl blank ↦ rw blank (skip_space-StartsSolid s)
  | inr solid ↦ rw solid solid
]

pub put_front-solid : (c : ℕ) (s : List ℕ) → is_space c ≡ false → put_front c s ≡ c ∷ s
put_front-solid c [] h = rw h
put_front-solid c (x ∷ s) h = refl

trim_end-StartsSolid : (s : List ℕ) → StartsSolid s → StartsSolid (trim_end s)
unfolding trim_end
trim_end-StartsSolid [] h = tt
trim_end-StartsSolid (c ∷ s) h = rw (put_front-solid c (trim_end s) h) h

pub trim-IsTrimmed : (s : List ℕ) → IsTrimmed (trim s)
unfolding trim
trim-IsTrimmed s = (
  trim_end-StartsSolid (skip_space s) (skip_space-StartsSolid s),
  trim_end-EndsSolid (skip_space s),
)

pub trim_end_trimmed : (s : List ℕ) → EndsSolid s → trim_end s ≡ s
unfolding trim_end
trim_end_trimmed [] h = refl
trim_end_trimmed (c ∷ []) h = rw h
trim_end_trimmed (c ∷ x ∷ s) h = ap (put_front c) (trim_end_trimmed (x ∷ s) h)

skip_space_trimmed : (s : List ℕ) → StartsSolid s → skip_space s ≡ s
unfolding skip_space
skip_space_trimmed [] h = refl
skip_space_trimmed (c ∷ s) h = rw h

-- A trimmed text stays as it is.
pub trim_trimmed : (s : List ℕ) → IsTrimmed s → trim s ≡ s
unfolding trim
trim_trimmed s (starts, ends) = rw (skip_space_trimmed s starts, trim_end_trimmed s ends)

trim_end-last :
    (s : List ℕ) (c : ℕ) → EndsSolid s → is_space c ≡ true → trim_end (s ++ (c ∷ [])) ≡ s
unfolding trim_end
trim_end-last [] c h blank = rw blank
trim_end-last (x ∷ []) c h blank = rw (blank, h)
trim_end-last (x ∷ y ∷ s) c h blank = ap (put_front x) (trim_end-last (y ∷ s) c h blank)

-- One white space at the end, as a line has it, goes.
pub trim-last :
    (x : ℕ) (s : List ℕ) (c : ℕ)
    → IsTrimmed (x ∷ s)
    → is_space c ≡ true
    → trim ((x ∷ s) ++ (c ∷ [])) ≡ x ∷ s
unfolding trim skip_space
trim-last x s c (starts, ends) blank = rw (starts, trim_end-last (x ∷ s) c ends blank)

-- A text that is not empty decides on the end of what it is put behind.
pub EndsSolid-append :
    (s : List ℕ) (c : ℕ) (t : List ℕ) → EndsSolid (c ∷ t) → EndsSolid (s ++ (c ∷ t))
EndsSolid-append [] c t h = h
EndsSolid-append (x ∷ []) c t h = h
EndsSolid-append (x ∷ y ∷ s) c t h = EndsSolid-append (y ∷ s) c t h

pub solid-EndsSolid : (s : List ℕ) → All (λ c. 32 < c) s → EndsSolid s
solid-EndsSolid [] h = tt
solid-EndsSolid (c ∷ []) (p, h) = ground arith
solid-EndsSolid (c ∷ x ∷ s) (p, h) = solid-EndsSolid (x ∷ s) h

pub solid-IsTrimmed : (s : List ℕ) → All (λ c. 32 < c) s → IsTrimmed s
solid-IsTrimmed [] h = (tt, tt)
solid-IsTrimmed (c ∷ s) (p, h) = (ground arith, solid-EndsSolid (c ∷ s) (p, h))
