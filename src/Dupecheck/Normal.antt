-- ===== src/Dupecheck/Normal.antt =====
-- The normal form of an MSGID: `ftn_dupecheck_normalize_msgid` of src/dupechk.c.
use lib_ftn.Common.{ℕ, Bool, true, false, List, [], ◌∷◌}
use lib_ftn.Common.{◌≡◌, ◌⊎◌, inl, inr, refl, ap, ◌∙◌, arith, Bool-cases}
use lib_ftn.Common.Text.{is_space, skip_space}
use lib_ftn.Trim.{put_front, trim_end, trim}
use lib_ftn.Trim.Laws.{IsTrimmed, trim-IsTrimmed, trim_trimmed}
use lib_ftn.Dupecheck.{to_lower, dupecheck_trim, squeeze, normalize_msgid}

-- A single space each, none where the flag is set, and letters in lower case.
abbrev pub IsSqueezed : Bool → List ℕ → Type 0
IsSqueezed inside [] = Unit
IsSqueezed inside (c ∷ s) =
    ((c ≡ 32) × (inside ≡ false) × IsSqueezed true s)
    ⊎ ((is_space c ≡ false) × (to_lower c ≡ c) × IsSqueezed false s)

lower_solid : (c : ℕ) → is_space c ≡ false → is_space (to_lower c) ≡ false
lower_solid c h = ground arith

lower_twice : (c : ℕ) → to_lower (to_lower c) ≡ to_lower c
lower_twice c = ground arith

squeeze-IsSqueezed : (inside : Bool) (s : List ℕ) → IsSqueezed inside (squeeze inside s)
unfolding squeeze
squeeze-IsSqueezed inside [] = tt
squeeze-IsSqueezed true (c ∷ s) = elim (Bool-cases (is_space c)) [
  | inl blank ↦ rw blank (squeeze-IsSqueezed true s)
  | inr solid ↦ rw solid (inr (lower_solid c solid, lower_twice c, squeeze-IsSqueezed false s))
]
squeeze-IsSqueezed false (c ∷ s) = elim (Bool-cases (is_space c)) [
  | inl blank ↦ rw blank (inl (refl, refl, squeeze-IsSqueezed true s))
  | inr solid ↦ rw solid (inr (lower_solid c solid, lower_twice c, squeeze-IsSqueezed false s))
]

squeeze_squeezed : (inside : Bool) (s : List ℕ) → IsSqueezed inside s → squeeze inside s ≡ s
unfolding squeeze
squeeze_squeezed inside [] h = refl
squeeze_squeezed inside (c ∷ s) (inl (e, outside, h)) =
    rw (e, outside) (ap (λ t. 32 ∷ t) (squeeze_squeezed true s h))
squeeze_squeezed inside (c ∷ s) (inr (solid, low, h)) =
    rw (solid, low) (ap (λ t. c ∷ t) (squeeze_squeezed false s h))

IsSqueezed-outside : (inside : Bool) (s : List ℕ) → IsSqueezed inside s → IsSqueezed false s
IsSqueezed-outside inside [] h = tt
IsSqueezed-outside inside (c ∷ s) (inl (e, outside, h)) = inl (e, refl, h)
IsSqueezed-outside inside (c ∷ s) (inr h) = inr h

skip_space-IsSqueezed :
    (inside : Bool) (s : List ℕ) → IsSqueezed inside s → IsSqueezed false (skip_space s)
unfolding skip_space
skip_space-IsSqueezed inside [] h = tt
skip_space-IsSqueezed inside (c ∷ s) (inl (e, outside, h)) = rw e (skip_space-IsSqueezed true s h)
skip_space-IsSqueezed inside (c ∷ s) (inr (solid, low, h)) = rw solid (inr (solid, low, h))

put_front-IsSqueezed :
    (inside : Bool) (c : ℕ) (s : List ℕ)
    → IsSqueezed inside (c ∷ s)
    → IsSqueezed inside (put_front c s)
put_front-IsSqueezed inside c [] h = elim (Bool-cases (is_space c)) [
  | inl blank ↦ rw blank tt
  | inr solid ↦ rw solid h
]
put_front-IsSqueezed inside c (x ∷ s) h = h

trim_end-IsSqueezed :
    (inside : Bool) (s : List ℕ) → IsSqueezed inside s → IsSqueezed inside (trim_end s)
unfolding trim_end
trim_end-IsSqueezed inside [] h = tt
trim_end-IsSqueezed inside (c ∷ s) (inl (e, outside, h)) =
    put_front-IsSqueezed inside c (trim_end s) (inl (e, outside, trim_end-IsSqueezed true s h))
trim_end-IsSqueezed inside (c ∷ s) (inr (solid, low, h)) =
    put_front-IsSqueezed inside c (trim_end s) (inr (solid, low, trim_end-IsSqueezed false s h))

pub dupecheck_trim_lem : (s : List ℕ) → dupecheck_trim s ≡ trim s
unfolding dupecheck_trim trim
dupecheck_trim_lem s = refl

pub normalize_msgid-IsTrimmed : (s : List ℕ) → IsTrimmed (normalize_msgid s)
unfolding normalize_msgid
normalize_msgid-IsTrimmed s =
    rw (dupecheck_trim_lem (squeeze false s)) (trim-IsTrimmed (squeeze false s))

pub normalize_msgid-IsSqueezed : (s : List ℕ) → IsSqueezed false (normalize_msgid s)
unfolding normalize_msgid dupecheck_trim
normalize_msgid-IsSqueezed s =
    let squeezed = squeeze false s in
    trim_end-IsSqueezed false (skip_space squeezed)
      (skip_space-IsSqueezed false squeezed (squeeze-IsSqueezed false s))

-- The normal form of an MSGID is its own normal form: trimmed, with single spaces, in lower case.
pub normalize_msgid_twice :
    (s : List ℕ)
    → (normalize_msgid (normalize_msgid s) ≡ normalize_msgid s)
      × IsTrimmed (normalize_msgid s)
      × IsSqueezed false (normalize_msgid s)
normalize_msgid_twice s =
    let t = normalize_msgid s in
    (
      unfold normalize_msgid in
          ap dupecheck_trim (squeeze_squeezed false t (normalize_msgid-IsSqueezed s))
          ∙ dupecheck_trim_lem t
          ∙ trim_trimmed t (normalize_msgid-IsTrimmed s),
      normalize_msgid-IsTrimmed s,
      normalize_msgid-IsSqueezed s,
    )
