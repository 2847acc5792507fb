-- ===== src/Binkp/Resume/Offset.antt =====
-- The offset from which a file is gone on with: `ftn_nr_get_resume_offset` of src/binkp/nr.c.
use lib_ftn.Common.{ℕ, ◌%◌, ◌^◌, ◌<◌, arith, ◌≡◌, refl, true}
use lib_ftn.Common.{Option, none, some, ltb}
use lib_ftn.Common.{◌&&◌, ◌⊎◌, inl, inr, Bool-cases}
use lib_ftn.Binkp.Resume.{NrContext, check_partial_file, resume_at, get_resume_offset}

-- The bytes of a file that are there already, of more that are expected.
abbrev pub IsPart : ℕ → ℕ → Option ℕ → Type 0
IsPart offset expected none = ⊥
IsPart offset expected (some st_size) =
    (offset ≡ st_size % 2 ^ 32) × (0 < offset) × (offset < expected)

resume_at-IsPart :
    (expected : ℕ) (file : Option ℕ)
    → (resume_at expected (check_partial_file file expected) ≡ 0)
      ⊎ IsPart (resume_at expected (check_partial_file file expected)) expected file
unfolding resume_at check_partial_file
resume_at-IsPart expected none = inl refl
resume_at-IsPart expected (some st_size) = elim (Bool-cases (ltb expected (st_size % 2 ^ 32))) [
  | inl long ↦ rw long (inl refl)
  | inr fits ↦
      rw fits (elim (Bool-cases (ltb 0 (st_size % 2 ^ 32) && ltb (st_size % 2 ^ 32) expected)) [
        | inl part ↦ rw part (inr (refl, ground arith, ground arith))
        | inr none_or_all ↦ rw none_or_all (inl refl)
      ])
]

-- A file is gone on with from its start, or, where resuming was negotiated, from the size of what
-- is there as a regular file (as a number of 32 bits), which is then less than the expected size.
pub get_resume_offset-IsPart :
    (ctx : NrContext) (file : Option ℕ)
    → (get_resume_offset ctx file ≡ 0)
      ⊎ ((ctx.nr_negotiated ≡ true) × IsPart (get_resume_offset ctx file) ctx.expected_size file)
unfolding get_resume_offset
get_resume_offset-IsPart ctx file = elim (Bool-cases ctx.nr_negotiated) [
  | inl on ↦ rw on (elim (resume_at-IsPart ctx.expected_size file) [
    | inl start ↦ inl start
    | inr part ↦ inr (refl, part)
  ])
  | inr off ↦ rw off (inl refl)
]
