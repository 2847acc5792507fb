-- ===== src/Binkp/Resume/Response.antt =====
-- The NDA response there and back: `ftn_nr_create_nda_response` and `ftn_nr_parse_nda_response` of
-- src/binkp/nr.c.
use lib_ftn.Common.{ℕ, ◌%◌, ◌^◌, ◌<◌, arith, ◌≡◌, refl, ap, ◌∙◌, true, false}
use lib_ftn.Common.{Option, none, some, List, [], ◌∷◌, ◌++◌, length, take, take_all, ◌==◌}
use lib_ftn.Common.{str_eq, codes, inl, inr}
use lib_ftn.Common.Text.{decimal, printed}
use lib_ftn.Common.Text.Words.{IsSolid, decimal-IsSolid, decimal_nonempty}
use lib_ftn.Binkp.Command.Args.Offsets.{strtoul_whole}
use lib_ftn.Binkp.Status.{ok}
use lib_ftn.Binkp.Resume.{NrContext, get_resume_offset, space, nda_text}
use lib_ftn.Binkp.Resume.{
  create_nda_response, keep_word, lex, words, nda_offset, parse_nda_response,
}
use lib_ftn.Binkp.Resume.Offset.{IsPart, get_resume_offset-IsPart}

lex-solid : (word s : List ℕ) → IsSolid word → lex (word ++ (space ∷ s)) ≡ (word, words s)
unfolding lex words
lex-solid [] s h = refl
lex-solid (c ∷ word) s (p, h) =
    let other : (c == space) ≡ false = ground arith in rw (other, lex-solid word s h)

lex-solid_end : (word : List ℕ) → IsSolid word → lex word ≡ (word, [])
unfolding lex
lex-solid_end [] h = refl
lex-solid_end (c ∷ word) (p, h) =
    let other : (c == space) ≡ false = ground arith in rw (other, lex-solid_end word h)

kept :
    (word : List ℕ) (later : List (List ℕ)) → 0 < length word → keep_word word later ≡ word ∷ later
kept [] later h = absurd (omega arith)
kept (c ∷ word) later h = refl

words-solid :
    (word s : List ℕ)
    → IsSolid word
    → 0 < length word
    → words (word ++ (space ∷ s)) ≡ word ∷ words s
unfolding words
words-solid word s h full =
    ap {B = List (List ℕ)} (λ r. keep_word r.0 r.1) (lex-solid word s h) ∙ kept word (words s) full

words-solid_end : (word : List ℕ) → IsSolid word → 0 < length word → words word ≡ word ∷ []
unfolding words
words-solid_end word h full =
    ap {B = List (List ℕ)} (λ r. keep_word r.0 r.1) (lex-solid_end word h) ∙ kept word [] full

words-nda_text :
    (filename : List ℕ) (size timestamp offset : ℕ)
    → IsSolid filename
    → 0 < length filename
    → words (nda_text filename size timestamp offset)
      ≡ codes "NDA" ∷ filename ∷ decimal size ∷ decimal timestamp ∷ decimal offset ∷ []
unfolding nda_text
words-nda_text filename size timestamp offset h full =
    let s2 = decimal timestamp ++ (space ∷ decimal offset) in
    let s1 = decimal size ++ (space ∷ s2) in
    let s0 = filename ++ (space ∷ s1) in
    rw (
      words-solid (codes "NDA") s0 (ground arith) (omega arith),
      words-solid filename s1 h full,
      words-solid (decimal size) s2 (decimal-IsSolid size) (decimal_nonempty size),
      words-solid (decimal timestamp) (decimal offset) (decimal-IsSolid timestamp)
          (decimal_nonempty timestamp),
      words-solid_end (decimal offset) (decimal-IsSolid offset) (decimal_nonempty offset),
    )

offset_fits : (ctx : NrContext) (file : Option ℕ) → get_resume_offset ctx file < 2 ^ 32
offset_fits ctx file = elim (get_resume_offset-IsPart ctx file) [
  | inl start ↦ omega (arith, start)
  | inr (_, part) ↦ of_part file (get_resume_offset ctx file) part
]
  where
    of_part :
        (file : Option ℕ) (offset : ℕ) → IsPart offset ctx.expected_size file → offset < 2 ^ 32
    of_part none offset part = absurd part
    of_part (some st_size) offset (e, _, _) = omega (arith, e)

-- A response that fits its buffer of 256 bytes, for a name that is not empty and has no spaces and
-- no control characters, brings the resume offset to the other side.
pub parse_nda_response-create_nda_response :
    (ctx : NrContext) (file : Option ℕ) (filename : List ℕ) (size timestamp : ℕ)
    → IsSolid filename
    → 0 < length filename
    → length (nda_text filename size timestamp (get_resume_offset ctx file)) < 256
    → parse_nda_response (create_nda_response ctx file filename size timestamp)
      ≡ (ok, get_resume_offset ctx file)
unfolding parse_nda_response create_nda_response nda_offset
parse_nda_response-create_nda_response ctx file filename size timestamp h full short =
    let offset = get_resume_offset ctx file in
    let text = nda_text filename size timestamp offset in
    let bound : offset < 2 ^ 32 = offset_fits ctx file in
    let fits : printed 256 text ≡ text = take_all 255 text (omega (arith, short)) in
    let same : offset % 2 ^ 32 ≡ offset = omega (arith, bound) in
    let marked : str_eq (take 4 text) (codes "NDA ") ≡ true = unfold nda_text str_eq in refl in
    rw (
      fits,
      marked,
      words-nda_text filename size timestamp offset h full,
      strtoul_whole offset (omega (arith, bound)),
      same,
    )
