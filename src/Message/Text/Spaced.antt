-- ===== src/Message/Text/Spaced.antt =====
-- The body that `ftn_message_parse_text` of src/packet.c puts together of the lines it was cut into.
use lib_ftn.Common.{ℕ, Bool, true, false, not, ◌&&◌, ◌||◌, List, [], ◌∷◌, ◌++◌, ◌==◌, ◌<◌}
use lib_ftn.Common.{length, if◌then◌else◌, ◌≡◌, refl, ap, ◌∙◌, Bool-cases, inl, inr, arith}
use lib_ftn.Common.Text.{is_space, skip_space}
use lib_ftn.Trim.{trim, trim_end}
use lib_ftn.Trim.Laws.{IsTrimmed, EndsSolid, EndsSolid-cons}
use lib_ftn.Message.Text.{cons_token, cut_tokens, tokens, crlf, join_lines}
use lib_ftn.Message.Text.Tokens.{trim-new_line, trim-blank}

-- A text with a "\n" put behind each "\r".
unfoldable pub spaced : List ℕ → List ℕ
spaced [] = []
spaced (c ∷ s) = let later = spaced s in if c == 13 then 13 ∷ (10 ∷ later) else c ∷ later

abbrev pub starts_line : List ℕ → Bool
starts_line [] = false
starts_line (c ∷ s) = not (c == 13)

-- Each "\r" is followed by a character other than "\r".
unfoldable pub lines_full : List ℕ → Bool
lines_full [] = true
lines_full (c ∷ s) = let later = lines_full s in (not (c == 13) || starts_line s) && later

join_lines-cons :
    (c : ℕ) (line : List ℕ) (lines : List (List ℕ))
    → join_lines ((c ∷ line) ∷ lines) ≡ c ∷ join_lines (line ∷ lines)
unfolding join_lines
join_lines-cons c line [] = refl
join_lines-cons c line (next ∷ lines) = refl

cons_token-starts_line :
    (s : List ℕ) (lines : List (List ℕ))
    → starts_line s ≡ true
    → cons_token (cut_tokens s).0 lines ≡ (cut_tokens s).0 ∷ lines
unfolding cut_tokens
cons_token-starts_line [] lines h = absurd (ground arith)
cons_token-starts_line (c ∷ s) lines h = elim (Bool-cases (c == 13)) [
  | inl e ↦ absurd (ground arith)
  | inr e ↦ rw e refl
]

full_front : (a b : Bool) → a && b ≡ true → a ≡ true
full_front true b h = refl
full_front false b h = h

full_back : (a b : Bool) → a && b ≡ true → b ≡ true
full_back true b h = h
full_back false b h = absurd (ground arith)

join_lines-cut_tokens :
    (t : List ℕ)
    → lines_full t ≡ true
    → join_lines ((cut_tokens t).0 ∷ ((cut_tokens t).1 ++ ((10 ∷ []) ∷ [])))
      ≡ spaced t ++ (crlf ++ (10 ∷ []))
unfolding cut_tokens join_lines spaced lines_full
join_lines-cut_tokens [] h = refl
join_lines-cut_tokens (c ∷ t) h =
    let later = join_lines-cut_tokens t (full_back _ (lines_full t) h) in
    elim (Bool-cases (c == 13)) [
      | inl e ↦
          let front : not (c == 13) || starts_line t ≡ true = full_front _ (lines_full t) h in
          let starts : starts_line t ≡ true = ground arith in
          rw (e, cons_token-starts_line t (cut_tokens t).1 starts) (ap (λ s. 13 ∷ (10 ∷ s)) later)
      | inr e ↦ rw e (
          join_lines-cons c (cut_tokens t).0 ((cut_tokens t).1 ++ ((10 ∷ []) ∷ []))
          ∙ ap (λ s. c ∷ s) later)
    ]

longer-spaced : (c : ℕ) (s : List ℕ) → 0 < length (spaced (c ∷ s))
unfolding spaced
longer-spaced c s = elim (Bool-cases (c == 13)) [
  | inl e ↦ rw e (omega arith)
  | inr e ↦ rw e (omega arith)
]

pub solid_line_end : (c : ℕ) → is_space c ≡ false → (c == 13) ≡ false
solid_line_end c h = ground arith

EndsSolid-spaced : (s : List ℕ) → EndsSolid s → EndsSolid (spaced s)
unfolding spaced
EndsSolid-spaced [] h = tt
EndsSolid-spaced (c ∷ []) h = rw (solid_line_end c h) h
EndsSolid-spaced (c ∷ (x ∷ s)) h =
    let later = EndsSolid-spaced (x ∷ s) h in
    let full = longer-spaced x s in
    elim (Bool-cases (c == 13)) [
      | inl e ↦ rw e (
          EndsSolid-cons 13 (10 ∷ spaced (x ∷ s)) (omega arith)
            (EndsSolid-cons 10 (spaced (x ∷ s)) full later))
      | inr e ↦ rw e (EndsSolid-cons c (spaced (x ∷ s)) full later)
    ]

IsTrimmed-spaced : (s : List ℕ) → IsTrimmed s → IsTrimmed (spaced s)
unfolding spaced
IsTrimmed-spaced [] h = (tt, tt)
IsTrimmed-spaced (c ∷ s) (starts, ends) =
    (rw (solid_line_end c starts) starts, EndsSolid-spaced (c ∷ s) ends)

-- The lines of the body, and the "\n" behind the last line of the text, put together and trimmed.
pub trim-join_lines :
    (t : List ℕ)
    → IsTrimmed t
    → lines_full t ≡ true
    → trim (join_lines (tokens (10 ∷ t) ++ ((10 ∷ []) ∷ []))) ≡ spaced t
unfolding tokens cut_tokens
trim-join_lines t h full =
    ap trim (
      join_lines-cons 10 (cut_tokens t).0 ((cut_tokens t).1 ++ ((10 ∷ []) ∷ []))
      ∙ ap (λ s. 10 ∷ s) (join_lines-cut_tokens t full))
    ∙ trim-new_line (spaced t ++ (crlf ++ (10 ∷ [])))
    ∙ trim-blank (spaced t) (crlf ++ (10 ∷ [])) (IsTrimmed-spaced t h) (refl, (refl, (refl, tt)))

-- The same when no "\n" stands in front of the body.
pub trim-join_lines-front :
    (t : List ℕ)
    → IsTrimmed t
    → lines_full t ≡ true
    → trim (join_lines (tokens t ++ ((10 ∷ []) ∷ []))) ≡ spaced t
unfolding tokens cut_tokens spaced trim skip_space trim_end join_lines
trim-join_lines-front [] h full = refl
trim-join_lines-front (c ∷ s) h full =
    let solid = solid_line_end c h.0 in
    let kept : tokens (c ∷ s) ++ ((10 ∷ []) ∷ [])
        ≡ (cut_tokens (c ∷ s)).0 ∷ ((cut_tokens (c ∷ s)).1 ++ ((10 ∷ []) ∷ [])) =
      rw solid refl in
    ap trim (ap join_lines kept ∙ join_lines-cut_tokens (c ∷ s) full)
    ∙ trim-blank (spaced (c ∷ s)) (crlf ++ (10 ∷ [])) (IsTrimmed-spaced (c ∷ s) h)
        (refl, (refl, (refl, tt)))
