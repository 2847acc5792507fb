-- ===== src/Message/Text/Tokens.antt =====
-- The lines that `strtok_r` finds in a text that `ftn_message_create_text` of src/packet.c made.
use lib_ftn.Common.{ℕ, true, false, List, [], ◌∷◌, ◌++◌, map, ◌==◌, ◌≡◌, refl, sym, ap, ◌∙◌, All}
use lib_ftn.Common.{Bool-cases, inl, inr}
use mathlib.Core.List.{append-nil}
use lib_ftn.Common.Text.{is_space, skip_space}
use lib_ftn.Trim.{trim_end, trim}
use lib_ftn.Trim.Laws.{EndsSolid, IsTrimmed}
use lib_ftn.Message.Text.{cons_token, cut_tokens, tokens, lines_text}

-- A line without the character that ends lines.
abbrev pub IsOneLine : List ℕ → Type 0
IsOneLine line = All (λ c. (c == 13) ≡ false) line

cons_token-append :
    (token : List ℕ) (later more : List (List ℕ))
    → cons_token token (later ++ more) ≡ cons_token token later ++ more
cons_token-append [] later more = refl
cons_token-append (c ∷ token) later more = refl

cut_tokens-append :
    (a b : List ℕ) → cut_tokens (a ++ (13 ∷ b)) ≡ ((cut_tokens a).0, (cut_tokens a).1 ++ tokens b)
unfolding cut_tokens tokens
cut_tokens-append [] b = refl
cut_tokens-append (c ∷ a) b = elim (Bool-cases (c == 13)) [
  | inl e ↦
      rw (e, cut_tokens-append a b)
        (λ i. ([], cons_token-append (cut_tokens a).0 (cut_tokens a).1 (tokens b) i))
  | inr e ↦ rw (e, cut_tokens-append a b) refl
]

-- A "\r" ends the tokens before it.
pub tokens-append : (a b : List ℕ) → tokens (a ++ (13 ∷ b)) ≡ tokens a ++ tokens b
unfolding tokens
tokens-append a b =
    ap (λ cut. cons_token cut.0 cut.1) (cut_tokens-append a b)
    ∙ cons_token-append (cut_tokens a).0 (cut_tokens a).1 (tokens b)

cut_tokens-one_line : (line : List ℕ) → IsOneLine line → cut_tokens line ≡ (line, [])
unfolding cut_tokens
cut_tokens-one_line [] h = refl
cut_tokens-one_line (c ∷ line) (p, h) = rw (p, cut_tokens-one_line line h) refl

pub tokens-line :
    (c : ℕ) (line s : List ℕ)
    → IsOneLine (c ∷ line)
    → tokens ((c ∷ line) ++ (13 ∷ s)) ≡ (c ∷ line) ∷ tokens s
tokens-line c line s h =
    tokens-append (c ∷ line) s
    ∙ unfold tokens in
      ap (λ cut. cons_token cut.0 cut.1 ++ tokens s) (cut_tokens-one_line (c ∷ line) h)

abbrev pub new_line : List ℕ → List ℕ
new_line line = 10 ∷ line

-- The lines of the text, each behind the "\n" that the line before it left.
pub tokens-lines_text :
    (lines more : List (List ℕ))
    → All IsOneLine lines
    → tokens (10 ∷ lines_text (lines ++ more)) ≡ map new_line lines ++ tokens (10 ∷ lines_text more)
tokens-lines_text [] more h = refl
tokens-lines_text (line ∷ lines) more (p, h) =
    let cut : tokens (10 ∷ lines_text (line ∷ (lines ++ more)))
        ≡ new_line line ∷ tokens (10 ∷ lines_text (lines ++ more)) =
      unfold lines_text in tokens-line 10 line (10 ∷ lines_text (lines ++ more)) (refl, p) in
    cut ∙ ap (λ ts. new_line line ∷ ts) (tokens-lines_text lines more h)

-- A body at the front of the text, what follows it, and the "\n" behind the last line.
pub tokens-front :
    (t : List ℕ) (lines : List (List ℕ))
    → All IsOneLine lines
    → tokens (lines_text (t ∷ lines)) ≡ tokens t ++ (map new_line lines ++ ((10 ∷ []) ∷ []))
tokens-front t lines h =
    let cut : tokens (lines_text (t ∷ lines)) ≡ tokens t ++ tokens (10 ∷ lines_text lines) =
      unfold lines_text in tokens-append t (10 ∷ lines_text lines) in
    let end : tokens (10 ∷ lines_text []) ≡ (10 ∷ []) ∷ [] =
      unfold tokens cut_tokens lines_text in refl in
    let tail =
      ap (λ ls. tokens (10 ∷ lines_text ls)) (sym (append-nil lines))
      ∙ tokens-lines_text lines [] h
      ∙ ap (λ ts. map new_line lines ++ ts) end in
    cut ∙ ap (λ ts. tokens t ++ ts) tail

-- The same behind another line.
pub tokens-body :
    (t : List ℕ) (lines : List (List ℕ))
    → All IsOneLine lines
    → tokens (10 ∷ lines_text (t ∷ lines))
      ≡ tokens (10 ∷ t) ++ (map new_line lines ++ ((10 ∷ []) ∷ []))
unfolding lines_text
tokens-body t lines h = tokens-front (10 ∷ t) lines h

pub trim-new_line : (s : List ℕ) → trim (10 ∷ s) ≡ trim s
unfolding trim skip_space
trim-new_line s = refl

pub trim_end-blank : (ws : List ℕ) → All (λ c. is_space c ≡ true) ws → trim_end ws ≡ []
unfolding trim_end
trim_end-blank [] h = refl
trim_end-blank (c ∷ ws) (p, h) = rw (trim_end-blank ws h, p) refl

pub trim_end-append :
    (s ws : List ℕ) → EndsSolid s → All (λ c. is_space c ≡ true) ws → trim_end (s ++ ws) ≡ s
unfolding trim_end
trim_end-append [] ws h k = trim_end-blank ws k
trim_end-append (c ∷ []) ws h k = rw (trim_end-blank ws k, h) refl
trim_end-append (c ∷ (x ∷ s)) ws h k = rw (trim_end-append (x ∷ s) ws h k) refl

-- White space behind a trimmed text is cut off.
pub trim-blank :
    (s ws : List ℕ) → IsTrimmed s → All (λ c. is_space c ≡ true) ws → trim (s ++ ws) ≡ s
unfolding trim skip_space
trim-blank [] ws h k = blank ws k
  where
    blank : (ws : List ℕ) → All (λ c. is_space c ≡ true) ws → trim_end (skip_space ws) ≡ []
    blank [] k = trim_end-blank [] tt
    blank (c ∷ ws) (p, k) = rw p (blank ws k)
trim-blank (c ∷ s) ws (h, e) k = rw h (trim_end-append (c ∷ s) ws e k)
