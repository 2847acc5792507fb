-- ===== src/Message/Text/Body.antt =====
-- What the lines of the body, a tear line and an origin do to the message that `ftn_message_parse_text` of src/packet.c fills in,
-- for the lines that `ftn_message_create_text` writes.
use lib_ftn.Common.{ℕ, ◌<◌, true, false, ◌&&◌, ◌||◌, Option, none, some, List, [], ◌∷◌, ◌++◌}
use lib_ftn.Common.{codes, length, ◌==◌, str_eq, drop, ◌≡◌, refl, ap, ◌∙◌, arith, Bool-cases}
use lib_ftn.Common.{inl, inr, ltb, ◌+◌, ◌≤◌, sym, All, length-append}
use mathlib.Core.List.{append_assoc, append-nil}
use lib_ftn.Common.Text.{skip_space}
use lib_ftn.Message.Text.{tokens, cut_tokens, cons_token, has_prefix, not_dash, is_control}
use lib_ftn.Message.Text.{Parsed, parse_trimmed, parse_line, parse_lines, set_line}
use lib_ftn.Message.Text.Spaced.{solid_line_end}
use lib_ftn.Trim.Laws.{IsTrimmed, EndsSolid}
use lib_ftn.Trim.{trim, trim_end}
use lib_ftn.Message.Text.Tokens.{new_line}
use mathlib.Core.Path.{subst}
use lib_ftn.Message.Text.Lines.{prefixed, run, AllIf}

-- A trimmed line that is no line of another kind than one of the body.
pub record IsPlain (t : List ℕ) : Type 0 where
  pub no_area : has_prefix (codes "AREA:") t ≡ false
  pub no_control : is_control t ≡ false
  pub no_tearline : (has_prefix (codes "--- ") t && not_dash (drop 4 t)) ≡ false
  pub no_origin : has_prefix (codes "* Origin:") t ≡ false
  pub no_seenby : has_prefix (codes "SEEN-BY:") t ≡ false
  pub no_path : has_prefix (codes "PATH:") t ≡ false

abbrev pub IsPlainLine : List ℕ → Type 0
IsPlainLine line = IsPlain (trim line)

plain_line :
    (p : Parsed) (line : List ℕ)
    → IsPlainLine line
    → length p.body < 999
    → parse_line p line ≡ record p { body = p.body ++ (line ∷ []) }
unfolding parse_line parse_trimmed
plain_line p line h room =
    let fits : ltb (length p.body) 999 ≡ true = ground arith in
    rw (h.no_area, h.no_control, h.no_tearline, h.no_origin, h.no_seenby, h.no_path, fits) refl

-- Lines of the body, as long as there is room for them.
pub parse_lines-body :
    (p : Parsed) (lines : List (List ℕ))
    → All IsPlainLine lines
    → length p.body + length lines ≤ 999
    → parse_lines p lines ≡ record p { body = p.body ++ lines }
unfolding parse_lines
parse_lines-body p [] h room = λ i. record p { body = sym (append-nil p.body) i }
parse_lines-body p (line ∷ lines) (h, k) room =
    let next : Parsed = record p { body = p.body ++ (line ∷ []) } in
    let counted = length-append p.body (line ∷ []) in
    ap (λ q. parse_lines q lines) (plain_line p line h (omega (arith, room)))
    ∙ parse_lines-body next lines k (omega (arith, room, counted))
    ∙ (λ i. record p { body = append_assoc p.body (line ∷ []) lines i })

abbrev pub IsTearline : List ℕ → Type 0
IsTearline line =
    (c : ℕ) × (s : List ℕ) × (line ≡ codes "--- " ++ (c ∷ s))
    × ((c == b'-') ≡ false)
    × EndsSolid (c ∷ s)

tear_line :
    (p : Parsed) (c : ℕ) (s : List ℕ)
    → (c == b'-') ≡ false
    → EndsSolid (c ∷ s)
    → parse_line p (new_line (codes "--- " ++ (c ∷ s)))
      ≡ record p { message = record p.message { tearline = some (codes "--- " ++ (c ∷ s)) } }
unfolding parse_line parse_trimmed is_control not_dash str_eq
tear_line p c s h e =
    ap (λ t. parse_trimmed p t (new_line (codes "--- " ++ (c ∷ s))))
      (prefixed 45 (codes "-- ") (c ∷ s) refl e (omega arith))
    ∙ rw h refl

pub run-tearline :
    (p : Parsed) (o : Option (List ℕ))
    → p.message.tearline ≡ none
    → AllIf IsTearline o
    → run p (set_line [] o) ≡ record p { message = record p.message { tearline = o } }
unfolding parse_lines
run-tearline p none e h = λ i. record p { message = record p.message { tearline = e i } }
run-tearline p (some line) e (c, s, same, h, k) = rw same (tear_line p c s h k)

abbrev pub IsOrigin : List ℕ → Type 0
IsOrigin line = (w : List ℕ) × (line ≡ codes "* Origin:" ++ w) × EndsSolid w × (0 < length w)

origin_line :
    (p : Parsed) (w : List ℕ)
    → EndsSolid w
    → 0 < length w
    → parse_line p (new_line (codes "* Origin:" ++ w))
      ≡ record p { message = record p.message { origin = some (codes "* Origin:" ++ w) } }
unfolding parse_line parse_trimmed is_control not_dash str_eq
origin_line p w e h =
    ap (λ t. parse_trimmed p t (new_line (codes "* Origin:" ++ w)))
      (prefixed 42 (codes " Origin:") w refl e h)

pub run-origin :
    (p : Parsed) (o : Option (List ℕ))
    → p.message.origin ≡ none
    → AllIf IsOrigin o
    → run p (set_line [] o) ≡ record p { message = record p.message { origin = o } }
unfolding parse_lines
run-origin p none e h = λ i. record p { message = record p.message { origin = e i } }
run-origin p (some line) e (w, same, h, k) = rw same (origin_line p w h k)

-- The "\n" behind the last line is a line of the body.
pub last-IsPlain : IsPlainLine (10 ∷ [])
unfolding is_control not_dash str_eq trim skip_space trim_end
last-IsPlain = record {
  no_area = refl;
  no_control = refl;
  no_tearline = refl;
  no_origin = refl;
  no_seenby = refl;
  no_path = refl;
}

-- A line that is not one of the body is the same with a "\n" in front.
pub front_line :
    (p : Parsed) (t a b : List ℕ)
    → has_prefix (codes "AREA:") t || is_control t ≡ true
    → parse_trimmed p t a ≡ parse_trimmed p t b
unfolding parse_trimmed
front_line p t a b h = elim (Bool-cases (has_prefix (codes "AREA:") t)) [
  | inl area ↦ rw area refl
  | inr other ↦
      let control : is_control t ≡ true = subst (λ x. x || is_control t ≡ true) other h in
      rw (other, control) refl
]

-- The lines of a body that starts a text are those it has behind a line, less the "\n" in front.
pub front-IsPlainLine :
    (t : List ℕ) → IsTrimmed t → All IsPlainLine (tokens (10 ∷ t)) → All IsPlainLine (tokens t)
unfolding tokens cut_tokens trim skip_space
front-IsPlainLine [] h k = tt
front-IsPlainLine (c ∷ s) h k =
    let solid = solid_line_end c h.0 in
    let (token, later) = cut_tokens s in
    let front : tokens (c ∷ s) ≡ (c ∷ token) ∷ later = rw solid refl in
    let behind : tokens (10 ∷ (c ∷ s)) ≡ (10 ∷ (c ∷ token)) ∷ later = rw solid refl in
    subst (All IsPlainLine) (sym front) (subst (All IsPlainLine) behind k)

pub tokens-new_line : (t : List ℕ) → length (tokens t) ≤ length (tokens (10 ∷ t))
unfolding tokens cut_tokens
tokens-new_line t = shorter (cut_tokens t).0 (cut_tokens t).1
  where
    shorter :
        (token : List ℕ) (later : List (List ℕ))
        → length (cons_token token later) ≤ length ((10 ∷ token) ∷ later)
    shorter [] later = omega arith
    shorter (c ∷ token) later = omega arith
