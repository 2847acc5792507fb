-- ===== src/Message/Text/RoundTrip.antt =====
-- A text that `ftn_message_create_text` of src/packet.c makes, read by `ftn_message_parse_text`.
use lib_ftn.Common.{ℕ, true, ◌||◌, Option, some, List, [], ◌∷◌, ◌++◌, codes, map, ◌≡◌, refl, sym}
use lib_ftn.Common.{ap, ◌∙◌, All, length-append, arith, length, ◌<◌}
use lib_ftn.Trim.{trim}
use lib_ftn.Message.{Message}
use lib_ftn.Message.Text.{has_prefix, is_control, tokens, Parsed, parse_trimmed, parse_line}
use lib_ftn.Message.Text.{parse_lines, finish_text, parse_text, lines_text, create_text}
use lib_ftn.Message.Text.{set_line, join_lines}
use lib_ftn.Message.Text.Tokens.{IsOneLine, tokens-line, new_line, tokens-lines_text}
use lib_ftn.Message.Text.Tokens.{tokens-body, trim-new_line, tokens-front}
use lib_ftn.Message.Text.Lines.{run}
use lib_ftn.Message.Text.Numbers.{kind_of}
use lib_ftn.Message.Text.Body.{parse_lines-body, last-IsPlain, front_line, IsPlainLine}
use lib_ftn.Message.Text.Body.{front-IsPlainLine, tokens-new_line}
use lib_ftn.Message.Text.Spaced.{spaced, trim-join_lines, trim-join_lines-front}
use mathlib.Core.Path.{subst}
use lib_ftn.Message.Text.Front.{IsFront, head_lines-IsFront}
use lib_ftn.Message.Text.Parts.{cleared, head_lines, tail_lines, IsReadable}
use lib_ftn.Message.Text.Parts.{create_lines-head_lines, run-head_lines, run-tail_lines}

lines-append :
    (p : Parsed) (a b : List (List ℕ)) → parse_lines p (a ++ b) ≡ parse_lines (parse_lines p a) b
unfolding parse_lines
lines-append p [] b = refl
lines-append p (line ∷ a) b = lines-append (parse_line p line) a b

-- A text that starts with a line in front of the body.
parse_lines-head :
    (p : Parsed) (head : List (List ℕ)) (t : List ℕ) (tail : List (List ℕ)) (c : ℕ) (line : List ℕ)
    (later : List (List ℕ))
    → head ≡ (c ∷ line) ∷ later
    → has_prefix (codes "AREA:") (trim (c ∷ line)) || is_control (trim (c ∷ line)) ≡ true
    → All IsOneLine head
    → All IsOneLine tail
    → parse_lines p (tokens (lines_text (head ++ (t ∷ tail))))
      ≡ parse_lines (run (parse_lines (run p head) (tokens (10 ∷ t))) tail) ((10 ∷ []) ∷ [])
parse_lines-head p head t tail c line later e front h k =
    let end : List (List ℕ) = (10 ∷ []) ∷ [] in
    let last : List (List ℕ) = map new_line tail ++ end in
    let rest : List (List ℕ) = map new_line later ++ (tokens (10 ∷ t) ++ last) in
    let lined : All IsOneLine ((c ∷ line) ∷ later) = subst (All IsOneLine) e h in
    let cut : tokens (lines_text ((c ∷ line) ∷ (later ++ (t ∷ tail)))) ≡ (c ∷ line) ∷ rest =
      unfold lines_text in
      tokens-line c line (10 ∷ lines_text (later ++ (t ∷ tail))) lined.0
      ∙ ap (λ ts. (c ∷ line) ∷ ts)
          (tokens-lines_text later (t ∷ tail) lined.1
            ∙ ap (λ ts. map new_line later ++ ts) (tokens-body t tail k)) in
    let first : parse_line p (c ∷ line) ≡ parse_line p (new_line (c ∷ line)) =
      unfold parse_line in
      front_line p (trim (c ∷ line)) (c ∷ line) (new_line (c ∷ line)) front
      ∙ ap (λ t. parse_trimmed p t (new_line (c ∷ line))) (sym (trim-new_line (c ∷ line))) in
    let q = parse_line p (new_line (c ∷ line)) in
    rw (e, cut)
      (unfold parse_lines in
        ap (λ q. parse_lines q rest) first
        ∙ lines-append q (map new_line later) (tokens (10 ∷ t) ++ last)
        ∙ lines-append (run q later) (tokens (10 ∷ t)) last
        ∙ lines-append (parse_lines (run q later) (tokens (10 ∷ t))) (map new_line tail) end)

-- A text that starts with the body.
parse_lines-front :
    (p : Parsed) (t : List ℕ) (tail : List (List ℕ))
    → All IsOneLine tail
    → parse_lines p (tokens (lines_text (t ∷ tail)))
      ≡ parse_lines (run (parse_lines p (tokens t)) tail) ((10 ∷ []) ∷ [])
parse_lines-front p t tail k =
    let end : List (List ℕ) = (10 ∷ []) ∷ [] in
    let last : List (List ℕ) = map new_line tail ++ end in
    let cut : tokens (lines_text (t ∷ tail)) ≡ tokens t ++ last = tokens-front t tail k in
    rw cut (
      lines-append p (tokens t) last
      ∙ lines-append (parse_lines p (tokens t)) (map new_line tail) end)

-- The lines of the body as the text has them: the first without a "\n" when it starts the text.
record IsBody (t : List ℕ) (body : List (List ℕ)) : Type 0 where
  plain : All IsPlainLine body
  fits : length body < 999
  joined : trim (join_lines (body ++ ((10 ∷ []) ∷ []))) ≡ spaced t

later-IsBody : (m : Message) (t : List ℕ) → IsReadable m t → IsBody t (tokens (10 ∷ t))
later-IsBody m t h = record {
  plain = h.text_plain;
  fits = h.text_fits;
  joined = trim-join_lines t h.text_trimmed h.text_full;
}

front-IsBody : (m : Message) (t : List ℕ) → IsReadable m t → IsBody t (tokens t)
front-IsBody m t h = record {
  plain = front-IsPlainLine t h.text_trimmed h.text_plain;
  fits = omega (arith, h.text_fits, tokens-new_line t);
  joined = trim-join_lines-front t h.text_trimmed h.text_full;
}

-- What is made of the lines, with those of the body in the middle.
finish_text-body :
    (m : Message) (old : Option (List ℕ)) (t : List ℕ) (body : List (List ℕ))
    → IsReadable m t
    → IsBody t body
    → finish_text (
        parse_lines
          (run
            (parse_lines (run (record { message = cleared m old; body = [] }) (head_lines m)) body)
            (tail_lines m))
          ((10 ∷ []) ∷ []))
      ≡ record m { text = some (spaced t) }
unfolding finish_text
finish_text-body m old t body h k =
    let end : List (List ℕ) = (10 ∷ []) ∷ [] in
    let tailed : Message = record m { kind = kind_of m.area; text = old } in
    let counted = length-append body end in
    let all =
      ap (λ p. parse_lines (run (parse_lines p body) (tail_lines m)) end) (run-head_lines m old t h)
      ∙ ap (λ p. parse_lines (run p (tail_lines m)) end)
          (parse_lines-body _ body k.plain (omega (arith, k.fits)))
      ∙ ap (λ p. parse_lines p end) (run-tail_lines m old t body h)
      ∙ parse_lines-body _ end (last-IsPlain, tt) (omega (arith, k.fits)) in
    ap finish_text all
    ∙ ap (λ s. record tailed { text = some s }) k.joined
    ∙ (λ i. record m { kind = sym h.kind_fits i; text = some (spaced t) })

by_head :
    (m : Message) (old : Option (List ℕ)) (t : List ℕ) (head : List (List ℕ))
    → head_lines m ≡ head
    → All IsFront head
    → IsReadable m t
    → finish_text (
        parse_lines
          (record { message = cleared m old; body = [] })
          (tokens (lines_text (head_lines m ++ (t ∷ tail_lines m)))))
      ≡ record m { text = some (spaced t) }
by_head m old t [] e k h =
    let start : Parsed = record { message = cleared m old; body = [] } in
    let none_run : run start (head_lines m) ≡ start =
      ap (λ ls. run start ls) e ∙ unfold parse_lines in refl in
    ap finish_text (
      ap (λ ls. parse_lines start (tokens (lines_text (ls ++ (t ∷ tail_lines m))))) e
      ∙ parse_lines-front start t (tail_lines m) h.one_line_tail
      ∙ ap (λ p. parse_lines (run (parse_lines p (tokens t)) (tail_lines m)) ((10 ∷ []) ∷ []))
          (sym none_run))
    ∙ finish_text-body m old t (tokens t) h (front-IsBody m t h)
by_head m old t (first ∷ later) e ((c, line, same, front), k) h =
    let start : Parsed = record { message = cleared m old; body = [] } in
    let starts : head_lines m ≡ (c ∷ line) ∷ later = e ∙ ap (λ l. l ∷ later) same in
    let known : has_prefix (codes "AREA:") (trim (c ∷ line)) || is_control (trim (c ∷ line))
        ≡ true =
      ap (λ l. has_prefix (codes "AREA:") (trim l) || is_control (trim l)) (sym same) ∙ front in
    ap finish_text (
      parse_lines-head start (head_lines m) t (tail_lines m) c line later starts known
        h.one_line_head h.one_line_tail)
    ∙ finish_text-body m old t (tokens (10 ∷ t)) h (later-IsBody m t h)

-- The text of a message whose fields can be told apart in it gives the message back when it is read
-- into the message without these fields, whatever text that holds: its kind, area, origin, tear line,
-- seen-by and path lines, ids, INTL, TZUTC, FMPT and TOPT, other control lines and via lines as they
-- were, and the body with a "\n" put behind each "\r" of it, so a body of one line as it was. The
-- fields can be told apart when the message is of kind echomail exactly with an area and has a body;
-- no field but the body has a "\r"; area, INTL, TZUTC, ids, seen-by, path and other control lines,
-- where set, are trimmed and not empty; FMPT and TOPT have 32 bits; another control line does not
-- start with the tag of a field; the tear line is "--- ", a character other than "-", and ends with no
-- white space; the origin is "* Origin:" and a text that is not empty and ends with no white space; a
-- via line is "Via " and a text that is trimmed and not empty; the body is trimmed, each "\r" of it is
-- followed by a character other than "\r", and its lines, fewer than 999, are none of another kind.
pub parse_text-create_text :
    (m : Message) (old : Option (List ℕ)) (t : List ℕ)
    → IsReadable m t
    → parse_text (cleared m old) (create_text m) ≡ record m { text = some (spaced t) }
unfolding parse_text create_text
parse_text-create_text m old t h =
    let start : Parsed = record { message = cleared m old; body = [] } in
    let split =
      create_lines-head_lines m
      ∙ ap (λ o. head_lines m ++ (set_line [] o ++ tail_lines m)) h.text_set in
    ap (λ ls. finish_text (parse_lines start (tokens (lines_text ls)))) split
    ∙ by_head m old t (head_lines m) refl (head_lines-IsFront m h.area_value) h
