-- ===== src/Message/Text/Lines.antt =====
-- What one line of a text does to the message that `ftn_message_parse_text` of src/packet.c fills in,
-- for the lines that `ftn_message_create_text` writes.
use lib_ftn.Common.{ℕ, ◌<◌, false, Option, none, some, List, [], ◌∷◌, ◌++◌, codes, map}
use lib_ftn.Common.{length, str_eq, ◌≡◌, refl, ap, ◌∙◌, arith}
use lib_ftn.Common.Text.{is_space, skip_space}
use lib_ftn.Trim.{trim}
use lib_ftn.Trim.Laws.{IsTrimmed, EndsSolid, EndsSolid-append, trim_trimmed}
use lib_ftn.Message.Text.{
  parse_control, not_dash, is_control, Parsed, parse_trimmed, parse_line, parse_lines, set_line,
}
use lib_ftn.Message.Text.Tokens.{new_line, trim-new_line}

-- A text that stands in a line of its own kind.
abbrev pub IsValue : List ℕ → Type 0
IsValue v = IsTrimmed v × (0 < length v)

pub prefixed :
    (c : ℕ) (prefix v : List ℕ)
    → is_space c ≡ false
    → EndsSolid v
    → 0 < length v
    → trim (new_line ((c ∷ prefix) ++ v)) ≡ (c ∷ prefix) ++ v
prefixed c prefix [] h e k = absurd (omega arith)
prefixed c prefix (x ∷ v) h e k =
    trim-new_line ((c ∷ prefix) ++ (x ∷ v))
    ∙ trim_trimmed ((c ∷ prefix) ++ (x ∷ v)) (h, EndsSolid-append (c ∷ prefix) x v e)

-- The lines of a part of the text, each behind the "\n" that the line before it left.
abbrev pub run : Parsed → List (List ℕ) → Parsed
run p lines = parse_lines p (map new_line lines)

pub run-append : (p : Parsed) (a b : List (List ℕ)) → run p (a ++ b) ≡ run (run p a) b
unfolding parse_lines
run-append p [] b = refl
run-append p (line ∷ a) b = run-append (parse_line p (new_line line)) a b

pub run-one :
    (p q : Parsed) (line : List ℕ) → parse_line p (new_line line) ≡ q → run p (line ∷ []) ≡ q
unfolding parse_lines
run-one p q line h = h

abbrev pub AllIf : (List ℕ → Type 0) → Option (List ℕ) → Type 0
AllIf P none = Unit
AllIf P (some v) = P v

intl_line :
    (p : Parsed) (v : List ℕ)
    → IsValue v
    → parse_line p (new_line ((1 ∷ codes "INTL ") ++ v))
      ≡ record p { message = record p.message { intl = some v } }
unfolding parse_line parse_trimmed parse_control is_control not_dash str_eq trim skip_space
intl_line p v h =
    ap (λ t. parse_trimmed p t (new_line ((1 ∷ codes "INTL ") ++ v)))
      (prefixed 1 (codes "INTL ") v refl h.0.1 h.1)
    ∙ ap (λ x. record p { message = record p.message { intl = some x } }) (trim_trimmed v h.0)

pub run-intl :
    (p : Parsed) (o : Option (List ℕ))
    → p.message.intl ≡ none
    → AllIf IsValue o
    → run p (set_line (1 ∷ codes "INTL ") o) ≡ record p { message = record p.message { intl = o } }
unfolding parse_lines
run-intl p none e h = λ i. record p { message = record p.message { intl = e i } }
run-intl p (some v) e h = intl_line p v h

tzutc_line :
    (p : Parsed) (v : List ℕ)
    → IsValue v
    → parse_line p (new_line ((1 ∷ codes "TZUTC: ") ++ v))
      ≡ record p { message = record p.message { tzutc = some v } }
unfolding parse_line parse_trimmed parse_control is_control not_dash str_eq trim skip_space
tzutc_line p v h =
    ap (λ t. parse_trimmed p t (new_line ((1 ∷ codes "TZUTC: ") ++ v)))
      (prefixed 1 (codes "TZUTC: ") v refl h.0.1 h.1)
    ∙ ap (λ x. record p { message = record p.message { tzutc = some x } }) (trim_trimmed v h.0)

pub run-tzutc :
    (p : Parsed) (o : Option (List ℕ))
    → p.message.tzutc ≡ none
    → AllIf IsValue o
    → run p (set_line (1 ∷ codes "TZUTC: ") o)
      ≡ record p { message = record p.message { tzutc = o } }
unfolding parse_lines
run-tzutc p none e h = λ i. record p { message = record p.message { tzutc = e i } }
run-tzutc p (some v) e h = tzutc_line p v h

msgid_line :
    (p : Parsed) (v : List ℕ)
    → IsValue v
    → parse_line p (new_line ((1 ∷ codes "MSGID: ") ++ v))
      ≡ record p { message = record p.message { msgid = some v } }
unfolding parse_line parse_trimmed parse_control is_control not_dash str_eq trim skip_space
msgid_line p v h =
    ap (λ t. parse_trimmed p t (new_line ((1 ∷ codes "MSGID: ") ++ v)))
      (prefixed 1 (codes "MSGID: ") v refl h.0.1 h.1)
    ∙ ap (λ x. record p { message = record p.message { msgid = some x } }) (trim_trimmed v h.0)

pub run-msgid :
    (p : Parsed) (o : Option (List ℕ))
    → p.message.msgid ≡ none
    → AllIf IsValue o
    → run p (set_line (1 ∷ codes "MSGID: ") o)
      ≡ record p { message = record p.message { msgid = o } }
unfolding parse_lines
run-msgid p none e h = λ i. record p { message = record p.message { msgid = e i } }
run-msgid p (some v) e h = msgid_line p v h

reply_line :
    (p : Parsed) (v : List ℕ)
    → IsValue v
    → parse_line p (new_line ((1 ∷ codes "REPLY: ") ++ v))
      ≡ record p { message = record p.message { reply = some v } }
unfolding parse_line parse_trimmed parse_control is_control not_dash str_eq trim skip_space
reply_line p v h =
    ap (λ t. parse_trimmed p t (new_line ((1 ∷ codes "REPLY: ") ++ v)))
      (prefixed 1 (codes "REPLY: ") v refl h.0.1 h.1)
    ∙ ap (λ x. record p { message = record p.message { reply = some x } }) (trim_trimmed v h.0)

pub run-reply :
    (p : Parsed) (o : Option (List ℕ))
    → p.message.reply ≡ none
    → AllIf IsValue o
    → run p (set_line (1 ∷ codes "REPLY: ") o)
      ≡ record p { message = record p.message { reply = o } }
unfolding parse_lines
run-reply p none e h = λ i. record p { message = record p.message { reply = e i } }
run-reply p (some v) e h = reply_line p v h
