-- ===== src/Message/Text/Numbers.antt =====
-- What the lines of several kinds do to the message that `ftn_message_parse_text` of src/packet.c fills in,
-- for the lines that `ftn_message_create_text` writes.
use lib_ftn.Common.{ℕ, ◌^◌, ◌<◌, Option, none, some, List, ◌∷◌, ◌++◌, codes}
use lib_ftn.Common.{ltb, str_eq, ◌≡◌, refl, ap, ◌∙◌, arith, Bool-cases}
use lib_ftn.Common.{inl, inr}
use lib_ftn.Common.Text.{decimal}
use lib_ftn.Common.Text.Long.{atoi_whole}
use lib_ftn.Common.Text.Words.{decimal-IsSolid, decimal_nonempty}
use lib_ftn.Trim.Laws.{trim_trimmed, solid-IsTrimmed}
use lib_ftn.Message.{echomail}
use lib_ftn.Message.Text.{
  parse_control, is_control, Parsed, parse_trimmed, parse_line, parse_lines, set_line, number_line,
}
use lib_ftn.Message.Text.Tokens.{new_line}
use lib_ftn.Message.{netmail, MessageType}
use lib_ftn.Message.Text.Lines.{IsValue, prefixed, run, AllIf}

-- A message with an area is echomail.
abbrev pub kind_of : Option (List ℕ) → MessageType
kind_of none = netmail
kind_of (some area) = echomail

area_line :
    (p : Parsed) (v : List ℕ)
    → IsValue v
    → parse_line p (new_line (codes "AREA:" ++ v))
      ≡ record p { message = record p.message { kind = echomail; area = some v } }
unfolding parse_line parse_trimmed str_eq
area_line p v h =
    ap (λ t. parse_trimmed p t (new_line (codes "AREA:" ++ v)))
      (prefixed 65 (codes "REA:") v refl h.0.1 h.1)
    ∙ ap (λ x. record p { message = record p.message { kind = echomail; area = some x } })
        (trim_trimmed v h.0)

pub run-area :
    (p : Parsed) (o : Option (List ℕ))
    → p.message.kind ≡ netmail
    → p.message.area ≡ none
    → AllIf IsValue o
    → run p (set_line (codes "AREA:") o)
      ≡ record p { message = record p.message { kind = kind_of o; area = o } }
unfolding parse_lines
run-area p none k e h = λ i. record p { message = record p.message { kind = k i; area = e i } }
run-area p (some v) k e h = area_line p v h

decimal-IsValue : (n : ℕ) → IsValue (decimal n)
decimal-IsValue n = (solid-IsTrimmed (decimal n) (decimal-IsSolid n), decimal_nonempty n)

fmpt_line :
    (p : Parsed) (n : ℕ)
    → n < 2 ^ 32
    → parse_line p (new_line ((1 ∷ codes "FMPT ") ++ decimal n))
      ≡ record p { message = record p.message { fmpt = n } }
unfolding parse_line parse_trimmed parse_control is_control str_eq
fmpt_line p n fits =
    let h = decimal-IsValue n in
    ap (λ t. parse_trimmed p t (new_line ((1 ∷ codes "FMPT ") ++ decimal n)))
      (prefixed 1 (codes "FMPT ") (decimal n) refl h.0.1 h.1)
    ∙ ap (λ x. record p { message = record p.message { fmpt = x } }) (atoi_whole n fits)

pub run-fmpt :
    (p : Parsed) (n : ℕ)
    → p.message.fmpt ≡ 0
    → n < 2 ^ 32
    → run p (number_line (1 ∷ codes "FMPT ") n)
      ≡ record p { message = record p.message { fmpt = n } }
unfolding parse_lines
run-fmpt p n e fits = elim (Bool-cases (ltb 0 n)) [
  | inl positive ↦ rw positive (fmpt_line p n fits)
  | inr zero_point ↦
      let same : p.message.fmpt ≡ n = e ∙ ground arith in
      rw zero_point (λ i. record p { message = record p.message { fmpt = same i } })
]

topt_line :
    (p : Parsed) (n : ℕ)
    → n < 2 ^ 32
    → parse_line p (new_line ((1 ∷ codes "TOPT ") ++ decimal n))
      ≡ record p { message = record p.message { topt = n } }
unfolding parse_line parse_trimmed parse_control is_control str_eq
topt_line p n fits =
    let h = decimal-IsValue n in
    ap (λ t. parse_trimmed p t (new_line ((1 ∷ codes "TOPT ") ++ decimal n)))
      (prefixed 1 (codes "TOPT ") (decimal n) refl h.0.1 h.1)
    ∙ ap (λ x. record p { message = record p.message { topt = x } }) (atoi_whole n fits)

pub run-topt :
    (p : Parsed) (n : ℕ)
    → p.message.topt ≡ 0
    → n < 2 ^ 32
    → run p (number_line (1 ∷ codes "TOPT ") n)
      ≡ record p { message = record p.message { topt = n } }
unfolding parse_lines
run-topt p n e fits = elim (Bool-cases (ltb 0 n)) [
  | inl positive ↦ rw positive (topt_line p n fits)
  | inr zero_point ↦
      let same : p.message.topt ≡ n = e ∙ ground arith in
      rw zero_point (λ i. record p { message = record p.message { topt = same i } })
]
