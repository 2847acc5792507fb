-- ===== src/Message/Text/Several.antt =====
-- What the lines of several values do to the message that `ftn_message_parse_text` of src/packet.c fills in,
-- for the lines that `ftn_message_create_text` writes.
use lib_ftn.Common.{ℕ, false, List, [], ◌∷◌, ◌++◌, codes, map}
use lib_ftn.Common.{str_eq, ◌≡◌, refl, sym, ap, ◌∙◌, All}
use lib_ftn.Common.Text.{skip_space}
use lib_ftn.Trim.{trim}
use lib_ftn.Trim.Laws.{trim_trimmed}
use lib_ftn.Message.{add_control}
use lib_ftn.Message.Text.{
  has_prefix, parse_control, is_control, Parsed, parse_trimmed, parse_line, parse_lines,
}
use lib_ftn.Message.Text.Tokens.{new_line}
use mathlib.Core.List.{append_assoc, append-nil}
use lib_ftn.Message.Text.Lines.{IsValue, prefixed, run}

-- The control lines that have a field of their own.
abbrev pub control_tags : List (List ℕ)
control_tags =
    codes "MSGID:"
    ∷ (codes "REPLY:"
        ∷ (codes "PATH:"
            ∷ (codes "FMPT "
                ∷ (codes "TOPT " ∷ (codes "INTL " ∷ (codes "TZUTC:" ∷ (codes "Via " ∷ [])))))))

-- A control line of another kind.
abbrev pub IsGeneric : List ℕ → Type 0
IsGeneric s = IsValue s × All (λ tag. has_prefix tag s ≡ false) control_tags

generic_line :
    (p : Parsed) (s : List ℕ)
    → IsGeneric s
    → parse_line p (new_line (1 ∷ s)) ≡ record p { message = add_control p.message s }
unfolding parse_line parse_trimmed parse_control is_control str_eq
generic_line p s (h, (h0, (h1, (h2, (h3, (h4, (h5, (h6, (h7, _))))))))) =
    ap (λ t. parse_trimmed p t (new_line (1 ∷ s))) (prefixed 1 [] s refl h.0.1 h.1)
    ∙ rw (h0, h1, h2, h3, h4, h5, h6, h7) refl

via_line :
    (p : Parsed) (w : List ℕ)
    → IsValue w
    → parse_line p (new_line (1 ∷ (codes "Via " ++ w))) ≡ record p {
      message = record p.message { via_lines = p.message.via_lines ++ ((codes "Via " ++ w) ∷ []) };
    }
unfolding parse_line parse_trimmed parse_control is_control str_eq
via_line p w h =
    ap (λ t. parse_trimmed p t (new_line (1 ∷ (codes "Via " ++ w))))
      (prefixed 1 (codes "Via ") w refl h.0.1 h.1)

seenby_line :
    (p : Parsed) (v : List ℕ)
    → IsValue v
    → parse_line p (new_line (codes "SEEN-BY:" ++ v))
      ≡ record p { message = record p.message { seenby = p.message.seenby ++ (v ∷ []) } }
unfolding parse_line parse_trimmed is_control str_eq
seenby_line p v h =
    ap (λ t. parse_trimmed p t (new_line (codes "SEEN-BY:" ++ v)))
      (prefixed 83 (codes "EEN-BY:") v refl h.0.1 h.1)
    ∙ ap (λ x. record p { message = record p.message { seenby = p.message.seenby ++ (x ∷ []) } })
        (trim_trimmed v h.0)

path_line :
    (p : Parsed) (v : List ℕ)
    → IsValue v
    → parse_line p (new_line ((1 ∷ codes "PATH: ") ++ v))
      ≡ record p { message = record p.message { path = p.message.path ++ (v ∷ []) } }
unfolding parse_line parse_trimmed parse_control is_control str_eq trim skip_space
path_line p v h =
    ap (λ t. parse_trimmed p t (new_line ((1 ∷ codes "PATH: ") ++ v)))
      (prefixed 1 (codes "PATH: ") v refl h.0.1 h.1)
    ∙ ap (λ x. record p { message = record p.message { path = p.message.path ++ (x ∷ []) } })
        (trim_trimmed v h.0)

-- A line of `ftn_message_add_via`.
abbrev pub IsVia : List ℕ → Type 0
IsVia v = (w : List ℕ) × (v ≡ codes "Via " ++ w) × IsValue w

pub run-controls :
    (p : Parsed) (vs : List (List ℕ))
    → All IsGeneric vs
    → run p (map (λ s. 1 ∷ s) vs)
      ≡ record p { message = record p.message { control_lines = p.message.control_lines ++ vs } }
unfolding parse_lines
run-controls p [] h = λ i. record p {
  message = record p.message { control_lines = sym (append-nil p.message.control_lines) i };
}
run-controls p (v ∷ vs) (h, k) =
    let next : Parsed = record p {
      message = record p.message { control_lines = p.message.control_lines ++ (v ∷ []) };
    } in
    ap (λ q. run q (map (λ s. 1 ∷ s) vs)) (generic_line p v h) ∙ run-controls next vs k ∙ (λ i.
      record p {
        message = record p.message {
          control_lines = append_assoc p.message.control_lines (v ∷ []) vs i;
        };
      })

via_step :
    (p : Parsed) (v : List ℕ)
    → IsVia v
    → parse_line p (new_line (1 ∷ v))
      ≡ record p { message = record p.message { via_lines = p.message.via_lines ++ (v ∷ []) } }
via_step p v (w, e, h) = rw e (via_line p w h)

pub run-via :
    (p : Parsed) (vs : List (List ℕ))
    → All IsVia vs
    → run p (map (λ s. 1 ∷ s) vs)
      ≡ record p { message = record p.message { via_lines = p.message.via_lines ++ vs } }
unfolding parse_lines
run-via p [] h = λ i. record p {
  message = record p.message { via_lines = sym (append-nil p.message.via_lines) i };
}
run-via p (v ∷ vs) (h, k) =
    let next : Parsed = record p {
      message = record p.message { via_lines = p.message.via_lines ++ (v ∷ []) };
    } in
    ap (λ q. run q (map (λ s. 1 ∷ s) vs)) (via_step p v h) ∙ run-via next vs k ∙ (λ i. record p {
      message = record p.message { via_lines = append_assoc p.message.via_lines (v ∷ []) vs i };
    })

pub run-seenby :
    (p : Parsed) (vs : List (List ℕ))
    → All IsValue vs
    → run p (map (λ s. codes "SEEN-BY:" ++ s) vs)
      ≡ record p { message = record p.message { seenby = p.message.seenby ++ vs } }
unfolding parse_lines
run-seenby p [] h =
    λ i. record p { message = record p.message { seenby = sym (append-nil p.message.seenby) i } }
run-seenby p (v ∷ vs) (h, k) =
    let next : Parsed = record p {
      message = record p.message { seenby = p.message.seenby ++ (v ∷ []) };
    } in
    ap (λ q. run q (map (λ s. codes "SEEN-BY:" ++ s) vs)) (seenby_line p v h)
    ∙ run-seenby next vs k
    ∙ (λ i. record p {
      message = record p.message { seenby = append_assoc p.message.seenby (v ∷ []) vs i };
    })

pub run-path :
    (p : Parsed) (vs : List (List ℕ))
    → All IsValue vs
    → run p (map (λ s. (1 ∷ codes "PATH: ") ++ s) vs)
      ≡ record p { message = record p.message { path = p.message.path ++ vs } }
unfolding parse_lines
run-path p [] h =
    λ i. record p { message = record p.message { path = sym (append-nil p.message.path) i } }
run-path p (v ∷ vs) (h, k) =
    let next : Parsed = record p {
      message = record p.message { path = p.message.path ++ (v ∷ []) };
    } in
    ap (λ q. run q (map (λ s. (1 ∷ codes "PATH: ") ++ s) vs)) (path_line p v h)
    ∙ run-path next vs k
    ∙ (λ i. record p {
      message = record p.message { path = append_assoc p.message.path (v ∷ []) vs i };
    })
