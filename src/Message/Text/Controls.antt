-- ===== src/Message/Text/Controls.antt =====
-- Which control lines `ftn_message_parse_text` of src/packet.c keeps as they are.
use lib_ftn.Common.{
  ℕ, Bool, true, false, ◌&&◌, List, [], ◌∷◌, ◌++◌, codes, ltb, length, str_eq, drop, ◌==◌,
}
use lib_ftn.Common.{◌≡◌, inl, inr, arith, All, Bool-cases}
use lib_ftn.Trim.{trim}
use lib_ftn.Message.{Message}
use lib_ftn.Message.Text.{
  has_prefix, tokens, parse_control, not_dash, is_control, Parsed, parse_trimmed, parse_line,
  parse_lines, finish_text, parse_text,
}

-- No control line is an MSGID in capitals.
abbrev pub IsWithoutId : List (List ℕ) → Type 0
IsWithoutId lines = All (λ s. has_prefix (codes "MSGID:") s ≡ false) lines

append-IsWithoutId :
    (lines : List (List ℕ)) (s : List ℕ)
    → IsWithoutId lines
    → has_prefix (codes "MSGID:") s ≡ false
    → IsWithoutId (lines ++ (s ∷ []))
append-IsWithoutId [] s h k = (k, tt)
append-IsWithoutId (x ∷ lines) s (p, h) k = (p, append-IsWithoutId lines s h k)

and_false : (a b : Bool) → a ≡ true → a && b ≡ false → b ≡ false
and_false true b h k = k
and_false false b h k = absurd (ground arith)

-- The text behind the first character, where that is 1 and the whole is no MSGID.
tail_prefix :
    (t : List ℕ)
    → is_control t ≡ true
    → has_prefix (1 ∷ codes "MSGID:") t ≡ false
    → has_prefix (codes "MSGID:") (drop 1 t) ≡ false
unfolding is_control str_eq
tail_prefix [] h k = absurd (ground arith)
tail_prefix (c ∷ s) h k = and_false (c == 1) (has_prefix (codes "MSGID:") s) h k

abbrev Keeps : Message → Type 0
Keeps m = IsWithoutId m.control_lines

parse_control-Keeps :
    (m : Message) (t : List ℕ) → is_control t ≡ true → Keeps m → Keeps (parse_control m t)
unfolding parse_control
parse_control-Keeps m t c h = elim (Bool-cases (has_prefix (1 ∷ codes "MSGID:") t)) [
  | inl id ↦ rw id h
  | inr other ↦ rw other (
      let last = append-IsWithoutId m.control_lines (drop 1 t) h (tail_prefix t c other) in
      (elim (Bool-cases (has_prefix (1 ∷ codes "REPLY:") t)) [
        | inl e ↦ rw e h
        | inr e ↦ rw e (elim (Bool-cases (has_prefix (1 ∷ codes "PATH:") t)) [
          | inl e ↦ rw e h
          | inr e ↦ rw e (elim (Bool-cases (has_prefix (1 ∷ codes "FMPT ") t)) [
            | inl e ↦ rw e h
            | inr e ↦ rw e (elim (Bool-cases (has_prefix (1 ∷ codes "TOPT ") t)) [
              | inl e ↦ rw e h
              | inr e ↦ rw e (elim (Bool-cases (has_prefix (1 ∷ codes "INTL ") t)) [
                | inl e ↦ rw e h
                | inr e ↦ rw e (elim (Bool-cases (has_prefix (1 ∷ codes "TZUTC:") t)) [
                  | inl e ↦ rw e h
                  | inr e ↦ rw e (elim (Bool-cases (has_prefix (1 ∷ codes "Via ") t)) [
                    | inl e ↦ rw e h
                    | inr e ↦ rw e last
                  ])
                ])
              ])
            ])
          ])
        ])
      ]))
]

abbrev AllKeep : Parsed → Type 0
AllKeep p = Keeps p.message

parse_trimmed-AllKeep :
    (p : Parsed) (t line : List ℕ) → AllKeep p → AllKeep (parse_trimmed p t line)
unfolding parse_trimmed
parse_trimmed-AllKeep p t line h = elim (Bool-cases (has_prefix (codes "AREA:") t)) [
  | inl e ↦ rw e h
  | inr e ↦ rw e (elim (Bool-cases (is_control t)) [
    | inl c ↦ rw c (parse_control-Keeps p.message t c h)
    | inr other ↦ rw other (elim (Bool-cases (has_prefix (codes "--- ") t && not_dash (drop 4 t))) [
      | inl e ↦ rw e h
      | inr e ↦ rw e (elim (Bool-cases (has_prefix (codes "* Origin:") t)) [
        | inl e ↦ rw e h
        | inr e ↦ rw e (elim (Bool-cases (has_prefix (codes "SEEN-BY:") t)) [
          | inl e ↦ rw e h
          | inr e ↦ rw e (elim (Bool-cases (has_prefix (codes "PATH:") t)) [
            | inl e ↦ rw e h
            | inr e ↦
                rw e
                  (elim (Bool-cases (ltb (length p.body) 999)) [ inl e ↦ rw e h | inr e ↦ rw e h ])
          ])
        ])
      ])
    ])
  ])
]

parse_lines-AllKeep :
    (p : Parsed) (lines : List (List ℕ)) → AllKeep p → AllKeep (parse_lines p lines)
unfolding parse_lines parse_line
parse_lines-AllKeep p [] h = h
parse_lines-AllKeep p (line ∷ lines) h =
    parse_lines-AllKeep (parse_trimmed p (trim line) line) lines
      (parse_trimmed-AllKeep p (trim line) line h)

-- Whatever text a message is read from, no MSGID in capitals gets into its control lines, when none
-- was there before. These are where the duplicate check looks for the id.
pub parse_text-IsWithoutId :
    (m : Message) (s : List ℕ)
    → IsWithoutId m.control_lines
    → IsWithoutId (parse_text m s).control_lines
unfolding parse_text finish_text
parse_text-IsWithoutId m s h = parse_lines-AllKeep (record { message = m; body = [] }) (tokens s) h
