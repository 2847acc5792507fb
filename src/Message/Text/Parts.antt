-- ===== src/Message/Text/Parts.antt =====
-- The lines in front of the body and behind it in a text that `ftn_message_create_text` of src/packet.c
-- makes, and what `ftn_message_parse_text` does with them.
use lib_ftn.Common.{ℕ, ◌^◌, ◌<◌, true, Option, none, some, List, [], ◌∷◌, ◌++◌, codes, map, ◌≡◌}
use lib_ftn.Common.{refl, ap, ◌∙◌, All, length}
use lib_ftn.Message.{Message, netmail}
use lib_ftn.Message.Text.{tokens, Parsed, create_lines, set_line, number_line}
use lib_ftn.Message.Text.Tokens.{IsOneLine}
use lib_ftn.Message.Text.Lines.{IsValue, run, run-append, AllIf, run-intl, run-tzutc, run-msgid}
use lib_ftn.Message.Text.Lines.{run-reply}
use lib_ftn.Message.Text.Numbers.{kind_of, run-area, run-fmpt, run-topt}
use lib_ftn.Message.Text.Several.{IsGeneric, IsVia, run-controls, run-via, run-seenby, run-path}
use lib_ftn.Message.Text.Body.{IsPlainLine, IsTearline, IsOrigin, run-tearline, run-origin}
use lib_ftn.Message.Text.Spaced.{lines_full}
use lib_ftn.Trim.Laws.{IsTrimmed}
use mathlib.Core.List.{append_assoc}

-- What `ftn_packet_load` has of a message before its text is read, with the text `old`.
abbrev pub cleared : Message → Option (List ℕ) → Message
cleared m old = record m {
  kind = netmail;
  text = old;
  area = none;
  origin = none;
  tearline = none;
  seenby = [];
  path = [];
  msgid = none;
  reply = none;
  control_lines = [];
  fmpt = 0;
  topt = 0;
  intl = none;
  tzutc = none;
  via_lines = [];
}

-- The lines in front of the body.
abbrev pub head_lines : Message → List (List ℕ)
head_lines m =
    set_line (codes "AREA:") m.area
    ++ (set_line (1 ∷ codes "INTL ") m.intl
        ++ (number_line (1 ∷ codes "FMPT ") m.fmpt
            ++ (number_line (1 ∷ codes "TOPT ") m.topt
                ++ (set_line (1 ∷ codes "TZUTC: ") m.tzutc
                    ++ (map (λ s. 1 ∷ s) m.control_lines
                        ++ (set_line (1 ∷ codes "MSGID: ") m.msgid
                            ++ set_line (1 ∷ codes "REPLY: ") m.reply))))))

-- The lines behind the body.
abbrev pub tail_lines : Message → List (List ℕ)
tail_lines m =
    set_line [] m.tearline
    ++ (set_line [] m.origin
        ++ (map (λ s. codes "SEEN-BY:" ++ s) m.seenby
            ++ (map (λ s. (1 ∷ codes "PATH: ") ++ s) m.path ++ map (λ s. 1 ∷ s) m.via_lines)))

-- A message of kind echomail exactly when it has an area, with the body `t`, whose fields can be told
-- apart in its text: no field but the body has a "\r"; area, INTL, TZUTC, ids, seen-by, path and other
-- control lines are trimmed and not empty, FMPT and TOPT have 32 bits, other control lines, tear line,
-- origin and via lines have the form of their kind; the body is trimmed, each "\r" of it is followed
-- by a character other than "\r", and its lines, fewer than 999, are none of another kind.
pub record IsReadable (m : Message) (t : List ℕ) : Type 0 where
  pub kind_fits : m.kind ≡ kind_of m.area
  pub text_set : m.text ≡ some t
  pub text_trimmed : IsTrimmed t
  pub text_full : lines_full t ≡ true
  pub text_plain : All IsPlainLine (tokens (10 ∷ t))
  pub text_fits : length (tokens (10 ∷ t)) < 999
  pub one_line_head : All IsOneLine (head_lines m)
  pub one_line_tail : All IsOneLine (tail_lines m)
  pub area_value : AllIf IsValue m.area
  pub intl_value : AllIf IsValue m.intl
  pub fmpt_fits : m.fmpt < 2 ^ 32
  pub topt_fits : m.topt < 2 ^ 32
  pub tzutc_value : AllIf IsValue m.tzutc
  pub controls_generic : All IsGeneric m.control_lines
  pub msgid_value : AllIf IsValue m.msgid
  pub reply_value : AllIf IsValue m.reply
  pub tearline_form : AllIf IsTearline m.tearline
  pub origin_form : AllIf IsOrigin m.origin
  pub seenby_values : All IsValue m.seenby
  pub path_values : All IsValue m.path
  pub via_forms : All IsVia m.via_lines

pub create_lines-head_lines :
    (m : Message) → create_lines m ≡ head_lines m ++ (set_line [] m.text ++ tail_lines m)
unfolding create_lines
create_lines-head_lines m =
    let part8 = set_line (1 ∷ codes "REPLY: ") m.reply in
    let part7 = set_line (1 ∷ codes "MSGID: ") m.msgid ++ part8 in
    let part6 = map (λ s. 1 ∷ s) m.control_lines ++ part7 in
    let part5 = set_line (1 ∷ codes "TZUTC: ") m.tzutc ++ part6 in
    let part4 = number_line (1 ∷ codes "TOPT ") m.topt ++ part5 in
    let part3 = number_line (1 ∷ codes "FMPT ") m.fmpt ++ part4 in
    let part2 = set_line (1 ∷ codes "INTL ") m.intl ++ part3 in
    let back = set_line [] m.text ++ tail_lines m in
    rw
      (
        append_assoc (set_line (codes "AREA:") m.area) part2 back,
        append_assoc (set_line (1 ∷ codes "INTL ") m.intl) part3 back,
        append_assoc (number_line (1 ∷ codes "FMPT ") m.fmpt) part4 back,
        append_assoc (number_line (1 ∷ codes "TOPT ") m.topt) part5 back,
        append_assoc (set_line (1 ∷ codes "TZUTC: ") m.tzutc) part6 back,
        append_assoc (map (λ s. 1 ∷ s) m.control_lines) part7 back,
        append_assoc (set_line (1 ∷ codes "MSGID: ") m.msgid) part8 back,
      )
      refl

chain : (p q r : Parsed) (a b : List (List ℕ)) → run p a ≡ q → run q b ≡ r → run p (a ++ b) ≡ r
chain p q r a b h k = run-append p a b ∙ ap (λ q. run q b) h ∙ k

-- The message when the lines in front of the body are read.
abbrev pub headed : Message → Option (List ℕ) → Message
headed m old = record (cleared m old) {
  kind = kind_of m.area;
  area = m.area;
  intl = m.intl;
  fmpt = m.fmpt;
  topt = m.topt;
  tzutc = m.tzutc;
  control_lines = m.control_lines;
  msgid = m.msgid;
  reply = m.reply;
}

pub run-head_lines :
    (m : Message) (old : Option (List ℕ)) (t : List ℕ)
    → IsReadable m t
    → run (record { message = cleared m old; body = [] }) (head_lines m)
      ≡ record { message = headed m old; body = [] }
run-head_lines m old t h =
    let part8 = set_line (1 ∷ codes "REPLY: ") m.reply in
    let part7 = set_line (1 ∷ codes "MSGID: ") m.msgid ++ part8 in
    let part6 = map (λ s. 1 ∷ s) m.control_lines ++ part7 in
    let part5 = set_line (1 ∷ codes "TZUTC: ") m.tzutc ++ part6 in
    let part4 = number_line (1 ∷ codes "TOPT ") m.topt ++ part5 in
    let part3 = number_line (1 ∷ codes "FMPT ") m.fmpt ++ part4 in
    let part2 = set_line (1 ∷ codes "INTL ") m.intl ++ part3 in
    chain _ _ _ (set_line (codes "AREA:") m.area) part2 (run-area _ m.area refl refl h.area_value) (
      chain _ _ _ (set_line (1 ∷ codes "INTL ") m.intl) part3 (run-intl _ m.intl refl h.intl_value)
        (chain _ _ _ (number_line (1 ∷ codes "FMPT ") m.fmpt) part4
          (run-fmpt _ m.fmpt refl h.fmpt_fits)
          (chain _ _ _ (number_line (1 ∷ codes "TOPT ") m.topt) part5
            (run-topt _ m.topt refl h.topt_fits)
            (chain _ _ _ (set_line (1 ∷ codes "TZUTC: ") m.tzutc) part6
              (run-tzutc _ m.tzutc refl h.tzutc_value)
              (chain _ _ _ (map (λ s. 1 ∷ s) m.control_lines) part7
                (run-controls _ m.control_lines h.controls_generic)
                (chain _ _ _ (set_line (1 ∷ codes "MSGID: ") m.msgid) part8
                  (run-msgid _ m.msgid refl h.msgid_value)
                  (run-reply _ m.reply refl h.reply_value)))))))

pub run-tail_lines :
    (m : Message) (old : Option (List ℕ)) (t : List ℕ) (body : List (List ℕ))
    → IsReadable m t
    → run (record { message = headed m old; body = body }) (tail_lines m)
      ≡ record { message = record m { kind = kind_of m.area; text = old }; body = body }
run-tail_lines m old t body h =
    let part5 = map (λ s. 1 ∷ s) m.via_lines in
    let part4 = map (λ s. (1 ∷ codes "PATH: ") ++ s) m.path ++ part5 in
    let part3 = map (λ s. codes "SEEN-BY:" ++ s) m.seenby ++ part4 in
    let part2 = set_line [] m.origin ++ part3 in
    chain _ _ _ (set_line [] m.tearline) part2 (run-tearline _ m.tearline refl h.tearline_form) (
      chain _ _ _ (set_line [] m.origin) part3 (run-origin _ m.origin refl h.origin_form) (
        chain _ _ _ (map (λ s. codes "SEEN-BY:" ++ s) m.seenby) part4
          (run-seenby _ m.seenby h.seenby_values)
          (chain _ _ _ (map (λ s. (1 ∷ codes "PATH: ") ++ s) m.path) part5
            (run-path _ m.path h.path_values) (run-via _ m.via_lines h.via_forms))))
