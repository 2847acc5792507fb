-- ===== src/Message/Text.antt =====
-- The text of a message with its control lines: `ftn_message_parse_text` and
-- `ftn_message_create_text` of src/packet.c.
pub mod Tokens
pub mod Lines
pub mod Numbers
pub mod Several
pub mod Spaced
pub mod Body
pub mod Parts
pub mod Front
pub mod RoundTrip
pub mod Controls
pub mod Sample
use lib_ftn.Common.{ℕ, Bool, true, false, not, ◌&&◌, Option, none, some, List, [], ◌∷◌, ◌++◌, map}
use lib_ftn.Common.{if◌then◌else◌, ltb, ◌==◌, str_eq, codes, take, drop, length}
use lib_ftn.Common.Text.{decimal}
use lib_ftn.Common.Text.Long.{atoi}
use lib_ftn.Trim.{trim}
use lib_ftn.Message.{Message, echomail, add_seenby, add_path, add_control}

-- `strncmp(line, prefix, strlen(prefix)) == 0`
abbrev pub has_prefix : List ℕ → List ℕ → Bool
has_prefix prefix line = str_eq (take (length prefix) line) prefix

abbrev pub cons_token : List ℕ → List (List ℕ) → List (List ℕ)
cons_token [] later = later
cons_token (c ∷ token) later = (c ∷ token) ∷ later

-- The token that the text starts with, and those after it, as calls of `strtok_r` with "\r" give
-- them: no token is empty.
unfoldable pub cut_tokens : List ℕ → List ℕ × List (List ℕ)
cut_tokens [] = ([], [])
cut_tokens (c ∷ s) =
    let cut = cut_tokens s in if c == 13 then ([], cons_token cut.0 cut.1) else (c ∷ cut.0, cut.1)

unfoldable pub tokens : List ℕ → List (List ℕ)
unfolding cut_tokens
tokens s = let cut = cut_tokens s in cons_token cut.0 cut.1

-- The branches for a line that starts with `\001`.
unfoldable pub parse_control : Message → List ℕ → Message
parse_control m t =
    if has_prefix (1 ∷ codes "MSGID:") t
    then record m { msgid = some (trim (drop 7 t)) }
    else if has_prefix (1 ∷ codes "REPLY:") t
    then record m { reply = some (trim (drop 7 t)) }
    else if has_prefix (1 ∷ codes "PATH:") t
    then add_path m (drop 6 t)
    else if has_prefix (1 ∷ codes "FMPT ") t
    then record m { fmpt = atoi (drop 6 t) }
    else if has_prefix (1 ∷ codes "TOPT ") t
    then record m { topt = atoi (drop 6 t) }
    else if has_prefix (1 ∷ codes "INTL ") t
    then record m { intl = some (trim (drop 6 t)) }
    else if has_prefix (1 ∷ codes "TZUTC:") t
    then record m { tzutc = some (trim (drop 7 t)) }
    else if has_prefix (1 ∷ codes "Via ") t
    then record m { via_lines = m.via_lines ++ (drop 1 t ∷ []) }
    else add_control m (drop 1 t)

unfoldable pub not_dash : List ℕ → Bool
not_dash [] = false
not_dash (c ∷ s) = not (c == b'-')

-- `trimmed_line[0] == '\001'`
unfoldable pub is_control : List ℕ → Bool
is_control [] = false
is_control (c ∷ t) = c == 1

-- A message with the lines of its body so far.
pub record Parsed : Type 0 where
  pub message : Message
  pub body : List (List ℕ)

-- One round of the loop, with the trimmed line and the line as it stands.
unfoldable pub parse_trimmed : Parsed → List ℕ → List ℕ → Parsed
unfolding parse_control not_dash is_control
parse_trimmed p t line =
    let m = p.message in
    if has_prefix (codes "AREA:") t
    then record p { message = record m { kind = echomail; area = some (trim (drop 5 t)) } }
    else if is_control t
    then record p { message = parse_control m t }
    else if has_prefix (codes "--- ") t && not_dash (drop 4 t)
    then record p { message = record m { tearline = some t } }
    else if has_prefix (codes "* Origin:") t
    then record p { message = record m { origin = some t } }
    else if has_prefix (codes "SEEN-BY:") t
    then record p { message = add_seenby m (drop 8 t) }
    else if has_prefix (codes "PATH:") t
    then record p { message = add_path m (drop 5 t) }
    else if ltb (length p.body) 999
    then record p { body = p.body ++ (line ∷ []) }
    else p

unfoldable pub parse_line : Parsed → List ℕ → Parsed
unfolding parse_trimmed
parse_line p line = parse_trimmed p (trim line) line

unfoldable pub parse_lines : Parsed → List (List ℕ) → Parsed
unfolding parse_line
parse_lines p [] = p
parse_lines p (line ∷ lines) = parse_lines (parse_line p line) lines

abbrev pub crlf : List ℕ
crlf = 13 ∷ (10 ∷ [])

unfoldable pub join_lines : List (List ℕ) → List ℕ
join_lines [] = []
join_lines (line ∷ []) = line
join_lines (line ∷ (next ∷ lines)) = line ++ (crlf ++ join_lines (next ∷ lines))

-- The body put together again; a message without one has the empty text, which `trim` keeps.
unfoldable pub finish_text : Parsed → Message
unfolding join_lines
finish_text p = record p.message { text = some (trim (join_lines p.body)) }

-- `ftn_message_parse_text`; the code is always success.
unfoldable pub parse_text : Message → List ℕ → Message
unfolding tokens parse_lines finish_text
parse_text m s = finish_text (parse_lines (record { message = m; body = [] }) (tokens s))

-- A line that is written when the text is set.
abbrev pub set_line : List ℕ → Option (List ℕ) → List (List ℕ)
set_line prefix none = []
set_line prefix (some s) = (prefix ++ s) ∷ []

-- A line that is written when the number is not 0.
abbrev pub number_line : List ℕ → ℕ → List (List ℕ)
number_line prefix n = if ltb 0 n then (prefix ++ decimal n) ∷ [] else []

-- What `ftn_message_create_text` writes in front of each "\r\n".
unfoldable pub create_lines : Message → List (List ℕ)
create_lines m =
    set_line (codes "AREA:") m.area
    ++ (set_line (1 ∷ codes "INTL ") m.intl
        ++ (number_line (1 ∷ codes "FMPT ") m.fmpt
            ++ (number_line (1 ∷ codes "TOPT ") m.topt
                ++ (set_line (1 ∷ codes "TZUTC: ") m.tzutc
                    ++ (map (λ s. 1 ∷ s) m.control_lines
                        ++ (set_line (1 ∷ codes "MSGID: ") m.msgid
                            ++ (set_line (1 ∷ codes "REPLY: ") m.reply
                                ++ (set_line [] m.text
                                    ++ (set_line [] m.tearline
                                        ++ (set_line [] m.origin
                                            ++ (map (λ s. codes "SEEN-BY:" ++ s) m.seenby
                                                ++ (map (λ s. (1 ∷ codes "PATH: ") ++ s) m.path
                                                    ++ map (λ s. 1 ∷ s) m.via_lines))))))))))))

unfoldable pub lines_text : List (List ℕ) → List ℕ
lines_text [] = []
lines_text (line ∷ lines) = line ++ (crlf ++ lines_text lines)

-- `ftn_message_create_text`
unfoldable pub create_text : Message → List ℕ
unfolding create_lines lines_text
create_text m = lines_text (create_lines m)
