-- ===== src/Message/Text/Front.antt =====
-- The first line of a text that `ftn_message_create_text` of src/packet.c makes, as
-- `ftn_message_parse_text` finds it: a line in front of the body, or the first of the body.
use lib_ftn.Common.{ℕ, Bool, str_eq, true, false, ◌||◌, Option, none, some, List, [], ◌∷◌, ◌++◌}
use lib_ftn.Common.{codes, map, ◌≡◌, refl, All, Bool-cases, inl, inr, ltb, arith}
use lib_ftn.Common.Text.{decimal, skip_space}
use lib_ftn.Trim.{trim, trim_end, put_front}
use lib_ftn.Trim.Laws.{trim_trimmed, EndsSolid-append}
use lib_ftn.Message.{Message}
use lib_ftn.Message.Text.{has_prefix, is_control, set_line, number_line}
use lib_ftn.Message.Text.Lines.{IsValue, AllIf}
use lib_ftn.Message.Text.Parts.{head_lines}

-- An area line or a control line.
abbrev pub IsFront : List ℕ → Type 0
IsFront line =
    (c : ℕ) × (s : List ℕ) × (line ≡ c ∷ s)
    × (has_prefix (codes "AREA:") (trim line) || is_control (trim line) ≡ true)

or_true : (b : Bool) → b || true ≡ true
or_true true = refl
or_true false = refl

control_put_front : (s : List ℕ) → is_control (put_front 1 s) ≡ true
unfolding is_control
control_put_front [] = refl
control_put_front (c ∷ s) = refl

control-IsFront : (s : List ℕ) → IsFront (1 ∷ s)
unfolding trim skip_space trim_end
control-IsFront s =
    let control : is_control (trim (1 ∷ s)) ≡ true = control_put_front (trim_end s) in
    (1, s, refl, rw control (or_true (has_prefix (codes "AREA:") (trim (1 ∷ s)))))

all_append : (a b : List (List ℕ)) → All IsFront a → All IsFront b → All IsFront (a ++ b)
all_append [] b h k = k
all_append (line ∷ a) b (p, h) k = (p, all_append a b h k)

set_line-IsFront : (prefix : List ℕ) (o : Option (List ℕ)) → All IsFront (set_line (1 ∷ prefix) o)
set_line-IsFront prefix none = tt
set_line-IsFront prefix (some s) = (control-IsFront (prefix ++ s), tt)

number_line-IsFront : (prefix : List ℕ) (n : ℕ) → All IsFront (number_line (1 ∷ prefix) n)
number_line-IsFront prefix n = elim (Bool-cases (ltb 0 n)) [
  | inl e ↦ rw e (control-IsFront (prefix ++ decimal n), tt)
  | inr e ↦ rw e tt
]

controls-IsFront : (lines : List (List ℕ)) → All IsFront (map (λ s. 1 ∷ s) lines)
controls-IsFront [] = tt
controls-IsFront (line ∷ lines) = (control-IsFront line, controls-IsFront lines)

area-IsFront : (o : Option (List ℕ)) → AllIf IsValue o → All IsFront (set_line (codes "AREA:") o)
unfolding str_eq
area-IsFront none h = tt
area-IsFront (some []) h = absurd (omega (arith, h.1))
area-IsFront (some (c ∷ v)) h =
    let kept =
      trim_trimmed (codes "AREA:" ++ (c ∷ v)) (refl, EndsSolid-append (codes "AREA:") c v h.0.1) in
    ((65, codes "REA:" ++ (c ∷ v), refl, rw kept refl), tt)

pub head_lines-IsFront : (m : Message) → AllIf IsValue m.area → All IsFront (head_lines m)
head_lines-IsFront m h = all_append (set_line (codes "AREA:") m.area) _ (area-IsFront m.area h) (
    all_append (set_line (1 ∷ codes "INTL ") m.intl) _ (set_line-IsFront (codes "INTL ") m.intl) (
      all_append (number_line (1 ∷ codes "FMPT ") m.fmpt) _
        (number_line-IsFront (codes "FMPT ") m.fmpt)
        (all_append (number_line (1 ∷ codes "TOPT ") m.topt) _
          (number_line-IsFront (codes "TOPT ") m.topt)
          (all_append (set_line (1 ∷ codes "TZUTC: ") m.tzutc) _
            (set_line-IsFront (codes "TZUTC: ") m.tzutc)
            (all_append (map (λ s. 1 ∷ s) m.control_lines) _ (controls-IsFront m.control_lines) (
              all_append (set_line (1 ∷ codes "MSGID: ") m.msgid) _
                (set_line-IsFront (codes "MSGID: ") m.msgid)
                (set_line-IsFront (codes "REPLY: ") m.reply)))))))
