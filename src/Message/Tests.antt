-- ===== src/Message/Tests.antt =====
-- Runs of the theorems on messages.
use lib_ftn.Message.Text.Sample.{two_lines, two_lines-plain, two_lines-fits, two_lines-IsTrimmed}
use lib_ftn.Message.Text.Sample.{two_lines-full}
use lib_ftn.Common.{ℕ, none, some, List, [], ◌∷◌, codes, ◌≡◌, refl, arith, str_eq, ◌++◌}
use lib_ftn.Message.{Message, message_new, netmail, echomail}
use lib_ftn.Common.Text.{skip_space}
use lib_ftn.Trim.{trim, trim_end}
use lib_ftn.Message.Text.{parse_text, create_text, create_lines, is_control, not_dash}
use lib_ftn.Message.Text.RoundTrip.{parse_text-create_text}
use lib_ftn.Message.Text.Parts.{cleared, IsReadable}
use lib_ftn.Message.Text.Spaced.{spaced}
use lib_ftn.Message.Text.Controls.{IsWithoutId, parse_text-IsWithoutId}

abbrev blank : Message
unfolding message_new
blank = message_new netmail 1000

-- The text of a message with an id.
abbrev text_with_id : List ℕ
text_with_id = 1 ∷ codes "MSGID: 21:1/100 abcd"

blank-IsWithoutId : IsWithoutId blank.control_lines
unfolding blank
blank-IsWithoutId = tt

parse_text-IsWithoutId_example : IsWithoutId (parse_text blank text_with_id).control_lines
parse_text-IsWithoutId_example = parse_text-IsWithoutId blank text_with_id blank-IsWithoutId

abbrev echo : Message
unfolding blank
echo = record blank {
  kind = echomail;
  text = some two_lines;
  area = some (codes "FSX_GEN");
  msgid = some (codes "21:1/100 abcd");
  control_lines = codes "CHRS: ASCII 1" ∷ [];
  tearline = some (codes "--- fn");
  origin = some (codes "* Origin: here (21:1/100)");
  seenby = codes "1/100" ∷ [];
  path = codes "1/100" ∷ [];
}

echo-IsReadable : IsReadable echo two_lines
unfolding echo create_lines is_control not_dash str_eq trim trim_end skip_space
echo-IsReadable = record {
  kind_fits = refl;
  text_set = refl;
  text_trimmed = two_lines-IsTrimmed;
  text_full = two_lines-full;
  text_plain = two_lines-plain;
  text_fits = two_lines-fits;
  one_line_head = ground arith;
  one_line_tail = ground arith;
  area_value = ((refl, refl), omega arith);
  intl_value = tt;
  fmpt_fits = omega arith;
  topt_fits = omega arith;
  tzutc_value = tt;
  controls_generic = (
    (
      ((refl, refl), omega arith),
      (refl, (refl, (refl, (refl, (refl, (refl, (refl, (refl, tt)))))))),
    ),
    tt,
  );
  msgid_value = ((refl, refl), omega arith);
  reply_value = tt;
  tearline_form = (102, codes "n", refl, refl, refl);
  origin_form = (codes " here (21:1/100)", refl, refl, omega arith);
  seenby_values = (((refl, refl), omega arith), tt);
  path_values = (((refl, refl), omega arith), tt);
  via_forms = tt;
}

parse_text-create_text_example :
    parse_text (cleared echo none) (create_text echo)
    ≡ record echo { text = some (codes "Hello" ++ (13 ∷ (10 ∷ (10 ∷ codes "world")))) }
unfolding spaced
parse_text-create_text_example = parse_text-create_text echo none two_lines echo-IsReadable
