-- ===== src/Packet/Tests.antt =====
-- Runs of the theorems on packets.
use lib_ftn.Common.{ℕ, true, some, [], ◌∷◌, codes, ◌≡◌, refl, arith, str_eq, ◌++◌}
use lib_ftn.Common.Text.{decimal, skip_space}
use lib_ftn.Message.{Message, message_new, netmail}
use lib_ftn.Message.Date.{Tm, datetime_to_string}
use lib_ftn.Message.Text.{create_text, create_lines, lines_text, is_control, not_dash}
use lib_ftn.Packet.{PacketHeader, Packet, packet_load, packet_save, loaded}
use lib_ftn.Trim.{trim, trim_end}
use lib_ftn.Message.Text.Parts.{IsReadable}
use lib_ftn.Message.Text.Spaced.{spaced}
use lib_ftn.Message.Text.Sample.{two_lines, two_lines-plain, two_lines-fits, two_lines-IsTrimmed}
use lib_ftn.Message.Text.Sample.{two_lines-full}
use lib_ftn.Packet.Whole.{IsKept, packet_load-packet_save-restored}
use lib_ftn.Packet.RoundTrip.{IsHeader, IsPacked}

-- A clock that stands still, and its inverse.
abbrev new_year : Tm
new_year = record { mday = 1; mon = 0; year = 125; hour = 2; min = 34; sec = 56 }

abbrev clock : ℕ → Tm
clock t = new_year

abbrev unclock : Tm → ℕ
unclock tm = 1735698896

abbrev header : PacketHeader
header = record {
  orig_node = 100;
  dest_node = 1;
  year = 2025;
  month = 0;
  day = 1;
  hour = 2;
  minute = 34;
  second = 56;
  baud = 0;
  packet_type = 2;
  orig_net = 1;
  dest_net = 1;
  prod_code = 254;
  serial_no = 0;
  password = codes "password";
  orig_zone = 21;
  dest_zone = 21;
  fill = codes "12345678901234567890";
}

header-IsHeader : IsHeader header
header-IsHeader = record {
  fronts = ground arith;
  zones = ground arith;
  password_size = refl;
  fill_size = refl;
}

abbrev mail : Message
unfolding message_new
mail = record (message_new netmail 1735698896) {
  orig_addr = record { zone = 1; net = 1; node = 100; point = 5 };
  dest_addr = record { zone = 21; net = 1; node = 1; point = 0 };
  to_user = some (codes "Ann");
  from_user = some (codes "Bob");
  text = some two_lines;
  msgid = some (codes "21:1/100 abcd");
}

mail-IsPacked : IsPacked clock unclock 0 mail
unfolding mail decimal datetime_to_string create_text create_lines lines_text
mail-IsPacked = record {
  words = ground arith;
  date_size = refl;
  short_to = ground arith;
  short_from = ground arith;
  short_subject = ground arith;
  short_text = ground arith;
}

abbrev packet : Packet
packet = record { header = header; messages = mail ∷ [] }

mail-IsReadable : IsReadable mail two_lines
unfolding mail create_lines is_control not_dash str_eq trim trim_end skip_space
mail-IsReadable = record {
  kind_fits = refl;
  text_set = refl;
  text_trimmed = two_lines-IsTrimmed;
  text_full = two_lines-full;
  text_plain = two_lines-plain;
  text_fits = two_lines-fits;
  one_line_head = ground arith;
  one_line_tail = ground arith;
  area_value = tt;
  intl_value = tt;
  fmpt_fits = omega arith;
  topt_fits = omega arith;
  tzutc_value = tt;
  controls_generic = tt;
  msgid_value = ((refl, refl), omega arith);
  reply_value = tt;
  tearline_form = tt;
  origin_form = tt;
  seenby_values = tt;
  path_values = tt;
  via_forms = tt;
}

mail-IsKept : IsKept clock unclock 0 mail
unfolding mail
mail-IsKept = record {
  packed = mail-IsPacked;
  body = two_lines;
  readable = mail-IsReadable;
  date = record {
    mday_fits = omega arith;
    mon_fits = omega arith;
    year_late = omega arith;
    year_fits = omega arith;
    hour_fits = omega arith;
    min_fits = omega arith;
    sec_fits = omega arith;
  };
  time_kept = refl;
  time_fits = omega arith;
}

-- The message as it comes back.
abbrev returned : Message
unfolding mail
returned = record mail {
  orig_addr = record { zone = 21; net = 1; node = 100; point = 0 };
  subject = some [];
  text = some (codes "Hello" ++ (13 ∷ (10 ∷ (10 ∷ codes "world"))));
}

packet_load-packet_save-restored_example :
    packet_load unclock 0 (packet_save true clock packet).1
    ≡ loaded (record packet { messages = returned ∷ [] })
unfolding mail returned spaced
packet_load-packet_save-restored_example =
    packet_load-packet_save-restored clock unclock 0 packet header-IsHeader (mail-IsKept, tt)
