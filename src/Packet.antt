-- ===== src/Packet.antt =====
-- Packets of messages as files: src/packet.c with `ftn_packet_header_t` and `ftn_packet_t` of
-- include/ftn/packet.h. `localtime`, `mktime` and the time of the load are parameters. A file is the
-- list of its bytes, and one that is written takes all of them. `malloc` succeeds.
pub mod Words
pub mod RoundTrip
pub mod Whole
mod Tests
use lib_ftn.Common.{ℕ, zero, suc, ◌+◌, ◌*◌, ◌/◌, ◌^◌, Bool, Option, none, some, List, [], ◌∷◌, ◌++◌}
use lib_ftn.Common.{if◌then◌else◌, ltb, ◌==◌, take, drop, length, bit_and, bit_or}
use lib_ftn.Common.Text.{c_string}
use lib_ftn.Error.{FtnError, ok, file_access, file_not_found, invalid_format}
use lib_ftn.Message.{Message, message_new, netmail}
use lib_ftn.Message.Date.{Tm, datetime_to_string, datetime_from_string}
use lib_ftn.Message.Text.{parse_text, create_text}

pub record PacketHeader : Type 0 where
  pub orig_node : ℕ
  pub dest_node : ℕ
  pub year : ℕ
  pub month : ℕ
  pub day : ℕ
  pub hour : ℕ
  pub minute : ℕ
  pub second : ℕ
  pub baud : ℕ
  pub packet_type : ℕ
  pub orig_net : ℕ
  pub dest_net : ℕ
  pub prod_code : ℕ
  pub serial_no : ℕ
  pub password : List ℕ
  pub orig_zone : ℕ
  pub dest_zone : ℕ
  pub fill : List ℕ

-- An array with its count is a list.
pub record Packet : Type 0 where
  pub header : PacketHeader
  pub messages : List Message

-- `n` bytes that are 0.
abbrev pub zeros : ℕ → List ℕ
zeros zero = []
zeros (suc n) = 0 ∷ zeros n

-- `ftn_packet_new`: all bytes are 0.
unfoldable pub packet_new : Packet
packet_new = record {
  header = record {
    orig_node = 0;
    dest_node = 0;
    year = 0;
    month = 0;
    day = 0;
    hour = 0;
    minute = 0;
    second = 0;
    baud = 0;
    packet_type = 0;
    orig_net = 0;
    dest_net = 0;
    prod_code = 0;
    serial_no = 0;
    password = zeros 8;
    orig_zone = 0;
    dest_zone = 0;
    fill = zeros 20;
  };
  messages = [];
}

-- `ftn_packet_add_message`
unfoldable pub packet_add_message : Packet → Message → Packet
packet_add_message packet m = record packet { messages = packet.messages ++ (m ∷ []) }

-- `read_uint16`: 0 at the end of the file, where a last byte is still used up.
unfoldable pub read_uint16 : List ℕ → ℕ × List ℕ
read_uint16 [] = (0, [])
read_uint16 (b0 ∷ []) = (0, [])
read_uint16 (b0 ∷ (b1 ∷ s)) = (bit_or b0 (b1 * 2 ^ 8), s)

-- `write_uint16`
unfoldable pub write_uint16 : ℕ → List ℕ
write_uint16 w = bit_and w 0xFF ∷ (bit_and (w / 2 ^ 8) 0xFF ∷ [])

-- `read_packed_string`
unfoldable pub read_packed_string : ℕ → List ℕ → List ℕ × List ℕ
read_packed_string zero s = ([], s)
read_packed_string (suc room) [] = ([], [])
read_packed_string (suc room) (c ∷ s) =
    let more = read_packed_string room s in if c == 0 then ([], s) else (c ∷ more.0, more.1)

abbrev pub text_or_empty : Option (List ℕ) → List ℕ
text_or_empty none = []
text_or_empty (some s) = s

-- `write_packed_string`
unfoldable pub write_packed_string : Option (List ℕ) → ℕ → List ℕ
write_packed_string text room = take room (text_or_empty text) ++ (0 ∷ [])

-- `fread` of so many bytes; `none` when the file has fewer.
unfoldable pub read_bytes : ℕ → List ℕ → Option (List ℕ × List ℕ)
read_bytes n s = if ltb (length s) n then none else some (take n s, drop n s)

-- Calls of `read_uint16` one after the other.
unfoldable pub read_words : ℕ → List ℕ → List ℕ × List ℕ
unfolding read_uint16
read_words zero s = ([], s)
read_words (suc n) s =
    let first = read_uint16 s in let later = read_words n first.1 in (first.0 ∷ later.0, later.1)

unfoldable pub words_bytes : List ℕ → List ℕ
unfolding write_uint16
words_bytes [] = []
words_bytes (w ∷ ws) = write_uint16 w ++ words_bytes ws

abbrev pub word : ℕ → List ℕ → ℕ
word i [] = 0
word zero (w ∷ ws) = w
word (suc i) (w ∷ ws) = word i ws

header_fill :
    List ℕ → ℕ → ℕ → List ℕ → List ℕ → Option (List ℕ × List ℕ) → Option (PacketHeader × List ℕ)
header_fill ws prod serial password zones none = none
header_fill ws prod serial password zones (some (fill, s)) = some (
  record {
    orig_node = word 0 ws;
    dest_node = word 1 ws;
    year = word 2 ws;
    month = word 3 ws;
    day = word 4 ws;
    hour = word 5 ws;
    minute = word 6 ws;
    second = word 7 ws;
    baud = word 8 ws;
    packet_type = word 9 ws;
    orig_net = word 10 ws;
    dest_net = word 11 ws;
    prod_code = prod;
    serial_no = serial;
    password = password;
    orig_zone = word 0 zones;
    dest_zone = word 1 zones;
    fill = fill;
  },
  s,
)

header_password : List ℕ → ℕ → ℕ → Option (List ℕ × List ℕ) → Option (PacketHeader × List ℕ)
unfolding header_fill
header_password ws prod serial none = none
header_password ws prod serial (some (password, s)) =
    let zones = read_words 2 s in
    header_fill ws prod serial password zones.0 (read_bytes 20 zones.1)

header_codes : List ℕ → List ℕ → Option (PacketHeader × List ℕ)
unfolding header_password
header_codes ws [] = none
header_codes ws (prod ∷ []) = none
header_codes ws (prod ∷ (serial ∷ s)) = header_password ws prod serial (read_bytes 8 s)

-- The header in `ftn_packet_load`; `none` when the file ends before.
unfoldable pub read_header : List ℕ → Option (PacketHeader × List ℕ)
unfolding header_codes
read_header s = let front = read_words 12 s in header_codes front.0 front.1

unfoldable pub stored_time : ℕ → Option ℕ → ℕ
stored_time now none = now
stored_time now (some t) = t

-- A message with its numbers and its date filled in.
unfoldable pub dated_message : (Tm → ℕ) → ℕ → PacketHeader → List ℕ → List ℕ → Message
unfolding stored_time
dated_message mktime now h ws date = record (message_new netmail now) {
  orig_addr = record { zone = h.orig_zone; net = word 2 ws; node = word 0 ws; point = 0 };
  dest_addr = record { zone = h.dest_zone; net = word 3 ws; node = word 1 ws; point = 0 };
  attributes = word 4 ws;
  cost = word 5 ws;
  timestamp = stored_time now (datetime_from_string mktime (c_string date)).1;
}

-- The four texts of a message, the last of which is parsed.
unfoldable pub with_texts : Message → List ℕ → List ℕ → List ℕ → List ℕ → Message
with_texts m to_user from_user subject text =
    parse_text
      (record m {
        to_user = some to_user;
        from_user = some from_user;
        subject = some subject;
        text = some text;
      })
      text

read_texts : Message → List ℕ → Message × List ℕ
read_texts m s =
    let to_user = read_packed_string 35 s in
    let from_user = read_packed_string 35 to_user.1 in
    let subject = read_packed_string 71 from_user.1 in
    let text = read_packed_string 65535 subject.1 in
    (with_texts m to_user.0 from_user.0 subject.0 text.0, text.1)

dated_texts :
    (Tm → ℕ) → ℕ → PacketHeader → List ℕ → Option (List ℕ × List ℕ) → Option (Message × List ℕ)
unfolding read_texts
dated_texts mktime now h ws none = none
dated_texts mktime now h ws (some (date, s)) =
    some (read_texts (dated_message mktime now h ws date) s)

-- One round of the loop of `ftn_packet_load`, after the type of the message.
unfoldable pub read_message : (Tm → ℕ) → ℕ → PacketHeader → List ℕ → Option (Message × List ℕ)
unfolding dated_texts
read_message mktime now h s =
    let ws = read_words 6 s in dated_texts mktime now h ws.0 (read_bytes 20 ws.1)

-- How `ftn_packet_load` ends; `out_of_rounds` tells that the rounds of the model did not do.
pub data Loaded : Type 0 where
  loaded : Packet → Loaded
  failed : FtnError → Loaded
  out_of_rounds : Loaded

-- The loop over the messages, with the packet so far.
unfoldable pub load_messages : (Tm → ℕ) → ℕ → ℕ → Packet → List ℕ → Loaded
unfolding read_message
load_messages mktime now zero packet s = out_of_rounds
load_messages mktime now (suc rounds) packet s =
    let kind = read_uint16 s in
    let later : Loaded = elim (read_message mktime now packet.header kind.1) [
      | none ↦ failed invalid_format
      | some p ↦ load_messages mktime now rounds (packet_add_message packet p.0) p.1
    ] in
    if kind.0 == 0 then loaded packet else if kind.0 == 2 then later else failed invalid_format

load_rest : (Tm → ℕ) → ℕ → Option (PacketHeader × List ℕ) → Loaded
unfolding load_messages
load_rest mktime now none = failed invalid_format
load_rest mktime now (some (h, s)) =
    load_messages mktime now (suc (length s)) (record { header = h; messages = [] }) s

-- `ftn_packet_load`; `none` is a file that cannot be opened.
unfoldable pub packet_load : (Tm → ℕ) → ℕ → Option (List ℕ) → Loaded
unfolding load_rest read_header
packet_load mktime now none = failed file_not_found
packet_load mktime now (some file) = load_rest mktime now (read_header file)

unfoldable pub header_bytes : PacketHeader → List ℕ
unfolding words_bytes
header_bytes h =
    words_bytes (
      h.orig_node
      ∷ (h.dest_node
          ∷ (h.year
              ∷ (h.month
                  ∷ (h.day
                      ∷ (h.hour
                          ∷ (h.minute
                              ∷ (h.second
                                  ∷ (h.baud
                                      ∷ (h.packet_type ∷ (h.orig_net ∷ (h.dest_net ∷ []))))))))))))
    ++ (h.prod_code
        ∷ (h.serial_no
            ∷ (h.password ++ (words_bytes (h.orig_zone ∷ (h.dest_zone ∷ [])) ++ h.fill))))

-- The numbers of a packed message, after its type.
abbrev pub message_words : Message → List ℕ
message_words m =
    m.orig_addr.node
    ∷ (m.dest_addr.node ∷ (m.orig_addr.net ∷ (m.dest_addr.net ∷ (m.attributes ∷ (m.cost ∷ [])))))

-- One round of the loop of `ftn_packet_save`; the date has 19 characters and the 0 behind them.
unfoldable pub message_bytes : (ℕ → Tm) → Message → List ℕ
unfolding write_packed_string
message_bytes localtime m =
    write_uint16 2
    ++ (words_bytes (message_words m)
        ++ ((datetime_to_string localtime m.timestamp ++ (0 ∷ []))
            ++ (write_packed_string m.to_user 35
                ++ (write_packed_string m.from_user 35
                    ++ (write_packed_string m.subject 71
                        ++ write_packed_string (some (create_text m)) 65535)))))

unfoldable pub messages_bytes : (ℕ → Tm) → List Message → List ℕ
unfolding message_bytes
messages_bytes localtime [] = write_uint16 0
messages_bytes localtime (m ∷ ms) = message_bytes localtime m ++ messages_bytes localtime ms

-- `ftn_packet_save`: the code, and what is written. The first argument tells whether the file can be
-- opened.
unfoldable pub packet_save : Bool → (ℕ → Tm) → Packet → FtnError × Option (List ℕ)
unfolding header_bytes messages_bytes
packet_save opens localtime packet =
    if opens
    then (ok, some (header_bytes packet.header ++ messages_bytes localtime packet.messages))
    else (file_access, none)
