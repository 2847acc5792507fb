-- ===== src/Packet/Whole.antt =====
-- A whole packet that `ftn_packet_save` of src/packet.c writes and `ftn_packet_load` reads, with the
-- texts of its messages.
use lib_ftn.Common.{ℕ, ◌<◌, ◌-◌, ◌^◌, some, List, [], ◌∷◌, map, true, ◌≡◌, refl, ap, ◌∙◌, All}
use lib_ftn.Common.{sym}
use lib_ftn.Message.{Message, message_new}
use lib_ftn.Message.Date.{Tm}
use lib_ftn.Message.Date.RoundTrip.{IsDate, datetime_from_string-c_string}
use lib_ftn.Message.Text.{parse_text, create_text, create_lines}
use lib_ftn.Message.Text.RoundTrip.{parse_text-create_text}
use lib_ftn.Message.Text.Parts.{cleared, IsReadable}
use lib_ftn.Message.Text.Spaced.{spaced}
use lib_ftn.Packet.{PacketHeader, Packet, dated_message, stored_time, with_texts, text_or_empty}
use lib_ftn.Packet.{loaded, packet_load, packet_save}
use lib_ftn.Packet.RoundTrip.{IsHeader, IsPacked, reread, packet_load-packet_save}

-- What a message is when it comes back from a packet with this header: its addresses have the zones
-- of the packet and no point, a name or subject that is NULL is the empty text, and the body has a "\n"
-- put behind each "\r".
abbrev pub restored : PacketHeader → Message → Message
restored h m = record m {
  orig_addr = record {
    zone = h.orig_zone;
    net = m.orig_addr.net;
    node = m.orig_addr.node;
    point = 0;
  };
  dest_addr = record {
    zone = h.dest_zone;
    net = m.dest_addr.net;
    node = m.dest_addr.node;
    point = 0;
  };
  to_user = some (text_or_empty m.to_user);
  from_user = some (text_or_empty m.from_user);
  subject = some (text_or_empty m.subject);
  text = some (spaced (text_or_empty m.text));
}

-- The message as its text finds it, with the body as it was.
abbrev addressed : PacketHeader → Message → Message
addressed h m = record (restored h m) { text = m.text }

create_text-addressed :
    (h : PacketHeader) (m : Message) → create_text (addressed h m) ≡ create_text m
unfolding create_text create_lines
create_text-addressed h m = refl

addressed-IsReadable :
    (h : PacketHeader) (m : Message) (t : List ℕ) → IsReadable m t → IsReadable (addressed h m) t
addressed-IsReadable h m t k = record {
  kind_fits = k.kind_fits;
  text_set = k.text_set;
  text_trimmed = k.text_trimmed;
  text_full = k.text_full;
  text_plain = k.text_plain;
  text_fits = k.text_fits;
  one_line_head = k.one_line_head;
  one_line_tail = k.one_line_tail;
  area_value = k.area_value;
  intl_value = k.intl_value;
  fmpt_fits = k.fmpt_fits;
  topt_fits = k.topt_fits;
  tzutc_value = k.tzutc_value;
  controls_generic = k.controls_generic;
  msgid_value = k.msgid_value;
  reply_value = k.reply_value;
  tearline_form = k.tearline_form;
  origin_form = k.origin_form;
  seenby_values = k.seenby_values;
  path_values = k.path_values;
  via_forms = k.via_forms;
}

module _ (localtime : ℕ → Tm) (mktime : Tm → ℕ) (now : ℕ) where
  -- A message that fits into a packet, whose fields can be told apart in its text, and whose date is
  -- of a year that two digits keep, where `mktime` inverts `localtime`.
  pub record IsKept (m : Message) : Type 0 where
    pub packed : IsPacked localtime mktime now m
    pub body : List ℕ
    pub readable : IsReadable m body
    pub date : IsDate (localtime m.timestamp)
    pub time_kept : mktime (localtime m.timestamp) ≡ m.timestamp
    pub time_fits : m.timestamp < 2 ^ 64 - 1

  reread-restored :
      (h : PacketHeader) (m : Message) → IsKept m → reread localtime mktime now h m ≡ restored h m
  unfolding with_texts dated_message message_new stored_time
  reread-restored h m k =
      let kept =
        datetime_from_string-c_string localtime mktime m.timestamp k.date k.time_kept k.time_fits in
      let time = ap (λ read. stored_time now read.1) kept in
      let text = create_text m in
      let mail = addressed h m in
      ap (λ start. parse_text start text)
        (λ i. record (cleared mail (some text)) { timestamp = time i })
      ∙ ap (λ s. parse_text (cleared mail (some text)) s) (sym (create_text-addressed h m))
      ∙ parse_text-create_text mail (some text) k.body (addressed-IsReadable h m k.body k.readable)
      ∙ ap (λ o. record mail { text = some (spaced (text_or_empty o)) }) (sym k.readable.text_set)

  reread_all :
      (h : PacketHeader) (ms : List Message)
      → All IsKept ms
      → map (reread localtime mktime now h) ms ≡ map (restored h) ms
  reread_all h [] k = refl
  reread_all h (m ∷ ms) (p, k) = λ i. reread-restored h m p i ∷ reread_all h ms k i

  all-IsPacked : (ms : List Message) → All IsKept ms → All (IsPacked localtime mktime now) ms
  all-IsPacked [] k = tt
  all-IsPacked (m ∷ ms) (p, k) = (p.packed, all-IsPacked ms k)

  -- A packet that is written to a file and loaded again comes back with its header as it was and its
  -- messages in their order, each as it was but for these: its addresses have the zones of the packet
  -- and no point, a name or subject that is NULL is the empty text, and the body has a "\n" put behind
  -- each "\r". This is for a packet whose numbers have 16 bits, with 8 bytes of password and 20 of
  -- fill, and messages of these conditions. The names, subject and whole text have no character 0 and
  -- fewer than 35, 35, 71 and 65535 characters. The date is of a year from 1980 to 2079 and has 19
  -- characters, `mktime` inverts `localtime` at it, and it is below 2^64 - 1. The message is of kind
  -- echomail exactly with an area, and has a body; no field in its text but the body has a "\r"; area,
  -- INTL, TZUTC, ids, seen-by, path and other control lines, where set, are trimmed and not empty;
  -- FMPT and TOPT have 32 bits; another control line does not start with the tag of a field; the tear
  -- line is "--- ", a character other than "-", and ends with no white space; the origin is "* Origin:"
  -- and a text that is not empty and ends with no white space; a via line is "Via " and a text that is
  -- trimmed and not empty; the body is trimmed, each "\r" of it is followed by a character other than
  -- "\r", and its lines, fewer than 999, are none of another kind. The rounds of the loop suffice.
  pub packet_load-packet_save-restored :
      (packet : Packet)
      → IsHeader packet.header
      → All IsKept packet.messages
      → packet_load mktime now (packet_save true localtime packet).1
        ≡ loaded (record packet { messages = map (restored packet.header) packet.messages })
  packet_load-packet_save-restored packet h k =
      packet_load-packet_save localtime mktime now packet h (all-IsPacked packet.messages k)
      ∙ (λ i. loaded (record packet { messages = reread_all packet.header packet.messages k i }))
