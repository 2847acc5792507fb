-- ===== src/Packet/RoundTrip.antt =====
-- A packet that `ftn_packet_save` of src/packet.c writes, read again by `ftn_packet_load`.
use lib_ftn.Common.{ℕ, zero, suc, ◌<◌, ◌≤◌, true, Option, none, some, List, [], ◌∷◌, ◌++◌, map}
use lib_ftn.Common.{if◌then◌else◌, ◌==◌, length, ◌≡◌, refl, sym, ap, ◌∙◌, arith, All, length-append}
use lib_ftn.Error.{invalid_format}
use lib_ftn.Message.{Message}
use lib_ftn.Message.Date.{Tm, datetime_to_string}
use lib_ftn.Message.Text.{create_text}
use lib_ftn.Packet.{
  PacketHeader, Packet, packet_add_message, read_uint16, write_uint16, write_packed_string,
  text_or_empty, words_bytes, read_header, header_codes, header_password, header_fill,
}
use lib_ftn.Packet.{
  dated_message, with_texts, read_texts, dated_texts, read_message, Loaded, loaded, failed,
  load_messages,
}
use lib_ftn.Packet.{
  load_rest, packet_load, header_bytes, message_words, message_bytes, messages_bytes, packet_save,
}
use lib_ftn.Packet.Words.{
  IsWord, read_uint16-write_uint16, read_words-words_bytes, read_bytes-append, IsShort,
  read_packed_string-write_packed_string,
}
use mathlib.Core.List.{append_assoc, append-nil}

abbrev pub front_words : PacketHeader → List ℕ
front_words h =
    h.orig_node
    ∷ (h.dest_node
        ∷ (h.year
            ∷ (h.month
                ∷ (h.day
                    ∷ (h.hour
                        ∷ (h.minute
                            ∷ (h.second
                                ∷ (h.baud
                                    ∷ (h.packet_type ∷ (h.orig_net ∷ (h.dest_net ∷ [])))))))))))

abbrev pub zone_words : PacketHeader → List ℕ
zone_words h = h.orig_zone ∷ (h.dest_zone ∷ [])

pub record IsHeader (h : PacketHeader) : Type 0 where
  pub fronts : All IsWord (front_words h)
  pub zones : All IsWord (zone_words h)
  pub password_size : length h.password ≡ 8
  pub fill_size : length h.fill ≡ 20

read_header-header_bytes :
    (h : PacketHeader) (s : List ℕ) → IsHeader h → read_header (header_bytes h ++ s) ≡ some (h, s)
unfolding read_header header_bytes header_codes header_password header_fill
read_header-header_bytes h s k =
    let ws = front_words h in
    let zs = zone_words h in
    let back = h.prod_code ∷ (h.serial_no ∷ (h.password ++ (words_bytes zs ++ h.fill))) in
    rw
      (
        append_assoc (words_bytes ws) back s,
        read_words-words_bytes ws (back ++ s) k.fronts,
        append_assoc h.password (words_bytes zs ++ h.fill) s,
        read_bytes-append 8 h.password ((words_bytes zs ++ h.fill) ++ s) k.password_size,
        append_assoc (words_bytes zs) h.fill s,
        read_words-words_bytes zs (h.fill ++ s) k.zones,
        read_bytes-append 20 h.fill s k.fill_size,
      )
      refl

module _ (localtime : ℕ → Tm) (mktime : Tm → ℕ) (now : ℕ) where
  -- The date of a message as it stands in the file.
  abbrev pub date_bytes : Message → List ℕ
  date_bytes m = datetime_to_string localtime m.timestamp ++ (0 ∷ [])

  -- Numbers of 16 bits, a date of 19 characters, and texts that leave room for the 0 behind them.
  pub record IsPacked (m : Message) : Type 0 where
    pub words : All IsWord (message_words m)
    pub date_size : length (date_bytes m) ≡ 20
    pub short_to : IsShort 35 (text_or_empty m.to_user)
    pub short_from : IsShort 35 (text_or_empty m.from_user)
    pub short_subject : IsShort 71 (text_or_empty m.subject)
    pub short_text : IsShort 65535 (create_text m)

  -- The message that is made of one in the file: of its numbers, its date and its four texts.
  abbrev pub reread : PacketHeader → Message → Message
  reread h m =
      with_texts (dated_message mktime now h (message_words m) (date_bytes m))
        (text_or_empty m.to_user) (text_or_empty m.from_user) (text_or_empty m.subject)
        (create_text m)

  -- What follows the type of a message.
  abbrev rest_bytes : Message → List ℕ
  rest_bytes m =
      words_bytes (message_words m)
      ++ (date_bytes m
          ++ (write_packed_string m.to_user 35
              ++ (write_packed_string m.from_user 35
                  ++ (write_packed_string m.subject 71
                      ++ write_packed_string (some (create_text m)) 65535))))

  read_message-rest_bytes :
      (h : PacketHeader) (m : Message) (s : List ℕ)
      → IsPacked m
      → read_message mktime now h (rest_bytes m ++ s) ≡ some (reread h m, s)
  unfolding read_message dated_texts read_texts
  read_message-rest_bytes h m s k =
      let to_user = write_packed_string m.to_user 35 in
      let from_user = write_packed_string m.from_user 35 in
      let subject = write_packed_string m.subject 71 in
      let text = write_packed_string (some (create_text m)) 65535 in
      let after_date = to_user ++ (from_user ++ (subject ++ text)) in
      rw
        (
          append_assoc (words_bytes (message_words m)) (date_bytes m ++ after_date) s,
          append_assoc (date_bytes m) after_date s,
          append_assoc to_user (from_user ++ (subject ++ text)) s,
          append_assoc from_user (subject ++ text) s,
          append_assoc subject text s,
          read_words-words_bytes (message_words m)
              (date_bytes m ++ (to_user ++ (from_user ++ (subject ++ (text ++ s))))) k.words,
          read_bytes-append 20 (date_bytes m) (to_user ++ (from_user ++ (subject ++ (text ++ s))))
              k.date_size,
          read_packed_string-write_packed_string 35 m.to_user
              (from_user ++ (subject ++ (text ++ s))) k.short_to,
          read_packed_string-write_packed_string 35 m.from_user (subject ++ (text ++ s))
              k.short_from,
          read_packed_string-write_packed_string 71 m.subject (text ++ s) k.short_subject,
          read_packed_string-write_packed_string 65535 (some (create_text m)) s k.short_text,
        )
        refl

  -- One round, with the type of the message and what was read after it.
  abbrev load_round : ℕ → Packet → ℕ → Option (Message × List ℕ) → Loaded
  load_round rounds packet kind read =
      let later : Loaded = elim read [
        | none ↦ failed invalid_format
        | some p ↦ load_messages mktime now rounds (packet_add_message packet p.0) p.1
      ] in
      if kind == 0 then loaded packet else if kind == 2 then later else failed invalid_format

  load_step :
      (rounds : ℕ) (packet : Packet) (s t u : List ℕ) (m : Message)
      → read_uint16 s ≡ (2, t)
      → read_message mktime now packet.header t ≡ some (m, u)
      → load_messages mktime now (suc rounds) packet s
        ≡ load_messages mktime now rounds (packet_add_message packet m) u
  unfolding load_messages
  load_step rounds packet s t u m h k =
      ap (λ w. load_round rounds packet w.0 (read_message mktime now packet.header w.1)) h
      ∙ ap (λ o. load_round rounds packet 2 o) k

  load_end :
      (rounds : ℕ) (packet : Packet) (s t : List ℕ)
      → read_uint16 s ≡ (0, t)
      → load_messages mktime now (suc rounds) packet s ≡ loaded packet
  unfolding load_messages
  load_end rounds packet s t h = rw h refl

  load_messages-messages_bytes :
      (rounds : ℕ) (packet : Packet) (ms : List Message)
      → All IsPacked ms
      → length ms < rounds
      → load_messages mktime now rounds packet (messages_bytes localtime ms)
        ≡ loaded (record packet { messages = packet.messages ++ map (reread packet.header) ms })
  load_messages-messages_bytes zero packet ms h fuel = absurd (omega arith)
  load_messages-messages_bytes (suc rounds) packet [] h fuel =
      load_end rounds packet (messages_bytes localtime []) []
        (unfold messages_bytes write_uint16 in read_uint16-write_uint16 0 [] (omega arith))
      ∙ (λ i. loaded (record packet { messages = sym (append-nil packet.messages) i }))
  load_messages-messages_bytes (suc rounds) packet (m ∷ ms) (p, h) fuel =
      let later = messages_bytes localtime ms in
      let one = reread packet.header m in
      let more = packet_add_message packet one in
      let kind : read_uint16 (messages_bytes localtime (m ∷ ms)) ≡ (2, rest_bytes m ++ later) =
        unfold messages_bytes message_bytes in
        rw (append_assoc (write_uint16 2) (rest_bytes m) later)
          (read_uint16-write_uint16 2 (rest_bytes m ++ later) (omega arith)) in
      let rest : load_messages mktime now rounds more later
          ≡ loaded (record more { messages = more.messages ++ map (reread more.header) ms }) =
        load_messages-messages_bytes rounds more ms h (omega arith) in
      load_step rounds packet (messages_bytes localtime (m ∷ ms)) (rest_bytes m ++ later) later one
        kind (read_message-rest_bytes packet.header m later p)
      ∙ rest
      ∙ unfold packet_add_message in
        (λ i. loaded (record packet {
          messages = append_assoc packet.messages (one ∷ []) (map (reread packet.header) ms) i;
        }))

  longer : (ms : List Message) → length ms ≤ length (messages_bytes localtime ms)
  unfolding messages_bytes message_bytes write_uint16
  longer [] = omega arith
  longer (m ∷ ms) =
      omega (arith, longer ms, length-append (rest_bytes m) (messages_bytes localtime ms))

  -- A packet that is written to a file and loaded again comes back with its header as it was and, in
  -- their order, the messages that are made of the numbers, the date and the texts of each, when the
  -- numbers have 16 bits, the dates 19 characters, and the texts leave room for the 0 behind them.
  -- The rounds of the loop suffice.
  pub packet_load-packet_save :
      (packet : Packet)
      → IsHeader packet.header
      → All IsPacked packet.messages
      → packet_load mktime now (packet_save true localtime packet).1
        ≡ loaded (record packet { messages = map (reread packet.header) packet.messages })
  unfolding packet_load packet_save load_rest
  packet_load-packet_save packet h k =
      let later = messages_bytes localtime packet.messages in
      let enough = longer packet.messages in
      rw (read_header-header_bytes packet.header later h) (
        load_messages-messages_bytes (suc (length later))
          (record { header = packet.header; messages = [] }) packet.messages k
          (omega (arith, enough)))
