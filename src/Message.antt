-- ===== src/Message.antt =====
-- Messages and packets: `ftn_message_t`, `ftn_packet_header_t` and `ftn_packet_t` of
-- include/ftn/packet.h. A text that is not set is NULL, `none` here; an array with its count is a
-- list. Numbers are of type `unsigned int`, and the time is a number of seconds.
pub mod Text
pub mod Date
mod Tests
use lib_ftn.Common.{
  ℕ, ◌+◌, ◌-◌, ◌^◌, Bool, true, false, not, ◌&&◌, ◌||◌, Option, none, some, List, [], ◌∷◌, ◌++◌,
  codes, str_eq, take, drop, length, ◌==◌, if◌then◌else◌, bit_and, bit_or,
}
use lib_ftn.Common.Text.{printed}
use lib_ftn.Trim.{trim}
use lib_ftn.Address.{Address, no_address, address_to_string, node_text}

-- `ftn_message_type_t`
pub data MessageType : Type 0 where
  netmail echomail : MessageType

pub record Message : Type 0 where
  pub kind : MessageType
  pub orig_addr : Address
  pub dest_addr : Address
  pub attributes : ℕ
  pub cost : ℕ
  pub timestamp : ℕ
  pub to_user : Option (List ℕ)
  pub from_user : Option (List ℕ)
  pub subject : Option (List ℕ)
  pub text : Option (List ℕ)
  pub area : Option (List ℕ)
  pub origin : Option (List ℕ)
  pub tearline : Option (List ℕ)
  pub seenby : List (List ℕ)
  pub path : List (List ℕ)
  pub msgid : Option (List ℕ)
  pub reply : Option (List ℕ)
  pub control_lines : List (List ℕ)
  pub fmpt : ℕ
  pub topt : ℕ
  pub intl : Option (List ℕ)
  pub tzutc : Option (List ℕ)
  pub via_lines : List (List ℕ)

-- `ftn_message_new` at the time `now`.
unfoldable pub message_new : MessageType → ℕ → Message
message_new kind now = record {
  kind = kind;
  orig_addr = no_address;
  dest_addr = no_address;
  attributes = 0;
  cost = 0;
  timestamp = now;
  to_user = none;
  from_user = none;
  subject = none;
  text = none;
  area = none;
  origin = none;
  tearline = none;
  seenby = [];
  path = [];
  msgid = none;
  reply = none;
  control_lines = [];
  fmpt = 0;
  topt = 0;
  intl = none;
  tzutc = none;
  via_lines = [];
}

-- `ftn_message_has_attribute`
unfoldable pub has_attribute : Message → ℕ → Bool
has_attribute m attr = not (bit_and m.attributes attr == 0)

-- `ftn_message_set_attribute`
unfoldable pub set_attribute : Message → ℕ → Message
set_attribute m attr = record m { attributes = bit_or m.attributes attr }

-- `ftn_message_clear_attribute`, with `~attr` on 32 bits.
unfoldable pub clear_attribute : Message → ℕ → Message
clear_attribute m attr = record m { attributes = bit_and m.attributes (2 ^ 32 - 1 - attr) }

-- `ftn_message_add_seenby`
abbrev pub add_seenby : Message → List ℕ → Message
add_seenby m s = record m { seenby = m.seenby ++ (trim s ∷ []) }

-- `ftn_message_add_path`
abbrev pub add_path : Message → List ℕ → Message
add_path m s = record m { path = m.path ++ (trim s ∷ []) }

-- `ftn_message_set_msgid`
unfoldable pub set_msgid : Message → Address → List ℕ → Message
set_msgid m addr serial = record m { msgid = some (address_to_string addr 32 ++ (b' ' ∷ serial)) }

-- `ftn_message_set_reply`
unfoldable pub set_reply : Message → List ℕ → Message
set_reply m reply_msgid = record m { reply = some reply_msgid }

-- `ftn_message_add_control`
abbrev pub add_control : Message → List ℕ → Message
add_control m s = record m { control_lines = m.control_lines ++ (s ∷ []) }

-- What follows a tag in a control line: the value behind `:` or a space, if one of these is next.
control_value : List ℕ → Option (List ℕ)
control_value [] = none
control_value (c ∷ []) = if (c == b':') || (c == b' ') then some [] else none
control_value (c ∷ (d ∷ s)) =
    if c == b':'
    then if d == b' ' then some s else some (d ∷ s)
    else if c == b' '
    then some (d ∷ s)
    else none

or_later : Option (List ℕ) → Option (List ℕ) → Option (List ℕ)
or_later none later = later
or_later (some s) later = some s

-- `ftn_message_get_control` over the control lines of a message.
unfoldable pub get_control : List (List ℕ) → List ℕ → Option (List ℕ)
unfolding control_value or_later
get_control [] tag = none
get_control (line ∷ lines) tag =
    let later = get_control lines tag in
    if str_eq (take (length tag) line) tag
    then or_later (control_value (drop (length tag) line)) later
    else later

-- `ftn_message_set_fmpt`
unfoldable pub set_fmpt : Message → ℕ → Message
set_fmpt m point = record m { fmpt = point }

-- `ftn_message_set_topt`
unfoldable pub set_topt : Message → ℕ → Message
set_topt m point = record m { topt = point }

-- `ftn_message_set_intl`
unfoldable pub set_intl : Message → Address → Address → Message
set_intl m dest orig = record m {
  intl = some (printed 32 (node_text dest) ++ (b' ' ∷ printed 32 (node_text orig)));
}

-- `ftn_message_set_tzutc`
unfoldable pub set_tzutc : Message → List ℕ → Message
set_tzutc m offset = record m { tzutc = some offset }

abbrev via_text : Address → List ℕ → List ℕ → List ℕ → List ℕ
via_text addr timestamp program version =
    codes "Via "
    ++ (address_to_string addr 64
        ++ (codes " @" ++ (timestamp ++ (b' ' ∷ (program ++ (b' ' ∷ version))))))

-- `ftn_message_add_via`; the buffer has room for the text, which has 8 characters of its own.
unfoldable pub add_via : Message → Address → List ℕ → List ℕ → List ℕ → Message
add_via m addr timestamp program version = record m {
  via_lines = m.via_lines ++ (via_text addr timestamp program version ∷ []);
}
