-- ===== src/Binkp/Frame/Tests.antt =====
-- Runs of the frame functions, and of their theorems.
use lib_ftn.Common.{ℕ, ◌+◌, ◌≤◌, ◌<◌, true, false, some, List, [], ◌∷◌, codes, ◌≡◌, ◌≢◌, ◌⊎◌}
use lib_ftn.Common.{refl, arith, drop}
use lib_ftn.Net.{Connection, arrived, recv_again}
use lib_ftn.Net.Stream.{stream}
use lib_ftn.Binkp.Status.{ok, frame_too_large, timeout}
use lib_ftn.Binkp.Frame.{
  Frame, frame_init, max_frame_size, header_size, header_word, command_flag, word_size,
}
use lib_ftn.Binkp.Frame.{frame_parse, frame_serialize, frame_create, frame_receive, copied}
use lib_ftn.Binkp.Frame.Header.{IsWellFormed, frame_create_lem}
use lib_ftn.Binkp.Frame.RoundTrip.{frame_parse-frame_serialize}
use lib_ftn.Binkp.Frame.Receive.{
  IsFrameReceived, frame_receive-frame_parse, frame_receive-ne-timeout,
}

-- The data frame of three bytes.
abbrev abc : Frame
abc = record {
  header0 = 0;
  header1 = 3;
  payload = some (codes "abc");
  size = 3;
  is_command = false;
}

abc-IsWellFormed : IsWellFormed abc
unfolding header_word word_size command_flag
abc-IsWellFormed = record {
  byte0 = omega arith;
  byte1 = omega arith;
  sized = refl;
  flagged = refl;
  carried = refl;
}

-- Room for eight bytes.
abbrev room : List ℕ
room = 0 ∷ 0 ∷ 0 ∷ 0 ∷ 0 ∷ 0 ∷ 0 ∷ 0 ∷ []

-- The frame in two pieces, and the first byte of the next one.
abbrev pieces : Connection
pieces = record {
  connected = true;
  incoming = arrived (0 ∷ 3 ∷ codes "a") ∷ recv_again ∷ arrived (codes "bcd") ∷ [];
  outgoing = [];
  sent = [];
  bytes_sent = 0;
  bytes_received = 0;
}

frame_parse-abc : frame_parse (0 ∷ 3 ∷ codes "abcd") frame_init ≡ (ok, abc)
unfolding frame_parse header_word word_size command_flag
frame_parse-abc = refl

frame_parse-frame_serialize_example :
    ((frame_serialize abc room 0).0 ≡ ok)
    × ((frame_serialize abc room 0).2 ≡ header_size + 3)
    × (frame_parse (frame_serialize abc room 0).1 frame_init ≡ (ok, abc))
frame_parse-frame_serialize_example =
    frame_parse-frame_serialize abc frame_init room 0 abc-IsWellFormed (omega arith)

frame_create_lem_example :
    ((3 ≤ max_frame_size)
      × (g : Frame) × (frame_create frame_init false (some (codes "abc")) 3 ≡ (ok, g))
      × IsWellFormed g
      × (g.size ≡ 3)
      × (g.is_command ≡ false)
      × (g.payload ≡ copied 3 (codes "abc")))
    ⊎ ((max_frame_size < 3)
        × (frame_create frame_init false (some (codes "abc")) 3 ≡ (frame_too_large, frame_init)))
frame_create_lem_example = frame_create_lem frame_init false (codes "abc") 3 (omega arith)

frame_receive-frame_parse_example :
    IsFrameReceived abc
      (drop (header_size + 3) (stream pieces.incoming))
      (frame_receive pieces frame_init)
frame_receive-frame_parse_example =
    frame_receive-frame_parse pieces abc frame_init frame_init refl tt frame_parse-abc

frame_receive-ne-timeout_example :
    frame_receive pieces frame_init ≢ some (timeout, frame_init, pieces)
frame_receive-ne-timeout_example = frame_receive-ne-timeout pieces frame_init frame_init pieces
