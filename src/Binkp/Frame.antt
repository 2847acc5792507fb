-- ===== src/Binkp/Frame.antt =====
-- Frames: src/binkp.c. Two bytes of header hold fifteen bits of size and the command bit, and
-- the data follows. A function returns its code and what it leaves in the frame or the buffer
-- that it was given, also where it fails. Pointers that the code tests for NULL first are never
-- NULL here, and `malloc` succeeds.
pub mod Header
pub mod RoundTrip
pub mod Receive
mod Tests
use lib_ftn.Common.{ℕ, zero, suc, ◌+◌, ◌*◌, ◌/◌, ◌%◌, ◌^◌, bit_and, bit_or, Bool, true, false, not}
use lib_ftn.Common.{Option, none, some, List, [], ◌∷◌, ◌++◌, length, take, drop, ◌==◌, ltb}
use lib_ftn.Common.{if◌then◌else◌, ◌≡◌}
use lib_ftn.Error.{FtnError}
use lib_ftn.Net.{Connection, net_send_all, net_recv_all}
use lib_ftn.Binkp.Status.{Status, ok, invalid_frame, frame_too_large, buffer_too_small}

abbrev pub max_frame_size : ℕ
max_frame_size = 32767

abbrev pub header_size : ℕ
header_size = 2

abbrev pub t_bit : ℕ
t_bit = 0x8000

-- `payload` is the field `data`; `none` is NULL.
pub record Frame : Type 0 where
  pub header0 : ℕ
  pub header1 : ℕ
  pub payload : Option (List ℕ)
  pub size : ℕ
  pub is_command : Bool

abbrev pub frame_init : Frame
frame_init = record { header0 = 0; header1 = 0; payload = none; size = 0; is_command = false }

unfoldable pub frame_free : Frame → Frame
frame_free f = elim f.payload [ none ↦ f | some bytes ↦ record f { payload = none; size = 0 } ]

-- `(uint16_t)((b0 << 8) | b1)`
unfoldable pub header_word : ℕ → ℕ → ℕ
header_word b0 b1 = bit_or (b0 * 2 ^ 8) b1 % 2 ^ 16

unfoldable pub command_flag : ℕ → Bool
command_flag word = not (bit_and word t_bit == 0)

unfoldable pub word_size : ℕ → ℕ
word_size word = bit_and word 0x7FFF

-- The data that is copied out of the buffer: none for an empty frame.
abbrev pub copied : ℕ → List ℕ → Option (List ℕ)
copied zero bytes = none
copied (suc n) bytes = some (take (suc n) bytes)

-- `ftn_binkp_frame_parse` over the `len` bytes of the buffer.
unfoldable pub frame_parse : List ℕ → Frame → Status × Frame
frame_parse [] f = (invalid_frame, f)
frame_parse (b0 ∷ []) f = (invalid_frame, f)
frame_parse (b0 ∷ b1 ∷ rest) f =
    let word = header_word b0 b1 in
    let f' : Frame = record f { is_command = command_flag word } in
    let n = word_size word in
    if ltb max_frame_size n
    then (frame_too_large, f')
    else if ltb (length (b0 ∷ b1 ∷ rest)) (header_size + n)
    then (buffer_too_small, f')
    else (
      ok,
      record {
        header0 = b0;
        header1 = b1;
        payload = copied n rest;
        size = n;
        is_command = command_flag word;
      },
    )

-- `header_word |= BINKP_T_BIT`, on a size cut to `uint16_t`.
unfoldable pub create_word : Bool → ℕ → ℕ
create_word is_cmd n = let w = n % 2 ^ 16 in if is_cmd then bit_or w t_bit else w

-- `size > 0 && data`
abbrev pub given : ℕ → Option (List ℕ) → Option (List ℕ)
given zero bytes = none
given (suc n) none = none
given (suc n) (some bytes) = some (take (suc n) bytes)

-- `ftn_binkp_frame_create`. The caller's buffer holds `n` bytes at least, or is NULL.
unfoldable pub frame_create : Frame → Bool → Option (List ℕ) → ℕ → Status × Frame
unfolding create_word
frame_create f is_cmd bytes n =
    let word = create_word is_cmd n in
    if ltb max_frame_size n then (frame_too_large, f) else (
      ok,
      record {
        header0 = bit_and (word / 2 ^ 8) 0xFF;
        header1 = bit_and word 0xFF;
        payload = given n bytes;
        size = n;
        is_command = is_cmd;
      },
    )

-- `memcpy` of a block to the front of a buffer that has room for it.
abbrev pub write_front : List ℕ → List ℕ → List ℕ
write_front bytes buffer = bytes ++ drop (length bytes) buffer

abbrev pub frame_body : Frame → List ℕ
frame_body f = elim (given f.size f.payload) [ none ↦ [] | some bytes ↦ bytes ]

-- `ftn_binkp_frame_serialize`: the code, the buffer after it and the count in `*bytes_written`,
-- which stays as it was where the call fails.
unfoldable pub frame_serialize : Frame → List ℕ → ℕ → Status × List ℕ × ℕ
frame_serialize f buffer written =
    let total = header_size + f.size in
    if ltb (length buffer) total
    then (buffer_too_small, buffer, written)
    else (ok, write_front (f.header0 ∷ f.header1 ∷ frame_body f) buffer, total)

-- The buffer on the stack of `ftn_binkp_frame_send`; what it holds at first is not determined.
abbrev pub IsSendBuffer : List ℕ → Type 0
IsSendBuffer buffer = length buffer ≡ max_frame_size + header_size

send_serialized : Connection → Status × List ℕ × ℕ → Option (Status × Connection)
send_serialized conn (Status.ok, buffer, written) = elim (net_send_all conn (take written buffer)) [
  | none ↦ none
  | some (FtnError.ok, c) ↦ some (ok, c)
  | some (error, c) ↦ some (Status.network, c)
]
send_serialized conn (error, buffer, written) = some (error, conn)

unfoldable pub frame_send : List ℕ → Connection → Frame → Option (Status × Connection)
unfolding send_serialized
frame_send stack conn f = send_serialized conn (frame_serialize f stack 0)

-- `ftn_binkp_frame_receive` behind the header's transfer. A failed transfer of the data leaves
-- the frame without data, at its new size.
receive_body :
    Frame → Option (FtnError × List ℕ × Connection) → Option (Status × Frame × Connection)
receive_body f none = none
receive_body f (some (FtnError.ok, bytes, c)) = some (ok, record f { payload = some bytes }, c)
receive_body f (some (FtnError.timeout, bytes, c)) = some (Status.timeout, f, c)
receive_body f (some (error, bytes, c)) = some (Status.network, f, c)

receive_sized : ℕ → Frame → Connection → Option (Status × Frame × Connection)
receive_sized zero f conn = some (ok, f, conn)
receive_sized (suc n) f conn = receive_body f (net_recv_all conn (suc n))

receive_header :
    Frame → Option (FtnError × List ℕ × Connection) → Option (Status × Frame × Connection)
receive_header f none = none
receive_header f (some (FtnError.ok, b0 ∷ b1 ∷ more, c)) =
    let word = header_word b0 b1 in
    let n = word_size word in
    if ltb max_frame_size n
    then some (frame_too_large, f, c)
    else receive_sized n
        (record {
          header0 = b0;
          header1 = b1;
          payload = none;
          size = n;
          is_command = command_flag word;
        })
        c
receive_header f (some (FtnError.timeout, bytes, c)) = some (Status.timeout, f, c)
receive_header f (some (error, bytes, c)) = some (Status.network, f, c)

-- `ftn_binkp_frame_receive`. The timeout that it sets on the socket shows in the answers to come.
unfoldable pub frame_receive : Connection → Frame → Option (Status × Frame × Connection)
unfolding receive_header receive_sized receive_body
frame_receive conn f = receive_header f (net_recv_all conn header_size)

unfoldable pub frame_total_size : Frame → ℕ
frame_total_size f = header_size + f.size
