-- ===== src/Binkp/Frame/Receive.antt =====
-- `ftn_binkp_frame_receive` of src/binkp.c against `ftn_binkp_frame_parse`, and its errors.
use lib_ftn.Common.{ℕ, zero, suc, ◌+◌, ◌≤◌, arith, ◌≡◌, ◌≢◌, refl, sym, ap, ◌∙◌}
use lib_ftn.Common.{true, Option, none, some, List, [], ◌∷◌, length, drop}
use lib_ftn.Error.{FtnError}
use lib_ftn.Net.{Connection, net_recv_all}
use lib_ftn.Net.Stream.{stream, IsOpen, net_recv_all-IsReceived, net_recv_all-ne-timeout}
use lib_ftn.Binkp.Status.{Status, ok, timeout}
use lib_ftn.Binkp.Frame.{
  Frame, header_size, header_word, command_flag, word_size, copied, frame_parse,
}
use lib_ftn.Binkp.Frame.{receive_header, receive_sized, receive_body, frame_receive}
use lib_ftn.Binkp.Frame.RoundTrip.{frame_parse_short, frame_parse_whole, not_too_large}
use native.Mathlib.Decide.{dec_le}

-- A frame has come in: `f`, with the stream `rest` behind it.
pub record IsFrameReceived (f : Frame) (rest : List ℕ)
    (result : Option (Status × Frame × Connection)) : Type 0 where
  pub after : Connection
  pub returns : result ≡ some (ok, f, after)
  pub goes_on : stream after.incoming ≡ rest
  pub still_open : IsOpen after.incoming
  pub still_connected : after.connected ≡ true

-- The frame before its data.
abbrev empty : ℕ → ℕ → ℕ → Frame
empty b0 b1 n = record {
  header0 = b0;
  header1 = b1;
  payload = none;
  size = n;
  is_command = command_flag (header_word b0 b1);
}

receive_header_lem :
    (b0 b1 : ℕ) (more : List ℕ) (g : Frame) (c : Connection)
    → receive_header g (some (FtnError.ok, b0 ∷ b1 ∷ more, c))
      ≡ receive_sized
          (word_size (header_word b0 b1))
          (empty b0 b1 (word_size (header_word b0 b1)))
          c
unfolding receive_header
receive_header_lem b0 b1 more g c = rw (not_too_large (header_word b0 b1))

receive_sized-IsFrameReceived :
    (n b0 b1 : ℕ) (c : Connection)
    → c.connected ≡ true
    → IsOpen c.incoming
    → n ≤ length (stream c.incoming)
    → IsFrameReceived
        (record (empty b0 b1 n) { payload = copied n (stream c.incoming) })
        (drop n (stream c.incoming))
        (receive_sized n (empty b0 b1 n) c)
unfolding receive_sized receive_body
receive_sized-IsFrameReceived zero b0 b1 c hc ho hn = record {
  after = c;
  returns = refl;
  goes_on = refl;
  still_open = ho;
  still_connected = hc;
}
receive_sized-IsFrameReceived (suc n) b0 b1 c hc ho hn =
    let r = net_recv_all-IsReceived c (suc n) hc ho hn in
    record {
      after = r.after;
      returns = ap (receive_body (empty b0 b1 (suc n))) r.returns;
      goes_on = r.rest;
      still_open = r.still_open;
      still_connected = r.still_connected;
    }

IsFrameReceived-eq :
    {f f' : Frame} {rest rest' : List ℕ} {result result' : Option (Status × Frame × Connection)}
    → IsFrameReceived f rest result
    → f ≡ f'
    → rest ≡ rest'
    → result' ≡ result
    → IsFrameReceived f' rest' result'
IsFrameReceived-eq r e e' back = record {
  after = r.after;
  returns = back ∙ r.returns ∙ ap (λ x. some (ok, x, r.after)) e;
  goes_on = r.goes_on ∙ e';
  still_open = r.still_open;
  still_connected = r.still_connected;
}

receive_parsed :
    (s : List ℕ) (conn : Connection) (f g h : Frame)
    → stream conn.incoming ≡ s
    → conn.connected ≡ true
    → IsOpen conn.incoming
    → frame_parse s g ≡ (ok, f)
    → IsFrameReceived f (drop (2 + f.size) s) (frame_receive conn h)
unfolding frame_receive
receive_parsed [] conn f g h e hc ho p = unfold frame_parse in cc
receive_parsed (b0 ∷ []) conn f g h e hc ho p = unfold frame_parse in cc
receive_parsed (b0 ∷ b1 ∷ rest) conn f g h e hc ho p =
    let n = word_size (header_word b0 b1) in
    elim (dec_le n (length rest)) [
      | no short ↦ absurd (cc (frame_parse_short b0 b1 rest g (omega arith)))
      | yes whole ↦
          let r = net_recv_all-IsReceived conn 2 hc ho (rw e (omega arith)) in
          let arrived : net_recv_all conn header_size ≡ some (FtnError.ok, b0 ∷ b1 ∷ [], r.after) =
            r.returns ∙ rw e in
          let behind : stream r.after.incoming ≡ rest = r.rest ∙ rw e in
          let body : IsFrameReceived
              (record (empty b0 b1 n) { payload = copied n (stream r.after.incoming) })
              (drop n (stream r.after.incoming)) (receive_sized n (empty b0 b1 n) r.after) =
            receive_sized-IsFrameReceived n b0 b1 r.after r.still_connected r.still_open
              (rw behind whole) in
          let same : record (empty b0 b1 n) { payload = copied n rest } ≡ f =
            cc (frame_parse_whole b0 b1 rest g whole) in
          IsFrameReceived-eq body
            (ap (λ t. record (empty b0 b1 n) { payload = copied n t }) behind ∙ same)
            (ap (drop n) behind ∙ tail n same)
            (ap (receive_header h) arrived ∙ receive_header_lem b0 b1 [] h r.after)
    ]
  where
    tail :
        (n : ℕ)
        → record (empty b0 b1 n) { payload = copied n rest } ≡ f
        → drop n rest ≡ drop (2 + f.size) (b0 ∷ b1 ∷ rest)
    tail n same =
        let size_is : suc (suc n) ≡ 2 + f.size = omega (arith, ap (λ x. x.size) same) in
        ap (λ (k : ℕ). drop k (b0 ∷ b1 ∷ rest)) size_is

-- Over a connection that stays open, `ftn_binkp_frame_receive` takes in the very frame that
-- `ftn_binkp_frame_parse` finds at the front of the stream, however the stream is cut into pieces
-- and however often the socket has to be asked again, and the stream goes on behind that frame.
pub frame_receive-frame_parse :
    (conn : Connection) (f g h : Frame)
    → conn.connected ≡ true
    → IsOpen conn.incoming
    → frame_parse (stream conn.incoming) g ≡ (ok, f)
    → IsFrameReceived f (drop (header_size + f.size) (stream conn.incoming)) (frame_receive conn h)
frame_receive-frame_parse conn f g h hc ho p =
    receive_parsed (stream conn.incoming) conn f g h refl hc ho p

receive_body-ne-timeout :
    (f : Frame) (r : Option (FtnError × List ℕ × Connection)) (f' : Frame) (c : Connection)
    → ((bytes : List ℕ) (c' : Connection) → r ≢ some (FtnError.timeout, bytes, c'))
    → receive_body f r ≢ some (timeout, f', c)
unfolding receive_body
receive_body-ne-timeout f none f' c ne h = cc
receive_body-ne-timeout f (some (FtnError.ok, bytes, c')) f' c ne h = cc
receive_body-ne-timeout f (some (FtnError.timeout, bytes, c')) f' c ne h = ne bytes c' refl
receive_body-ne-timeout f (some (code, bytes, c')) f' c ne h = cc

receive_sized-ne-timeout :
    (n : ℕ) (f : Frame) (conn : Connection) (f' : Frame) (c : Connection)
    → receive_sized n f conn ≢ some (timeout, f', c)
unfolding receive_sized
receive_sized-ne-timeout zero f conn f' c h = cc
receive_sized-ne-timeout (suc n) f conn f' c h =
    receive_body-ne-timeout f (net_recv_all conn (suc n)) f' c
      (net_recv_all-ne-timeout conn (suc n)) h

receive_header-ne-timeout :
    (g : Frame) (r : Option (FtnError × List ℕ × Connection)) (f' : Frame) (c : Connection)
    → ((bytes : List ℕ) (c' : Connection) → r ≢ some (FtnError.timeout, bytes, c'))
    → receive_header g r ≢ some (timeout, f', c)
receive_header-ne-timeout g none f' c ne h = unfold receive_header in cc
receive_header-ne-timeout g (some (FtnError.ok, [], c')) f' c ne h = unfold receive_header in cc
receive_header-ne-timeout g (some (FtnError.ok, b0 ∷ [], c')) f' c ne h =
    unfold receive_header in cc
receive_header-ne-timeout g (some (FtnError.ok, b0 ∷ b1 ∷ more, c')) f' c ne h =
    let w = word_size (header_word b0 b1) in
    receive_sized-ne-timeout w (empty b0 b1 w) c' f' c
      (sym (receive_header_lem b0 b1 more g c') ∙ h)
receive_header-ne-timeout g (some (FtnError.timeout, bytes, c')) f' c ne h = ne bytes c' refl
receive_header-ne-timeout g (some (code, bytes, c')) f' c ne h = unfold receive_header in cc

-- `ftn_binkp_frame_receive` never returns `BINKP_ERROR_TIMEOUT`, whatever the socket answers: the
-- elapsed timeout of a read is `EAGAIN`, on which the transfer is tried again without an end.
pub frame_receive-ne-timeout :
    (conn : Connection) (f f' : Frame) (c : Connection)
    → frame_receive conn f ≢ some (timeout, f', c)
unfolding frame_receive
frame_receive-ne-timeout conn f f' c =
    receive_header-ne-timeout f (net_recv_all conn header_size) f' c
      (net_recv_all-ne-timeout conn header_size)
