-- ===== src/Binkp/Session.antt =====
-- A binkp session: src/binkp/session.c. `none` is a call that has not returned, because it waits
-- for the peer. A frame on the C stack starts as an empty one.
pub mod States
pub mod Handlers
pub mod Invariant
pub mod Steps
pub mod Password
pub mod Gate
pub mod Run
mod Tests
use lib_ftn.Common.{ℕ, ◌+◌, ◌%◌, ◌^◌, Bool, true, false, Option, none, some, List, [], ◌∷◌, ◌==◌}
use lib_ftn.Common.{if◌then◌else◌, str_eq, codes}
use lib_ftn.Common.Text.{c_string}
use lib_ftn.Config.{Config, first_password, first_address}
use lib_ftn.Net.{Connection}
use lib_ftn.Binkp.Status.{Status, ok, invalid_frame}
use lib_ftn.Binkp.Frame.{Frame, frame_init, frame_send, frame_receive, frame_total_size}
use lib_ftn.Binkp.Command.{
  CommandFrame, command_init, command_parse, command_create, command_to_frame,
}
use lib_ftn.Binkp.Command.{m_nul, m_adr, m_pwd, m_ok, m_eob, m_err, m_bsy}
use States.{State, s0_conn_init, s3_wait_addr, s4_auth_remote, s6_wait_ok, s7_opts, r0_wait_conn}
use States.{r1_wait_addr, r2_is_passwd, r3_wait_pwd, r4_pwd_ack, done, error}

-- The fields that no function of the file but the initialisation changes are left out, apart from
-- the configuration and the timeout of the session.
pub record Session : Type 0 where
  pub state : State
  pub connection : Connection
  pub config : Config
  pub is_originator : Bool
  pub is_secure : Bool
  pub authenticated : Bool
  pub local_addresses : Option (List ℕ)
  pub remote_addresses : Option (List ℕ)
  pub bytes_sent : ℕ
  pub bytes_received : ℕ
  pub session_timeout_ms : ℕ

unfoldable pub session_init : Connection → Config → Bool → Session
session_init conn config is_originator = record {
  state = if is_originator then s0_conn_init else r0_wait_conn;
  connection = conn;
  config = config;
  is_originator = is_originator;
  is_secure = false;
  authenticated = false;
  local_addresses = first_address config;
  remote_addresses = none;
  bytes_sent = 0;
  bytes_received = 0;
  session_timeout_ms = 300000;
}

-- A counter of type `size_t`.
abbrev pub add_size : ℕ → ℕ → ℕ
add_size total n = (total + n) % 2 ^ 64

-- What a handler gives: its code and the session after it, or nothing yet.
abbrev pub Outcome : Type 0
Outcome = Option (Status × Session)

after_send : Session → Option (Status × Connection) → Outcome
after_send s none = none
after_send s (some (code, c)) = some (code, record s { connection = c })

module _ (stack : List ℕ) where
  -- `ftn_binkp_send_frame`: the bytes are counted before they are sent.
  unfoldable pub send_frame : Session → Frame → Outcome
  unfolding after_send
  send_frame s f =
      let counted : Session = record s {
        bytes_sent = add_size s.bytes_sent (frame_total_size f);
      } in
      after_send counted (frame_send stack s.connection f)

  send_built : Session → Status × Frame → Outcome
  send_built s (Status.ok, f) = send_frame s f
  send_built s (code, f) = some (code, s)

  -- `ftn_binkp_send_command`
  unfoldable pub send_command : Session → ℕ → Option (List ℕ) → Outcome
  unfolding send_built
  send_command s number text =
      send_built s (command_to_frame (command_create command_init number text).1 frame_init)

received : Session → Option (Status × Frame × Connection) → Option (Status × Frame × Session)
received s none = none
received s (some (Status.ok, f, c)) = some (
  ok,
  f,
  record s { connection = c; bytes_received = add_size s.bytes_received (frame_total_size f) },
)
received s (some (code, f, c)) = some (code, f, record s { connection = c })

-- `ftn_binkp_receive_frame`
unfoldable pub receive_frame : Session → Option (Status × Frame × Session)
unfolding received
receive_frame s = received s (frame_receive s.connection frame_init)

-- The state after an M_ADR with arguments.
unfoldable pub after_address : State → State
after_address s3_wait_addr = s4_auth_remote
after_address r1_wait_addr = r2_is_passwd
after_address state = state

unfoldable pub on_address : Session → Option (List ℕ) → Session
unfolding after_address
on_address s none = s
on_address s (some args) = record s {
  remote_addresses = some (c_string args);
  state = after_address s.state;
}

-- The state after an M_PWD that was not refused.
unfoldable pub after_password : State → State
after_password r3_wait_pwd = r4_pwd_ack
after_password state = state

-- The state after an M_OK.
unfoldable pub after_ok : State → State
after_ok s6_wait_ok = s7_opts
after_ok state = state

module _ (stack : List ℕ) where
  -- M_PWD: only where a password is configured and arguments came in are the two compared.
  unfoldable pub on_password : Session → Option (List ℕ) → Option (List ℕ) → Outcome
  unfolding after_password
  on_password s (some expected) (some args) =
      if str_eq (c_string args) expected
      then some
          (ok, record s { authenticated = true; is_secure = true; state = after_password s.state })
      else send_command stack s m_err (some (codes "Authentication failed"))
  on_password s (some expected) none = some (ok, record s { state = after_password s.state })
  on_password s none args = some (ok, record s { state = after_password s.state })

  -- `ftn_binkp_process_command`. Commands for files, and unknown ones, are passed over.
  unfoldable pub process_command : Session → CommandFrame → Outcome
  unfolding on_address on_password after_ok
  process_command s c =
      if c.cmd == m_nul
      then some (ok, s)
      else if c.cmd == m_adr
      then some (ok, on_address s c.args)
      else if c.cmd == m_pwd
      then on_password s (first_password s.config) c.args
      else if c.cmd == m_ok
      then some (ok, record s { state = after_ok s.state })
      else if c.cmd == m_eob
      then some (ok, record s { state = done })
      else if c.cmd == m_err
      then some (Status.protocol_error, record s { state = error })
      else if c.cmd == m_bsy
      then some (Status.protocol_error, record s { state = error })
      else some (ok, s)

  -- `ftn_binkp_process_data`: the data is counted, over what `ftn_binkp_receive_frame` counted.
  unfoldable pub process_data : Session → Frame → Outcome
  process_data s f = some (ok, record s { bytes_received = add_size s.bytes_received f.size })

  process_parsed : Session → Status × CommandFrame → Outcome
  process_parsed s (Status.ok, c) = process_command s c
  process_parsed s (code, c) = some (code, s)

  -- `ftn_binkp_process_frame`
  unfoldable pub process_frame : Session → Frame → Outcome
  unfolding process_parsed process_data
  process_frame s f =
      if f.is_command then process_parsed s (command_parse f command_init) else process_data s f
