-- ===== src/Binkp/Session/Tests.antt =====
-- Runs of the theorems on sessions.
use lib_ftn.Common.{ℕ, ◌*◌, true, false, none, some, [], ◌∷◌, codes, ◌≡◌, ◌≢◌, ◌↔◌, refl, arith}
use lib_ftn.Common.{str_eq}
use lib_ftn.Common.Text.{c_string}
use lib_ftn.Config.{Config}
use lib_ftn.Net.{Connection}
use lib_ftn.Binkp.Status.{ok}
use lib_ftn.Binkp.Frame.{Frame}
use lib_ftn.Binkp.Command.{CommandFrame, command_init, command_free, command_parse, m_pwd}
use lib_ftn.Binkp.Session.{
  Session, session_init, on_password, after_password, process_command, process_frame,
}
use lib_ftn.Binkp.Session.{process_parsed}
use lib_ftn.Binkp.Session.States.{r3_wait_pwd, r4_pwd_ack}
use lib_ftn.Binkp.Session.Handlers.{session_step, session_run, out_of_rounds}
use lib_ftn.Binkp.Session.Invariant.{IsSound, Ensures}
use lib_ftn.Binkp.Session.Steps.{session_step-Ensures}
use lib_ftn.Binkp.Session.Run.{
  session_init-IsSound, EndsWell, session_run-EndsWell, session_run-ne-out_of_rounds,
}
use lib_ftn.Binkp.Session.Password.{Proves, process_frame-Proves}
use lib_ftn.Binkp.Session.Gate.{IsIn, Admits, process_command-IsIn-r4_pwd_ack}

-- A configuration with the password "secret".
abbrev config : Config
config = record {
  networks =
      record {
        section_name = codes "fidonet";
        address_str = some (codes "1:1/1");
        address = record { zone = 1; net = 1; node = 1; point = 0 };
        password = some (codes "secret");
        use_compression = false;
        plz_mode = 0;
        plz_level = 0;
      }
      ∷ [];
}

abbrev silent : Connection
silent = record {
  connected = true;
  incoming = [];
  outgoing = [];
  sent = [];
  bytes_sent = 0;
  bytes_received = 0;
}

-- An answerer that waits for the password.
abbrev waiting_session : Session
unfolding session_init
waiting_session = record (session_init silent config false) { state = r3_wait_pwd }

abbrev admitted_session : Session
unfolding waiting_session
admitted_session = record waiting_session {
  authenticated = true;
  is_secure = true;
  state = r4_pwd_ack;
}

-- The M_PWD with the password.
abbrev secret_frame : Frame
secret_frame = record {
  header0 = 128;
  header1 = 7;
  payload = some (2 ∷ codes "secret");
  size = 7;
  is_command = true;
}

-- An M_PWD without arguments.
abbrev empty_command : CommandFrame
empty_command = record { cmd = m_pwd; args = none; args_len = 0 }

-- Each round takes 400 seconds.
abbrev clock : ℕ → ℕ
clock i = i * 400

secret_frame-processed : process_frame [] waiting_session secret_frame ≡ some (ok, admitted_session)
unfolding process_frame process_parsed process_command on_password after_password command_parse
    command_free c_string str_eq waiting_session admitted_session session_init
secret_frame-processed = refl

session_step-Ensures_example :
    Ensures (IsSound config true 300000) (session_step [] (session_init silent config true))
session_step-Ensures_example =
    session_step-Ensures config 300000 [] true (session_init silent config true)
      (session_init-IsSound silent config true)

session_run-EndsWell_example :
    EndsWell config false 300000 (session_run [] clock 5 (session_init silent config false))
session_run-EndsWell_example = session_run-EndsWell [] clock 5 silent config false

session_run-ne-out_of_rounds_example :
    session_run [] clock 1 (session_init silent config false) ≢ out_of_rounds
session_run-ne-out_of_rounds_example =
    session_run-ne-out_of_rounds [] clock 1 silent config false 0 (omega arith) (omega arith)

process_frame-Proves_example :
    (secret_frame.is_command ≡ true)
    × ((command_parse secret_frame command_init).0 ≡ ok)
    × Proves waiting_session (command_parse secret_frame command_init).1
unfolding waiting_session admitted_session session_init
process_frame-Proves_example =
    process_frame-Proves [] waiting_session admitted_session secret_frame ok secret_frame-processed
      refl refl

process_command-IsIn-r4_pwd_ack_example :
    IsIn r4_pwd_ack (process_command [] waiting_session empty_command)
    ↔ Admits (codes "secret") empty_command
unfolding waiting_session session_init
process_command-IsIn-r4_pwd_ack_example =
    process_command-IsIn-r4_pwd_ack [] waiting_session (codes "secret") empty_command refl refl
