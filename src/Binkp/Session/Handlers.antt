-- ===== src/Binkp/Session/Handlers.antt =====
-- The handlers of src/binkp/session.c for the states of a session, one step and the whole run.
use lib_ftn.Common.{ℕ, zero, suc, ◌-◌, ◌/◌, ◌||◌, Option, none, some, List, []}
use lib_ftn.Common.{ltb, if◌then◌else◌, codes}
use lib_ftn.Config.{first_password}
use lib_ftn.Binkp.Status.{Status, ok, timeout, protocol_error}
use lib_ftn.Binkp.Frame.{Frame}
use lib_ftn.Binkp.Command.{m_nul, m_adr, m_pwd, m_ok}
use lib_ftn.Binkp.Session.{Session, Outcome, send_command, receive_frame, process_frame}
use lib_ftn.Binkp.Session.States.{State, s0_conn_init, s1_wait_conn, s2_send_passwd, s3_wait_addr}
use lib_ftn.Binkp.Session.States.{s4_auth_remote, s5_if_secure, s6_wait_ok, s7_opts, r0_wait_conn}
use lib_ftn.Binkp.Session.States.{r1_wait_addr, r2_is_passwd, r3_wait_pwd, r4_pwd_ack, r5_opts}
use lib_ftn.Binkp.Session.States.{t0_transfer, done, error, is_done, is_error}

-- What follows a call that succeeded; a failed one ends the handler with its code.
infixl 5 ◌>>=◌
abbrev pub ◌>>=◌ : Outcome → (Session → Outcome) → Outcome
none >>= k = none
some (Status.ok, s) >>= k = k s
some (code, s) >>= k = some (code, s)

abbrev pub goto : State → Session → Outcome
goto state s = some (ok, record s { state = state })

module _ (stack : List ℕ) where
  unfoldable pub process_received : Option (Status × Frame × Session) → Outcome
  process_received none = none
  process_received (some (Status.ok, f, s)) = process_frame stack s f
  process_received (some (code, f, s)) = some (code, s)

  -- Wait for a frame and process it.
  unfoldable pub await_frame : Session → Outcome
  unfolding process_received
  await_frame s = process_received (receive_frame s)

  unfoldable pub send_password : Session → Option (List ℕ) → Outcome
  send_password s none = some (ok, s)
  send_password s (some password) = send_command stack s m_pwd (some password)

  unfoldable pub originator_state : State → Session → Outcome
  originator_state s0_conn_init s = goto s1_wait_conn s
  originator_state s1_wait_conn s = do
    s' ← send_command stack s m_nul (some (codes "libftn binkp/1.0"))
    s'' ← send_command stack s' m_adr s'.local_addresses
    goto s2_send_passwd s''
  originator_state s2_send_passwd s = do
    s' ← send_password s (first_password s.config)
    goto s3_wait_addr s'
  originator_state s3_wait_addr s = await_frame s
  originator_state s4_auth_remote s = goto s5_if_secure s
  originator_state s5_if_secure s = goto (if s.is_secure then s6_wait_ok else s7_opts) s
  originator_state s6_wait_ok s = await_frame s
  originator_state s7_opts s = goto t0_transfer s
  originator_state state s = some (protocol_error, record s { state = error })

  -- `ftn_binkp_handle_originator_state`
  unfoldable pub handle_originator_state : Session → Outcome
  unfolding originator_state send_password
  handle_originator_state s = originator_state s.state s

  unfoldable pub password_wanted : Option (List ℕ) → State
  password_wanted none = r4_pwd_ack
  password_wanted (some password) = r3_wait_pwd

  unfoldable pub answerer_state : State → Session → Outcome
  answerer_state r0_wait_conn s = do
    s' ← send_command stack s m_adr s.local_addresses
    goto r1_wait_addr s'
  answerer_state r1_wait_addr s = await_frame s
  answerer_state r2_is_passwd s = goto (password_wanted (first_password s.config)) s
  answerer_state r3_wait_pwd s = await_frame s
  answerer_state r4_pwd_ack s = do s' ← send_command stack s m_ok (some []); goto r5_opts s'
  answerer_state r5_opts s = goto t0_transfer s
  answerer_state state s = some (protocol_error, record s { state = error })

  -- `ftn_binkp_handle_answerer_state`
  unfoldable pub handle_answerer_state : Session → Outcome
  unfolding answerer_state password_wanted
  handle_answerer_state s = answerer_state s.state s

  -- A frame that leaves the session in the transfer state ends it.
  unfoldable pub after_transfer : State → Session → Session
  after_transfer t0_transfer s = record s { state = done }
  after_transfer state s = s

  unfoldable pub finish_transfer : Outcome → Outcome
  finish_transfer none = none
  finish_transfer (some (Status.ok, s)) = some (ok, after_transfer s.state s)
  finish_transfer (some (code, s)) = some (code, s)

  unfoldable pub transfer_received : Option (Status × Frame × Session) → Outcome
  transfer_received none = none
  transfer_received (some (Status.timeout, f, s)) = some (ok, s)
  transfer_received (some (Status.ok, f, s)) = finish_transfer (process_frame stack s f)
  transfer_received (some (code, f, s)) = some (code, s)

  -- `ftn_binkp_handle_transfer_state`
  unfoldable pub handle_transfer_state : Session → Outcome
  unfolding transfer_received finish_transfer after_transfer
  handle_transfer_state s = transfer_received (receive_frame s)

  unfoldable pub in_state : State → Session → Outcome
  in_state t0_transfer s = handle_transfer_state s
  in_state state s = if s.is_originator then handle_originator_state s else handle_answerer_state s

  -- `ftn_binkp_session_step`
  unfoldable pub session_step : Session → Outcome
  unfolding in_state
  session_step s = in_state s.state s

-- How a run ends: by its return, in a call that waits for the peer, or with its rounds used up.
pub data Run : Type 0 where
  returned : Status → Session → Run
  waiting : Run
  out_of_rounds : Run

-- What follows a step: the next round, or the end in the error state.
unfoldable pub run_on : Outcome → (Session → Run) → Run
run_on none next = waiting
run_on (some (Status.ok, s)) next = next s
run_on (some (code, s)) next = returned code (record s { state = error })

module _ (stack : List ℕ) (clock : ℕ → ℕ) where
  -- The code behind the loop.
  unfoldable pub run_end : Session → Run
  run_end s = if is_error s.state then returned protocol_error s else returned ok s

  -- The loop of `ftn_binkp_session_run`; `clock i` is what `time` gives in round `i`.
  unfoldable pub run_loop : ℕ → ℕ → ℕ → Session → Run
  unfolding run_on run_end
  run_loop zero i start s = out_of_rounds
  run_loop (suc rounds) i start s =
      let next = run_on (session_step stack s) (λ s'. run_loop rounds (suc i) start s') in
      if is_done s.state || is_error s.state
      then run_end s
      else if ltb (s.session_timeout_ms / 1000) (clock i - start)
      then returned timeout (record s { state = error })
      else next

  -- `ftn_binkp_session_run`
  unfoldable pub session_run : ℕ → Session → Run
  unfolding run_loop
  session_run rounds s = run_loop rounds 1 (clock 0) s
