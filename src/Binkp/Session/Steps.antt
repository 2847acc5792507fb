-- ===== src/Binkp/Session/Steps.antt =====
-- The handlers of src/binkp/session.c for the states of a session, against the invariant.
use lib_ftn.Common.{ℕ, Bool, true, false, Option, none, some, List, ◌≡◌}
use lib_ftn.Common.{refl, if◌then◌else◌}
use lib_ftn.Config.{Config, first_password}
use lib_ftn.Net.{Connection}
use lib_ftn.Binkp.Status.{Status}
use lib_ftn.Binkp.Frame.{Frame, frame_init, frame_receive, frame_total_size}
use lib_ftn.Binkp.Command.{m_nul, m_adr, m_pwd, m_ok}
use lib_ftn.Binkp.Session.{Session, Outcome, add_size, received, receive_frame, process_frame}
use lib_ftn.Binkp.Session.Handlers.{goto, process_received, await_frame, send_password}
use lib_ftn.Binkp.Session.Handlers.{originator_state, handle_originator_state, password_wanted}
use lib_ftn.Binkp.Session.Handlers.{answerer_state, handle_answerer_state, after_transfer}
use lib_ftn.Binkp.Session.Handlers.{finish_transfer, transfer_received, handle_transfer_state}
use lib_ftn.Binkp.Session.Handlers.{in_state, session_step}
use lib_ftn.Binkp.Session.Invariant.{plays, IsSound, Ensures, Ensures-bind, moved, transferred}
use lib_ftn.Binkp.Session.Invariant.{goto-Ensures, send_command-Ensures, process_frame-Ensures}
use lib_ftn.Binkp.Session.States.{State, s0_conn_init, s1_wait_conn, s2_send_passwd, s3_wait_addr}
use lib_ftn.Binkp.Session.States.{s4_auth_remote, s5_if_secure, s6_wait_ok, s7_opts, r0_wait_conn}
use lib_ftn.Binkp.Session.States.{r1_wait_addr, r2_is_passwd, r3_wait_pwd, r4_pwd_ack, r5_opts}
use lib_ftn.Binkp.Session.States.{t0_transfer, done, error}

module _ (c : Config) (o : Bool) (limit : ℕ) (stack : List ℕ) where
  -- The invariant of the session that comes with a received frame.
  abbrev Received : Option (Status × Frame × Session) → Type 0
  Received none = Unit
  Received (some (code, f, s)) = IsSound c o limit s

  received-Received :
      (s : Session) (r : Option (Status × Frame × Connection))
      → IsSound c o limit s
      → Received (received s r)
  unfolding received
  received-Received s none h = tt
  received-Received s (some (Status.ok, f, conn)) h =
      transferred c o limit s conn s.bytes_sent (add_size s.bytes_received (frame_total_size f)) h
  received-Received s (some (code, f, conn)) h =
      transferred c o limit s conn s.bytes_sent s.bytes_received h

  receive_frame-Received : (s : Session) → IsSound c o limit s → Received (receive_frame s)
  unfolding receive_frame
  receive_frame-Received s h = received-Received s (frame_receive s.connection frame_init) h

  process_received-Ensures :
      (r : Option (Status × Frame × Session))
      → Received r
      → Ensures (IsSound c o limit) (process_received stack r)
  unfolding process_received
  process_received-Ensures none h = tt
  process_received-Ensures (some (Status.ok, f, s)) h = process_frame-Ensures c o limit stack s f h
  process_received-Ensures (some (code, f, s)) h = h

  await_frame-Ensures :
      (s : Session) → IsSound c o limit s → Ensures (IsSound c o limit) (await_frame stack s)
  unfolding await_frame
  await_frame-Ensures s h = process_received-Ensures (receive_frame s) (receive_frame-Received s h)

  send_password-Ensures :
      (s : Session) (p : Option (List ℕ))
      → IsSound c o limit s
      → Ensures (IsSound c o limit) (send_password stack s p)
  unfolding send_password
  send_password-Ensures s none h = h
  send_password-Ensures s (some p) h = send_command-Ensures c o limit stack s m_pwd (some p) h

  after_transfer-IsSound :
      (state : State) (s : Session)
      → IsSound c o limit s
      → IsSound c o limit (after_transfer stack state s)
  unfolding after_transfer
  after_transfer-IsSound t0_transfer s h = moved c o limit s done h (unfold plays in refl)
  after_transfer-IsSound _ s h = h

  finish_transfer-Ensures :
      (r : Outcome)
      → Ensures (IsSound c o limit) r
      → Ensures (IsSound c o limit) (finish_transfer stack r)
  unfolding finish_transfer
  finish_transfer-Ensures none h = tt
  finish_transfer-Ensures (some (Status.ok, s)) h = after_transfer-IsSound s.state s h
  finish_transfer-Ensures (some (code, s)) h = h

  transfer_received-Ensures :
      (r : Option (Status × Frame × Session))
      → Received r
      → Ensures (IsSound c o limit) (transfer_received stack r)
  unfolding transfer_received
  transfer_received-Ensures none h = tt
  transfer_received-Ensures (some (Status.timeout, f, s)) h = h
  transfer_received-Ensures (some (Status.ok, f, s)) h =
      finish_transfer-Ensures (process_frame stack s f)
        (process_frame-Ensures c o limit stack s f h)
  transfer_received-Ensures (some (code, f, s)) h = h

  handle_transfer_state-Ensures :
      (s : Session)
      → IsSound c o limit s
      → Ensures (IsSound c o limit) (handle_transfer_state stack s)
  unfolding handle_transfer_state
  handle_transfer_state-Ensures s h =
      transfer_received-Ensures (receive_frame s) (receive_frame-Received s h)

module _ (c : Config) (limit : ℕ) (stack : List ℕ) where
  to_state :
      (s : Session) (o : Bool) (state : State)
      → IsSound c o limit s
      → plays o state ≡ true
      → Ensures (IsSound c o limit) (goto state s)
  to_state s o state h p = goto-Ensures c o limit s state h p

  originator_state-Ensures :
      (state : State) (s : Session)
      → IsSound c true limit s
      → Ensures (IsSound c true limit) (originator_state stack state s)
  unfolding originator_state plays
  originator_state-Ensures s0_conn_init s h = to_state s true s1_wait_conn h refl
  originator_state-Ensures s1_wait_conn s h =
      Ensures-bind c true limit _ _ (send_command-Ensures c true limit stack s m_nul _ h) λ s' h'.
        Ensures-bind c true limit _ _ (send_command-Ensures c true limit stack s' m_adr _ h')
          λ s'' h''. to_state s'' true s2_send_passwd h'' refl
  originator_state-Ensures s2_send_passwd s h =
      Ensures-bind c true limit _ _
        (send_password-Ensures c true limit stack s (first_password s.config) h)
        λ s' h'. to_state s' true s3_wait_addr h' refl
  originator_state-Ensures s3_wait_addr s h = await_frame-Ensures c true limit stack s h
  originator_state-Ensures s4_auth_remote s h = to_state s true s5_if_secure h refl
  originator_state-Ensures s5_if_secure s h =
      to_state s true (if s.is_secure then s6_wait_ok else s7_opts) h (next s.is_secure)
    where
      next : (b : Bool) → plays true (if b then s6_wait_ok else s7_opts) ≡ true
      next true = refl
      next false = refl
  originator_state-Ensures s6_wait_ok s h = await_frame-Ensures c true limit stack s h
  originator_state-Ensures s7_opts s h = to_state s true t0_transfer h refl
  originator_state-Ensures _ s h = moved c true limit s error h refl

  answerer_state-Ensures :
      (state : State) (s : Session)
      → IsSound c false limit s
      → Ensures (IsSound c false limit) (answerer_state stack state s)
  unfolding answerer_state plays password_wanted
  answerer_state-Ensures r0_wait_conn s h =
      Ensures-bind c false limit _ _ (send_command-Ensures c false limit stack s m_adr _ h)
        λ s' h'. to_state s' false r1_wait_addr h' refl
  answerer_state-Ensures r1_wait_addr s h = await_frame-Ensures c false limit stack s h
  answerer_state-Ensures r2_is_passwd s h =
      to_state s false (password_wanted stack (first_password s.config)) h
        (next (first_password s.config))
    where
      next : (p : Option (List ℕ)) → plays false (password_wanted stack p) ≡ true
      next none = refl
      next (some p) = refl
  answerer_state-Ensures r3_wait_pwd s h = await_frame-Ensures c false limit stack s h
  answerer_state-Ensures r4_pwd_ack s h =
      Ensures-bind c false limit _ _ (send_command-Ensures c false limit stack s m_ok _ h)
        λ s' h'. to_state s' false r5_opts h' refl
  answerer_state-Ensures r5_opts s h = to_state s false t0_transfer h refl
  answerer_state-Ensures _ s h = moved c false limit s error h refl

  by_side :
      (o b : Bool) (s : Session)
      → b ≡ o
      → IsSound c o limit s
      → Ensures
          (IsSound c o limit)
          (if b then handle_originator_state stack s else handle_answerer_state stack s)
  unfolding handle_originator_state handle_answerer_state
  by_side true true s e h = originator_state-Ensures s.state s h
  by_side false false s e h = answerer_state-Ensures s.state s h
  by_side true false s e h = cc
  by_side false true s e h = cc

  in_state-Ensures :
      (o : Bool) (state : State) (s : Session)
      → IsSound c o limit s
      → Ensures (IsSound c o limit) (in_state stack state s)
  unfolding in_state
  in_state-Ensures o t0_transfer s h = handle_transfer_state-Ensures c o limit stack s h
  in_state-Ensures o _ s h = by_side o s.is_originator s h.side_kept h

  -- A step from a sound session leaves a sound one, whatever code it returns: of the same side and
  -- configuration, in a state of that side, secure exactly if it is authenticated, and
  -- authenticated only where a password is configured.
  pub session_step-Ensures :
      (o : Bool) (s : Session)
      → IsSound c o limit s
      → Ensures (IsSound c o limit) (session_step stack s)
  unfolding session_step
  session_step-Ensures o s h = in_state-Ensures o s.state s h
