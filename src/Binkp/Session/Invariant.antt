-- ===== src/Binkp/Session/Invariant.antt =====
-- The invariant of a session, and the sending and processing of frames in src/binkp/session.c
-- against it.
use lib_ftn.Common.{ℕ, Bool, true, false, Option, none, some, List, arith, ◌≡◌, ◌≢◌, ◌⊎◌, inr}
use lib_ftn.Common.{refl, sym, ap, ◌∙◌, if◌then◌else◌, ◌==◌, codes, str_eq}
use lib_ftn.Common.Text.{c_string}
use lib_ftn.Config.{Config, first_password}
use lib_ftn.Net.{Connection}
use lib_ftn.Binkp.Status.{Status}
use lib_ftn.Binkp.Frame.{Frame, frame_init, frame_send, frame_total_size}
use lib_ftn.Binkp.Command.{
  CommandFrame, command_init, command_parse, command_create, command_to_frame,
}
use lib_ftn.Binkp.Command.{m_nul, m_adr, m_pwd, m_ok, m_eob, m_err, m_bsy}
use lib_ftn.Binkp.Session.{
  Session, Outcome, add_size, after_send, send_frame, send_built, send_command,
}
use lib_ftn.Binkp.Session.{after_address, on_address, after_password, on_password}
use lib_ftn.Binkp.Session.{after_ok, process_command, process_parsed, process_frame}
use lib_ftn.Binkp.Session.Handlers.{◌>>=◌, goto}
use lib_ftn.Binkp.Session.States.{State, s0_conn_init, s1_wait_conn, s2_send_passwd, s3_wait_addr}
use lib_ftn.Binkp.Session.States.{s4_auth_remote, s5_if_secure, s6_wait_ok, s7_opts, r0_wait_conn}
use lib_ftn.Binkp.Session.States.{r1_wait_addr, r2_is_passwd, r3_wait_pwd, r4_pwd_ack, r5_opts}
use lib_ftn.Binkp.Session.States.{t0_transfer, done, error}

-- The states of an originator (`true`) and of an answerer.
unfoldable pub plays : Bool → State → Bool
plays o t0_transfer = true
plays o done = true
plays o error = true
plays false r0_wait_conn = true
plays false r1_wait_addr = true
plays false r2_is_passwd = true
plays false r3_wait_pwd = true
plays false r4_pwd_ack = true
plays false r5_opts = true
plays true s0_conn_init = true
plays true s1_wait_conn = true
plays true s2_send_passwd = true
plays true s3_wait_addr = true
plays true s4_auth_remote = true
plays true s5_if_secure = true
plays true s6_wait_ok = true
plays true s7_opts = true
plays o state = false

-- The session keeps its configuration, its side and its time limit, is in a state of its side,
-- is secure exactly if it is authenticated, and is authenticated only where a password is
-- configured.
pub record IsSound (c : Config) (o : Bool) (limit : ℕ) (s : Session) : Type 0 where
  pub config_kept : s.config ≡ c
  pub side_kept : s.is_originator ≡ o
  pub limit_kept : s.session_timeout_ms ≡ limit
  pub side : plays o s.state ≡ true
  pub secure : s.is_secure ≡ s.authenticated
  pub known : (s.authenticated ≡ false) ⊎ (first_password c ≢ none)

-- A property of the session that a call returns, with whatever code.
abbrev pub Ensures : (Session → Type 0) → Outcome → Type 0
Ensures P none = Unit
Ensures P (some (code, s)) = P s

pub Ensures-if :
    (P : Session → Type 0) (b : Bool) (x y : Outcome)
    → Ensures P x
    → Ensures P y
    → Ensures P (if b then x else y)
Ensures-if P true x y h k = h
Ensures-if P false x y h k = k

module _ (c : Config) (o : Bool) (limit : ℕ) where
  pub Ensures-bind :
      (m : Outcome) (k : Session → Outcome)
      → Ensures (IsSound c o limit) m
      → ((s : Session) → IsSound c o limit s → Ensures (IsSound c o limit) (k s))
      → Ensures (IsSound c o limit) (m >>= k)
  Ensures-bind none k h rest = tt
  Ensures-bind (some (Status.ok, s)) k h rest = rest s h
  Ensures-bind (some (code, s)) k h rest = h

  -- A step to another state of the side, with other counters and another connection.
  pub moved :
      (s : Session) (state : State)
      → IsSound c o limit s
      → plays o state ≡ true
      → IsSound c o limit (record s { state = state })
  moved s state h p = record {
    config_kept = h.config_kept;
    side_kept = h.side_kept;
    limit_kept = h.limit_kept;
    side = p;
    secure = h.secure;
    known = h.known;
  }

  pub transferred :
      (s : Session) (conn : Connection) (sent got : ℕ)
      → IsSound c o limit s
      → IsSound c o limit (record s { connection = conn; bytes_sent = sent; bytes_received = got })
  transferred s conn sent got h = record {
    config_kept = h.config_kept;
    side_kept = h.side_kept;
    limit_kept = h.limit_kept;
    side = h.side;
    secure = h.secure;
    known = h.known;
  }

  pub goto-Ensures :
      (s : Session) (state : State)
      → IsSound c o limit s
      → plays o state ≡ true
      → Ensures (IsSound c o limit) (goto state s)
  goto-Ensures s state h p = moved s state h p

  after_address-plays :
      (state : State) → plays o state ≡ true → plays o (after_address state) ≡ true
  unfolding after_address plays
  after_address-plays state h = ground arith

  after_password-plays :
      (state : State) → plays o state ≡ true → plays o (after_password state) ≡ true
  unfolding after_password plays
  after_password-plays state h = ground arith

  after_ok-plays : (state : State) → plays o state ≡ true → plays o (after_ok state) ≡ true
  unfolding after_ok plays
  after_ok-plays state h = ground arith

  on_address-IsSound :
      (s : Session) (args : Option (List ℕ))
      → IsSound c o limit s
      → IsSound c o limit (on_address s args)
  unfolding on_address
  on_address-IsSound s none h = h
  on_address-IsSound s (some args) h = record {
    config_kept = h.config_kept;
    side_kept = h.side_kept;
    limit_kept = h.limit_kept;
    side = after_address-plays s.state h.side;
    secure = h.secure;
    known = h.known;
  }

  module _ (stack : List ℕ) where
    after_send-Ensures :
        (s : Session) (r : Option (Status × Connection))
        → IsSound c o limit s
        → Ensures (IsSound c o limit) (after_send s r)
    unfolding after_send
    after_send-Ensures s none h = tt
    after_send-Ensures s (some (code, conn)) h = transferred s conn s.bytes_sent s.bytes_received h

    send_frame-Ensures :
        (s : Session) (f : Frame)
        → IsSound c o limit s
        → Ensures (IsSound c o limit) (send_frame stack s f)
    unfolding send_frame
    send_frame-Ensures s f h =
        let sent = add_size s.bytes_sent (frame_total_size f) in
        after_send-Ensures (record s { bytes_sent = sent }) (frame_send stack s.connection f)
          (transferred s s.connection sent s.bytes_received h)

    send_built-Ensures :
        (s : Session) (r : Status × Frame)
        → IsSound c o limit s
        → Ensures (IsSound c o limit) (send_built stack s r)
    unfolding send_built
    send_built-Ensures s (Status.ok, f) h = send_frame-Ensures s f h
    send_built-Ensures s (code, f) h = h

    pub send_command-Ensures :
        (s : Session) (number : ℕ) (text : Option (List ℕ))
        → IsSound c o limit s
        → Ensures (IsSound c o limit) (send_command stack s number text)
    unfolding send_command
    send_command-Ensures s number text h =
        send_built-Ensures s
          (command_to_frame (command_create command_init number text).1 frame_init) h

    -- The password is compared with the one of the configuration.
    on_password-Ensures :
        (s : Session) (expected args : Option (List ℕ))
        → first_password c ≡ expected
        → IsSound c o limit s
        → Ensures (IsSound c o limit) (on_password stack s expected args)
    unfolding on_password
    on_password-Ensures s none args e h =
        moved s (after_password s.state) h (after_password-plays s.state h.side)
    on_password-Ensures s (some expected) none e h =
        moved s (after_password s.state) h (after_password-plays s.state h.side)
    on_password-Ensures s (some expected) (some args) e h =
        Ensures-if (IsSound c o limit) (str_eq (c_string args) expected) _ _
          (record {
            config_kept = h.config_kept;
            side_kept = h.side_kept;
            limit_kept = h.limit_kept;
            side = after_password-plays s.state h.side;
            secure = refl;
            known = inr (λ n. cc (sym e ∙ n));
          })
          (send_command-Ensures s m_err (some (codes "Authentication failed")) h)

    process_command-Ensures :
        (s : Session) (cmd : CommandFrame)
        → IsSound c o limit s
        → Ensures (IsSound c o limit) (process_command stack s cmd)
    unfolding process_command
    process_command-Ensures s cmd h =
        let P : Session → Type 0 = IsSound c o limit in
        Ensures-if P (cmd.cmd == m_nul) _ _ h (
          Ensures-if P (cmd.cmd == m_adr) _ _ (on_address-IsSound s cmd.args h) (
            Ensures-if P (cmd.cmd == m_pwd) _ _
              (on_password-Ensures s (first_password s.config) cmd.args
                (ap first_password (sym h.config_kept)) h)
              (Ensures-if P (cmd.cmd == m_ok) _ _
                (moved s (after_ok s.state) h (after_ok-plays s.state h.side))
                (Ensures-if P (cmd.cmd == m_eob) _ _ (moved s done h (unfold plays in refl)) (
                  Ensures-if P (cmd.cmd == m_err) _ _ (moved s error h (unfold plays in refl)) (
                    Ensures-if P (cmd.cmd == m_bsy) _ _ (moved s error h (unfold plays in refl))
                      h))))))

    process_parsed-Ensures :
        (s : Session) (r : Status × CommandFrame)
        → IsSound c o limit s
        → Ensures (IsSound c o limit) (process_parsed stack s r)
    unfolding process_parsed
    process_parsed-Ensures s (Status.ok, cmd) h = process_command-Ensures s cmd h
    process_parsed-Ensures s (code, cmd) h = h

    pub process_frame-Ensures :
        (s : Session) (f : Frame)
        → IsSound c o limit s
        → Ensures (IsSound c o limit) (process_frame stack s f)
    unfolding process_frame
    process_frame-Ensures s f h =
        Ensures-if (IsSound c o limit) f.is_command _ _
          (process_parsed-Ensures s (command_parse f command_init) h)
          (transferred s s.connection s.bytes_sent (add_size s.bytes_received f.size) h)
