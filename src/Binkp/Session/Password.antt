-- ===== src/Binkp/Session/Password.antt =====
-- The password check of an answerer: M_PWD in `ftn_binkp_process_command` of
-- src/binkp/session.c.
use lib_ftn.Common.{
  ℕ, Bool, true, false, Option, none, some, List, arith, ◌≡◌, ◌==◌, refl, sym, ◌∙◌,
}
use lib_ftn.Common.{if◌then◌else◌, str_eq, str_eq→eq, codes, ==_iff}
use lib_ftn.Common.Text.{c_string}
use lib_ftn.Config.{first_password}
use lib_ftn.Net.{Connection}
use lib_ftn.Binkp.Status.{Status, ok}
use lib_ftn.Binkp.Frame.{Frame, frame_init, frame_send, frame_total_size}
use lib_ftn.Binkp.Command.{CommandFrame, command_init, command_create, command_to_frame}
use lib_ftn.Binkp.Command.{command_parse, m_nul, m_adr, m_pwd, m_ok, m_eob, m_err, m_bsy}
use lib_ftn.Binkp.Session.{Session, Outcome, after_send, send_frame, send_built, send_command}
use lib_ftn.Binkp.Session.{on_address, on_password, process_command}
use lib_ftn.Binkp.Session.{process_parsed, process_data, process_frame, add_size}
use lib_ftn.Binkp.Session.Invariant.{Ensures}

pub Ensures-choice :
    (P : Session → Type 0) (b : Bool) (x y : Outcome)
    → (b ≡ true → Ensures P x)
    → Ensures P y
    → Ensures P (if b then x else y)
Ensures-choice P true x y h k = h refl
Ensures-choice P false x y h k = k

-- Sending a command leaves the state and the flags as they are.
pub record IsKept (s s' : Session) : Type 0 where
  pub state_kept : s'.state ≡ s.state
  pub authenticated_kept : s'.authenticated ≡ s.authenticated
  pub secure_kept : s'.is_secure ≡ s.is_secure

same : (s : Session) → IsKept s s
same s = record { state_kept = refl; authenticated_kept = refl; secure_kept = refl }

after_send-IsKept :
    (s s' : Session) (r : Option (Status × Connection))
    → IsKept s s'
    → Ensures (IsKept s) (after_send s' r)
unfolding after_send
after_send-IsKept s s' none h = tt
after_send-IsKept s s' (some (code, conn)) h = record {
  state_kept = h.state_kept;
  authenticated_kept = h.authenticated_kept;
  secure_kept = h.secure_kept;
}

module _ (stack : List ℕ) where
  send_built-IsKept : (s : Session) (r : Status × Frame) → Ensures (IsKept s) (send_built stack s r)
  unfolding send_built send_frame
  send_built-IsKept s (Status.ok, f) =
      let counted : Session = record s {
        bytes_sent = add_size s.bytes_sent (frame_total_size f);
      } in
      after_send-IsKept s counted (frame_send stack s.connection f)
        (record { state_kept = refl; authenticated_kept = refl; secure_kept = refl })
  send_built-IsKept s (code, f) = same s

  pub send_command-IsKept :
      (s : Session) (number : ℕ) (text : Option (List ℕ))
      → Ensures (IsKept s) (send_command stack s number text)
  unfolding send_command
  send_command-IsKept s number text =
      send_built-IsKept s (command_to_frame (command_create command_init number text).1 frame_init)

-- A command that carries the password `expected`.
abbrev pub Presents : CommandFrame → List ℕ → Type 0
Presents cmd expected =
    (cmd.cmd ≡ m_pwd) × (args : List ℕ) × (cmd.args ≡ some args) × (c_string args ≡ expected)

-- The command presents the password that the configuration asks for.
abbrev pub Proves : Session → CommandFrame → Type 0
Proves s cmd = (p : List ℕ) × (first_password s.config ≡ some p) × Presents cmd p

-- A session that the call makes an authenticated one has been shown the password.
abbrev Earned : Session → CommandFrame → Session → Type 0
Earned s cmd s' = s.authenticated ≡ false → s'.authenticated ≡ true → Proves s cmd

module _ (stack : List ℕ) where
  unchanged : (s : Session) (cmd : CommandFrame) → Earned s cmd s
  unchanged s cmd before after = ground arith

  kept-Earned :
      (s : Session) (cmd : CommandFrame) (r : Outcome)
      → Ensures (IsKept s) r
      → Ensures (Earned s cmd) r
  kept-Earned s cmd none h = tt
  kept-Earned s cmd (some (code, s')) h =
      λ before after. unchanged s cmd before (sym h.authenticated_kept ∙ after)

  on_password-Earned :
      (s : Session) (cmd : CommandFrame) (expected args : Option (List ℕ))
      → first_password s.config ≡ expected
      → cmd.cmd ≡ m_pwd
      → cmd.args ≡ args
      → Ensures (Earned s cmd) (on_password stack s expected args)
  unfolding on_password
  on_password-Earned s cmd none args e p q = unchanged s cmd
  on_password-Earned s cmd (some expected) none e p q = unchanged s cmd
  on_password-Earned s cmd (some expected) (some args) e p q =
      Ensures-choice (Earned s cmd) (str_eq (c_string args) expected) _ _
        (λ same _ _. (expected, e, (p, args, q, str_eq→eq (c_string args) expected same)))
        (kept-Earned s cmd (send_command stack s m_err (some (codes "Authentication failed")))
          (send_command-IsKept stack s m_err (some (codes "Authentication failed"))))

  on_address-authenticated :
      (s : Session) (args : Option (List ℕ)) → (on_address s args).authenticated ≡ s.authenticated
  unfolding on_address
  on_address-authenticated s none = refl
  on_address-authenticated s (some args) = refl

  process_command-Earned :
      (s : Session) (cmd : CommandFrame) → Ensures (Earned s cmd) (process_command stack s cmd)
  unfolding process_command
  process_command-Earned s cmd =
      let P : Session → Type 0 = Earned s cmd in
      Ensures-choice P (cmd.cmd == m_nul) _ _ (λ _. unchanged s cmd)
        (Ensures-choice P (cmd.cmd == m_adr) _ _
          (λ _ before after.
            unchanged s cmd before (sym (on_address-authenticated s cmd.args) ∙ after))
          (Ensures-choice P (cmd.cmd == m_pwd) _ _
            (λ e.
              on_password-Earned s cmd (first_password s.config) cmd.args refl
                ((==_iff cmd.cmd m_pwd).0 e) refl)
            (Ensures-choice P (cmd.cmd == m_ok) _ _ (λ _. unchanged s cmd)
              (Ensures-choice P (cmd.cmd == m_eob) _ _ (λ _. unchanged s cmd)
                (Ensures-choice P (cmd.cmd == m_err) _ _ (λ _. unchanged s cmd)
                  (Ensures-choice P (cmd.cmd == m_bsy) _ _ (λ _. unchanged s cmd)
                    (unchanged s cmd)))))))

  still :
      (s s' : Session) (x code : Status)
      → ◌≡◌ {A = Outcome} (some (x, s)) (some (code, s'))
      → s.authenticated ≡ false
      → s'.authenticated ≡ true
      → ⊥
  still s s' x code e before after = ground arith

  process_parsed-Earned :
      (s s' : Session) (code : Status) (r : Status × CommandFrame)
      → process_parsed stack s r ≡ some (code, s')
      → s.authenticated ≡ false
      → s'.authenticated ≡ true
      → (r.0 ≡ ok) × Proves s r.1
  unfolding process_parsed
  process_parsed-Earned s s' code (Status.ok, cmd) e before after =
      (refl, (rw e at (process_command-Earned s cmd)) before after)
  process_parsed-Earned s s' code (x, cmd) e before after =
      absurd (still s s' x code e before after)

  -- A frame makes a session authenticated only where it is a command frame that parses as M_PWD
  -- and carries, up to its first zero byte, the password that the configuration asks for.
  pub process_frame-Proves :
      (s s' : Session) (f : Frame) (code : Status)
      → process_frame stack s f ≡ some (code, s')
      → s.authenticated ≡ false
      → s'.authenticated ≡ true
      → (f.is_command ≡ true)
        × ((command_parse f command_init).0 ≡ ok)
        × Proves s (command_parse f command_init).1
  unfolding process_frame process_data
  process_frame-Proves s s' f code e before after = by_kind f.is_command e
    where
      by_kind :
          (b : Bool)
          → (if b
              then process_parsed stack s (command_parse f command_init)
              else process_data stack s f)
            ≡ some (code, s')
          → (b ≡ true)
            × ((command_parse f command_init).0 ≡ ok)
            × Proves s (command_parse f command_init).1
      by_kind true e =
          let (a, b) =
            process_parsed-Earned s s' code (command_parse f command_init) e before after in
          (refl, a, b)
      by_kind false e = absurd (ground arith)
