-- ===== src/Binkp/Session/Gate.antt =====
-- Which commands take an answerer that waits for the password (R3) on to its acknowledgement
-- (R4): M_PWD in `ftn_binkp_process_command` of src/binkp/session.c.
use lib_ftn.Common.{ℕ, Option, none, some, List, arith, ◌≡◌, ◌==◌, refl, ◌∙◌}
use lib_ftn.Common.{str_eq, str_eq_refl, str_eq→eq, codes, ==_iff, ◌↔◌}
use lib_ftn.Common.Text.{c_string}
use lib_ftn.Config.{first_password}
use lib_ftn.Binkp.Command.{CommandFrame, m_nul, m_adr, m_pwd, m_ok, m_eob, m_err, m_bsy}
use lib_ftn.Binkp.Session.{Session, Outcome, send_command}
use lib_ftn.Binkp.Session.{
  on_address, after_address, on_password, after_password, after_ok, process_command,
}
use lib_ftn.Binkp.Session.States.{State, r3_wait_pwd, r4_pwd_ack}
use lib_ftn.Binkp.Session.Invariant.{Ensures}
use lib_ftn.Binkp.Session.Password.{Ensures-choice, IsKept, send_command-IsKept}

-- The call has returned, with the session in the state.
abbrev pub IsIn : State → Outcome → Type 0
IsIn state none = ⊥
IsIn state (some (code, s)) = s.state ≡ state

-- Nothing, or the password up to a first zero byte.
abbrev pub IsAdmitted : List ℕ → Option (List ℕ) → Type 0
IsAdmitted password none = Unit
IsAdmitted password (some args) = c_string args ≡ password

-- The command is an M_PWD, and IsAdmitted.
abbrev pub Admits : List ℕ → CommandFrame → Type 0
Admits password cmd = (cmd.cmd ≡ m_pwd) × IsAdmitted password cmd.args

module _ (stack : List ℕ) (s : Session) (password : List ℕ) (cmd : CommandFrame)
    (waits : s.state ≡ r3_wait_pwd) where
  abbrev Passed : Session → Type 0
  Passed s' = s'.state ≡ r4_pwd_ack → Admits password cmd

  stays : (s' : Session) → s'.state ≡ r3_wait_pwd → Passed s'
  stays s' e e' = ground arith

  kept-Passed : (r : Outcome) → Ensures (IsKept s) r → Ensures Passed r
  kept-Passed none h = tt
  kept-Passed (some (code, s')) h = stays s' (h.state_kept ∙ waits)

  on_address-stays : (args : Option (List ℕ)) → (on_address s args).state ≡ r3_wait_pwd
  unfolding on_address after_address
  on_address-stays none = waits
  on_address-stays (some args) = rw (waits)

  on_password-Passed :
      (args : Option (List ℕ))
      → cmd.args ≡ args
      → cmd.cmd ≡ m_pwd
      → Ensures Passed (on_password stack s (some password) args)
  unfolding on_password
  on_password-Passed none e p = λ _. (p, rw e tt)
  on_password-Passed (some args) e p =
      Ensures-choice Passed (str_eq (c_string args) password) _ _
        (λ same _. (p, rw e (str_eq→eq (c_string args) password same)))
        (kept-Passed (send_command stack s m_err (some (codes "Authentication failed")))
          (send_command-IsKept stack s m_err (some (codes "Authentication failed"))))

  process_command-Passed :
      first_password s.config ≡ some password → Ensures Passed (process_command stack s cmd)
  unfolding process_command after_ok
  process_command-Passed e =
      Ensures-choice Passed (cmd.cmd == m_nul) _ _ (λ _. stays s waits)
        (Ensures-choice Passed (cmd.cmd == m_adr) _ _
          (λ _. stays (on_address s cmd.args) (on_address-stays cmd.args))
          (Ensures-choice Passed (cmd.cmd == m_pwd) _ _
            (λ q. rw e (on_password-Passed cmd.args refl ((==_iff cmd.cmd m_pwd).0 q)))
            (Ensures-choice Passed (cmd.cmd == m_ok) _ _
              (λ _. stays (record s { state = after_ok s.state }) (rw waits))
              (Ensures-choice Passed (cmd.cmd == m_eob) _ _ (λ _ q. ground arith)
                (Ensures-choice Passed (cmd.cmd == m_err) _ _ (λ _ q. ground arith)
                  (Ensures-choice Passed (cmd.cmd == m_bsy) _ _ (λ _ q. ground arith)
                    (stays s waits)))))))

  is_in : (r : Outcome) → Ensures Passed r → IsIn r4_pwd_ack r → Admits password cmd
  is_in none h p = absurd p
  is_in (some (code, s')) h p = h p

  on_password-IsIn :
      (args : Option (List ℕ))
      → IsAdmitted password args
      → IsIn r4_pwd_ack (on_password stack s (some password) args)
  unfolding on_password after_password
  on_password-IsIn none h = rw waits
  on_password-IsIn (some args) h = rw (h, str_eq_refl password, waits)

  process_command-IsIn :
      first_password s.config ≡ some password
      → Admits password cmd
      → IsIn r4_pwd_ack (process_command stack s cmd)
  unfolding process_command
  process_command-IsIn e (p, h) = rw (p, e) (on_password-IsIn cmd.args h)

  -- Where a password is configured, a command takes an answerer that waits for it to the
  -- acknowledgement exactly if it is an M_PWD whose arguments are missing or are the password.
  pub process_command-IsIn-r4_pwd_ack :
      first_password s.config ≡ some password
      → IsIn r4_pwd_ack (process_command stack s cmd) ↔ Admits password cmd
  process_command-IsIn-r4_pwd_ack e =
      (is_in (process_command stack s cmd) (process_command-Passed e), process_command-IsIn e)
