-- ===== src/Binkp/Session/States.antt =====
-- The states of a session: `ftn_binkp_session_state_t` of include/ftn/binkp/session.h.
use lib_ftn.Common.{Bool, true, false}

pub data State : Type 0 where
  s0_conn_init s1_wait_conn s2_send_passwd s3_wait_addr s4_auth_remote s5_if_secure : State
  s6_wait_ok s7_opts : State
  r0_wait_conn r1_wait_addr r2_is_passwd r3_wait_pwd r4_pwd_ack r5_opts : State
  t0_transfer done error : State

-- `ftn_binkp_session_is_complete`
unfoldable pub is_done : State → Bool
is_done done = true
is_done state = false

-- `ftn_binkp_session_has_error`
unfoldable pub is_error : State → Bool
is_error error = true
is_error state = false
