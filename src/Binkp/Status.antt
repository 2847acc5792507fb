-- ===== src/Binkp/Status.antt =====
-- `ftn_binkp_error_t` of include/ftn/binkp.h.
pub data Status : Type 0 where
  ok invalid_frame frame_too_large buffer_too_small invalid_command network : Status
  timeout auth_failed protocol_error : Status
