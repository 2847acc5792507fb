-- ===== src/Error.antt =====
-- The error codes of include/ftn.h.
pub data FtnError : Type 0 where
  ok nomem file parse crc invalid notfound memory invalid_parameter invalid_format : FtnError
  file_not_found file_access network not_connected connection_closed would_block : FtnError
  timeout buffer_too_small file_io : FtnError
