-- ===== src/Gate/Protocol.antt =====
-- server/services/GateServer/include/const.h: the error codes of the GateServer's answers.
use xiguchat.Prelude.Text.{Text, codes}
use xiguchat.Prelude.Int.{ℤ, pos}

pub data GateError : Type 0 where
  error_json rpc_failed verify_expired verify_code_err user_exist passwd_err : GateError
  email_not_match passwd_up_failed passwd_invalid : GateError

unfoldable pub gate_error_number : GateError → ℤ
gate_error_number error_json = pos 1001
gate_error_number rpc_failed = pos 1002
gate_error_number verify_expired = pos 1003
gate_error_number verify_code_err = pos 1004
gate_error_number user_exist = pos 1005
gate_error_number passwd_err = pos 1006
gate_error_number email_not_match = pos 1007
gate_error_number passwd_up_failed = pos 1008
gate_error_number passwd_invalid = pos 1009

-- CODEPREFIX of the GateServer and CODE_PREFIX of the VerifyServer.
abbrev pub code_prefix : Text
code_prefix = codes "code_"
