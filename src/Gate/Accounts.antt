-- ===== src/Gate/Accounts.antt =====
-- server/services/GateServer/src/LogicSystem.cpp: the handlers of the POST requests. A handler takes
-- the body of the request and gives the JSON document of the answer. The calls of the VerifyServer
-- and of the StatusServer are arguments; none: the status of the call is not ok.
pub mod Login
pub mod Registered
use xiguchat.Prelude.{
  Bool, true, false, not, ◌&&◌, ◌||◌, Option, none, some, List, [], ◌∷◌, ◌++◌, if◌then◌else◌,
}
use xiguchat.Prelude.Text.{Text, codes, text_eq}
use xiguchat.Prelude.Int.{ℤ, pos, negsuc, eqb_ℤ}
use xiguchat.Chat.Json.{Json}
use xiguchat.Chat.World.{Doc, int, text, object, none_yet, Reply}
use xiguchat.Chat.Redis.{string_of}
use xiguchat.Chat.Reply.{put_fields}
use xiguchat.Status.{GetChatServerRsp, StatusError, success}
use xiguchat.Gate.Protocol.{
  GateError, error_json, rpc_failed, verify_expired, verify_code_err, user_exist, passwd_err,
  email_not_match, passwd_up_failed, passwd_invalid, gate_error_number, code_prefix,
}
use xiguchat.Gate.Outside.{Outside, UserRow}
use xiguchat.Gate.Dao.{reg_user, check_email, update_pwd, check_pwd}

abbrev pub error_doc : GateError → Doc
error_doc error = object (put_fields none_yet ((codes "error", int (gate_error_number error)) ∷ []))

-- VerifyGrpcClient::GetVerifyCode: the error of the reply, or RPCFailed.
abbrev pub verify_error : Option ℤ → ℤ
verify_error none = gate_error_number rpc_failed
verify_error (some error) = error

abbrev pub verify_doc : ℤ → Text → Doc
verify_doc error email =
    object (put_fields none_yet ((codes "error", int error) ∷ (codes "email", text email) ∷ []))

abbrev pub register_doc : ℤ → Text → Text → Doc
register_doc uid email name = object (
    put_fields none_yet (
      (codes "error", int (pos 0))
      ∷ (codes "uid", int uid)
      ∷ (codes "email", text email)
      ∷ (codes "user", text name)
      ∷ []))

abbrev pub reset_doc : Text → Text → Doc
reset_doc email name = object (
    put_fields none_yet
      ((codes "error", int (pos 0)) ∷ (codes "email", text email) ∷ (codes "user", text name) ∷ []))

abbrev pub login_doc : Text → ℤ → GetChatServerRsp → Doc
login_doc email uid reply = object (
    put_fields none_yet (
      (codes "error", int (pos 0))
      ∷ (codes "email", text email)
      ∷ (codes "uid", int uid)
      ∷ (codes "token", text reply.token)
      ∷ (codes "host", text reply.host)
      ∷ (codes "port", text reply.port)
      ∷ []))

-- The answer to a login from the reply of StatusGrpcClient::GetChatServer.
abbrev pub routed_doc : Text → ℤ → StatusError → GetChatServerRsp → Doc
routed_doc email uid success reply = login_doc email uid reply
routed_doc email uid error reply = error_doc rpc_failed

abbrev pub login_answer_doc : Text → ℤ → Option GetChatServerRsp → Doc
login_answer_doc email uid none = error_doc rpc_failed
login_answer_doc email uid (some reply) = routed_doc email uid reply.error reply

-- The code of the request against the one that Redis has; none: it passes.
abbrev pub code_error : Option Text → Text → Option GateError
code_error none code = some verify_expired
code_error (some verify_code) code = if text_eq verify_code code then none else some verify_code_err

-- The members that a request has to have as strings.
abbrev pub verifycode_keys : List Text
verifycode_keys = codes "email" ∷ []

abbrev pub register_keys : List Text
register_keys =
    codes "email" ∷ codes "user" ∷ codes "passwd" ∷ codes "confirm" ∷ codes "verifycode" ∷ []

abbrev pub reset_keys : List Text
reset_keys = codes "email" ∷ codes "user" ∷ codes "passwd" ∷ codes "verifycode" ∷ []

abbrev pub login_keys : List Text
login_keys = codes "email" ∷ codes "passwd" ∷ []

module _ (o : Outside) where
  open o use {json, State, parse, redis_open, get}

  -- RedisMgr::Get of the GateServer and of the VerifyServer.
  unfoldable pub get_string : Text → State → Option Text × State
  get_string key s =
      if redis_open s then (let (reply, s') = get key s in (string_of reply, s')) else (none, s)

  unfoldable pub check_code : Text → Text → State → Option GateError × State
  unfolding get_string
  check_code email code s =
      let (verify_code, s') = get_string (code_prefix ++ email) s in
      (code_error verify_code code, s')

  abbrev pub field : Json.Value json → Text → Text
  field root key = Json.as_string json (Json.member json root key)

  unfoldable pub has_strings : Json.Value json → List Text → Bool
  has_strings root [] = true
  has_strings root (key ∷ keys) =
      Json.is_string json (Json.member json root key) && has_strings root keys

  -- The request as an object that has strings at the keys.
  abbrev pub well_formed : List Text → Option (Json.Value json) → Option (Json.Value json)
  well_formed keys none = none
  well_formed keys (some root) =
      if Json.is_object json root && has_strings root keys then some root else none

  unfoldable pub request_of : List Text → Text → Option (Json.Value json)
  unfolding has_strings
  request_of keys body = well_formed keys (parse body)

  abbrev pub with_request :
      Option (Json.Value json) → (Json.Value json → State → Doc × State) → State → Doc × State
  with_request none handler s = (error_doc error_json, s)
  with_request (some root) handler s = handler root s

  module _ (verify_rpc : Text → State → Option ℤ × State) where
    abbrev pub verifycode_from : Json.Value json → State → Doc × State
    verifycode_from root s =
        let email = field root (codes "email") in
        let (error, s') = verify_rpc email s in (verify_doc (verify_error error) email, s')

    unfoldable pub get_verifycode : Text → State → Doc × State
    unfolding request_of
    get_verifycode body = with_request (request_of verifycode_keys body) verifycode_from

  unfoldable pub registered : Text → Text → ℤ × State → Doc × State
  registered email name (uid, s) =
      if eqb_ℤ uid (pos 0) || eqb_ℤ uid (negsuc 0)
      then (error_doc user_exist, s)
      else (register_doc uid email name, s)

  unfoldable pub register_checked : Text → Text → Text → Option GateError × State → Doc × State
  unfolding registered
  register_checked email name pwd (some error, s) = (error_doc error, s)
  register_checked email name pwd (none, s) = registered email name (reg_user o name email pwd s)

  unfoldable pub register_account : Text → Text → Text → Text → Text → State → Doc × State
  unfolding register_checked check_code
  register_account email name pwd confirm code s =
      if text_eq pwd confirm
      then register_checked email name pwd (check_code email code s)
      else (error_doc passwd_err, s)

  abbrev pub register_from : Json.Value json → State → Doc × State
  register_from root =
      register_account (field root (codes "email")) (field root (codes "user"))
        (field root (codes "passwd")) (field root (codes "confirm"))
        (field root (codes "verifycode"))

  unfoldable pub user_register : Text → State → Doc × State
  unfolding request_of register_account
  user_register body = with_request (request_of register_keys body) register_from

  unfoldable pub reset_done : Text → Text → Bool × State → Doc × State
  reset_done email name (false, s) = (error_doc passwd_up_failed, s)
  reset_done email name (true, s) = (reset_doc email name, s)

  unfoldable pub reset_matched : Text → Text → Text → Bool × State → Doc × State
  unfolding reset_done
  reset_matched email name pwd (false, s) = (error_doc email_not_match, s)
  reset_matched email name pwd (true, s) = reset_done email name (update_pwd o name pwd s)

  unfoldable pub reset_checked : Text → Text → Text → Option GateError × State → Doc × State
  unfolding reset_matched
  reset_checked email name pwd (some error, s) = (error_doc error, s)
  reset_checked email name pwd (none, s) = reset_matched email name pwd (check_email o name email s)

  unfoldable pub reset_account : Text → Text → Text → Text → State → Doc × State
  unfolding reset_checked check_code
  reset_account email name pwd code s = reset_checked email name pwd (check_code email code s)

  abbrev pub reset_from : Json.Value json → State → Doc × State
  reset_from root =
      reset_account (field root (codes "email")) (field root (codes "user"))
        (field root (codes "passwd")) (field root (codes "verifycode"))

  unfoldable pub reset_pwd : Text → State → Doc × State
  unfolding request_of reset_account
  reset_pwd body = with_request (request_of reset_keys body) reset_from

  module _ (status_rpc : ℤ → State → Option GetChatServerRsp × State) where
    unfoldable pub login_checked : Text → (Bool × Option UserRow) × State → Doc × State
    login_checked email ((true, some row), s) =
        let (reply, s') = status_rpc row.uid s in (login_answer_doc email row.uid reply, s')
    login_checked email (other, s) = (error_doc passwd_invalid, s)

    unfoldable pub login_account : Text → Text → State → Doc × State
    unfolding login_checked
    login_account email pwd s = login_checked email (check_pwd o email pwd s)

    abbrev pub login_from : Json.Value json → State → Doc × State
    login_from root = login_account (field root (codes "email")) (field root (codes "passwd"))

    unfoldable pub user_login : Text → State → Doc × State
    unfolding request_of login_account
    user_login body = with_request (request_of login_keys body) login_from
