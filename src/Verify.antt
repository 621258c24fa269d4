-- ===== src/Verify.antt =====
-- The VerifyServer (server/services/VerifyServer/): src/VerifyServiceImpl.cpp, the codes that are
-- sent by mail, with Get and SetExpire of src/RedisMgr.cpp.
pub mod Mailed
use xiguchat.Prelude.{
  ℕ, ◌/◌, Bool, true, false, Option, none, some, List, [], ◌∷◌, ◌++◌, if◌then◌else◌, take,
}
use xiguchat.Prelude.Text.{Text, codes}
use xiguchat.Prelude.Int.{ℤ, pos}
use xiguchat.Prelude.Decimal.{to_string}
use xiguchat.Chat.Redis.{is_ok}
use xiguchat.Gate.Protocol.{code_prefix}
use xiguchat.Gate.Outside.{Outside}
use xiguchat.Gate.Accounts.{get_string}

pub data VerifyCodes : Type 0 where
  success redis_err exception send_mail_err : VerifyCodes

unfoldable pub verify_number : VerifyCodes → ℤ
verify_number success = pos 0
verify_number redis_err = pos 1
verify_number exception = pos 2
verify_number send_mail_err = pos 3

pub record GetVerifyRsp : Type 0 where
  pub error : VerifyCodes
  pub email : Text

abbrev pub code_expire_seconds : ℕ
code_expire_seconds = 600

abbrev pub code_length : ℕ
code_length = 4

-- "验证码"
abbrev pub mail_subject : Text
mail_subject = 233 ∷ 170 ∷ 140 ∷ 232 ∷ 175 ∷ 129 ∷ 231 ∷ 160 ∷ 129 ∷ []

-- "您的验证码为 "
abbrev pub mail_head : Text
mail_head =
    230 ∷ 130 ∷ 168 ∷ 231 ∷ 154 ∷ 132 ∷ 233 ∷ 170 ∷ 140 ∷ 232 ∷ 175 ∷ 129 ∷ 231 ∷ 160 ∷ 129 ∷ 228
    ∷ 184 ∷ 186 ∷ 32 ∷ []

-- "，请在 "
abbrev pub mail_middle : Text
mail_middle = 239 ∷ 188 ∷ 140 ∷ 232 ∷ 175 ∷ 183 ∷ 229 ∷ 156 ∷ 168 ∷ 32 ∷ []

-- " 分钟内完成验证。"
abbrev pub mail_tail : Text
mail_tail =
    32 ∷ 229 ∷ 136 ∷ 134 ∷ 233 ∷ 146 ∷ 159 ∷ 229 ∷ 134 ∷ 133 ∷ 229 ∷ 174 ∷ 140 ∷ 230 ∷ 136 ∷ 144
    ∷ 233 ∷ 170 ∷ 140 ∷ 232 ∷ 175 ∷ 129 ∷ 227 ∷ 128 ∷ 130 ∷ []

-- The text of the mail with a code.
abbrev pub mail_text : Text → Text
mail_text code =
    mail_head
    ++ (code ++ (mail_middle ++ (to_string (pos (code_expire_seconds / 60)) ++ mail_tail)))

-- The code of an email, or what went wrong.
pub data CodeResult : Type 0 where
  ready : Text → CodeResult
  unsaved : CodeResult
  threw : CodeResult

abbrev pub saved_code : Text → Bool → CodeResult
saved_code code true = ready code
saved_code code false = unsaved

module _ (o : Outside) where
  open o use {State, redis_open, set_ex, new_uuid, send_mail}

  unfoldable pub set_expire : Text → Text → ℕ → State → Bool × State
  set_expire key value seconds s =
      if redis_open s
      then (let (reply, s') = set_ex key seconds value s in (is_ok reply, s'))
      else (false, s)

  unfoldable pub save_code : Text → Option Text × State → CodeResult × State
  unfolding set_expire
  save_code key (none, s) = (threw, s)
  save_code key (some uuid_str, s) =
      let code = take code_length uuid_str in
      let (saved, s') = set_expire key code code_expire_seconds s in (saved_code code saved, s')

  -- A code that has not expired is used again.
  unfoldable pub code_for : Text → Option Text × State → CodeResult × State
  unfolding save_code
  code_for key (some code, s) = (ready code, s)
  code_for key (none, s) = save_code key (new_uuid s)

  abbrev pub sent_error : Bool → VerifyCodes
  sent_error true = success
  sent_error false = send_mail_err

  unfoldable pub mail_code : Text → CodeResult × State → VerifyCodes × State
  mail_code email (threw, s) = (exception, s)
  mail_code email (unsaved, s) = (redis_err, s)
  mail_code email (ready code, s) =
      let (sent, s') = send_mail email mail_subject (mail_text code) s in (sent_error sent, s')

  unfoldable pub get_verify_code : Text → State → GetVerifyRsp × State
  unfolding code_for mail_code
  get_verify_code email s =
      let key = code_prefix ++ email in
      let (error, s') = mail_code email (code_for key (get_string o key s)) in
      (record { error = error; email = email }, s')
