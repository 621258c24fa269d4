-- ===== src/Examples/Requests.antt =====
-- Runs of ValidateChatRequest.
use xiguchat.Prelude.{◌≡◌, refl}
use xiguchat.Prelude.Text.{text_eq}
use xiguchat.Prelude.Int.{pos}
use xiguchat.Chat.Protocol.{success, text_chat_msg_req}
use xiguchat.Chat.Validation.{
  validate_chat_request, validate_actor, validate_payload, validate_text, valid_texts, valid_text,
  positive_id, same_uid,
}
use xiguchat.Chat.Validation.Identity.{IsAuthorised, validate-IsAuthorised}
use xiguchat.Examples.Values.{small_json, text_root}

text_passes : validate_chat_request small_json text_chat_msg_req text_root (pos 7) ≡ success
unfolding validate_chat_request validate_actor validate_payload validate_text valid_texts valid_text
    positive_id same_uid text_eq
text_passes = refl

validate-IsAuthorised_example : IsAuthorised small_json text_chat_msg_req text_root (pos 7)
validate-IsAuthorised_example =
    validate-IsAuthorised small_json text_chat_msg_req text_root (pos 7) text_passes
