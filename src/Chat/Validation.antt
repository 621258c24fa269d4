-- ===== src/Chat/Validation.antt =====
-- server/services/ChatServer/include/RequestValidation.h: ValidateChatRequest. Each group of
-- requests that the function tells apart has a helper; the session's uid is an int.
pub mod Identity
use xiguchat.Prelude.{ℕ, Bool, true, false, not, ◌&&◌, ◌||◌, List, [], ◌∷◌, ◌==◌, if◌then◌else◌}
use xiguchat.Prelude.Text.{Text, codes, is_empty}
use xiguchat.Prelude.Int.{ℤ, pos, eqb_ℤ, is_positive, is_negative}
use xiguchat.Chat.Protocol.{
  ErrorCodes, success, error_json, token_invalid, uid_invalid, chat_login, search_user_req,
  add_friend_req, auth_friend_req, text_chat_msg_req, heart_beat_req, create_private_chat_req,
  load_chat_thread_req, load_chat_msg_req,
}
use xiguchat.Chat.Json.{Json}

module _ (json : Json) where
  open json use {
    Value, is_object, is_int, is_int64, is_string, is_array, as_int, as_int64, as_string, member,
    is_member, elements,
  }

  -- positiveId and stringField
  unfoldable pub positive_id : Value → Text → Bool
  positive_id root key = is_int (member root key) && is_positive (as_int (member root key))

  unfoldable pub string_field : Value → Text → Bool
  string_field root key = is_string (member root key)

  -- A cursor: an int64 that is not negative.
  unfoldable pub cursor : Value → Text → Bool
  cursor root key = is_int64 (member root key) && not (is_negative (as_int64 (member root key)))

  unfoldable pub same_uid : Value → Text → ℤ → Bool
  same_uid root key uid = eqb_ℤ (as_int (member root key)) uid

  unfoldable pub validate_login : Value → ℤ → ErrorCodes
  validate_login root session_uid =
      if not (eqb_ℤ session_uid (pos 0))
      then token_invalid
      else if positive_id root (codes "uid")
          && (string_field root (codes "token")
              && not (is_empty (as_string (member root (codes "token")))))
      then success
      else error_json

  unfoldable pub validate_search : Value → ErrorCodes
  validate_search root =
      if string_field root (codes "uid") && not (is_empty (as_string (member root (codes "uid"))))
      then success
      else error_json

  unfoldable pub validate_load : ℕ → Value → ℤ → ErrorCodes
  validate_load id root session_uid =
      if not (positive_id root (codes "fromuid"))
        || (not (same_uid root (codes "fromuid") session_uid)
            || not (cursor root (codes "thread_id")))
      then error_json
      else if (id == load_chat_msg_req) && not (cursor root (codes "message_id"))
      then error_json
      else success

  unfoldable pub validate_create : Value → ℤ → ErrorCodes
  validate_create root session_uid =
      if positive_id root (codes "fromuid")
        && (same_uid root (codes "fromuid") session_uid
            && (positive_id root (codes "touid")
                && not (same_uid root (codes "touid") session_uid)))
      then success
      else uid_invalid

  unfoldable pub valid_text : Value → Bool
  valid_text text =
      is_object text
      && (is_string (member text (codes "content"))
          && (is_string (member text (codes "msgid"))
              && not (is_empty (as_string (member text (codes "msgid"))))))

  -- The loop over text_array, which stops at the first bad item.
  unfoldable pub valid_texts : List Value → Bool
  unfolding valid_text
  valid_texts [] = true
  valid_texts (text ∷ texts) = valid_text text && valid_texts texts

  abbrev pub no_elements : List Value → Bool
  no_elements [] = true
  no_elements (x ∷ xs) = false

  unfoldable pub validate_text : Value → ErrorCodes
  validate_text root =
      let texts = member root (codes "text_array") in
      if not (is_array texts) || no_elements (elements texts)
      then error_json
      else if not (valid_texts (elements texts))
      then error_json
      else if is_member root (codes "thread_id") && not (cursor root (codes "thread_id"))
      then error_json
      else success

  -- The requests with a target, after the checks of the actor and of touid.
  unfoldable pub validate_payload : ℕ → Value → ErrorCodes
  validate_payload id root =
      if id == add_friend_req
      then (if string_field root (codes "applyname") && string_field root (codes "bakname")
          then success
          else error_json)
      else if id == auth_friend_req
      then (if string_field root (codes "back") then success else error_json)
      else if id == text_chat_msg_req
      then validate_text root
      else error_json

  abbrev pub actor_key : ℕ → Text
  actor_key id = if id == add_friend_req then codes "uid" else codes "fromuid"

  unfoldable pub validate_actor : ℕ → Value → ℤ → ErrorCodes
  validate_actor id root session_uid =
      if not (positive_id root (actor_key id))
      then error_json
      else if not (same_uid root (actor_key id) session_uid)
      then uid_invalid
      else if id == heart_beat_req
      then success
      else if not (positive_id root (codes "touid")) || same_uid root (codes "touid") session_uid
      then uid_invalid
      else validate_payload id root

  unfoldable pub validate_chat_request : ℕ → Value → ℤ → ErrorCodes
  validate_chat_request id root session_uid =
      if not (is_object root)
      then error_json
      else if id == chat_login
      then validate_login root session_uid
      else if not (is_positive session_uid)
      then token_invalid
      else if id == search_user_req
      then validate_search root
      else if (id == load_chat_thread_req) || (id == load_chat_msg_req)
      then validate_load id root session_uid
      else if id == create_private_chat_req
      then validate_create root session_uid
      else validate_actor id root session_uid
