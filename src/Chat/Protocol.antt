-- ===== src/Chat/Protocol.antt =====
-- server/services/ChatServer/include/const.h: the error codes, message ids and key prefixes.
use xiguchat.Prelude.{ℕ}
use xiguchat.Prelude.Text.{Text, codes}
use xiguchat.Prelude.Int.{ℤ, pos}

pub data ErrorCodes : Type 0 where
  success error_json rpc_failed verify_expired verify_code_err user_exist passwd_err : ErrorCodes
  email_not_match passwd_up_failed passwd_invalid token_invalid uid_invalid : ErrorCodes

unfoldable pub error_number : ErrorCodes → ℤ
error_number success = pos 0
error_number error_json = pos 1001
error_number rpc_failed = pos 1002
error_number verify_expired = pos 1003
error_number verify_code_err = pos 1004
error_number user_exist = pos 1005
error_number passwd_err = pos 1006
error_number email_not_match = pos 1007
error_number passwd_up_failed = pos 1008
error_number passwd_invalid = pos 1009
error_number token_invalid = pos 1010
error_number uid_invalid = pos 1011

-- The numbers of MSG_IDS.
abbrev pub chat_login : ℕ
chat_login = 1005

abbrev pub chat_login_rsp : ℕ
chat_login_rsp = 1006

abbrev pub search_user_req : ℕ
search_user_req = 1007

abbrev pub search_user_rsp : ℕ
search_user_rsp = 1008

abbrev pub add_friend_req : ℕ
add_friend_req = 1009

abbrev pub add_friend_rsp : ℕ
add_friend_rsp = 1010

abbrev pub notify_add_friend_req : ℕ
notify_add_friend_req = 1011

abbrev pub auth_friend_req : ℕ
auth_friend_req = 1013

abbrev pub auth_friend_rsp : ℕ
auth_friend_rsp = 1014

abbrev pub notify_auth_friend_req : ℕ
notify_auth_friend_req = 1015

abbrev pub text_chat_msg_req : ℕ
text_chat_msg_req = 1017

abbrev pub text_chat_msg_rsp : ℕ
text_chat_msg_rsp = 1018

abbrev pub notify_text_chat_msg_req : ℕ
notify_text_chat_msg_req = 1019

abbrev pub notify_off_line_req : ℕ
notify_off_line_req = 1021

abbrev pub heart_beat_req : ℕ
heart_beat_req = 1023

abbrev pub heartbeat_rsp : ℕ
heartbeat_rsp = 1024

abbrev pub create_private_chat_req : ℕ
create_private_chat_req = 1025

abbrev pub create_private_chat_rsp : ℕ
create_private_chat_rsp = 1026

abbrev pub load_chat_thread_req : ℕ
load_chat_thread_req = 1027

abbrev pub load_chat_thread_rsp : ℕ
load_chat_thread_rsp = 1028

abbrev pub load_chat_msg_req : ℕ
load_chat_msg_req = 1029

abbrev pub load_chat_msg_rsp : ℕ
load_chat_msg_rsp = 1030

-- USERIPPREFIX, USERTOKENPREFIX, USER_BASE_INFO, LOCK_PREFIX, NAME_INFO, USER_SESSION_PREFIX
abbrev pub user_ip_prefix : Text
user_ip_prefix = codes "uip_"

abbrev pub user_token_prefix : Text
user_token_prefix = codes "utoken_"

abbrev pub user_base_info : Text
user_base_info = codes "ubaseinfo_"

abbrev pub lock_prefix : Text
lock_prefix = codes "lock_"

abbrev pub name_info : Text
name_info = codes "nameinfo_"

abbrev pub user_session_prefix : Text
user_session_prefix = codes "usession_"
