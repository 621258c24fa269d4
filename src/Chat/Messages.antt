-- ===== src/Chat/Messages.antt =====
-- server/proto/message.proto: the requests that a ChatServer makes of another one, with their
-- answers.
use xiguchat.Prelude.{List}
use xiguchat.Prelude.Text.{Text}
use xiguchat.Prelude.Int.{ℤ}

pub record AddFriendReq : Type 0 where
  pub applyuid : ℤ
  pub name : Text
  pub desc : Text
  pub icon : Text
  pub nick : Text
  pub sex : ℤ
  pub touid : ℤ

pub record AddFriendRsp : Type 0 where
  pub error : ℤ
  pub applyuid : ℤ
  pub touid : ℤ

pub record TextChatData : Type 0 where
  pub msgid : Text
  pub msgcontent : Text
  pub message_id : ℤ
  pub status : ℤ
  pub fromuid : ℤ
  pub touid : ℤ

pub record AuthFriendReq : Type 0 where
  pub fromuid : ℤ
  pub touid : ℤ
  pub thread_id : ℤ
  pub welcome_msgs : List TextChatData

pub record AuthFriendRsp : Type 0 where
  pub error : ℤ
  pub fromuid : ℤ
  pub touid : ℤ
  pub thread_id : ℤ

pub record TextChatMsgReq : Type 0 where
  pub fromuid : ℤ
  pub touid : ℤ
  pub textmsgs : List TextChatData
  pub thread_id : ℤ

-- Without the members that the servers leave at their defaults.
pub record TextChatMsgRsp : Type 0 where
  pub error : ℤ
  pub thread_id : ℤ

pub record KickUserRsp : Type 0 where
  pub error : ℤ
  pub uid : ℤ
