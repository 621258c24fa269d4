-- ===== src/Chat/Data.antt =====
-- server/services/ChatServer/include/data.h.
use xiguchat.Prelude.Text.{Text}
use xiguchat.Prelude.Int.{ℤ, pos}
use xiguchat.Prelude.{[]}

pub record UserInfo : Type 0 where
  pub name : Text
  pub pwd : Text
  pub uid : ℤ
  pub email : Text
  pub nick : Text
  pub desc : Text
  pub sex : ℤ
  pub icon : Text
  pub back : Text

abbrev pub no_user : UserInfo
no_user = record {
  name = [];
  pwd = [];
  uid = pos 0;
  email = [];
  nick = [];
  desc = [];
  sex = pos 0;
  icon = [];
  back = [];
}

pub record ApplyInfo : Type 0 where
  pub uid : ℤ
  pub name : Text
  pub desc : Text
  pub icon : Text
  pub nick : Text
  pub sex : ℤ
  pub status : ℤ

pub record ChatThreadInfo : Type 0 where
  pub thread_id : ℤ
  pub peer_uid : ℤ
  pub peer_name : Text
  pub peer_nick : Text
  pub peer_icon : Text
  pub peer_sex : ℤ

pub record ChatMessageInfo : Type 0 where
  pub message_id : ℤ
  pub thread_id : ℤ
  pub sender_id : ℤ
  pub recv_id : ℤ
  pub client_msg_id : Text
  pub content : Text
  pub status : ℤ
