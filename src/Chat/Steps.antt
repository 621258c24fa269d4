-- ===== src/Chat/Steps.antt =====
-- The steps of a whole ChatServer process: what its threads, other servers and the world do with
-- the state that CServer, UserMgr, LogicSystem and the sessions share, in any order.
pub mod Sound
pub mod Queue
use xiguchat.Prelude.{◌≡◌, Bool, true, false}
use xiguchat.Prelude.Text.{Text}
use xiguchat.Prelude.Int.{ℤ, pos}
use xiguchat.Chat.Session.{Session}
use xiguchat.Chat.Messages.{AddFriendReq, AuthFriendReq, TextChatMsgReq}
use xiguchat.Chat.World.{World}
use xiguchat.Chat.Process.{Process, Conn, LogicNode, put_conn}
use xiguchat.Chat.Registry.{has_session, handle_accept}
use xiguchat.Chat.Cleanup.{deal_exception_session}
use xiguchat.Chat.Server.{update_heartbeat, on_timer, stop_server}
use xiguchat.Chat.Logic.{post_msg_to_que, deal_msg, set_stop, release_server}
use xiguchat.Chat.Notify.{
  notify_add_friend, notify_auth_friend, notify_text_chat_msg, notify_kick_user,
}
use xiguchat.Chat.Callbacks.{fun_callbacks}

module _ (w : World) where
  pub data Step (p : Process w) : Process w → Type 0 where
    -- A new session has a fresh UUID and no user.
    accepts :
        (id : Text) (conn : Conn) (error : Bool)
        → has_session p.sessions id ≡ false
        → conn.user_uid ≡ pos 0
        → Step p (handle_accept id conn error p).1
    posts : (msg : LogicNode) → Step p (post_msg_to_que w msg p).1
    deals : Step p (deal_msg w (fun_callbacks w) p).1
    times : (ec : Bool) → Step p (on_timer w ec p).1
    fails : (id : Text) → Step p (deal_exception_session w id p).1
    beats : (id : Text) → Step p (update_heartbeat w id p).1
    adds : (req : AddFriendReq) → Step p (notify_add_friend w req p).1
    agrees : (req : AuthFriendReq) → Step p (notify_auth_friend w req p).1
    texts : (req : TextChatMsgReq) → Step p (notify_text_chat_msg w req p).1
    kicks : (uid : ℤ) → Step p (notify_kick_user w uid p).1
    stops : Step p (stop_server w p).1
    stops_logic : Step p (set_stop w p).1
    releases : Step p (release_server w p).1
    -- The IO threads write for a session, and the world goes on.
    writes :
        (id : Text) (out : Session) → Step p (put_conn id (record (p.conns id) { out = out }) p)
    goes_on :
        (state : World.State w) (closed : Bool)
        → Step p (record p { world = state; redis_closed = closed })

  pub data Reach (p : Process w) : Process w → Type 0 where
    start : Reach p p
    then_step : (q r : Process w) → Reach p q → Step q r → Reach p r
