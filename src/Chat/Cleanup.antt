-- ===== src/Chat/Cleanup.antt =====
-- server/services/ChatServer/src/CSession.cpp: DealExceptionSession, and Send and NotifyOffline on
-- a session of the process. The lifecycle mutex makes each of these one action.
pub mod Local
pub mod Removes
use xiguchat.Prelude.{ℕ, Bool, true, false, Option, none, some, List, [], ◌∷◌, ◌++◌, if◌then◌else◌}
use xiguchat.Prelude.Text.{Text, codes, text_eq, is_empty}
use xiguchat.Prelude.Int.{ℤ, pos, eqb_ℤ}
use xiguchat.Prelude.Decimal.{to_string}
use xiguchat.Chat.Session
use xiguchat.Chat.Protocol.{user_ip_prefix, user_session_prefix, lock_prefix, notify_off_line_req}
use xiguchat.Chat.World.{World, Doc, int, object, with_field, none_yet}
use xiguchat.Chat.Process.{Process, Conn, Action, pure, skip, put_conn, edit_conn, ◌>>=◌, ◌>>◌}
use xiguchat.Chat.Redis.{redis_get, redis_del, acquire_lock, release_lock}
use xiguchat.Chat.Registry.{clear_session}

-- LOCK_TIME_OUT and ACQUIRE_TIME_OUT
abbrev pub lock_time_out : ℕ
lock_time_out = 10

abbrev pub acquire_time_out : ℕ
acquire_time_out = 5

abbrev pub session_key : ℤ → Text
session_key uid = user_session_prefix ++ to_string uid

abbrev pub ip_key : ℤ → Text
ip_key uid = user_ip_prefix ++ to_string uid

abbrev pub lock_key : ℤ → Text
lock_key uid = lock_prefix ++ to_string uid

-- Close on a session object of the process.
abbrev pub close_conn : Conn → Conn
close_conn conn = record conn { out = Session.close conn.out }

module _ (w : World) where
  -- The shared login state goes only if it is still that of this session.
  unfoldable pub forget_login : ℤ → Text → Option Text → Action w (Unit {0})
  forget_login uid session_id none = skip
  forget_login uid session_id (some redis_session_id) =
      if text_eq redis_session_id session_id
      then (do redis_del w (session_key uid); redis_del w (ip_key uid); skip)
      else skip

  -- The part that needs the user's lock.
  unfoldable pub forget_shared : ℤ → Text → Text → Action w (Unit {0})
  unfolding forget_login
  forget_shared uid session_id identifier =
      if is_empty identifier
      then skip
      else do found ← redis_get w (session_key uid); forget_login uid session_id found

  -- After the deferred call: the local record goes in any case, and the lock is given back.
  unfoldable pub clean_user : ℤ → Text → Action w (Unit {0})
  unfolding forget_shared
  clean_user uid session_id = do
    identifier ← acquire_lock w (lock_key uid) lock_time_out acquire_time_out
    forget_shared uid session_id identifier
    clear_session session_id
    release_lock w (lock_key uid) identifier
    skip

  -- One session is cleaned up once. A session without a user has no state in Redis.
  unfoldable pub deal_exception_session : Text → Action w (Unit {0})
  unfolding clean_user
  deal_exception_session id p =
      let conn = p.conns id in
      let started = put_conn id (record conn { cleanup_started = true }) p in
      if conn.cleanup_started
      then (tt, p)
      else if eqb_ℤ conn.user_uid (pos 0)
      then clear_session id started
      else clean_user conn.user_uid id started

  unfoldable pub send : Text → Text → ℕ → Action w (Unit {0})
  unfolding deal_exception_session
  send id msg msg_id p =
      let conn = p.conns id in
      let (out, clean) = Session.send conn.out msg msg_id in
      let sent = put_conn id (record conn { out = out }) p in
      if clean then deal_exception_session id sent else (tt, sent)

  unfoldable pub notify_offline : Text → ℤ → Action w (Unit {0})
  unfolding send
  notify_offline id uid =
      let rtvalue =
        object (
          with_field (with_field none_yet (codes "error") (int (pos 0))) (codes "uid") (int uid)) in
      send id (World.to_styled_string w rtvalue) notify_off_line_req
