-- ===== src/Chat/Login.antt =====
-- server/services/ChatServer/src/LogicSystem.cpp: LoginHandler, GetBaseInfo and HeartBeatHandler.
-- What the other threads do while the handler waits for the user's lock is not modelled, and the
-- conversions of a cached user never throw.
pub mod Binding
pub mod Handler
pub mod Replaced
use xiguchat.Prelude.{
  ℕ, ◌+◌, Bool, true, false, not, ◌&&◌, ◌||◌, Option, none, some, List, [], ◌∷◌, ◌++◌,
  if◌then◌else◌,
}
use xiguchat.Prelude.Text.{Text, codes, text_eq, is_empty}
use xiguchat.Prelude.Int.{ℤ, pos}
use xiguchat.Prelude.Decimal.{to_string}
use xiguchat.Chat.Protocol.{
  ErrorCodes, success, rpc_failed, token_invalid, uid_invalid, chat_login_rsp, heartbeat_rsp,
  user_token_prefix, user_base_info,
}
use xiguchat.Chat.Json.{Json}
use xiguchat.Chat.Data.{UserInfo, no_user}
use xiguchat.Chat.Dao.{get_user, get_chat_threads, get_apply_list, get_friend_list}
use xiguchat.Chat.World.{World, Doc, null, object, Fields, none_yet}
use xiguchat.Chat.Process.{Process, Conn, Action, pure, skip, outside, edit_conn, ◌>>=◌, ◌>>◌}
use xiguchat.Chat.Redis.{redis_get, redis_set, acquire_lock, release_lock}
use xiguchat.Chat.Registry.{has_session, get_session, set_user_session, clear_session}
use xiguchat.Chat.Cleanup.{
  lock_time_out, acquire_time_out, session_key, ip_key, lock_key, send, notify_offline,
}
use xiguchat.Chat.Reply.{
  set_error, user_fields, thread_fields, apply_fields, append_to_member, friend_item,
}

module _ (w : World) where
  -- A member of the parsed root, which stays null if the text is no JSON.
  unfoldable pub int_of : Option (Json.Value w.json) → Text → ℤ
  int_of none key = pos 0
  int_of (some root) key = Json.as_int w.json (Json.member w.json root key)

  unfoldable pub string_in : Option (Json.Value w.json) → Text → Text
  string_in none key = []
  string_in (some root) key = Json.as_string w.json (Json.member w.json root key)

  cached : UserInfo → Option (Json.Value w.json) → UserInfo
  unfolding int_of string_in
  cached user root = record user {
    uid = int_of root (codes "uid");
    name = string_in root (codes "name");
    email = string_in root (codes "email");
    nick = string_in root (codes "nick");
    desc = string_in root (codes "desc");
    sex = int_of root (codes "sex");
    icon = string_in root (codes "icon");
  }

  -- From the database, and into the cache.
  unfoldable pub cache_user : Text → ℤ → Option UserInfo → Action w (Option UserInfo)
  cache_user base_key uid none = pure none
  cache_user base_key uid (some user) = do
    redis_set w base_key (World.to_styled_string w (object (user_fields none_yet uid user)))
    pure (some user)

  unfoldable pub base_info : Text → ℤ → Option Text → Action w (Option UserInfo)
  unfolding cached cache_user
  base_info base_key uid none = do
    found ← outside (get_user w.db uid)
    cache_user base_key uid found
  base_info base_key uid (some info_str) = pure (some (cached no_user (World.parse w info_str)))

  unfoldable pub get_base_info : Text → ℤ → Action w (Option UserInfo)
  unfolding base_info
  get_base_info base_key uid = do info_str ← redis_get w base_key; base_info base_key uid info_str

  -- The session of an earlier login on this server is told and loses its registration.
  unfoldable pub kick_local : ℤ → Option Text → Action w (Unit {0})
  kick_local uid none = skip
  kick_local uid (some old_session) = do notify_offline w old_session uid; clear_session old_session

  unfoldable pub kick : ℤ → Option Text → Action w (Unit {0})
  unfolding kick_local
  kick uid none = skip
  kick uid (some uid_ip_value) =
      if text_eq uid_ip_value (World.self_name w)
      then (do old_session ← get_session uid; kick_local uid old_session)
      else outside (λ s. (tt, World.notify_kick_user w uid_ip_value uid s))

  -- Under the user's lock: the earlier login goes, and this session takes its place.
  unfoldable pub register : Text → ℤ → Action w (Unit {0})
  unfolding kick
  register session uid = do
    uid_ip_value ← redis_get w (ip_key uid)
    kick uid uid_ip_value
    edit_conn session (λ conn. record conn { user_uid = uid })
    redis_set w (ip_key uid) (World.self_name w)
    set_user_session uid session
    redis_set w (session_key uid) session
    skip

  unfoldable pub register_if_valid : Text → ℤ → Fields → Action w Fields
  unfolding register
  register_if_valid session uid reply p =
      let (done, registered) = register session uid p in
      if (p.conns session).out.closed || not (has_session p.sessions session)
      then (set_error reply token_invalid, p)
      else (reply, registered)

  unfoldable pub with_lock : Text → ℤ → Fields → Text → Action w Fields
  unfolding register_if_valid
  with_lock session uid reply identifier =
      if is_empty identifier then pure (set_error reply rpc_failed) else do
        rtvalue ← register_if_valid session uid reply
        release_lock w (lock_key uid) identifier
        pure rtvalue

  -- After the user's data has been found: the lists of the reply, then the registration.
  unfoldable pub logged_in : Text → ℤ → Option UserInfo → Action w Fields
  unfolding with_lock
  logged_in session uid none = pure (set_error none_yet uid_invalid)
  logged_in session uid (some user) = do
    threads ← outside (get_chat_threads w.db uid (pos 0) 100)
    applies ← outside (get_apply_list w.db uid 0 10)
    friends ← outside (get_friend_list w.db uid)
    identifier ← acquire_lock w (lock_key uid) lock_time_out acquire_time_out
    with_lock session uid
        (append_to_member friend_item (codes "friend_list") friends.1 (
          apply_fields applies
            (thread_fields threads (user_fields (set_error none_yet success) uid user))))
        identifier

  unfoldable pub check_token : Text → ℤ → Text → Option Text → Action w Fields
  unfolding get_base_info logged_in
  check_token session uid token none = pure (set_error none_yet uid_invalid)
  check_token session uid token (some token_value) =
      if text_eq token_value token
      then (do
        user ← get_base_info (user_base_info ++ to_string uid) uid
        logged_in session uid user)
      else pure (set_error none_yet token_invalid)

  -- The reply before Defer sends it; a null value if the session is closed.
  unfoldable pub login : Text → ℤ → Text → Action w Doc
  unfolding check_token
  login session uid token p =
      let (token_value, read) = redis_get w (user_token_prefix ++ to_string uid) p in
      let (reply, q) = check_token session uid token token_value read in
      if (p.conns session).out.closed then (null, p) else (object reply, q)

  unfoldable pub login_handler : Text → ℕ → Text → Action w (Unit {0})
  unfolding login
  login_handler session msg_id msg_data =
      let root = World.parse w msg_data in
      do
        rtvalue ← login session (int_of root (codes "uid")) (string_in root (codes "token"))
        send w session (World.to_styled_string w rtvalue) chat_login_rsp

  unfoldable pub heart_beat_handler : Text → ℕ → Text → Action w (Unit {0})
  heart_beat_handler session msg_id msg_data =
      send w session (World.to_styled_string w (object (set_error none_yet success))) heartbeat_rsp
