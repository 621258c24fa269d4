-- ===== src/Chat/Search.antt =====
-- server/services/ChatServer/src/LogicSystem.cpp: SearchInfo, isPureDigit, GetUserByUid and
-- GetUserByName. The conversions of a cached user never throw.
use xiguchat.Prelude.{ℕ, Bool, true, false, ◌&&◌, Option, none, some, [], ◌∷◌, ◌++◌, if◌then◌else◌}
use xiguchat.Prelude.Text.{Text, codes, is_empty}
use xiguchat.Prelude.Int.{ℤ, is_positive}
use xiguchat.Prelude.Decimal.{Parsed, value, invalid_argument, out_of_range, from_chars, is_digit}
use xiguchat.Chat.Protocol.{success, uid_invalid, search_user_rsp, user_base_info, name_info}
use xiguchat.Chat.Json.{Json}
use xiguchat.Chat.Data.{UserInfo, no_user}
use xiguchat.Chat.World.{World, int, text, object, Fields, none_yet}
use xiguchat.Chat.Process.{Action, pure, outside, ◌>>=◌, ◌>>◌}
use xiguchat.Chat.Redis.{redis_get, redis_set}
use xiguchat.Chat.Cleanup.{send}
use xiguchat.Chat.Reply.{put_fields, set_error, user_fields}
use xiguchat.Chat.Dao.{get_user, get_user_by_name}
use xiguchat.Chat.Login.{int_of, string_in}

unfoldable pub all_digits : Text → Bool
all_digits [] = true
all_digits (c ∷ str) = is_digit c && all_digits str

unfoldable pub is_pure_digit : Text → Bool
unfolding all_digits
is_pure_digit str = if is_empty str then false else all_digits str

-- The members of a user that was found by the name: there is no icon.
abbrev pub name_fields : Fields → UserInfo → Fields
name_fields fields user = put_fields fields (
    (codes "uid", int user.uid)
    ∷ (codes "name", text user.name)
    ∷ (codes "email", text user.email)
    ∷ (codes "nick", text user.nick)
    ∷ (codes "desc", text user.desc)
    ∷ (codes "sex", int user.sex)
    ∷ [])

-- The whole text is an int above 0.
unfoldable pub positive_uid : Parsed → Option ℤ
positive_uid (value uid []) = if is_positive uid then some uid else none
positive_uid (value uid (c ∷ rest)) = none
positive_uid invalid_argument = none
positive_uid out_of_range = none

module _ (w : World) where
  -- The members of the cached text; `icon` only where the function reads it.
  unfoldable pub read_user : Option (Json.Value w.json) → UserInfo
  unfolding int_of string_in
  read_user root = record no_user {
    uid = int_of w root (codes "uid");
    name = string_in w root (codes "name");
    email = string_in w root (codes "email");
    nick = string_in w root (codes "nick");
    desc = string_in w root (codes "desc");
    sex = int_of w root (codes "sex");
    icon = string_in w root (codes "icon");
  }

  abbrev found_reply : UserInfo → Fields
  found_reply user = user_fields (set_error none_yet success) user.uid user

  abbrev named_reply : UserInfo → Fields
  named_reply user = name_fields (set_error none_yet success) user

  -- From the database into the cache and into the reply.
  unfoldable pub keep_user : Text → Option UserInfo → Action w Fields
  keep_user base_key none = pure (set_error none_yet uid_invalid)
  keep_user base_key (some user) = do
    redis_set w base_key (World.to_styled_string w (object (user_fields none_yet user.uid user)))
    pure (found_reply user)

  unfoldable pub query_uid : Text → Option ℤ → Action w Fields
  unfolding keep_user
  query_uid base_key none = pure (set_error none_yet uid_invalid)
  query_uid base_key (some uid) = do
    user_info ← outside (get_user w.db uid)
    keep_user base_key user_info

  unfoldable pub user_by_uid : Text → Text → Option Text → Action w Fields
  unfolding query_uid read_user positive_uid
  user_by_uid base_key uid_str none = query_uid base_key (positive_uid (from_chars uid_str))
  user_by_uid base_key uid_str (some info_str) =
      pure (found_reply (read_user (World.parse w info_str)))

  unfoldable pub get_user_by_uid : Text → Action w Fields
  unfolding user_by_uid
  get_user_by_uid uid_str = do
    info_str ← redis_get w (user_base_info ++ uid_str)
    user_by_uid (user_base_info ++ uid_str) uid_str info_str

  unfoldable pub keep_named : Text → Option UserInfo → Action w Fields
  unfolding put_fields
  keep_named base_key none = pure (set_error none_yet uid_invalid)
  keep_named base_key (some user) = do
    redis_set w base_key (World.to_styled_string w (object (name_fields none_yet user)))
    pure (named_reply user)

  unfoldable pub user_by_name : Text → Text → Option Text → Action w Fields
  unfolding keep_named read_user put_fields
  user_by_name base_key name none = do
    user_info ← outside (get_user_by_name w.db name)
    keep_named base_key user_info
  user_by_name base_key name (some info_str) =
      pure (named_reply (read_user (World.parse w info_str)))

  unfoldable pub query_user_by_name : Text → Action w Fields
  unfolding user_by_name
  query_user_by_name name = do
    info_str ← redis_get w (name_info ++ name)
    user_by_name (name_info ++ name) name info_str

  unfoldable pub search_user : Text → Action w Fields
  unfolding is_pure_digit get_user_by_uid query_user_by_name
  search_user uid_str =
      if is_pure_digit uid_str then get_user_by_uid uid_str else query_user_by_name uid_str

  unfoldable pub search_info : Text → ℕ → Text → Action w (Unit {0})
  unfolding search_user string_in
  search_info session msg_id msg_data = do
    rtvalue ← search_user (string_in w (World.parse w msg_data) (codes "uid"))
    send w session (World.to_styled_string w (object rtvalue)) search_user_rsp
