-- ===== src/Examples/Values.antt =====
-- A small jsoncpp and a small outside world: a Redis that is an association list, a clock that
-- goes on by a millisecond a call, and a database with one user.
use xiguchat.Prelude.{
  ℕ, suc, ◌+◌, Bool, true, false, Option, none, some, List, [], ◌∷◌, if◌then◌else◌,
}
use xiguchat.Prelude.Text.{Text, codes, text_eq}
use xiguchat.Prelude.Int.{ℤ, pos}
use xiguchat.Chat.Json.{Json}
use xiguchat.Chat.Data.{no_user}
use xiguchat.Chat.Database.{Database, Query}
use xiguchat.Chat.World.{
  World, Command, get, set, del, hset, set_nx_ex, del_if_equal, Reply, string, status, integer,
  other,
}

mutual
  pub data Value : Type 0 where
    nothing : Value
    number : ℤ → Value
    words : Text → Value
    members : Members → Value
    items : Items → Value

  pub data Members : Type 0 where
    no_members : Members
    member : Text → Value → Members → Members

  pub data Items : Type 0 where
    no_items : Items
    item : Value → Items → Items

abbrev is_members : Value → Bool
is_members (members fields) = true
is_members _ = false

abbrev is_number : Value → Bool
is_number (number n) = true
is_number _ = false

abbrev is_words : Value → Bool
is_words (words s) = true
is_words _ = false

abbrev is_items : Value → Bool
is_items (items xs) = true
is_items _ = false

abbrev number_of : Value → ℤ
number_of (number n) = n
number_of _ = pos 0

abbrev words_of : Value → Text
words_of (words s) = s
words_of _ = []

abbrev find_member : Members → Text → Value
find_member no_members key = nothing
find_member (member name value fields) key =
    let rest = find_member fields key in if text_eq name key then value else rest

abbrev has_member : Members → Text → Bool
has_member no_members key = false
has_member (member name value fields) key =
    let rest = has_member fields key in if text_eq name key then true else rest

abbrev member_of : Value → Text → Value
member_of (members fields) key = find_member fields key
member_of _ key = nothing

abbrev is_member_of : Value → Text → Bool
is_member_of (members fields) key = has_member fields key
is_member_of _ key = false

abbrev list_of : Items → List Value
list_of no_items = []
list_of (item x xs) = x ∷ list_of xs

abbrev elements_of : Value → List Value
elements_of (items xs) = list_of xs
elements_of _ = []

abbrev pub small_json : Json
small_json = record {
  Value = Value;
  is_object = is_members;
  is_int = is_number;
  is_int64 = is_number;
  is_string = is_words;
  is_array = is_items;
  as_int = number_of;
  as_int64 = number_of;
  as_string = words_of;
  member = member_of;
  is_member = is_member_of;
  elements = elements_of;
}

-- {"uid": 7, "token": "t7"}
abbrev pub login_root : Value
login_root =
    members (
      member (codes "uid") (number (pos 7))
        (member (codes "token") (words (codes "t7")) no_members))

-- {"fromuid": 7, "touid": 8, "text_array": [{"content": "hi", "msgid": "m1"}]}
abbrev pub text_root : Value
text_root = members (
    member (codes "fromuid") (number (pos 7)) (
      member (codes "touid") (number (pos 8)) (
        member (codes "text_array")
          (items (
            item
              (members (
                member (codes "content") (words (codes "hi"))
                  (member (codes "msgid") (words (codes "m1")) no_members)))
              no_items))
          no_members)))

-- {"fromuid": 7}
abbrev pub beat_root : Value
beat_root = members (member (codes "fromuid") (number (pos 7)) no_members)

abbrev pub parse_small : Text → Option Value
parse_small text =
    if text_eq text (codes "login")
    then some login_root
    else if text_eq text (codes "beat")
    then some beat_root
    else none

pub record Outside : Type 0 where
  pub store : List (Text × Text)
  pub clock : ℕ

abbrev pub lookup : List (Text × Text) → Text → Reply
lookup [] key = other
lookup ((name, v) ∷ store) key =
    let rest = lookup store key in if text_eq name key then string v else rest

abbrev without : List (Text × Text) → Text → List (Text × Text)
without [] key = []
without ((name, v) ∷ store) key =
    let rest = without store key in if text_eq name key then rest else (name, v) ∷ rest

abbrev redis : Command → Outside → Option Reply × Outside
redis (get key) s = (some (lookup s.store key), s)
redis (set key v) s =
    (some (status (codes "OK")), record s { store = (key, v) ∷ without s.store key })
redis (del key) s = (some (integer (pos 1)), record s { store = without s.store key })
redis (hset key field v) s = (some (integer (pos 1)), s)
redis (set_nx_ex key v seconds) s =
    (some (status (codes "OK")), record s { store = (key, v) ∷ without s.store key })
redis (del_if_equal key v) s = (some (integer (pos 1)), record s { store = without s.store key })

abbrev done : Query Outside (Unit {0})
done s = (some tt, s)

-- One chat, between every two friends, that holds no message yet.
abbrev pub small_database : Database Outside
small_database = record {
  get_connection = λ s. (true, s);
  return_connection = λ healthy s. s;
  start_transaction = done;
  commit = done;
  rollback = done;
  select_user = λ uid s. (some (some (record no_user { uid = uid; name = codes "seven" })), s);
  select_user_by_name = λ name s. (some none, s);
  insert_apply = λ from to desc back. done;
  select_apply = λ from to s. (some (some (codes "hello", codes "pal")), s);
  confirm_apply = λ from to. done;
  select_apply_list = λ uid begin limit s. (some (record { fetched = []; threw = false }), s);
  insert_friend = λ from to back. done;
  has_friend = λ user1 user2 s. (some true, s);
  select_friends = λ uid s. (some (record { fetched = pos 8 ∷ []; threw = false }), s);
  insert_thread = done;
  last_insert_id = λ s. (some (some (pos 41)), s);
  select_private_chat = λ low high s. (some (some (pos 5)), s);
  insert_private_chat = λ id low high. done;
  touch_thread = λ id. done;
  select_threads = λ uid last limit s. (some (record { fetched = []; threw = false }), s);
  is_thread_of = λ id uid s. (some true, s);
  is_thread_between = λ id a b s. (some true, s);
  select_messages = λ id last limit s. (some (record { fetched = []; threw = false }), s);
  call_reg_user = λ name email pwd s. (some tt, s);
  select_result = λ s. (some none, s);
  select_email = λ name s. (some none, s);
  update_user = λ pwd name s. (some tt, s);
  select_login = λ email s. (some none, s);
  insert_message = λ id sender recv client_id content. done;
}

abbrev pub small_world : World
small_world = record {
  json = small_json;
  State = Outside;
  command = redis;
  new_uuid = λ s. (codes "uuid", s);
  steady_now = λ s. (s.clock, record s { clock = suc s.clock });
  time_now = λ s. (s.clock, s);
  sleep_ms = λ ms s. record s { clock = s.clock + ms };
  parse = parse_small;
  to_styled_string = λ doc. codes "{}";
  db = small_database;
  self_name = codes "chat1";
  notify_kick_user = λ server uid s. s;
  notify_add_friend = λ server req s. s;
  notify_auth_friend = λ server req s. s;
  notify_text_chat_msg = λ server req s. (pos 0, s);
}
