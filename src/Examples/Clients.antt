-- ===== src/Examples/Clients.antt =====
-- Runs of the client: a login, a chat and the end of the connection.
use xiguchat.Chat.World.{
  Doc, Fields, Docs, null, int, text, bool, object, array, none_yet, with_field, no_docs, then_doc,
  set_field,
}
use xiguchat.Chat.Reply.{put_fields}
use xiguchat.Prelude.Text.{Text, text_eq, text_lt}
use xiguchat.Client.ChatService.{frame_fits, thread_id_of, ensure_private_chat, send_text}
use xiguchat.Client.ChatService.Sent.{IsCut, with_pieces, send_text-IsCut}
use xiguchat.Client.SessionService.{Service}
use xiguchat.Prelude.{ℕ, ◌≤◌, ◌+◌, ◌++◌, length, ◌≡◌, refl, true, false, some, List, [], ◌∷◌, arith}
use xiguchat.Prelude.Text.{codes}
use xiguchat.Prelude.Int.{ℤ, pos}
use xiguchat.Client.History.{TextChatData, sending}
use xiguchat.Client.Users.{Users, no_friend, find_in, clear_users, fail_pending_messages}
use xiguchat.Client.Users.Index.{IsIndexed, is_in}
use xiguchat.Client.Events.{
  Event, connect, socket_connected, login_done, text_msg, socket_closed, handle, run, no_session,
}
use xiguchat.Client.Events.Consistent.{IsConsistent}
use xiguchat.Client.Events.Runs.{run-IsConsistent}
use xiguchat.Client.Events.Pending.{has_sending, run-has_sending}

abbrev nobody : Users
nobody = record {
  uid = pos 0;
  apply_list = [];
  infos = λ n. no_friend;
  next = 0;
  friend_list = [];
  friend_map = [];
  pending_private_chats = [];
}

nobody-IsIndexed : IsIndexed nobody
unfolding find_in is_in
nobody-IsIndexed = record {
  mapped = λ uid friend h. ground (arith, h);
  made = λ friend h. ground (arith, h);
}

abbrev hello : TextChatData
hello = record {
  msg_id = codes "m1";
  message_id = pos 0;
  thread_id = pos 3;
  status = sending;
  msg_content = codes "hello";
}

abbrev chat_events : List Event
chat_events =
    connect (record { uid = pos 7; token = codes "t" })
    ∷ socket_connected
    ∷ login_done (record {
      uid = pos 7;
      apply_list = [];
      friend_list = pos 8 ∷ [];
      thread_list = (pos 8, pos 3) ∷ [];
      thread_more = false;
    })
    ∷ text_msg
        (record { from_uid = pos 7; to_uid = pos 8; thread_id = pos 3; chat_msgs = hello ∷ [] })
    ∷ []

logged_in_run : (run chat_events (no_session nobody)).ready ≡ true
unfolding run
logged_in_run = refl

waiting_run : has_sending ((run chat_events (no_session nobody)).users.infos 0).chat_msgs ≡ true
unfolding run clear_users
waiting_run = refl

run-IsConsistent_example : IsConsistent (run chat_events (no_session nobody))
run-IsConsistent_example = run-IsConsistent chat_events nobody nobody-IsIndexed

calm_run : (run chat_events (no_session nobody)).connecting ≡ false
unfolding run
calm_run = refl

known_run :
    find_in (handle socket_closed (run chat_events (no_session nobody))).users.friend_map (pos 8)
    ≡ some 0
unfolding run find_in fail_pending_messages clear_users
known_run = refl

run-has_sending_example :
    has_sending
      ((handle socket_closed (run chat_events (no_session nobody))).users.infos 0).chat_msgs
    ≡ false
run-has_sending_example =
    run-has_sending chat_events nobody (pos 8) 0 nobody-IsIndexed calm_run known_run

abbrev mutual
  doc_size : Doc → ℕ
  doc_size null = 4
  doc_size (int n) = 11
  doc_size (text t) = 2 + length t
  doc_size (bool b) = 5
  doc_size (object fields) = 2 + fields_size fields
  doc_size (array docs) = 2 + docs_size docs

  fields_size : Fields → ℕ
  fields_size none_yet = 0
  fields_size (with_field fields key doc) = fields_size fields + (4 + length key) + doc_size doc

  docs_size : Docs → ℕ
  docs_size no_docs = 0
  docs_size (then_doc docs doc) = docs_size docs + 1 + doc_size doc

abbrev uuid_of : ℕ → Text
uuid_of n = codes "id" ++ n ∷ []

-- A smile of two UTF-16 units between two letters.
abbrev smile : Text
smile = b'a' ∷ 55357 ∷ 56898 ∷ b'b' ∷ []

abbrev in_session : Service
in_session =
    record (no_session (record nobody {
      uid = pos 7;
      infos = λ n. record { uid = pos 8; thread_id = pos 3; chat_msgs = [] };
      next = 1;
      friend_list = 0 ∷ [];
      friend_map = (pos 8, 0) ∷ [];
    })) { ready = true }

small_frames :
    (thread_id : ℤ) (k : ℕ) (part : Text)
    → length part ≤ 2
    → frame_fits doc_size uuid_of (pos 7) (pos 8) thread_id (uuid_of k) part ≡ true
unfolding put_fields set_field text_eq text_lt
small_frames thread_id k part h = ground (arith, h)

known_friend : find_in in_session.users.friend_map (pos 8) ≡ some 0
unfolding find_in
known_friend = refl

send_text-IsCut_example :
    (pieces : List (Text × Text)) × IsCut
      (frame_fits doc_size uuid_of (pos 7) (pos 8) (thread_id_of (pos 8) in_session.users))
      smile
      pieces
    × (send_text doc_size uuid_of (pos 8) smile in_session
        ≡ some (
          true,
          with_pieces
              (pos 7)
              (pos 8)
              (thread_id_of (pos 8) in_session.users)
              pieces
              (ensure_private_chat (pos 8) in_session),
        ))
send_text-IsCut_example =
    send_text-IsCut doc_size uuid_of (pos 8) smile in_session 0 known_friend refl
      (small_frames (thread_id_of (pos 8) in_session.users))
