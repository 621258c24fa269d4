-- ===== src/Client/ChatService.antt =====
-- client/core/service/chatservice.cpp: the chat that is created for a friend, and a text in frames that
-- the server takes. A QString is the list of its UTF-16 units.
pub mod Cut
pub mod Sent
use xiguchat.Prelude.{
  ℕ, zero, suc, Bool, true, false, not, ◌&&◌, ◌||◌, Option, none, some, List, [], ◌∷◌, ◌++◌, length,
  leb, ltb, if◌then◌else◌,
}
use xiguchat.Prelude.Text.{Text, codes, is_empty}
use xiguchat.Prelude.Int.{ℤ, pos, eqb_ℤ, is_positive}
use xiguchat.Chat.World.{Doc, null, int, text, object, array, none_yet, no_docs, then_doc}
use xiguchat.Chat.Reply.{put_fields}
use xiguchat.Chat.Protocol.{create_private_chat_req, text_chat_msg_req}
use xiguchat.Client.History.{TextChatData, sending}
use xiguchat.Client.Users.{Users, find_in, append_friend_chat_msg}
use xiguchat.Client.SessionService.{Service, send_data, change_users}

-- UserMgr::ThreadId, HasPendingPrivateChat and MarkPrivateChatPending(uid, true).
abbrev pub thread_at : Option ℕ → Users → ℤ
thread_at none u = pos 0
thread_at (some friend) u = (u.infos friend).thread_id

unfoldable pub thread_id_of : ℤ → Users → ℤ
unfolding find_in
thread_id_of uid u = thread_at (find_in u.friend_map uid) u

unfoldable pub has_uid : ℤ → List ℤ → Bool
has_uid uid [] = false
has_uid uid (head ∷ uids) = eqb_ℤ head uid || has_uid uid uids

unfoldable pub mark_pending : ℤ → Users → Users
unfolding has_uid
mark_pending uid u =
    if has_uid uid u.pending_private_chats
    then u
    else record u { pending_private_chats = uid ∷ u.pending_private_chats }

abbrev pub chat_request : ℤ → ℤ → Doc
chat_request from uid =
    object (put_fields none_yet ((codes "fromuid", int from) ∷ (codes "touid", int uid) ∷ []))

unfoldable pub ensure_private_chat : ℤ → Service → Service
unfolding thread_id_of has_uid mark_pending
ensure_private_chat uid s =
    if not s.ready
      || not (is_positive uid)
      || is_positive (thread_id_of uid s.users)
      || has_uid uid s.users.pending_private_chats
    then s
    else send_data create_private_chat_req (chat_request s.users.uid uid)
        (change_users (mark_pending uid) s)

-- QChar::isHighSurrogate and isLowSurrogate
abbrev pub is_high : ℕ → Bool
is_high unit = leb 55296 unit && ltb unit 56320

abbrev pub is_low : ℕ → Bool
is_low unit = leb 56320 unit && ltb unit 57344

-- The inner loop: the content so far and what is left of the text.
unfoldable pub fill_content : (Text → Bool) → Text → Text → Text × Text
fill_content fits content [] = (content, [])
fill_content fits content (c ∷ []) =
    if fits (content ++ c ∷ []) then (content ++ c ∷ [], []) else (content, c ∷ [])
fill_content fits content (c ∷ d ∷ rest) = elim (is_high c && is_low d) [
  | true ↦ elim (fits (content ++ c ∷ d ∷ [])) [
    | true ↦ fill_content fits (content ++ c ∷ d ∷ []) rest
    | false ↦ (content, c ∷ d ∷ rest)
  ]
  | false ↦ elim (fits (content ++ c ∷ [])) [
    | true ↦ fill_content fits (content ++ c ∷ []) (d ∷ rest)
    | false ↦ (content, c ∷ d ∷ rest)
  ]
]

abbrev pub max_payload : ℕ
max_payload = 1800

-- The frame of a content, with the id of its message.
abbrev pub text_frame : ℤ → ℤ → ℤ → Text → Text → Doc
text_frame from uid thread_id msg_id content = object (
    put_fields none_yet (
      (codes "fromuid", int from)
      ∷ (codes "touid", int uid)
      ∷ (codes "thread_id", int thread_id)
      ∷ (
        codes "text_array",
        array (
            then_doc no_docs (
              object (
                put_fields none_yet
                  ((codes "msgid", text msg_id) ∷ (codes "content", text content) ∷ [])))),
      )
      ∷ []))

abbrev pub sending_msg : ℤ → Text → Text → TextChatData
sending_msg thread_id msg_id content = record {
  msg_id = msg_id;
  message_id = pos 0;
  thread_id = thread_id;
  status = sending;
  msg_content = content;
}

-- A payload without bytes, of a round in which nothing fits, is null.
abbrev pub payload_of : Text → Doc → Doc
payload_of content frame = if is_empty content then null else frame

abbrev pub accepted_text : Option Service → Option (Bool × Service)
accepted_text none = none
accepted_text (some s) = some (true, s)

-- size: the bytes that toJson(Compact) gives; create_uuid n: the id of the n-th round.
module _ (size : Doc → ℕ) (create_uuid : ℕ → Text) where
  abbrev pub frame_fits : ℤ → ℤ → ℤ → Text → Text → Bool
  frame_fits from uid thread_id msg_id content =
      leb (size (text_frame from uid thread_id msg_id content)) max_payload

  abbrev pub send_content : ℤ → ℤ → ℤ → Text → Text → Service → Service
  send_content from uid thread_id msg_id content s =
      change_users (append_friend_chat_msg uid (sending_msg thread_id msg_id content ∷ [])) (
        send_data text_chat_msg_req
          (payload_of content (text_frame from uid thread_id msg_id content)) s)

  -- The outer loop on fuel; none: it has not ended yet.
  unfoldable pub send_rounds : ℕ → ℕ → ℤ → ℤ → Text → Service → Option Service
  unfolding fill_content thread_id_of append_friend_chat_msg
  send_rounds fuel n from uid [] s = some s
  send_rounds zero n from uid (c ∷ rest) s = none
  send_rounds (suc fuel) n from uid (c ∷ rest) s =
      let thread_id = thread_id_of uid s.users in
      let msg_id = create_uuid n in
      let (content, left) = fill_content (frame_fits from uid thread_id msg_id) [] (c ∷ rest) in
      send_rounds fuel (suc n) from uid left (send_content from uid thread_id msg_id content s)

  -- An empty text is no round at all.
  unfoldable pub send_text : ℤ → Text → Service → Option (Bool × Service)
  unfolding find_in ensure_private_chat send_rounds
  send_text uid content s = elim (find_in s.users.friend_map uid) [
    | none ↦ some (false, s)
    | some friend ↦
        if s.ready
        then accepted_text
            (send_rounds (length content) 0 s.users.uid uid content (ensure_private_chat uid s))
        else some (false, s)
  ]
