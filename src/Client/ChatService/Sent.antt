-- ===== src/Client/ChatService/Sent.antt =====
-- client/core/service/chatservice.cpp: sendText gives the network the whole text, in frames that the
-- server takes.
use xiguchat.Prelude.{
  ℕ, zero, suc, ◌≤◌, ◌≡◌, refl, sym, ◌∙◌, ap, Bool, true, false, Option, none, some, List, [], ◌∷◌,
  ◌++◌, inl, inr, Bool-cases, ◌==◌, length, length-append, append_assoc, append-nil, arith,
  if◌then◌else◌, not, ◌||◌,
}
use xiguchat.Prelude.Text.{Text, is_empty}
use xiguchat.Prelude.Int.{ℤ, is_positive}
use xiguchat.Chat.World.{Doc}
use xiguchat.Chat.Protocol.{create_private_chat_req, text_chat_msg_req}
use xiguchat.Client.History.{TextChatData, append_chat_msgs}
use xiguchat.Client.Users.{
  Users, FriendInfo, find_in, edit_found, append_friend_chat_msg, get_friend_by_id,
}
use xiguchat.Client.SessionService.{Service, send_data, change_users}
use xiguchat.Client.ChatService.{
  thread_at, thread_id_of, has_uid, mark_pending, ensure_private_chat, fill_content, text_frame,
  sending_msg, chat_request, frame_fits, send_content, send_rounds, accepted_text, send_text,
}
use xiguchat.Client.ChatService.Cut.{cuts_pair, fill_content-IsFilled, fill_content-longer}

-- The pieces of a text with the ids of their messages: no piece is empty, each frame fits, and no
-- surrogate pair is cut.
pub data IsCut (fits : Text → Text → Bool) : Text → List (Text × Text) → Type 0 where
  ended : IsCut fits [] []
  piece :
      (msg_id content rest text : Text) (pieces : List (Text × Text))
      → content ++ rest ≡ text
      → fits msg_id content ≡ true
      → 1 ≤ length content
      → cuts_pair content rest ≡ false
      → IsCut fits rest pieces
      → IsCut fits text ((msg_id, content) ∷ pieces)

abbrev pub frames_of : ℤ → ℤ → ℤ → List (Text × Text) → List (ℕ × Doc)
frames_of from uid thread_id [] = []
frames_of from uid thread_id ((msg_id, content) ∷ pieces) =
    (text_chat_msg_req, text_frame from uid thread_id msg_id content)
    ∷ frames_of from uid thread_id pieces

abbrev pub append_pieces : ℤ → ℤ → List (Text × Text) → Users → Users
append_pieces uid thread_id [] u = u
append_pieces uid thread_id ((msg_id, content) ∷ pieces) u =
    append_pieces uid thread_id pieces
      (append_friend_chat_msg uid (sending_msg thread_id msg_id content ∷ []) u)

-- Each piece in a frame for the network, and in a message of the chat that waits for its receipt.
abbrev pub with_pieces : ℤ → ℤ → ℤ → List (Text × Text) → Service → Service
with_pieces from uid thread_id pieces s = record s {
  users = append_pieces uid thread_id pieces s.users;
  sent = s.sent ++ frames_of from uid thread_id pieces;
}

thread_at-edit_found :
    (at found : Option ℕ) (f : FriendInfo → FriendInfo) (u : Users)
    → ((info : FriendInfo) → (f info).thread_id ≡ info.thread_id)
    → thread_at at (edit_found found f u) ≡ thread_at at u
thread_at-edit_found none found f u keeps = refl
thread_at-edit_found (some n) none f u keeps = refl
thread_at-edit_found (some n) (some friend) f u keeps = elim (Bool-cases (n == friend)) [
  | inl here ↦ rw (thread_at, here) (keeps (u.infos n))
  | inr away ↦ rw (thread_at, away) refl
]

edit_found-map :
    (found : Option ℕ) (f : FriendInfo → FriendInfo) (u : Users)
    → (edit_found found f u).friend_map ≡ u.friend_map
edit_found-map none f u = refl
edit_found-map (some friend) f u = refl

-- A message in a chat leaves the chat's thread as it is.
thread_id_of-append_friend_chat_msg :
    (uid : ℤ) (msgs : List TextChatData) (u : Users)
    → thread_id_of uid (append_friend_chat_msg uid msgs u) ≡ thread_id_of uid u
unfolding thread_id_of append_friend_chat_msg
thread_id_of-append_friend_chat_msg uid msgs u =
    let found = get_friend_by_id uid u in
    let f : FriendInfo → FriendInfo =
      λ info. record info { chat_msgs = append_chat_msgs info.chat_msgs msgs } in
    rw (edit_found-map found f u) (thread_at-edit_found found found f u (λ info. refl))

either_way :
    {A : Type 0} (test : Bool) (x y : A) (f : A → ℤ) (z : ℤ)
    → f x ≡ z
    → f y ≡ z
    → f (if test then x else y) ≡ z
either_way true x y f z e e' = e
either_way false x y f z e e' = e'

thread_at-pending :
    (at : Option ℕ) (uids : List ℤ) (u : Users)
    → thread_at at (record u { pending_private_chats = uids }) ≡ thread_at at u
thread_at-pending none uids u = refl
thread_at-pending (some friend) uids u = refl

thread_id_of-mark_pending :
    (uid : ℤ) (u : Users) → thread_id_of uid (mark_pending uid u) ≡ thread_id_of uid u
unfolding mark_pending thread_id_of
thread_id_of-mark_pending uid u =
    either_way (has_uid uid u.pending_private_chats) u
      (record u { pending_private_chats = uid ∷ u.pending_private_chats }) (thread_id_of uid)
      (thread_id_of uid u) refl
      (thread_at-pending (find_in u.friend_map uid) (uid ∷ u.pending_private_chats) u)

thread_id_of-ensure_private_chat :
    (uid : ℤ) (s : Service)
    → thread_id_of uid (ensure_private_chat uid s).users ≡ thread_id_of uid s.users
unfolding ensure_private_chat
thread_id_of-ensure_private_chat uid s =
    either_way
      (not s.ready
        || not (is_positive uid)
        || is_positive (thread_id_of uid s.users)
        || has_uid uid s.users.pending_private_chats)
      s
      (send_data create_private_chat_req (chat_request s.users.uid uid)
        (change_users (mark_pending uid) s))
      (λ (z : Service). thread_id_of uid z.users) (thread_id_of uid s.users) refl
      (thread_id_of-mark_pending uid s.users)

is_empty-long : (content : Text) → 1 ≤ length content → is_empty content ≡ false
is_empty-long [] h = elim h [ ]
is_empty-long (c ∷ content) h = refl

module _ (size : Doc → ℕ) (create_uuid : ℕ → Text) where
  with_pieces-send_content :
      (from uid thread_id : ℤ) (msg_id content : Text) (pieces : List (Text × Text)) (s : Service)
      → 1 ≤ length content
      → with_pieces from uid thread_id pieces
          (send_content size create_uuid from uid thread_id msg_id content s)
        ≡ with_pieces from uid thread_id ((msg_id, content) ∷ pieces) s
  with_pieces-send_content from uid thread_id msg_id content pieces s h =
      let msg = sending_msg thread_id msg_id content in
      let frame : ℕ × Doc = (text_chat_msg_req, text_frame from uid thread_id msg_id content) in
      rw (is_empty-long content h) (
        ap
          (λ (t : List (ℕ × Doc)). record s {
            users =
                append_pieces uid thread_id pieces (append_friend_chat_msg uid (msg ∷ []) s.users);
            sent = t;
          })
          (append_assoc s.sent (frame ∷ []) (frames_of from uid thread_id pieces)))

  send_rounds-round :
      (fuel n : ℕ) (from uid thread_id : ℤ) (c : ℕ) (rest : Text) (s : Service)
      → thread_id_of uid s.users ≡ thread_id
      → send_rounds size create_uuid (suc fuel) n from uid (c ∷ rest) s ≡ (
          let filled =
            fill_content
              (frame_fits size create_uuid from uid thread_id (create_uuid n))
              []
              (c ∷ rest) in
          send_rounds size create_uuid fuel
            (suc n)
            from
            uid
            filled.1
            (send_content size create_uuid from uid thread_id (create_uuid n) filled.0 s))
  unfolding send_rounds
  send_rounds-round fuel n from uid thread_id c rest s e =
      ap
        (λ (t : ℤ).
          let filled =
            fill_content (frame_fits size create_uuid from uid t (create_uuid n)) [] (c ∷ rest) in
          send_rounds size create_uuid fuel (suc n) from uid filled.1
            (send_content size create_uuid from uid t (create_uuid n) filled.0 s))
        e

  -- Enough fuel is one unit for each unit of the text.
  send_rounds-IsCut :
      (fuel n : ℕ) (from uid thread_id : ℤ) (content : Text) (s : Service)
      → length content ≤ fuel
      → thread_id_of uid s.users ≡ thread_id
      → ((k : ℕ) (part : Text)
          → length part ≤ 2
          → frame_fits size create_uuid from uid thread_id (create_uuid k) part ≡ true)
      → (pieces : List (Text × Text)) × IsCut
          (frame_fits size create_uuid from uid thread_id)
          content
          pieces
        × (send_rounds size create_uuid fuel n from uid content s
            ≡ some (with_pieces from uid thread_id pieces s))
  unfolding send_rounds
  send_rounds-IsCut fuel n from uid thread_id [] s enough e small = (
    [],
    ended,
    ap (λ (t : List (ℕ × Doc)). some (record s { sent = t })) (sym (append-nil s.sent)),
  )
  send_rounds-IsCut zero n from uid thread_id (c ∷ rest) s enough e small = elim enough [ ]
  send_rounds-IsCut (suc fuel) n from uid thread_id (c ∷ rest) s enough e small =
      let fits = frame_fits size create_uuid from uid thread_id (create_uuid n) in
      let taken = fill_content-IsFilled fits [] (c ∷ rest) (small n [] (omega arith)) refl in
      let longer = fill_content-longer fits c rest (small n) in
      let content = (fill_content fits [] (c ∷ rest)).0 in
      let left = (fill_content fits [] (c ∷ rest)).1 in
      let s' = send_content size create_uuid from uid thread_id (create_uuid n) content s in
      let shorter : length left ≤ fuel =
        omega (arith, enough, longer, length-append content left, ap length taken.whole) in
      let same : thread_id_of uid s'.users ≡ thread_id =
        thread_id_of-append_friend_chat_msg uid (sending_msg thread_id (create_uuid n) content ∷ [])
          s.users
        ∙ e in
      let (pieces, cut, result) =
        send_rounds-IsCut fuel (suc n) from uid thread_id left s' shorter same small in
      (
        (create_uuid n, content) ∷ pieces,
        piece (create_uuid n) content left (c ∷ rest) pieces taken.whole taken.fitting longer
            taken.apart cut,
        send_rounds-round fuel n from uid thread_id c rest s e
            ∙ result
            ∙ ap some (
                with_pieces-send_content from uid thread_id (create_uuid n) content pieces s
                  longer),
      )

  send_text-ready :
      (uid : ℤ) (content : Text) (s : Service) (friend : ℕ)
      → find_in s.users.friend_map uid ≡ some friend
      → s.ready ≡ true
      → send_text size create_uuid uid content s
        ≡ accepted_text (
            send_rounds size create_uuid
              (length content)
              0
              s.users.uid
              uid
              content
              (ensure_private_chat uid s))
  unfolding send_text
  send_text-ready uid content s friend known ready =
      let sends = accepted_text (
        send_rounds size create_uuid (length content) 0 s.users.uid uid content
          (ensure_private_chat uid s)) in
      ap
        (λ (at : Option ℕ). elim at [
          | none ↦ some (false, s)
          | some n ↦ if s.ready then sends else some (false, s)
        ])
        known
      ∙ ap (λ (test : Bool). if test then sends else some (false, s)) ready

  -- A text for a friend, in a session that is ready, where a frame of at most two units fits, is sent
  -- after finitely many rounds: in pieces that make up the whole text, none of them empty, none cut
  -- inside a surrogate pair, and each in a frame within the limit; and each piece is a message of the
  -- friend's chat that waits for its receipt, after the chat has been asked for where it is missing.
  pub send_text-IsCut :
      (uid : ℤ) (content : Text) (s : Service) (friend : ℕ)
      → find_in s.users.friend_map uid ≡ some friend
      → s.ready ≡ true
      → ((k : ℕ) (part : Text)
          → length part ≤ 2
          → frame_fits size create_uuid s.users.uid uid
              (thread_id_of uid s.users)
              (create_uuid k)
              part
            ≡ true)
      → (pieces : List (Text × Text)) × IsCut
          (frame_fits size create_uuid s.users.uid uid (thread_id_of uid s.users))
          content
          pieces
        × (send_text size create_uuid uid content s
            ≡ some (
              true,
              with_pieces s.users.uid uid
                  (thread_id_of uid s.users)
                  pieces
                  (ensure_private_chat uid s),
            ))
  send_text-IsCut uid content s friend known ready small =
      let (pieces, cut, result) =
        send_rounds-IsCut (length content) 0 s.users.uid uid (thread_id_of uid s.users) content
          (ensure_private_chat uid s) (omega arith) (thread_id_of-ensure_private_chat uid s)
          small in
      (pieces, cut, send_text-ready uid content s friend known ready ∙ ap accepted_text result)
