-- ===== src/Chat/Dao/Save.antt =====
-- server/services/ChatServer/src/MysqlDao.cpp: SaveChatMessages. The out parameter is a part of the
-- result, also where the method returns false.
pub mod Saved
pub mod Lent
use xiguchat.Prelude.{Bool, true, false, Option, none, some, List, [], ◌∷◌, ◌++◌, if◌then◌else◌}
use xiguchat.Prelude.Text.{Text}
use xiguchat.Prelude.Int.{ℤ, pos, is_positive}
use xiguchat.Chat.Data.{ChatMessageInfo}
use xiguchat.Chat.Database.{Database, Query}
use xiguchat.Chat.Dao.{give, get_or_create_private_chat, ◌>>=◌, ◌>>◌}

-- A result under try, none where a statement threw, with the messages that were pushed before.
abbrev pub Saving : Type 0
Saving = Option Bool × List ChatMessageInfo

module _ {S : Type 0} (db : Database S) where
  open db use {
    get_connection, return_connection, start_transaction, commit, rollback, has_friend,
    last_insert_id, touch_thread, is_thread_between, insert_message,
  }

  module _ (sender_id recv_id : ℤ) where
    unfoldable pub saved_row : ℤ → Text → Text → Option ℤ → Query S (Option ChatMessageInfo)
    saved_row thread_id client_id content none = do rollback; give none
    saved_row thread_id client_id content (some id) = give (
        some (record {
          message_id = id;
          thread_id = thread_id;
          sender_id = sender_id;
          recv_id = recv_id;
          client_msg_id = client_id;
          content = content;
          status = pos 0;
        }))

    unfoldable pub insert_one : ℤ → Text → Text → Query S (Option ChatMessageInfo)
    unfolding saved_row
    insert_one thread_id client_id content = do
      insert_message thread_id sender_id recv_id client_id content
      id_row ← last_insert_id
      saved_row thread_id client_id content id_row

    -- The loop over the contents, behind the messages that it has pushed.
    unfoldable pub insert_each : ℤ → List (Text × Text) → List ChatMessageInfo → S → Saving × S
    unfolding insert_one
    insert_each thread_id [] messages s = ((some true, messages), s)
    insert_each thread_id ((client_id, content) ∷ contents) messages s =
        let (o, s') = insert_one thread_id client_id content s in
        elim o [
          | none ↦ ((none, messages), s')
          | some none ↦ ((some false, messages), s')
          | some (some info) ↦ insert_each thread_id contents (messages ++ info ∷ []) s'
        ]

    -- The chat's time of change, and the commit.
    unfoldable pub close_batch : ℤ → Saving × S → Saving × S
    close_batch thread_id ((none, messages), s) = ((none, messages), s)
    close_batch thread_id ((some false, messages), s) = ((some false, messages), s)
    close_batch thread_id ((some true, messages), s) =
        let (o, s') = (do touch_thread thread_id; commit; give true) s in ((o, messages), s')

    unfoldable pub save_batch : ℤ → List (Text × Text) → S → Saving × S
    unfolding insert_each close_batch
    save_batch thread_id contents s =
        let (o, s') = is_thread_between thread_id sender_id recv_id s in
        let (begun, s'') = start_transaction s' in
        elim o [
          | none ↦ ((none, []), s')
          | some false ↦ ((some false, []), s')
          | some true ↦ elim begun [
            | none ↦ ((none, []), s'')
            | some _ ↦ close_batch thread_id (insert_each thread_id contents [] s'')
          ]
        ]

    -- catch rolls back, and the connection goes back by Defer.
    unfoldable pub saved : Saving × S → (Bool × List ChatMessageInfo) × S
    saved ((none, messages), s) = ((false, messages), return_connection false (rollback s).1)
    saved ((some ok, messages), s) = ((ok, messages), return_connection true s)

    unfoldable pub save_in : ℤ → List (Text × Text) → S → (Bool × List ChatMessageInfo) × S
    unfolding save_batch saved
    save_in thread_id contents s = saved (save_batch thread_id contents s)

    -- The client has no chat yet: with its connection given back, the chat is created, and there is
    -- another connection.
    unfoldable pub save_in_new : List (Text × Text) → S → (Bool × List ChatMessageInfo) × S
    unfolding save_in
    save_in_new contents s =
        let (thread_id, s') = get_or_create_private_chat db sender_id recv_id s in
        let (got, s'') = get_connection s' in
        if got
        then (if is_positive thread_id
            then save_in thread_id contents s''
            else ((false, []), return_connection true s''))
        else ((false, []), s'')

    unfoldable pub save_with_friend :
        List (Text × Text) → Option Bool × S → (Bool × List ChatMessageInfo) × S
    unfolding save_in_new
    save_with_friend contents (none, s) = ((false, []), return_connection false s)
    save_with_friend contents (some false, s) = ((false, []), return_connection true s)
    save_with_friend contents (some true, s) = save_in_new contents (return_connection true s)

    unfoldable pub save_chat_messages :
        ℤ → List (Text × Text) → S → (Bool × List ChatMessageInfo) × S
    unfolding save_in save_with_friend
    save_chat_messages thread_id [] s = ((true, []), s)
    save_chat_messages thread_id (content ∷ contents) s =
        let (got, s') = get_connection s in
        if got
        then (if is_positive thread_id
            then save_in thread_id (content ∷ contents) s'
            else save_with_friend (content ∷ contents) (has_friend sender_id recv_id s'))
        else ((false, []), s')
