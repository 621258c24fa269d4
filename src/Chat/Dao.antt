-- ===== src/Chat/Dao.antt =====
-- server/services/ChatServer/src/MysqlDao.cpp: the data access layer over the SQL statements. A
-- method is a function of the state of the database and the pool; what another thread does between
-- two statements is not modelled.
pub mod Balance
pub mod Paging
pub mod Save
pub mod Users
use xiguchat.Prelude.{
  ℕ, zero, suc, ◌+◌, Bool, true, false, not, ◌&&◌, ◌||◌, Option, none, some, List, [], ◌∷◌, ◌++◌,
  ltb, ◌==◌, if◌then◌else◌, length,
}
use xiguchat.Prelude.Text.{Text}
use xiguchat.Prelude.Int.{ℤ, pos, eqb_ℤ, ltb_ℤ, is_positive}
use xiguchat.Chat.Data.{UserInfo, ApplyInfo, ChatThreadInfo, ChatMessageInfo}
use xiguchat.Chat.Database.{Database, Query, Rows}

-- std::min and std::max
abbrev pub min_ℤ : ℤ → ℤ → ℤ
min_ℤ a b = if ltb_ℤ b a then b else a

abbrev pub max_ℤ : ℤ → ℤ → ℤ
max_ℤ a b = if ltb_ℤ a b then b else a

-- std::clamp(limit, 1, 100)
abbrev pub page_limit : ℕ → ℕ
page_limit limit = if ltb limit 1 then 1 else if ltb 100 limit then 100 else limit

-- What a page is: whether the query succeeded, the entries, and whether there are more.
abbrev pub Page : Type 0 → Type 0
Page A = Bool × List A × Bool

-- The loop over the rows: one row more than the limit says that there are more pages.
unfoldable pub take_page : {A : Type 0} → ℕ → List A → List A → Bool → Page A
take_page limit page [] threw = (not threw, page, false)
take_page limit page (row ∷ rows) threw =
    let rest = take_page limit (page ++ row ∷ []) rows threw in
    if length page == limit then (true, page, true) else rest

-- The page, and whether the loop threw.
unfoldable pub read_page : {A : Type 0} → ℕ → Rows A → Page A × Bool
unfolding take_page
read_page limit rows = let page = take_page limit [] rows.fetched rows.threw in (page, not page.0)

module _ {S : Type 0} where
  abbrev pub give : {A : Type 0} → A → Query S A
  give a s = (some a, s)

  -- After a statement that did not throw.
  infixl 5 ◌>>=◌ ◌>>◌
  abbrev pub ◌>>=◌ : {A B : Type 0} → Query S A → (A → Query S B) → Query S B
  ◌>>=◌ m f s = let (o, s') = m s in elim o [ none ↦ (none, s') | some a ↦ f a s' ]

  abbrev pub ◌>>◌ : {A B : Type 0} → Query S A → Query S B → Query S B
  m >> k = m >>= λ _. k

module _ {S : Type 0} (db : Database S) where
  open db use {
    get_connection, return_connection, start_transaction, commit, rollback, select_user,
    select_user_by_name, insert_apply, select_apply, confirm_apply, select_apply_list,
    insert_friend, has_friend, select_friends, insert_thread, last_insert_id, select_private_chat,
    insert_private_chat, touch_thread, select_threads, is_thread_of, is_thread_between,
    select_messages, insert_message,
  }

  -- The connection goes back, as not healthy if the body threw.
  unfoldable pub returned : {A : Type 0} → A → Option A × S → A × S
  returned failed (none, s) = (failed, return_connection false s)
  returned failed (some a, s) = (a, return_connection true s)

  -- A connection, the body under try, and the connection back by Defer.
  unfoldable pub with_connection : {A : Type 0} → A → Query S A → S → A × S
  unfolding returned
  with_connection failed body s =
      let (got, s') = get_connection s in if got then returned failed (body s') else (failed, s')

  returned_rows : {A : Type 0} → A → Option (A × Bool) × S → A × S
  returned_rows failed (none, s) = (failed, return_connection false s)
  returned_rows failed (some (a, threw), s) = (a, return_connection (not threw) s)

  -- The same with a body that reads rows, and keeps what it has read before fetchOne throws.
  unfoldable pub with_rows : {A : Type 0} → A → Query S (A × Bool) → S → A × S
  unfolding returned_rows
  with_rows failed body s =
      let (got, s') = get_connection s in
      if got then returned_rows failed (body s') else (failed, s')

  -- catch: the transaction is rolled back, whether or not that throws too.
  unfoldable pub or_rollback : {A : Type 0} → Query S A → Query S A
  or_rollback body s =
      let (o, s') = body s in elim o [ none ↦ (none, (rollback s').1) | some a ↦ (some a, s') ]

  unfoldable pub get_user : ℤ → S → Option UserInfo × S
  unfolding with_connection
  get_user uid = with_connection none (select_user uid)

  -- The row has no icon, and the name is the one that was asked for.
  named : Text → Option UserInfo → Option UserInfo
  named name none = none
  named name (some row) = some (record row { name = name; icon = []; back = [] })

  unfoldable pub get_user_by_name : Text → S → Option UserInfo × S
  unfolding with_connection named
  get_user_by_name name =
      with_connection none (do row ← select_user_by_name name; give (named name row))

  unfoldable pub add_friend_apply : ℤ → ℤ → Text → Text → S → Bool × S
  unfolding with_connection
  add_friend_apply from to desc back_name =
      with_connection false (do insert_apply from to desc back_name; give true)

  unfoldable pub confirm_friend : ℤ → ℤ → Text → Option (Text × Text) → Query S (Option Text)
  confirm_friend from to back_name none = do rollback; give none
  confirm_friend from to back_name (some (apply_desc, reverse_back)) = do
    confirm_apply to from
    insert_friend from to back_name
    insert_friend to from reverse_back
    commit
    give (some apply_desc)

  -- The description of the application, if the two are friends now.
  unfoldable pub add_friend : ℤ → ℤ → Text → S → Option Text × S
  unfolding with_connection or_rollback confirm_friend
  add_friend from to back_name = with_connection none (
      or_rollback (do
        start_transaction
        apply ← select_apply to from
        confirm_friend from to back_name apply))

  -- The rows that were read before an error stay in the list.
  unfoldable pub get_apply_list : ℤ → ℕ → ℕ → S → (Bool × List ApplyInfo) × S
  unfolding with_rows
  get_apply_list touid begin limit =
      with_rows (false, [])
        (do
          rows ← select_apply_list touid begin limit
          give ((not rows.threw, rows.fetched), rows.threw))

  add_known : Option UserInfo → List UserInfo → List UserInfo
  add_known none list = list
  add_known (some user) list = record user { back = user.name } ∷ list

  -- GetUser for each friend, on a connection of its own.
  unfoldable pub each_friend : List ℤ → S → List UserInfo × S
  unfolding get_user add_known
  each_friend [] s = ([], s)
  each_friend (friend_id ∷ ids) s =
      let (user_info, s') = get_user friend_id s in
      let (rest, s'') = each_friend ids s' in (add_known user_info rest, s'')

  unfoldable pub friends_of : List ℤ → Query S (List UserInfo)
  unfolding each_friend
  friends_of ids s = let (list, s') = each_friend ids s in (some list, s')

  unfoldable pub get_friend_list : ℤ → S → (Bool × List UserInfo) × S
  unfolding with_rows friends_of
  get_friend_list self_id =
      with_rows (false, [])
        (do
          rows ← select_friends self_id
          user_info_list ← friends_of rows.fetched
          give ((not rows.threw, user_info_list), rows.threw))

  unfoldable pub create_chat : ℤ → ℤ → Option ℤ → Query S ℤ
  create_chat low high none = do rollback; give (pos 0)
  create_chat low high (some thread_id) = do
    insert_private_chat thread_id low high
    commit
    give thread_id

  unfoldable pub found_chat : ℤ → ℤ → Option ℤ → Query S ℤ
  unfolding create_chat
  found_chat low high none = do insert_thread; id_row ← last_insert_id; create_chat low high id_row
  found_chat low high (some thread_id) = do commit; give thread_id

  unfoldable pub friends_chat : ℤ → ℤ → Bool → Query S ℤ
  unfolding found_chat
  friends_chat low high false = do rollback; give (pos 0)
  friends_chat low high true = do
    existing ← select_private_chat low high
    found_chat low high existing

  -- One attempt's transaction.
  unfoldable pub chat_body : ℤ → ℤ → Query S ℤ
  unfolding or_rollback friends_chat
  chat_body user1 user2 = or_rollback (do
    start_transaction
    friendship ← has_friend user1 user2
    friends_chat (min_ℤ user1 user2) (max_ℤ user1 user2) friendship)

  -- After an error there is another attempt, if one is left.
  unfoldable pub chat_attempts : ℕ → ℤ → ℤ → S → ℤ × S
  unfolding chat_body
  chat_attempts zero user1 user2 s = (pos 0, s)
  chat_attempts (suc attempts) user1 user2 s =
      let (got, s') = get_connection s in
      let (done, s'') = chat_body user1 user2 s' in
      let again = chat_attempts attempts user1 user2 (return_connection false s'') in
      if got
      then elim done [ none ↦ again | some thread_id ↦ (thread_id, return_connection true s'') ]
      else (pos 0, s')

  unfoldable pub get_or_create_private_chat : ℤ → ℤ → S → ℤ × S
  unfolding chat_attempts
  get_or_create_private_chat user1 user2 s =
      if not (is_positive user1) || (not (is_positive user2) || eqb_ℤ user1 user2)
      then (pos 0, s)
      else chat_attempts 2 user1 user2 s

  unfoldable pub get_chat_threads : ℤ → ℤ → ℕ → S → Page ChatThreadInfo × S
  unfolding with_rows read_page
  get_chat_threads uid last_thread_id limit =
      with_rows (false, [], false)
        (do
          rows ← select_threads uid last_thread_id (page_limit limit + 1)
          give (read_page (page_limit limit) rows))

  unfoldable pub messages_of : ℤ → ℤ → ℕ → Bool → Query S (Page ChatMessageInfo × Bool)
  unfolding read_page
  messages_of thread_id last_message_id limit false = give ((false, [], false), false)
  messages_of thread_id last_message_id limit true = do
    rows ← select_messages thread_id last_message_id (limit + 1)
    give (read_page limit rows)

  unfoldable pub get_chat_messages : ℤ → ℤ → ℤ → ℕ → S → Page ChatMessageInfo × S
  unfolding with_rows messages_of
  get_chat_messages uid thread_id last_message_id limit =
      with_rows (false, [], false)
        (do
          member ← is_thread_of thread_id uid
          messages_of thread_id last_message_id (page_limit limit) member)
