-- ===== src/Chat/Database.antt =====
-- The MySQL server behind the X DevAPI, and the pool of connections, as the data access layer of the
-- ChatServer uses them: one operation for each SQL statement of MysqlDao.cpp.
use xiguchat.Prelude.{ℕ, Bool, Option, List}
use xiguchat.Prelude.Text.{Text}
use xiguchat.Prelude.Int.{ℤ}
use xiguchat.Chat.Data.{UserInfo, ApplyInfo, ChatThreadInfo, ChatMessageInfo}

-- A statement on a connection; none: it throws mysqlx::Error.
abbrev pub Query : Type 0 → Type 0 → Type 0
Query S A = S → Option A × S

-- The rows that fetchOne gives one after the other, and whether it then throws.
pub record Rows (A : Type 0) : Type 0 where
  pub fetched : List A
  pub threw : Bool

pub record Database (S : Type 0) : Type 0 where
  -- getConnection, false for a null pointer; and returnConnection of a healthy connection or not.
  pub get_connection : S → Bool × S
  pub return_connection : Bool → S → S
  pub start_transaction : Query S (Unit {0})
  pub commit : Query S (Unit {0})
  pub rollback : Query S (Unit {0})
  -- user, by the uid and by the name
  pub select_user : ℤ → Query S (Option UserInfo)
  pub select_user_by_name : Text → Query S (Option UserInfo)
  -- CALL reg_user and SELECT @result, the email of a name, UPDATE of the password of a name, and the
  -- uid, the name and the password of an email
  pub call_reg_user : Text → Text → Text → Query S (Unit {0})
  pub select_result : Query S (Option ℤ)
  pub select_email : Text → Query S (Option Text)
  pub update_user : Text → Text → Query S (Unit {0})
  pub select_login : Text → Query S (Option (ℤ × Text × Text))
  -- friend_apply: INSERT, descs and back_name FOR UPDATE, UPDATE status = 1, and the page
  pub insert_apply : ℤ → ℤ → Text → Text → Query S (Unit {0})
  pub select_apply : ℤ → ℤ → Query S (Option (Text × Text))
  pub confirm_apply : ℤ → ℤ → Query S (Unit {0})
  pub select_apply_list : ℤ → ℕ → ℕ → Query S (Rows ApplyInfo)
  -- friend: INSERT IGNORE, whether there is a row, and the ids
  pub insert_friend : ℤ → ℤ → Text → Query S (Unit {0})
  pub has_friend : ℤ → ℤ → Query S Bool
  pub select_friends : ℤ → Query S (Rows ℤ)
  -- chat_thread and private_chat
  pub insert_thread : Query S (Unit {0})
  pub last_insert_id : Query S (Option ℤ)
  pub select_private_chat : ℤ → ℤ → Query S (Option ℤ)
  pub insert_private_chat : ℤ → ℤ → ℤ → Query S (Unit {0})
  pub touch_thread : ℤ → Query S (Unit {0})
  pub select_threads : ℤ → ℤ → ℕ → Query S (Rows ChatThreadInfo)
  pub is_thread_of : ℤ → ℤ → Query S Bool
  pub is_thread_between : ℤ → ℤ → ℤ → Query S Bool
  -- chat_message
  pub select_messages : ℤ → ℤ → ℕ → Query S (Rows ChatMessageInfo)
  pub insert_message : ℤ → ℤ → ℤ → Text → Text → Query S (Unit {0})
