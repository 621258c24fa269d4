-- ===== src/Chat/Dao/Users.antt =====
-- server/services/ChatServer/src/MysqlDao.cpp: RegUser, CheckEmail, UpdatePwd and CheckPwd, which no
-- handler of the ChatServer calls; its passwords are as they are given.
use xiguchat.Prelude.{
  ◌≡◌, refl, Bool, true, false, Option, none, some, if◌then◌else◌, Bool-cases, inl, inr, ℕ,
}
use xiguchat.Prelude.Text.{Text, text_eq, is_empty}
use xiguchat.Prelude.Int.{ℤ, negsuc}
use xiguchat.Chat.Data.{UserInfo}
use xiguchat.Chat.Database.{Database, Query}
use xiguchat.Chat.Dao.{give, with_connection, ◌>>=◌, ◌>>◌}
use xiguchat.Chat.Dao.Balance.{IsQuiet, IsCounted, give-IsQuiet, bind-IsQuiet, with_connection-lent}

abbrev pub call_result : Option ℤ → ℤ
call_result none = negsuc 0
call_result (some result) = result

-- The first row decides; a name that nobody has passes.
abbrev pub is_email_in_db : Text → Option Text → Bool
is_email_in_db email none = true
is_email_in_db email (some email_in_db) = text_eq email email_in_db

module _ {S : Type 0} (db : Database S) where
  open db use {call_reg_user, select_result, select_email, update_user, select_login}

  unfoldable pub reg_user : Text → Text → Text → S → ℤ × S
  unfolding with_connection
  reg_user name email pwd =
      with_connection db (negsuc 0)
        (do call_reg_user name email pwd; row ← select_result; give (call_result row))

  unfoldable pub check_email : Text → Text → S → Bool × S
  unfolding with_connection
  check_email name email =
      with_connection db false (do row ← select_email name; give (is_email_in_db email row))

  unfoldable pub update_pwd : Text → Text → S → Bool × S
  unfolding with_connection
  update_pwd name newpwd = with_connection db false (do update_user newpwd name; give true)

  -- Without a row the stored password is empty, and a field of the row that is null throws.
  unfoldable pub fill_user :
      Text → Text → UserInfo → Option (ℤ × Text × Text) → Query S (Bool × UserInfo)
  fill_user email pwd info none = if is_empty pwd then (λ s. (none, s)) else give (false, info)
  fill_user email pwd info (some (uid, name, origin_pwd)) =
      if text_eq pwd origin_pwd
      then give (true, record info { name = name; email = email; uid = uid; pwd = origin_pwd })
      else give (false, info)

  -- The result with userInfo.
  unfoldable pub check_pwd : Text → Text → UserInfo → S → (Bool × UserInfo) × S
  unfolding with_connection fill_user
  check_pwd email pwd info =
      with_connection db (false, info) (do row ← select_login email; fill_user email pwd info row)

module _ {S : Type 0} (lent : S → ℕ) (db : Database S) (c : IsCounted lent db) where
  pub reg_user-lent :
      (name email pwd : Text) (s : S) → lent (reg_user db name email pwd s).1 ≡ lent s
  unfolding reg_user
  reg_user-lent name email pwd = with_connection-lent lent db c (negsuc 0) (
      bind-IsQuiet lent (c.call_reg_user name email pwd)
        (λ _. bind-IsQuiet lent c.select_result (λ row. give-IsQuiet lent (call_result row))))

  pub check_email-lent : (name email : Text) (s : S) → lent (check_email db name email s).1 ≡ lent s
  unfolding check_email
  check_email-lent name email = with_connection-lent lent db c false (
      bind-IsQuiet lent (c.select_email name) (λ row. give-IsQuiet lent (is_email_in_db email row)))

  pub update_pwd-lent : (name newpwd : Text) (s : S) → lent (update_pwd db name newpwd s).1 ≡ lent s
  unfolding update_pwd
  update_pwd-lent name newpwd =
      with_connection-lent lent db c false
        (bind-IsQuiet lent (c.update_user newpwd name) (λ _. give-IsQuiet lent true))

  fill_user-IsQuiet :
      (email pwd : Text) (info : UserInfo) (row : Option (ℤ × Text × Text))
      → IsQuiet lent (fill_user db email pwd info row)
  unfolding fill_user
  fill_user-IsQuiet email pwd info none = elim (Bool-cases (is_empty pwd)) [
    | inl empty ↦ rw empty (record { run = λ s. refl })
    | inr given ↦ rw given (record { run = λ s. refl })
  ]
  fill_user-IsQuiet email pwd info (some (uid, name, origin_pwd)) =
      elim (Bool-cases (text_eq pwd origin_pwd)) [
        | inl same ↦ rw same (record { run = λ s. refl })
        | inr differs ↦ rw differs (record { run = λ s. refl })
      ]

  pub check_pwd-lent :
      (email pwd : Text) (info : UserInfo) (s : S) → lent (check_pwd db email pwd info s).1 ≡ lent s
  unfolding check_pwd
  check_pwd-lent email pwd info =
      with_connection-lent lent db c (false, info)
        (bind-IsQuiet lent (c.select_login email) (fill_user-IsQuiet email pwd info))
