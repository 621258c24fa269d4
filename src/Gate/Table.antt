-- ===== src/Gate/Table.antt =====
-- backup/xigu.sql: the stored procedure reg_user over the tables user and user_id. The comparison of
-- texts, which a collation of MySQL makes, is a parameter.
pub mod Unique
use xiguchat.Prelude.{
  ℕ, suc, Bool, true, false, ◌||◌, Option, none, some, List, [], ◌∷◌, ◌++◌, if◌then◌else◌,
}
use xiguchat.Prelude.Text.{Text}
use xiguchat.Prelude.Int.{ℤ, pos, negsuc}

pub record User : Type 0 where
  pub uid : ℕ
  pub name : Text
  pub email : Text
  pub pwd : Text

-- The rows of user, the id of user_id, and the session variable @result.
pub record Tables : Type 0 where
  pub users : List User
  pub user_id : ℕ
  pub result : Option ℤ

abbrev pub with_result : ℤ → Tables → Tables
with_result result t = record t { result = some result }

module _ (same : Text → Text → Bool) where
  unfoldable pub has_name : Text → List User → Bool
  has_name name [] = false
  has_name name (user ∷ users) = same user.name name || has_name name users

  unfoldable pub has_email : Text → List User → Bool
  has_email email [] = false
  has_email email (user ∷ users) = same user.email email || has_email email users

  abbrev pub add_user : Text → Text → Text → Tables → Tables
  add_user name email pwd t = record {
    users = t.users ++ record { uid = suc t.user_id; name = name; email = email; pwd = pwd } ∷ [];
    user_id = suc t.user_id;
    result = some (pos (suc t.user_id));
  }

  -- CALL reg_user; in a call that is broken a statement raises an SQLEXCEPTION, and the exit handler
  -- rolls the transaction back.
  unfoldable pub reg_user_procedure : Bool → Text → Text → Text → Tables → Tables
  unfolding has_name has_email
  reg_user_procedure broken name email pwd t =
      if broken
      then with_result (negsuc 0) t
      else if has_name name t.users || has_email email t.users
      then with_result (pos 0) t
      else add_user name email pwd t

  -- SELECT … FROM user WHERE email = ?, its first row.
  unfoldable pub user_of_email : Text → List User → Option User
  user_of_email email [] = none
  user_of_email email (user ∷ users) =
      let rest = user_of_email email users in if same user.email email then some user else rest
