-- ===== src/Gate/Dao.antt =====
-- server/services/GateServer/: src/MysqlDao.cpp and src/PasswordHash.cpp, the accounts in MySQL. A
-- method is a function of the state outside; what another thread does between two statements is not
-- modelled.
pub mod Keeps
use xiguchat.Prelude.{Bool, true, false, Option, none, some, List, [], if◌then◌else◌}
use xiguchat.Prelude.Text.{Text, text_eq, is_empty}
use xiguchat.Prelude.Int.{ℤ, negsuc}
use xiguchat.Chat.Database.{Query}
use xiguchat.Chat.Dao.{give, ◌>>=◌, ◌>>◌}
use xiguchat.Gate.Outside.{Outside, UserRow}

-- PasswordHash::Hash: an empty text where libsodium fails.
abbrev pub hash_text : Option Text → Text
hash_text none = []
hash_text (some out) = out

abbrev pub result_or_failed : Option ℤ → ℤ
result_or_failed none = negsuc 0
result_or_failed (some result) = result

-- The first row decides; a name that nobody has passes.
abbrev pub matches_row : Text → Option Text → Bool
matches_row email none = true
matches_row email (some email_in_db) = text_eq email email_in_db

module _ (o : Outside) where
  open o use {
    State, get_connection, return_connection, call_reg_user, select_result, select_email,
    update_user, select_login, pwhash_str, pwhash_str_verify,
  }

  -- The connection goes back, as not healthy if the body threw.
  unfoldable pub handed_back : {A : Type 0} → A → Option A × State → A × State
  handed_back failed (none, s) = (failed, return_connection false s)
  handed_back failed (some a, s) = (a, return_connection true s)

  -- A connection, the body under try, and the connection back.
  unfoldable pub on_connection : {A : Type 0} → A → Query State A → State → A × State
  unfolding handed_back
  on_connection failed body s =
      let (got, s') = get_connection s in if got then handed_back failed (body s') else (failed, s')

  unfoldable pub hash : Text → State → Text × State
  hash plain s = let (out, s') = pwhash_str plain s in (hash_text out, s')

  -- RegUser behind the connection, with the hash of the password.
  unfoldable pub insert_user : Text → Text → Text → Query State ℤ
  insert_user name email stored_pwd = if is_empty stored_pwd then give (negsuc 0) else (do
    call_reg_user name email stored_pwd
    row ← select_result
    give (result_or_failed row))

  unfoldable pub hash_and_insert : Text → Text → Text → Query State ℤ
  unfolding hash insert_user
  hash_and_insert name email pwd s =
      let (stored_pwd, s') = hash pwd s in insert_user name email stored_pwd s'

  unfoldable pub reg_user : Text → Text → Text → State → ℤ × State
  unfolding on_connection hash_and_insert
  reg_user name email pwd = on_connection (negsuc 0) (hash_and_insert name email pwd)

  unfoldable pub check_email : Text → Text → State → Bool × State
  unfolding on_connection
  check_email name email =
      on_connection false (do row ← select_email name; give (matches_row email row))

  unfoldable pub store_pwd : Text → Text → Query State Bool
  store_pwd name stored_pwd =
      if is_empty stored_pwd then give false else (do update_user stored_pwd name; give true)

  unfoldable pub hash_and_store : Text → Text → Query State Bool
  unfolding hash store_pwd
  hash_and_store name newpwd s =
      let (stored_pwd, s') = hash newpwd s in store_pwd name stored_pwd s'

  unfoldable pub update_pwd : Text → Text → State → Bool × State
  unfolding on_connection hash_and_store
  update_pwd name newpwd = on_connection false (hash_and_store name newpwd)

  -- PasswordHash::Verify of the row's password.
  abbrev pub verified : Text → Option UserRow → Bool × Option UserRow
  verified pwd none = (false, none)
  verified pwd (some row) = (pwhash_str_verify row.pwd pwd, some row)

  -- The row is what the method writes to userInfo.
  unfoldable pub check_pwd : Text → Text → State → (Bool × Option UserRow) × State
  unfolding on_connection
  check_pwd email pwd =
      on_connection (false, none) (do row ← select_login email; give (verified pwd row))
