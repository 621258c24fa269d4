-- ===== src/Gate/Store.antt =====
-- What the GateServer's accounts are, beside the code: the contents of the table user and the codes in
-- Redis, and which of the operations outside may change them.
use xiguchat.Prelude.{◌≡◌, Bool, false, Option, none, some}
use xiguchat.Prelude.Text.{Text}
use xiguchat.Prelude.{◌++◌}
use xiguchat.Chat.Redis.{string_of}
use xiguchat.Gate.Protocol.{code_prefix}
use xiguchat.Gate.Outside.{Outside}

-- A table of accounts with the email and the account of a name, the code of an email, and the
-- comparison of two names.
pub record AccountView (o : Outside) : Type 1 where
  pub Table : Type 0
  pub accounts : Outside.State o → Table
  pub email_of : Table → Text → Option Text
  pub Account : Type 0
  pub account_of : Table → Text → Option Account
  pub same : Text → Text → Bool
  pub code_of : Outside.State o → Text → Option Text

module _ (o : Outside) where
  open o use {State}

  -- An operation that leaves the accounts alone.
  pub record Keeps (v : AccountView o) {A : Type 0} (m : State → A × State) : Type 0 where
    pub run : (s : State) → AccountView.accounts v (m s).1 ≡ AccountView.accounts v s

  -- What is documented of the operations: only CALL reg_user and UPDATE change the accounts, the
  -- latter no account but that of the name, and reg_user no account that there is; GET reads the code of an email, SELECT the email of a
  -- name.
  pub record IsFaithful (v : AccountView o) : Type 0 where
    pub get : (key : Text) → Keeps v (o.get key)
    pub get_connection : Keeps v o.get_connection
    pub return_connection :
        (healthy : Bool) (s : State) → v.accounts (o.return_connection healthy s) ≡ v.accounts s
    pub pwhash_str : (pwd : Text) → Keeps v (o.pwhash_str pwd)
    pub select_email : (name : Text) → Keeps v (o.select_email name)
    pub select_login : (email : Text) → Keeps v (o.select_login email)
    pub update_nobody :
        (pwd name : Text) (s : State)
        → v.email_of (v.accounts s) name ≡ none
        → v.accounts (o.update_user pwd name s).1 ≡ v.accounts s
    pub update_others :
        (pwd name named : Text) (s : State)
        → v.same name named ≡ false
        → v.account_of (v.accounts (o.update_user pwd name s).1) named
          ≡ v.account_of (v.accounts s) named
    pub reg_others :
        (name email pwd named : Text) (s : State) (a : v.Account)
        → v.account_of (v.accounts s) named ≡ some a
        → v.account_of (v.accounts (o.call_reg_user name email pwd s).1) named ≡ some a
    pub select_result : Keeps v o.select_result
    pub code :
        (email code : Text) (s : State)
        → string_of (o.get (code_prefix ++ email) s).0 ≡ some code
        → v.code_of s email ≡ some code
    pub email :
        (name : Text) (row : Option Text) (s : State)
        → (o.select_email name s).0 ≡ some row
        → row ≡ v.email_of (v.accounts s) name
