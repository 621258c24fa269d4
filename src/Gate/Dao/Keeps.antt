-- ===== src/Gate/Dao/Keeps.antt =====
-- What the methods of the GateServer's MysqlDao leave of the accounts as it is.
use xiguchat.Prelude.{
  ◌≡◌, refl, sym, ◌∙◌, ap, subst, false, ◌⊎◌, inl, inr, true, false, Option, none, some, Bool-cases,
  Option-cases, arith,
}
use xiguchat.Prelude.Text.{Text, text_eq→eq, is_empty}
use xiguchat.Prelude.Int.{negsuc}
use xiguchat.Chat.Database.{Query}
use xiguchat.Chat.Dao.{give, ◌>>=◌}
use xiguchat.Gate.Outside.{Outside}
use xiguchat.Gate.Store.{AccountView, Keeps, IsFaithful}
use xiguchat.Gate.Dao.{
  hash, hash_text, matches_row, handed_back, on_connection, store_pwd, hash_and_store, check_email,
  update_pwd, check_pwd, verified, reg_user, insert_user, hash_and_insert,
}

module _ {o : Outside} {v : AccountView o} (f : IsFaithful o v) where
  open o use {State}
  open v use {accounts, email_of, account_of}

  handed_back-accounts :
      {A : Type 0} (failed : A) (r : Option A × State)
      → accounts (handed_back o failed r).1 ≡ accounts r.1
  unfolding handed_back
  handed_back-accounts failed (none, s) = f.return_connection false s
  handed_back-accounts failed (some a, s) = f.return_connection true s

  -- A method leaves the accounts alone if its body does where it runs.
  on_connection-accounts :
      {A : Type 0} (failed : A) (body : Query State A) (s : State)
      → accounts (body (o.get_connection s).1).1 ≡ accounts s
      → accounts (on_connection o failed body s).1 ≡ accounts s
  unfolding on_connection
  on_connection-accounts failed body s quiet = elim (Bool-cases (o.get_connection s).0) [
    | inl got ↦ rw got (handed_back-accounts failed (body (o.get_connection s).1) ∙ quiet)
    | inr closed ↦ rw closed (f.get_connection.run s)
  ]

  bind_give :
      {A B : Type 0} (m : Query State A) (g : A → B)
      → Keeps o v m
      → Keeps o v (m >>= λ a. give (g a))
  bind_give m g k = record {
    run = λ s. elim (Option-cases (m s).0) [
      | inl e ↦ rw (◌>>=◌, e) (k.run s)
      | inr (a, e) ↦ rw (◌>>=◌, e) (k.run s)
    ];
  }

  pub check_email-Keeps : (name email : Text) → Keeps o v (check_email o name email)
  unfolding check_email
  check_email-Keeps name email =
      let body = bind_give (o.select_email name) (matches_row email) (f.select_email name) in
      record {
        run = λ s.
            on_connection-accounts false
              (o.select_email name >>= λ row. give (matches_row email row)) s
              (body.run (o.get_connection s).1 ∙ f.get_connection.run s);
      }

  pub check_pwd-Keeps : (email pwd : Text) → Keeps o v (check_pwd o email pwd)
  unfolding check_pwd
  check_pwd-Keeps email pwd =
      let body = bind_give (o.select_login email) (verified o pwd) (f.select_login email) in
      record {
        run = λ s.
            on_connection-accounts (false, none)
              (o.select_login email >>= λ row. give (verified o pwd row)) s
              (body.run (o.get_connection s).1 ∙ f.get_connection.run s);
      }

  matches_row-true :
      (email : Text) (row : Option Text)
      → matches_row email row ≡ true
      → (row ≡ none) ⊎ (row ≡ some email)
  matches_row-true email none h = inl refl
  matches_row-true email (some e) h = inr (ap some (sym (text_eq→eq email e h)))

  -- CheckEmail passes only a name that has the email, or that nobody has.
  pub check_email-true :
      (name email : Text) (s : State)
      → (check_email o name email s).0 ≡ true
      → (email_of (accounts s) name ≡ none) ⊎ (email_of (accounts s) name ≡ some email)
  unfolding check_email on_connection handed_back
  check_email-true name email s h = elim (Bool-cases (o.get_connection s).0) [
    | inr closed ↦ ground (arith, closed, h)
    | inl got ↦
        let s' = (o.get_connection s).1 in
        let same = f.get_connection.run s in
        elim (Option-cases (o.select_email name s').0) [
          | inl threw ↦ ground (arith, got, threw, h)
          | inr (row, e) ↦
              let matched : matches_row email row ≡ true = ground (arith, got, e, h) in
              let found : row ≡ email_of (accounts s) name =
                f.email name row s' e ∙ ap (λ t. email_of t name) same in
              elim (matches_row-true email row matched) [
                | inl absent ↦ inl (sym found ∙ absent)
                | inr present ↦ inr (sym found ∙ present)
              ]
        ]
  ]

  store_pwd-nobody :
      (name stored : Text) (s : State)
      → email_of (accounts s) name ≡ none
      → accounts (store_pwd o name stored s).1 ≡ accounts s
  unfolding store_pwd
  store_pwd-nobody name stored s absent = elim (Bool-cases (is_empty stored)) [
    | inl failed ↦ rw failed refl
    | inr hashed ↦ rw hashed (elim (Option-cases (o.update_user stored name s).0) [
      | inl e ↦ rw (◌>>=◌, e) (f.update_nobody stored name s absent)
      | inr (a, e) ↦ rw (◌>>=◌, e) (f.update_nobody stored name s absent)
    ])
  ]

  -- UpdatePwd of a name that nobody has changes no account.
  pub update_pwd-nobody :
      (name newpwd : Text) (s : State)
      → email_of (accounts s) name ≡ none
      → accounts (update_pwd o name newpwd s).1 ≡ accounts s
  unfolding update_pwd hash_and_store hash
  update_pwd-nobody name newpwd s absent =
      let s1 = (o.get_connection s).1 in
      let s2 = (o.pwhash_str newpwd s1).1 in
      let same : accounts s2 ≡ accounts s = (f.pwhash_str newpwd).run s1 ∙ f.get_connection.run s in
      on_connection-accounts false (hash_and_store o name newpwd) s (
        store_pwd-nobody name (hash_text (o.pwhash_str newpwd s1).0) s2
          (ap (λ t. email_of t name) same ∙ absent)
        ∙ same)

  -- What holds of the accounts before a method and after its body holds after it.
  on_connection-holds :
      {A : Type 0} (P : v.Table → Type 0) (failed : A) (body : Query State A) (s : State)
      → P (accounts s)
      → P (accounts (body (o.get_connection s).1).1)
      → P (accounts (on_connection o failed body s).1)
  unfolding on_connection
  on_connection-holds P failed body s was ran = elim (Bool-cases (o.get_connection s).0) [
    | inl got ↦
        rw got (subst P (sym (handed_back-accounts failed (body (o.get_connection s).1))) ran)
    | inr closed ↦ rw closed (subst P (sym (f.get_connection.run s)) was)
  ]

  store_pwd-others :
      (name stored named : Text) (s : State)
      → v.same name named ≡ false
      → account_of (accounts (store_pwd o name stored s).1) named ≡ account_of (accounts s) named
  unfolding store_pwd
  store_pwd-others name stored named s apart = elim (Bool-cases (is_empty stored)) [
    | inl failed ↦ rw failed refl
    | inr hashed ↦ rw hashed (elim (Option-cases (o.update_user stored name s).0) [
      | inl e ↦ rw (◌>>=◌, e) (f.update_others stored name named s apart)
      | inr (a, e) ↦ rw (◌>>=◌, e) (f.update_others stored name named s apart)
    ])
  ]

  -- UpdatePwd leaves the account of every other name as it is.
  pub update_pwd-others :
      (name newpwd named : Text) (s : State)
      → v.same name named ≡ false
      → account_of (accounts (update_pwd o name newpwd s).1) named ≡ account_of (accounts s) named
  unfolding update_pwd hash_and_store hash
  update_pwd-others name newpwd named s apart =
      let s1 = (o.get_connection s).1 in
      let s2 = (o.pwhash_str newpwd s1).1 in
      let before : accounts s2 ≡ accounts s =
        (f.pwhash_str newpwd).run s1 ∙ f.get_connection.run s in
      on_connection-holds (λ (t : v.Table). account_of t named ≡ account_of (accounts s) named)
        false (hash_and_store o name newpwd) s refl
        (store_pwd-others name (hash_text (o.pwhash_str newpwd s1).0) named s2 apart
          ∙ ap (λ (t : v.Table). account_of t named) before)

  insert_user-existing :
      (name email stored named : Text) (s : State) (a : v.Account)
      → account_of (accounts s) named ≡ some a
      → account_of (accounts (insert_user o name email stored s).1) named ≡ some a
  unfolding insert_user
  insert_user-existing name email stored named s a there = elim (Bool-cases (is_empty stored)) [
    | inl failed ↦ rw failed there
    | inr hashed ↦
        let s' = (o.call_reg_user name email stored s).1 in
        let kept = f.reg_others name email stored named s a there in
        let read : account_of (accounts (o.select_result s').1) named ≡ some a =
          ap (λ (t : v.Table). account_of t named) (f.select_result.run s') ∙ kept in
        elim (Option-cases (o.call_reg_user name email stored s).0) [
          | inl threw ↦ rw (hashed, ◌>>=◌, threw) kept
          | inr (done, called) ↦ elim (Option-cases (o.select_result s').0) [
            | inl threw ↦ rw hashed (rw (◌>>=◌, called) (rw (◌>>=◌, threw) read))
            | inr (row, e) ↦ rw hashed (rw (◌>>=◌, called) (rw (◌>>=◌, e) read))
          ]
        ]
  ]

  -- RegUser leaves every account that there is as it is.
  pub reg_user-existing :
      (name email pwd named : Text) (s : State) (a : v.Account)
      → account_of (accounts s) named ≡ some a
      → account_of (accounts (reg_user o name email pwd s).1) named ≡ some a
  unfolding reg_user hash_and_insert hash
  reg_user-existing name email pwd named s a there =
      let s1 = (o.get_connection s).1 in
      let s2 = (o.pwhash_str pwd s1).1 in
      let before : accounts s2 ≡ accounts s = (f.pwhash_str pwd).run s1 ∙ f.get_connection.run s in
      on_connection-holds (λ (t : v.Table). account_of t named ≡ some a) (negsuc 0)
        (hash_and_insert o name email pwd) s there
        (insert_user-existing name email (hash_text (o.pwhash_str pwd s1).0) named s2 a
          (ap (λ (t : v.Table). account_of t named) before ∙ there))
