-- ===== src/Gate/Routes/Authority.antt =====
-- Who may change the accounts through the GateServer.
use xiguchat.Prelude.{
  ◌≡◌, refl, sym, ◌∙◌, ap, ◌⊎◌, inl, inr, Bool, true, false, Option, none, some, List, ◌++◌,
  Bool-cases, Option-cases, ◌&&◌, arith,
}
use xiguchat.Prelude.Text.{Text, codes, text_eq, text_eq→eq}
use xiguchat.Prelude.Int.{ℤ}
use xiguchat.Chat.Json.{Json}
use xiguchat.Chat.World.{Doc}
use xiguchat.Chat.Redis.{string_of}
use xiguchat.Status.{GetChatServerRsp}
use xiguchat.Gate.Protocol.{code_prefix}
use xiguchat.Gate.Outside.{Outside, UserRow}
use xiguchat.Gate.Store.{AccountView, Keeps, IsFaithful}
use xiguchat.Gate.Dao.{check_email, update_pwd, check_pwd, reg_user}
use xiguchat.Gate.Dao.Keeps.{
  check_email-Keeps, check_pwd-Keeps, check_email-true, update_pwd-nobody, update_pwd-others,
  reg_user-existing,
}
use xiguchat.Gate.Accounts.{
  verifycode_keys, register_keys, reset_keys, login_keys, verifycode_from, register_from,
  reset_from, login_from, code_error, get_string, check_code, field, has_strings, request_of,
  with_request, get_verifycode, registered, register_checked, register_account, user_register,
  reset_done, reset_matched, reset_checked, reset_account, reset_pwd, login_checked, login_account,
  user_login,
}
use xiguchat.Gate.Routes.{
  Method, get, post, other, Request, post_handlers, handle_post, handle_method, handle_req,
}

code_error-none :
    (stored : Option Text) (code : Text) → code_error stored code ≡ none → stored ≡ some code
code_error-none none code h = cc
code_error-none (some c) code h = elim (Bool-cases (text_eq c code)) [
  | inl same ↦ ap some (text_eq→eq c code same)
  | inr differ ↦ ground (arith, differ, h)
]

module _ {o : Outside} {v : AccountView o} (f : IsFaithful o v) where
  open o use {State}
  open v use {accounts, email_of, account_of, code_of}

  check_code-accounts :
      (email code : Text) (s : State) → accounts (check_code o email code s).1 ≡ accounts s
  unfolding check_code get_string
  check_code-accounts email code s = elim (Bool-cases (o.redis_open s)) [
    | inl up ↦ rw up ((f.get (code_prefix ++ email)).run s)
    | inr down ↦ rw down refl
  ]

  -- A code that passes is the one of the email.
  pub check_code-none :
      (email code : Text) (s : State)
      → (check_code o email code s).0 ≡ none
      → code_of s email ≡ some code
  unfolding check_code get_string
  check_code-none email code s h = elim (Bool-cases (o.redis_open s)) [
    | inl up ↦
        let reply = string_of (o.get (code_prefix ++ email) s).0 in
        let passed : code_error reply code ≡ none = ground (arith, up, h) in
        f.code email code s (code_error-none reply code passed)
    | inr down ↦ ground (arith, down, h)
  ]

  registered-accounts :
      (email name : Text) (r : ℤ × State) → accounts (registered o email name r).1 ≡ accounts r.1
  unfolding registered
  registered-accounts email name (uid, s) = ground arith

  -- Every account of a state is there in another one, as it is.
  abbrev pub Extends : State → State → Type 0
  Extends s s' =
      (named : Text) (a : v.Account)
      → account_of (accounts s) named ≡ some a
      → account_of (accounts s') named ≡ some a

  -- Every account but that of a name is in another state what it is in a state.
  abbrev pub IsOnly : Text → State → State → Type 0
  IsOnly name s s' =
      (named : Text)
      → v.same name named ≡ false
      → account_of (accounts s') named ≡ account_of (accounts s) named

  -- A registration changes the accounts only with the code of its email and equal passwords, and no
  -- account that there is.
  pub register_account-accounts :
      (email name pwd confirm code : Text) (s : State)
      → (accounts (register_account o email name pwd confirm code s).1 ≡ accounts s)
        ⊎ ((code_of s email ≡ some code)
            × (pwd ≡ confirm)
            × Extends s (register_account o email name pwd confirm code s).1)
  unfolding register_account register_checked
  register_account-accounts email name pwd confirm code s =
      elim (Bool-cases (text_eq pwd confirm)) [
        | inr differ ↦ inl (rw differ refl)
        | inl same ↦ elim (Option-cases (check_code o email code s).0) [
          | inl passed ↦ inr (
            check_code-none email code s passed,
            text_eq→eq pwd confirm same,
            λ named a there.
                let s1 = (check_code o email code s).1 in
                let kept : account_of (accounts s1) named ≡ some a =
                  ap (λ (t : v.Table). account_of t named) (check_code-accounts email code s)
                  ∙ there in
                rw (same, register_checked, passed)
                  (ap (λ (t : v.Table). account_of t named)
                      (registered-accounts email name (reg_user o name email pwd s1))
                    ∙ reg_user-existing f name email pwd named s1 a kept),
          )
          | inr (error, e) ↦ inl (rw (same, register_checked, e) (check_code-accounts email code s))
        ]
      ]

  reset_done-accounts :
      (email name : Text) (r : Bool × State) → accounts (reset_done o email name r).1 ≡ accounts r.1
  unfolding reset_done
  reset_done-accounts email name (true, s) = refl
  reset_done-accounts email name (false, s) = refl

  -- A reset changes the accounts only with the code of its email, for a name with this email, and
  -- only the account of this name.
  pub reset_account-accounts :
      (email name pwd code : Text) (s : State)
      → (accounts (reset_account o email name pwd code s).1 ≡ accounts s)
        ⊎ ((code_of s email ≡ some code)
            × (email_of (accounts s) name ≡ some email)
            × IsOnly name s (reset_account o email name pwd code s).1)
  unfolding reset_account reset_checked reset_matched
  reset_account-accounts email name pwd code s =
      let s1 = (check_code o email code s).1 in
      let same1 = check_code-accounts email code s in
      let s2 = (check_email o name email s1).1 in
      let same2 : accounts s2 ≡ accounts s = (check_email-Keeps f name email).run s1 ∙ same1 in
      elim (Option-cases (check_code o email code s).0) [
        | inr (error, e) ↦ inl (rw (reset_checked, e) same1)
        | inl passed ↦ elim (Bool-cases (check_email o name email s1).0) [
          | inr differs ↦ inl (rw (reset_checked, passed) (rw (reset_matched, differs) same2))
          | inl matches ↦ elim (check_email-true f name email s1 matches) [
            | inr present ↦ inr (
              check_code-none email code s passed,
              ap (λ t. email_of t name) (sym same1) ∙ present,
              λ named apart.
                  rw (reset_checked, passed)
                    (rw (reset_matched, matches)
                      (ap (λ (t : v.Table). account_of t named)
                          (reset_done-accounts email name (update_pwd o name pwd s2))
                        ∙ update_pwd-others f name pwd named s2 apart
                        ∙ ap (λ (t : v.Table). account_of t named) same2)),
            )
            | inl absent ↦
                let nobody : email_of (accounts s2) name ≡ none =
                  ap (λ t. email_of t name) (same2 ∙ sym same1) ∙ absent in
                inl (
                  rw (reset_checked, passed)
                    (rw (reset_matched, matches)
                      (reset_done-accounts email name (update_pwd o name pwd s2)
                        ∙ update_pwd-nobody f name pwd s2 nobody
                        ∙ same2)))
          ]
        ]
      ]

  with_request-accounts :
      (keys : List Text) (body : Text) (handler : Json.Value o.json → State → Doc × State)
      (P : State → Type 0) (s : State)
      → ((root : Json.Value o.json)
          → o.parse body ≡ some root
          → (accounts (handler root s).1 ≡ accounts s) ⊎ P (handler root s).1)
      → (accounts (with_request o (request_of o keys body) handler s).1 ≡ accounts s)
        ⊎ P (with_request o (request_of o keys body) handler s).1
  unfolding request_of
  with_request-accounts keys body handler P s h = elim (Option-cases (o.parse body)) [
    | inl broken ↦ inl (rw broken refl)
    | inr (root, e) ↦ elim (Bool-cases (Json.is_object o.json root && has_strings o root keys)) [
      | inl good ↦ rw (e, good) (h root e)
      | inr bad ↦ inl (rw (e, bad) refl)
    ]
  ]

  -- A request that may change the accounts from a state to another: a registration that says its
  -- password twice, and changes no account that there is; or a reset for a name that has the email of
  -- the request, which changes the account of this name only; each with the code that Redis has for
  -- this email.
  pub data Authorised (request : Request) (s s' : State) : Type 0 where
    registers :
        (root : Json.Value o.json)
        → request.target ≡ codes "/user_register"
        → o.parse request.body ≡ some root
        → code_of s (field o root (codes "email")) ≡ some (field o root (codes "verifycode"))
        → field o root (codes "passwd") ≡ field o root (codes "confirm")
        → Extends s s'
        → Authorised request s s'
    resets :
        (root : Json.Value o.json)
        → request.target ≡ codes "/reset_pwd"
        → o.parse request.body ≡ some root
        → code_of s (field o root (codes "email")) ≡ some (field o root (codes "verifycode"))
        → email_of (accounts s) (field o root (codes "user")) ≡ some (field o root (codes "email"))
        → IsOnly (field o root (codes "user")) s s'
        → Authorised request s s'

  abbrev Or : Request → State → State → Type 0
  Or request s s' = (accounts s' ≡ accounts s) ⊎ Authorised request s s'

  user_register-Authorised :
      (request : Request) (s : State)
      → request.target ≡ codes "/user_register"
      → Or request s (user_register o request.body s).1
  unfolding user_register
  user_register-Authorised request s path =
      with_request-accounts register_keys request.body (register_from o) (Authorised request s) s
        (λ root e.
          elim (register_account-accounts (field o root (codes "email"))
            (field o root (codes "user")) (field o root (codes "passwd"))
            (field o root (codes "confirm")) (field o root (codes "verifycode")) s) [
              | inl same ↦ inl same
              | inr (code, twice, kept) ↦ inr (registers root path e code twice kept)
            ])

  reset_pwd-Authorised :
      (request : Request) (s : State)
      → request.target ≡ codes "/reset_pwd"
      → Or request s (reset_pwd o request.body s).1
  unfolding reset_pwd
  reset_pwd-Authorised request s path =
      with_request-accounts reset_keys request.body (reset_from o) (Authorised request s) s
        (λ root e.
          elim (reset_account-accounts (field o root (codes "email")) (field o root (codes "user"))
            (field o root (codes "passwd")) (field o root (codes "verifycode")) s) [
              | inl same ↦ inl same
              | inr (code, email, only) ↦ inr (resets root path e code email only)
            ])

  module _ (verify_rpc : Text → State → Option ℤ × State)
      (status_rpc : ℤ → State → Option GetChatServerRsp × State)
      (verify_Keeps : (email : Text) → Keeps o v (verify_rpc email))
      (status_Keeps : (uid : ℤ) → Keeps o v (status_rpc uid)) where
    login_checked-accounts :
        (email : Text) (r : (Bool × Option UserRow) × State)
        → accounts (login_checked o status_rpc email r).1 ≡ accounts r.1
    unfolding login_checked
    login_checked-accounts email ((true, some row), s) = (status_Keeps row.uid).run s
    login_checked-accounts email ((true, none), s) = refl
    login_checked-accounts email ((false, some row), s) = refl
    login_checked-accounts email ((false, none), s) = refl

    user_login-accounts :
        (body : Text) (s : State) {P : Type 0}
        → (accounts (user_login o status_rpc body s).1 ≡ accounts s) ⊎ P
    unfolding user_login login_account
    user_login-accounts body s {P} =
        with_request-accounts login_keys body (login_from o status_rpc) (λ _. P) s
          (λ root e.
            let email = field o root (codes "email") in
            let pwd = field o root (codes "passwd") in
            inl (
              login_checked-accounts email (check_pwd o email pwd s)
              ∙ (check_pwd-Keeps f email pwd).run s))

    get_verifycode-accounts :
        (body : Text) (s : State) {P : Type 0}
        → (accounts (get_verifycode o verify_rpc body s).1 ≡ accounts s) ⊎ P
    unfolding get_verifycode
    get_verifycode-accounts body s {P} =
        with_request-accounts verifycode_keys body (verifycode_from o verify_rpc) (λ _. P) s
          (λ root e. inl ((verify_Keeps (field o root (codes "email"))).run s))

    handle_post-Authorised :
        (request : Request) (s : State)
        → Or request s
            (handle_post o verify_rpc status_rpc
              (post_handlers o verify_rpc status_rpc request.target)
              request.body
              s).1
    unfolding post_handlers
    handle_post-Authorised request s =
        elim (Bool-cases (text_eq request.target (codes "/get_verifycode"))) [
          | inl a ↦ rw a (get_verifycode-accounts request.body s)
          | inr a ↦ elim (Bool-cases (text_eq request.target (codes "/user_register"))) [
            | inl b ↦
                rw (a, b)
                  (user_register-Authorised request s
                    (text_eq→eq request.target (codes "/user_register") b))
            | inr b ↦ elim (Bool-cases (text_eq request.target (codes "/reset_pwd"))) [
              | inl c ↦
                  rw (a, b, c)
                    (reset_pwd-Authorised request s
                      (text_eq→eq request.target (codes "/reset_pwd") c))
              | inr c ↦ elim (Bool-cases (text_eq request.target (codes "/user_login"))) [
                | inl d ↦ rw (a, b, c, d) (user_login-accounts request.body s)
                | inr d ↦ rw (a, b, c, d) (inl refl)
              ]
            ]
          ]
        ]

    handle_method-Authorised :
        (method : Method) (request : Request) (s : State)
        → Or request s
            (handle_method o verify_rpc status_rpc method request.target request.body s).1
    handle_method-Authorised get request s = inl refl
    handle_method-Authorised post request s = handle_post-Authorised request s
    handle_method-Authorised other request s = inl refl

    -- Whatever HTTP request the GateServer handles, the accounts stay as they are, or the request is
    -- authorised: it is a registration that says its password twice, or a reset of the password of a
    -- name that has the email of the request, and in both cases it has the code that Redis has for
    -- its email. The registration leaves every account that there is as it is, and the reset every
    -- account but that of the name, as reg_user and UPDATE are documented to.
    pub handle_req-Authorised :
        (request : Request) (s : State)
        → (accounts (handle_req o verify_rpc status_rpc request s).1 ≡ accounts s)
          ⊎ Authorised request s (handle_req o verify_rpc status_rpc request s).1
    unfolding handle_req
    handle_req-Authorised request s = handle_method-Authorised request.method request s
