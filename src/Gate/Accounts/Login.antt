-- ===== src/Gate/Accounts/Login.antt =====
-- Whom the GateServer lets in: a login against the row that MySQL has for its email, and the account
-- that a registration has made.
use xiguchat.Prelude.{
  ◌≡◌, refl, sym, ap, subst, ◌⊎◌, Bool, true, false, Option, none, some, List, inl, inr, Bool-cases,
  Option-cases, arith,
}
use xiguchat.Prelude.Text.{Text}
use xiguchat.Prelude.Int.{ℤ}
use xiguchat.Chat.World.{Doc}
use xiguchat.Chat.Dao.{◌>>=◌}
use xiguchat.Status.{
  GetChatServerRsp, StatusError, success, rpc_failed, token_invalid, uid_invalid, Redis, ChatServer,
  get_chat_server_rpc, login_rpc,
}
use xiguchat.Status.Token.{KeepsValues, get_chat_server-login}
use xiguchat.Gate.Protocol.{GateError, passwd_invalid}
use xiguchat.Gate.Outside.{Outside, UserRow}
use xiguchat.Gate.Dao.{handed_back, on_connection, check_pwd}
use xiguchat.Gate.Accounts.{error_doc, login_doc, routed_doc, login_checked, login_account}

module _ (o : Outside) where
  open o use {State}

  -- What CheckPwd takes for right: a connection, a row for the email, and the hash of the row fits.
  pub record IsMember (email pwd : Text) (row : UserRow) (s : State) : Type 0 where
    pub connected : (o.get_connection s).0 ≡ true
    pub selected : (o.select_login email (o.get_connection s).1).0 ≡ some (some row)
    pub fits : o.pwhash_str_verify row.pwd pwd ≡ true

  pub check_pwd-IsMember :
      (email pwd : Text) (row : UserRow) (s : State)
      → IsMember email pwd row s
      → (check_pwd o email pwd s).0 ≡ (true, some row)
  unfolding check_pwd on_connection handed_back
  check_pwd-IsMember email pwd row s m =
      rw (m.connected) (rw (◌>>=◌, m.selected) (rw (m.fits) refl))

  -- The other way round: who passes is a member.
  pub check_pwd-true :
      (email pwd : Text) (s : State)
      → (check_pwd o email pwd s).0.0 ≡ true
      → (row : UserRow) × ((check_pwd o email pwd s).0 ≡ (true, some row))
        × IsMember email pwd row s
  unfolding check_pwd on_connection handed_back
  check_pwd-true email pwd s h = elim (Bool-cases (o.get_connection s).0) [
    | inr closed ↦ ground (arith, closed, h)
    | inl got ↦
        let s' = (o.get_connection s).1 in
        elim (Option-cases (o.select_login email s').0) [
          | inl threw ↦ ground (arith, got, threw, h)
          | inr (none, e) ↦ ground (arith, got, e, h)
          | inr (some row, e) ↦
              let fits : o.pwhash_str_verify row.pwd pwd ≡ true = ground (arith, got, e, h) in
              let m : IsMember email pwd row s = record {
                connected = got;
                selected = e;
                fits = fits;
              } in
              (row, check_pwd-IsMember email pwd row s m, m)
        ]
  ]

  success-cases :
      (error : StatusError)
      → (error ≡ success)
        ⊎ ((email : Text) (uid : ℤ) (reply : GetChatServerRsp)
            → routed_doc email uid error reply ≡ error_doc GateError.rpc_failed)
  success-cases success = inl refl
  success-cases rpc_failed = inr (λ email uid reply. refl)
  success-cases token_invalid = inr (λ email uid reply. refl)
  success-cases uid_invalid = inr (λ email uid reply. refl)

  login_checked-refused :
      (status_rpc : ℤ → State → Option GetChatServerRsp × State) (email : Text)
      (r : (Bool × Option UserRow) × State)
      → r.0.0 ≡ false
      → (login_checked o status_rpc email r).0 ≡ error_doc passwd_invalid
  unfolding login_checked
  login_checked-refused status_rpc email ((true, row), s) h = cc
  login_checked-refused status_rpc email ((false, some row), s) h = refl
  login_checked-refused status_rpc email ((false, none), s) h = refl

  -- With the StatusServer over a Redis in the same state.
  module _ (hget : Text → Text → State → Text) (get : Text → State → Option Text)
      (set : Text → Text → State → Bool × State) (new_uuid : State → Text × State)
      (servers : List ChatServer) where
    abbrev pub shared : Redis
    shared = record { State = State; hget = hget; get = get; set = set; new_uuid = new_uuid }

    -- The call of StatusGrpcClient::GetChatServer, which arrives.
    abbrev pub status_call : ℤ → State → Option GetChatServerRsp × State
    status_call uid s =
        let (reply, s') = get_chat_server_rpc shared servers uid s in (some reply, s')

    -- How a login ends.
    pub data Ends (email pwd : Text) (s : State) : Doc × State → Type 0 where
      refused :
          (end : Doc × State)
          → end.0 ≡ error_doc passwd_invalid
          → ((row : UserRow) → ¬ (IsMember email pwd row s))
          → Ends email pwd s end
      unrouted :
          (end : Doc × State) (row : UserRow)
          → IsMember email pwd row s
          → end.0 ≡ error_doc GateError.rpc_failed
          → Ends email pwd s end
      routed :
          (end : Doc × State) (row : UserRow) (reply : GetChatServerRsp)
          → IsMember email pwd row s
          → end.0 ≡ login_doc email row.uid reply
          → login_rpc shared row.uid reply.token end.1
            ≡ record { error = success; uid = row.uid; token = reply.token }
          → Ends email pwd s end

    member-Ends :
        (email pwd : Text) (s s2 : State) (row : UserRow)
        → KeepsValues shared
        → IsMember email pwd row s
        → Ends email pwd s (login_checked o status_call email ((true, some row), s2))
    unfolding login_checked
    member-Ends email pwd s s2 row keeps m =
        let reply = (get_chat_server_rpc shared servers row.uid s2).0 in
        elim (success-cases reply.error) [
          | inl ok ↦
              routed _ row reply m (rw ok refl)
                (get_chat_server-login shared servers row.uid s2 keeps ok)
          | inr failed ↦ unrouted _ row m (failed email row.uid reply)
        ]

    -- A login by HTTP ends in one of three ways. It is refused for its password, and then MySQL gives
    -- no row for its email whose hash fits the password; or the hash of the row fits, and no chat
    -- server is found; or it fits, and the answer has the uid of the row and a token with which the
    -- StatusServer lets this uid in.
    pub login_account-Ends :
        (email pwd : Text) (s : State)
        → KeepsValues shared
        → Ends email pwd s (login_account o status_call email pwd s)
    unfolding login_account
    login_account-Ends email pwd s keeps = elim (Bool-cases (check_pwd o email pwd s).0.0) [
      | inl passed ↦
          let (row, e, m) = check_pwd-true email pwd s passed in
          let s2 = (check_pwd o email pwd s).1 in
          subst
            (λ (r : Bool × Option UserRow).
              Ends email pwd s (login_checked o status_call email (r, s2)))
            (sym e) (member-Ends email pwd s s2 row keeps m)
      | inr wrong ↦
          refused _ (login_checked-refused status_call email (check_pwd o email pwd s) wrong)
            (λ row m.
              let e =
                ap (λ (r : Bool × Option UserRow). r.0) (check_pwd-IsMember email pwd row s m) in
              cc)
    ]
