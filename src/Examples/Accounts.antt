-- ===== src/Examples/Accounts.antt =====
-- Runs of the GateServer's accounts and of the VerifyServer: a MySQL with the tables of xigu.sql, a
-- Redis that is an association list, and mails that are kept.
use xiguchat.Prelude.{
  ℕ, ◌≡◌, ◌∙◌, refl, sym, subst, suc, ap, ◌⊎◌, inl, inr, Bool, true, false, ◌||◌, Option, none,
  some, List, [], map, ◌∷◌, ◌++◌, Bool-cases, if◌then◌else◌, arith,
}
use mathlib.Core.Option
use xiguchat.Prelude.Text.{Text, codes, text_eq, text_eq_refl, text_eq→eq}
use xiguchat.Prelude.Int.{ℤ, pos}
use xiguchat.Chat.World.{string, status}
use xiguchat.Chat.Redis.{string_of}
use xiguchat.Status.{GetChatServerRsp, ChatServer}
use xiguchat.Status.Token.{KeepsValues}
use xiguchat.Gate.Protocol.{code_prefix}
use xiguchat.Gate.Outside.{Outside, UserRow}
use xiguchat.Gate.Store.{AccountView, IsFaithful}
use xiguchat.Gate.Table.{
  User, Tables, reg_user_procedure, with_result, add_user, has_name, has_email, user_of_email,
}
use xiguchat.Gate.Table.Unique.{IsUnique, IsTable, reg_user_procedure-IsTable, user_of_email-snoc}
use xiguchat.Gate.Accounts.{
  check_code, login_account, user_register, has_strings, register_account, get_string,
}
use xiguchat.Gate.Dao.{reg_user}
use xiguchat.Gate.Routes.{Request, post, handle_req}
use xiguchat.Gate.Routes.Authority.{Authorised, handle_req-Authorised}
use xiguchat.Verify.{VerifyCodes, mail_subject, mail_text, get_verify_code, save_code}
use xiguchat.Verify.Mailed.{IsMailing, get_verify_code-check_code}
use xiguchat.Gate.Accounts.Login.{IsMember, Ends, shared, status_call, login_account-Ends}
use xiguchat.Gate.Accounts.Registered.{KeepsUsers, is_failed, reg_user-IsMember}
use xiguchat.Examples.Values.{small_json, Value, members, words, no_members, member, lookup}

pub record Host : Type 0 where
  tables : Tables
  store : List (Text × Text)
  mails : List (Text × Text × Text)

abbrev row_of_user : User → UserRow
row_of_user user = record { uid = pos user.uid; name = user.name; pwd = user.pwd }

abbrev email_of_name : Text → List User → Option Text
email_of_name name [] = none
email_of_name name (user ∷ users) =
    let rest = email_of_name name users in if text_eq user.name name then some user.email else rest

abbrev account_of_name : Text → List User → Option User
account_of_name name [] = none
account_of_name name (user ∷ users) =
    let rest = account_of_name name users in if text_eq user.name name then some user else rest

abbrev with_pwd : Text → Text → List User → List User
with_pwd pwd name [] = []
with_pwd pwd name (user ∷ users) =
    let rest = with_pwd pwd name users in
    if text_eq user.name name then record user { pwd = pwd } ∷ rest else user ∷ rest

abbrev hashed : Text → Text
hashed pwd = b'$' ∷ pwd

-- {"email": "a@b", "user": "ann", "passwd": "pw", "confirm": "pw", "verifycode": "1f2e"}
abbrev register_root : Value
register_root = members (
    member (codes "email") (words (codes "a@b")) (
      member (codes "user") (words (codes "ann")) (
        member (codes "passwd") (words (codes "pw")) (
          member (codes "confirm") (words (codes "pw"))
            (member (codes "verifycode") (words (codes "1f2e")) no_members)))))

abbrev small_outside : Outside
small_outside = record {
  json = small_json;
  State = Host;
  parse = λ body. if text_eq body (codes "register") then some register_root else none;
  to_styled_string = λ doc. codes "{}";
  redis_open = λ s. true;
  get = λ key s. (some (lookup s.store key), s);
  set_ex = λ key seconds v s. (some (status (codes "OK")), record s { store = (key, v) ∷ s.store });
  get_connection = λ s. (true, s);
  return_connection = λ healthy s. s;
  call_reg_user = λ name email pwd s.
      (some tt, record s { tables = reg_user_procedure text_eq false name email pwd s.tables });
  select_result = λ s. (some s.tables.result, s);
  select_email = λ name s. (some (email_of_name name s.tables.users), s);
  update_user = λ pwd name s.
      (some tt, record s { tables = record s.tables { users = with_pwd pwd name s.tables.users } });
  select_login =
      λ email s. (some (Option.map row_of_user (user_of_email text_eq email s.tables.users)), s);
  pwhash_str = λ pwd s. (some (hashed pwd), s);
  pwhash_str_verify = λ stored pwd. text_eq stored (hashed pwd);
  new_uuid = λ s. (some (codes "1f2e-0000"), s);
  send_mail = λ to subject text s. (true, record s { mails = (to, subject, text) ∷ s.mails });
}

abbrev empty_host : Host
empty_host = record {
  tables = record { users = []; user_id = 1000; result = none };
  store = (codes "code_a@b", codes "1f2e") ∷ [];
  mails = [];
}

abbrev small_view : AccountView small_outside
small_view = record {
  Table = List User;
  accounts = λ s. s.tables.users;
  email_of = λ users name. email_of_name name users;
  Account = User;
  account_of = λ users name. account_of_name name users;
  same = text_eq;
  code_of = λ s email. string_of (some (lookup s.store (code_prefix ++ email)));
}

with_pwd-nobody :
    (pwd name : Text) (users : List User)
    → email_of_name name users ≡ none
    → with_pwd pwd name users ≡ users
with_pwd-nobody pwd name [] h = refl
with_pwd-nobody pwd name (user ∷ users) h = elim (Bool-cases (text_eq user.name name)) [
  | inl found ↦ ground (arith, found, h)
  | inr differs ↦
      let rest : email_of_name name users ≡ none = ground (arith, differs, h) in
      rw differs (ap (λ l. user ∷ l) (with_pwd-nobody pwd name users rest))
]

with_pwd-others :
    (pwd name named : Text) (users : List User)
    → text_eq name named ≡ false
    → account_of_name named (with_pwd pwd name users) ≡ account_of_name named users
with_pwd-others pwd name named [] apart = refl
with_pwd-others pwd name named (user ∷ users) apart = elim (Bool-cases (text_eq user.name name)) [
  | inl found ↦
      let other_name : text_eq user.name named ≡ false =
        ap (λ t. text_eq t named) (text_eq→eq user.name name found) ∙ apart in
      rw (found, other_name) (with_pwd-others pwd name named users apart)
  | inr differs ↦ rw differs (elim (Bool-cases (text_eq user.name named)) [
    | inl here ↦ rw here refl
    | inr away ↦ rw away (with_pwd-others pwd name named users apart)
  ])
]

account_of_name-snoc :
    (named : Text) (users : List User) (new a : User)
    → account_of_name named users ≡ some a
    → account_of_name named (users ++ new ∷ []) ≡ some a
account_of_name-snoc named [] new a h = ground (arith, h)
account_of_name-snoc named (user ∷ users) new a h = elim (Bool-cases (text_eq user.name named)) [
  | inl here ↦ rw here (rw here at h)
  | inr away ↦ rw away (account_of_name-snoc named users new a (rw away at h))
]

called-others :
    (name email pwd named : Text) (t : Tables) (a : User)
    → account_of_name named t.users ≡ some a
    → account_of_name named (reg_user_procedure text_eq false name email pwd t).users ≡ some a
unfolding reg_user_procedure
called-others name email pwd named t a h =
    elim (Bool-cases (has_name text_eq name t.users || has_email text_eq email t.users)) [
      | inl taken ↦ rw taken h
      | inr free ↦ rw free (
          account_of_name-snoc named t.users
            (record { uid = suc t.user_id; name = name; email = email; pwd = pwd }) a h)
    ]

small_outside-IsFaithful : IsFaithful small_outside small_view
small_outside-IsFaithful = record {
  get = λ key. record { run = λ s. refl };
  get_connection = record { run = λ s. refl };
  return_connection = λ healthy s. refl;
  pwhash_str = λ pwd. record { run = λ s. refl };
  select_email = λ name. record { run = λ s. refl };
  select_login = λ email. record { run = λ s. refl };
  update_nobody = λ pwd name s h. with_pwd-nobody pwd name s.tables.users h;
  update_others = λ pwd name named s apart. with_pwd-others pwd name named s.tables.users apart;
  reg_others = λ name email pwd named s a h. called-others name email pwd named s.tables a h;
  select_result = record { run = λ s. refl };
  code = λ email code s h. h;
  email = λ name row s h. cc h;
}

abbrev register_request : Request
register_request = record {
  method = post;
  target = codes "/user_register";
  body = codes "register";
}

abbrev no_call : ℤ → Host → Option GetChatServerRsp × Host
no_call uid s = (none, s)

abbrev no_mail : Text → Host → Option ℤ × Host
no_mail email s = (none, s)

handle_req-Authorised_example :
    ((handle_req small_outside no_mail no_call register_request empty_host).1.tables.users ≡ [])
    ⊎ Authorised small_outside-IsFaithful register_request empty_host
        (handle_req small_outside no_mail no_call register_request empty_host).1
handle_req-Authorised_example =
    handle_req-Authorised small_outside-IsFaithful no_mail no_call
      (λ email. record { run = λ s. refl }) (λ uid. record { run = λ s. refl }) register_request
      empty_host

-- The registration makes the account 1001.
registered_run :
    map
      (λ (user : User). user.uid)
      (handle_req small_outside no_mail no_call register_request empty_host).1.tables.users
    ≡ 1001 ∷ []
unfolding handle_req user_register has_strings reg_user reg_user_procedure text_eq register_account
registered_run = refl

text_lookup : (key v : Text) (store : List (Text × Text)) → lookup ((key, v) ∷ store) key ≡ string v
text_lookup key v store = rw (text_eq_refl key) refl

small_outside-IsMailing :
    IsMailing small_outside
      (λ s email. string_of (some (lookup s.store (code_prefix ++ email))))
      (λ s. s.mails)
small_outside-IsMailing = record {
  redis_open = λ s. refl;
  get = λ email s. refl;
  get_mails = λ key s. refl;
  get_codes = λ key email s. refl;
  new_uuid = λ s. refl;
  set_ex = λ email code s h.
      ap (λ r. string_of (some r)) (text_lookup (code_prefix ++ email) code s.store);
  set_ex_mails = λ key code s. refl;
  send_mail = λ to subject text s h. refl;
  send_mail_codes = λ to subject text email s. refl;
}

abbrev bob : Text
bob = codes "b@c"

bob_sent : (get_verify_code small_outside bob empty_host).0.error ≡ VerifyCodes.success
unfolding get_verify_code get_string save_code text_eq
bob_sent = refl

get_verify_code-check_code_example :
    let s = (get_verify_code small_outside bob empty_host).1 in
    (code : Text) × (s.mails ≡ (bob, mail_subject, mail_text code) ∷ [])
    × (string_of (some (lookup s.store (code_prefix ++ bob))) ≡ some code)
    × ((check_code small_outside bob code s).0 ≡ none)
get_verify_code-check_code_example =
    get_verify_code-check_code small_outside-IsMailing bob empty_host bob_sent

empty-IsTable : IsTable text_eq empty_host.tables
unfolding IsUnique
empty-IsTable = record { unique = tt; numbered = tt }

reg_user_procedure-IsTable_example :
    IsTable text_eq
      (reg_user_procedure text_eq false (codes "ann") (codes "a@b") (codes "h") empty_host.tables)
reg_user_procedure-IsTable_example =
    reg_user_procedure-IsTable text_eq false (codes "ann") (codes "a@b") (codes "h")
      empty_host.tables empty-IsTable

-- An account in the tables, and a chat server for it.
abbrev ann : User
ann = record { uid = 1001; name = codes "ann"; email = codes "a@b"; pwd = hashed (codes "pw") }

abbrev ann_host : Host
ann_host = record empty_host { tables = record { users = ann ∷ []; user_id = 1001; result = none } }

abbrev chat1 : ChatServer
chat1 = record { host = codes "h"; port = codes "1"; name = codes "chat1"; con_count = 0 }

abbrev status_hget : Text → Text → Host → Text
status_hget key field s = codes "0"

abbrev status_get : Text → Host → Option Text
status_get key s = string_of (some (lookup s.store key))

abbrev status_set : Text → Text → Host → Bool × Host
status_set key v s = (true, record s { store = (key, v) ∷ s.store })

abbrev status_uuid : Host → Text × Host
status_uuid s = (codes "token", s)

status-KeepsValues :
    KeepsValues (shared small_outside status_hget status_get status_set status_uuid (chat1 ∷ []))
status-KeepsValues key v s h = ap (λ r. string_of (some r)) (text_lookup key v s.store)

login_account-Ends_example :
    Ends small_outside status_hget status_get status_set status_uuid
      (chat1 ∷ [])
      (codes "a@b")
      (codes "pw")
      ann_host
      (login_account small_outside
        (status_call small_outside status_hget status_get status_set status_uuid (chat1 ∷ []))
        (codes "a@b")
        (codes "pw")
        ann_host)
login_account-Ends_example =
    login_account-Ends small_outside status_hget status_get status_set status_uuid (chat1 ∷ [])
      (codes "a@b") (codes "pw") ann_host status-KeepsValues

abbrev called : Text → Text → Text → Host → Tables
called name email pwd s = reg_user_procedure text_eq false name email pwd s.tables

taken-result :
    (name email pwd : Text) (s : Host)
    → has_name text_eq name s.tables.users || has_email text_eq email s.tables.users ≡ true
    → (called name email pwd s).result ≡ some (pos 0)
unfolding reg_user_procedure
taken-result name email pwd s taken = rw taken refl

new-row :
    (name email pwd : Text) (s : Host) (uid : ℤ)
    → has_name text_eq name s.tables.users || has_email text_eq email s.tables.users ≡ false
    → (called name email pwd s).result ≡ some uid
    → Option.map row_of_user (user_of_email text_eq email (called name email pwd s).users)
      ≡ some (record { uid = uid; name = name; pwd = pwd })
unfolding reg_user_procedure
new-row name email pwd s uid free h =
    let n : ℕ = suc s.tables.user_id in
    let user : User = record { uid = n; name = name; email = email; pwd = pwd } in
    let no_email : has_email text_eq email s.tables.users ≡ false = ground (arith, free) in
    let e : some (pos n) ≡ some uid =
      subst
        (λ (b : Bool).
          (if b
            then with_result (pos 0) s.tables
            else add_user text_eq name email pwd s.tables).result
          ≡ some uid)
        free h in
    let same : pos n ≡ uid = cc in
    rw (free, user_of_email-snoc text_eq s.tables.users user no_email (text_eq_refl email))
      (ap (λ (u : ℤ). some (record { uid = u; name = name; pwd = pwd })) same)

abbrev row_of : Host → Text → Option UserRow
row_of s email = Option.map row_of_user (user_of_email text_eq email s.tables.users)

inserted :
    (name email pwd : Text) (uid : ℤ) (s : Host)
    → (called name email pwd s).result ≡ some uid
    → is_failed uid ≡ false
    → Option.map row_of_user (user_of_email text_eq email (called name email pwd s).users)
      ≡ some (record { uid = uid; name = name; pwd = pwd })
inserted name email pwd uid s h good =
    let test = has_name text_eq name s.tables.users || has_email text_eq email s.tables.users in
    elim (Bool-cases test) [
      | inr free ↦ new-row name email pwd s uid free h
      | inl taken ↦
          let e : pos 0 ≡ uid = cc (taken-result name email pwd s taken) in
          let bad : is_failed uid ≡ true = ap is_failed (sym e) in cc
    ]

small_outside-KeepsUsers : KeepsUsers small_outside row_of
small_outside-KeepsUsers = record {
  inserted = λ name email stored uid s ok h good.
      let e : (called name email stored s).result ≡ some uid = cc h in
      inserted name email stored uid s e good;
  returned = λ healthy email s. refl;
  connected = λ email s. refl;
  selected = λ email row s h. cc h;
  fits = λ pwd stored s h.
      let e : hashed pwd ≡ stored = cc h in
      subst (λ (t : Text). text_eq t (hashed pwd) ≡ true) e (text_eq_refl (hashed pwd));
}

abbrev after : Host
after = (reg_user small_outside (codes "ann") (codes "a@b") (codes "pw") empty_host).1

new_uid : (reg_user small_outside (codes "ann") (codes "a@b") (codes "pw") empty_host).0 ≡ pos 1001
unfolding reg_user reg_user_procedure text_eq
new_uid = refl

reg_user-IsMember_example :
    (row : UserRow) × (row.uid ≡ pos 1001)
    × (row.name ≡ codes "ann")
    × IsMember small_outside (codes "a@b") (codes "pw") row after
reg_user-IsMember_example =
    reg_user-IsMember small_outside-KeepsUsers (codes "ann") (codes "a@b") (codes "pw") (pos 1001)
      empty_host after refl new_uid refl refl (λ h. cc h)
