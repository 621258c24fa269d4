-- ===== src/Client/Events/Consistent.antt =====
-- client/core/service/sessionservice.cpp: the members of SessionService agree with each other and with
-- UserMgr after every event.
use xiguchat.Prelude.{
  ◌≡◌, refl, ◌∙◌, Bool, true, false, ◌&&◌, inl, inr, Bool-cases, if◌then◌else◌, arith,
}
use xiguchat.Client.Users.{Users}
use xiguchat.Client.Users.Index.{IsIndexed, IsLater}
use xiguchat.Client.Users.Later.{fail_pending_messages-IsLater, clear_users-IsIndexed}
use xiguchat.Client.SessionService.{
  ServerInfo, Failure, Service, change_users, lost, reset_session, close_session, fail_and_reset,
  connect_to_chat,
}

-- The timeout runs in a login, the heartbeat in a session, and a session is of the account whose data
-- UserMgr has.
pub record IsConsistent (s : Service) : Type 0 where
  pub timeout : s.timeout ≡ s.connecting
  pub heartbeat : s.heartbeat ≡ s.ready
  pub exclusive : (s.ready && s.connecting) ≡ false
  pub account : s.ready ≡ true → s.users.uid ≡ s.current.uid
  pub indexed : IsIndexed s.users

pub if-IsConsistent :
    (test : Bool) {s s' : Service}
    → (test ≡ true → IsConsistent s)
    → (test ≡ false → IsConsistent s')
    → IsConsistent (if test then s else s')
if-IsConsistent true a b = a refl
if-IsConsistent false a b = b refl

pub change_users-IsConsistent :
    (f : Users → Users) (s : Service)
    → IsLater s.users (f s.users)
    → IsConsistent s
    → IsConsistent (change_users f s)
change_users-IsConsistent f s later c = record {
  timeout = c.timeout;
  heartbeat = c.heartbeat;
  exclusive = c.exclusive;
  account = λ h. later.uid ∙ c.account h;
  indexed = later.indexed c.indexed;
}

-- Losing the connection ends the session and leaves a login as it is.
pub lost-IsConsistent :
    (s : Service) → s.timeout ≡ s.connecting → IsIndexed s.users → IsConsistent (lost s)
unfolding lost
lost-IsConsistent s timeout indexed = record {
  timeout = timeout;
  heartbeat = refl;
  exclusive = refl;
  account = λ h. ground (arith, h);
  indexed = (fail_pending_messages-IsLater s.users).indexed indexed;
}

pub close_session-IsConsistent : (s : Service) → IsIndexed s.users → IsConsistent (close_session s)
unfolding close_session
close_session-IsConsistent s indexed = elim (Bool-cases s.connected) [
  | inl up ↦ rw up (lost-IsConsistent (record (reset_session s) { connected = false }) refl indexed)
  | inr down ↦ rw down (record {
    timeout = refl;
    heartbeat = refl;
    exclusive = refl;
    account = λ h. ground (arith, h);
    indexed = indexed;
  })
]

pub fail_and_reset-IsConsistent :
    (reason : Failure) (s : Service) → IsIndexed s.users → IsConsistent (fail_and_reset reason s)
unfolding fail_and_reset
fail_and_reset-IsConsistent reason s indexed =
    let c = close_session-IsConsistent s indexed in
    record {
      timeout = c.timeout;
      heartbeat = c.heartbeat;
      exclusive = c.exclusive;
      account = c.account;
      indexed = c.indexed;
    }

-- No heartbeat after the end of a session.
close_session-heartbeat : (s : Service) → (close_session s).heartbeat ≡ false
unfolding close_session lost
close_session-heartbeat s = elim (Bool-cases s.connected) [
  | inl up ↦ rw up refl
  | inr down ↦ rw down refl
]

-- A login starts from the data of nobody, whatever has been before.
pub connect_to_chat-IsConsistent :
    (info : ServerInfo) (s : Service) → IsConsistent (connect_to_chat info s)
unfolding connect_to_chat
connect_to_chat-IsConsistent info s = record {
  timeout = refl;
  heartbeat = close_session-heartbeat s;
  exclusive = refl;
  account = λ h. ground (arith, h);
  indexed = clear_users-IsIndexed (close_session s).users;
}
