-- ===== src/Verify/Mailed.antt =====
-- The code that the VerifyServer mails is the one that the GateServer takes.
use xiguchat.Prelude.{
  ◌≡◌, refl, ◌∙◌, ap, true, Option, none, some, List, ◌∷◌, ◌++◌, inl, inr, Bool-cases, Option-cases,
  take, arith,
}
use xiguchat.Prelude.Text.{Text, text_eq_refl}
use xiguchat.Chat.Redis.{string_of, is_ok}
use xiguchat.Gate.Protocol.{code_prefix}
use xiguchat.Gate.Outside.{Outside}
use xiguchat.Gate.Accounts.{get_string, check_code}
use xiguchat.Verify.{
  success, mail_subject, mail_text, CodeResult, ready, unsaved, threw, code_length,
  code_expire_seconds, set_expire, save_code, code_for, mail_code, get_verify_code,
}

-- What the codes in Redis and the mails are, beside the code: Redis answers, a SETEX that is
-- confirmed writes the code, and a mail that is sent is the next of the mails.
pub record IsMailing (o : Outside) (code_of : Outside.State o → Text → Option Text)
    (mails : Outside.State o → List (Text × Text × Text)) : Type 0 where
  pub redis_open : (s : Outside.State o) → o.redis_open s ≡ true
  pub get :
      (email : Text) (s : Outside.State o)
      → string_of (o.get (code_prefix ++ email) s).0 ≡ code_of s email
  pub get_mails : (key : Text) (s : Outside.State o) → mails (o.get key s).1 ≡ mails s
  pub get_codes :
      (key email : Text) (s : Outside.State o) → code_of (o.get key s).1 email ≡ code_of s email
  pub new_uuid : (s : Outside.State o) → mails (o.new_uuid s).1 ≡ mails s
  pub set_ex :
      (email code : Text) (s : Outside.State o)
      → is_ok (o.set_ex (code_prefix ++ email) code_expire_seconds code s).0 ≡ true
      → code_of (o.set_ex (code_prefix ++ email) code_expire_seconds code s).1 email ≡ some code
  pub set_ex_mails :
      (key code : Text) (s : Outside.State o)
      → mails (o.set_ex key code_expire_seconds code s).1 ≡ mails s
  pub send_mail :
      (to subject text : Text) (s : Outside.State o)
      → (o.send_mail to subject text s).0 ≡ true
      → mails (o.send_mail to subject text s).1 ≡ (to, subject, text) ∷ mails s
  pub send_mail_codes :
      (to subject text email : Text) (s : Outside.State o)
      → code_of (o.send_mail to subject text s).1 email ≡ code_of s email

module _ {o : Outside} {code_of : Outside.State o → Text → Option Text}
    {mails : Outside.State o → List (Text × Text × Text)} (m : IsMailing o code_of mails) where
  open o use {State}

  -- A code is ready: Redis has it, and no mail is sent yet.
  abbrev IsReady : Text → State → CodeResult × State → Type 0
  IsReady email s0 (ready code, s) = (code_of s email ≡ some code) × (mails s ≡ mails s0)
  IsReady email s0 (unsaved, s) = Unit
  IsReady email s0 (threw, s) = Unit

  save_code-IsReady :
      (email : Text) (s0 : State) (made : Option Text × State)
      → mails made.1 ≡ mails s0
      → IsReady email s0 (save_code o (code_prefix ++ email) made)
  unfolding save_code set_expire
  save_code-IsReady email s0 (none, s) h = tt
  save_code-IsReady email s0 (some uuid_str, s) h =
      let code = take code_length uuid_str in
      let key = code_prefix ++ email in
      let reply = o.set_ex key code_expire_seconds code s in
      elim (Bool-cases (is_ok reply.0)) [
        | inl ok ↦ rw (m.redis_open s, ok) (m.set_ex email code s ok, m.set_ex_mails key code s ∙ h)
        | inr failed ↦ rw (m.redis_open s, failed) tt
      ]

  code_for-IsReady :
      (email : Text) (s : State)
      → IsReady email s (code_for o (code_prefix ++ email) (get_string o (code_prefix ++ email) s))
  unfolding code_for get_string
  code_for-IsReady email s =
      let key = code_prefix ++ email in
      let s' = (o.get key s).1 in
      rw (m.redis_open s, m.get email s)
        (elim (Option-cases (code_of s email)) [
          | inl absent ↦
              rw (code_for, absent)
                (save_code-IsReady email s (o.new_uuid s') (m.new_uuid s' ∙ m.get_mails key s))
          | inr (code, e) ↦ rw (code_for, e) (m.get_codes key email s ∙ e, m.get_mails key s)
        ])

  abbrev IsSent : Text → State → State → Type 0
  IsSent email s s' =
      (code : Text) × (mails s' ≡ (email, mail_subject, mail_text code) ∷ mails s)
      × (code_of s' email ≡ some code)

  mail_code-success :
      (email : Text) (s0 : State) (r : CodeResult × State)
      → IsReady email s0 r
      → (mail_code o email r).0 ≡ success
      → IsSent email s0 (mail_code o email r).1
  unfolding mail_code
  mail_code-success email s0 (threw, s) known h = cc
  mail_code-success email s0 (unsaved, s) known h = cc
  mail_code-success email s0 (ready code, s) (stored, same) h =
      elim (Bool-cases (o.send_mail email mail_subject (mail_text code) s).0) [
        | inr failed ↦ ground (arith, failed, h)
        | inl sent ↦ (
          code,
          m.send_mail email mail_subject (mail_text code) s sent
              ∙ ap (λ l. (email, mail_subject, mail_text code) ∷ l) same,
          m.send_mail_codes email mail_subject (mail_text code) email s ∙ stored,
        )
      ]

  check_code-stored :
      (email code : Text) (s : State)
      → code_of s email ≡ some code
      → (check_code o email code s).0 ≡ none
  unfolding check_code get_string
  check_code-stored email code s h =
      rw (m.redis_open s, m.get email s) (rw (h, text_eq_refl code) refl)

  -- After a GetVerifyCode that succeeds there is one more mail: it goes to the address of the request
  -- and has a code that Redis keeps for this address, and that the GateServer's check of a
  -- registration or of a reset for this address lets pass.
  pub get_verify_code-check_code :
      (email : Text) (s : State)
      → (get_verify_code o email s).0.error ≡ success
      → (let s' = (get_verify_code o email s).1 in
          (code : Text) × (mails s' ≡ (email, mail_subject, mail_text code) ∷ mails s)
          × (code_of s' email ≡ some code)
          × ((check_code o email code s').0 ≡ none))
  unfolding get_verify_code
  get_verify_code-check_code email s h =
      let key = code_prefix ++ email in
      let r = code_for o key (get_string o key s) in
      let (code, mailed, stored) = mail_code-success email s r (code_for-IsReady email s) h in
      (code, mailed, stored, check_code-stored email code (mail_code o email r).1 stored)
