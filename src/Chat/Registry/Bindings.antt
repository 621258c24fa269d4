-- ===== src/Chat/Registry/Bindings.antt =====
-- The maps of UserMgr and CServer: their laws, and the invariant that ties them to the sessions.
use xiguchat.Prelude.{
  ◌≡◌, ap, ◌∙◌, true, false, inl, inr, none, some, List, [], ◌∷◌, arith, if◌then◌else◌,
  Option-cases,
}
use xiguchat.Prelude.Text.{Text, text_eq, text_eq→eq, text_eq_refl}
use xiguchat.Prelude.Int.{ℤ, eqb_ℤ, eqb_ℤ→eq, eqb_ℤ_refl}
use xiguchat.Chat.World.{World}
use xiguchat.Chat.Process.{Process, Conn}
use xiguchat.Chat.Registry.{
  find_user, erase_user, assign_user, has_session, erase_session, rmv_user_session, clear_session,
}

pub find_user-erase_user :
    (users : List (ℤ × Text)) (uid other : ℤ)
    → find_user (erase_user users uid) other
      ≡ (if eqb_ℤ uid other then none else find_user users other)
unfolding find_user erase_user
find_user-erase_user [] uid other = ground arith
find_user-erase_user ((key, id) ∷ users) uid other = ground (
  arith,
  find_user-erase_user users uid other,
  eqb_ℤ→eq key uid,
  eqb_ℤ→eq key other,
  eqb_ℤ→eq uid other,
  eqb_ℤ_refl other,
  eqb_ℤ_refl uid,
)

pub find_user-assign_user :
    (users : List (ℤ × Text)) (uid other : ℤ) (id : Text)
    → find_user (assign_user users uid id) other
      ≡ (if eqb_ℤ uid other then some id else find_user users other)
unfolding find_user assign_user
find_user-assign_user users uid other id = ground (arith, find_user-erase_user users uid other)

pub has_session-erase_session :
    (keys : List Text) (id other : Text)
    → has_session (erase_session keys id) other
      ≡ (if text_eq id other then false else has_session keys other)
unfolding has_session erase_session
has_session-erase_session [] id other = ground arith
has_session-erase_session (key ∷ keys) id other = ground (
  arith,
  has_session-erase_session keys id other,
  text_eq→eq key id,
  text_eq→eq key other,
  text_eq→eq id other,
  text_eq_refl other,
  text_eq_refl id,
)

module _ {w : World} where
  -- A user's session stands in the table of sessions, and its object has the user's uid.
  pub record IsRegistered (p : Process w) : Type 0 where
    pub listed :
        (uid : ℤ) (id : Text) → find_user p.users uid ≡ some id → has_session p.sessions id ≡ true
    pub bound :
        (uid : ℤ) (id : Text) → find_user p.users uid ≡ some id → (p.conns id).user_uid ≡ uid

  find_user-rmv_user_session :
      (p : Process w) (uid other : ℤ) (id : Text)
      → find_user (rmv_user_session uid id p).1.users other ≡ elim (find_user p.users uid) [
        | none ↦ find_user p.users other
        | some found ↦
            if text_eq found id
            then (if eqb_ℤ uid other then none else find_user p.users other)
            else find_user p.users other
      ]
  unfolding rmv_user_session
  find_user-rmv_user_session p uid other id = ground (arith, find_user-erase_user p.users uid other)

  -- ClearSession of a session: it is no longer valid, and every other session stays as it was; no
  -- user is left with it, and every user of another session keeps that one.
  pub clear_session_lem :
      (p : Process w) (id : Text)
      → IsRegistered p
      → ((other : Text)
          → has_session (clear_session id p).1.sessions other
            ≡ (if text_eq id other then false else has_session p.sessions other))
        × ((uid : ℤ)
            → find_user (clear_session id p).1.users uid ≡ elim (find_user p.users uid) [
              | none ↦ none
              | some found ↦ if text_eq found id then none else some found
            ])
  unfolding clear_session
  clear_session_lem p id v = (
    λ other. has_session-erase_session p.sessions id other,
    λ uid. elim (Option-cases (find_user p.users uid)) [
      | inl e ↦ ground (arith, e, find_user-erase_user p.users (p.conns id).user_uid uid)
      | inr (found, e) ↦ ground (
        arith,
        e,
        v.listed uid found e,
        v.bound uid found e,
        text_eq→eq found id,
        eqb_ℤ→eq (p.conns id).user_uid uid,
        eqb_ℤ_refl uid,
        find_user-erase_user p.users (p.conns id).user_uid uid,
      )
    ],
  )

  find_user-clear_session :
      (p : Process w) (uid : ℤ) (id other : Text)
      → IsRegistered p
      → find_user (clear_session id p).1.users uid ≡ some other
      → (find_user p.users uid ≡ some other) × (text_eq id other ≡ false)
  find_user-clear_session p uid id other v e =
      ground (arith, (clear_session_lem p id v).1 uid, text_eq→eq id other, text_eq_refl other)

  pub conns-clear_session : (p : Process w) (id : Text) → (clear_session id p).1.conns ≡ p.conns
  unfolding clear_session
  conns-clear_session p id = ground arith

  -- ClearSession keeps the registration of every other user and session.
  pub clear_session-IsRegistered :
      (p : Process w) (id : Text) → IsRegistered p → IsRegistered (clear_session id p).1
  clear_session-IsRegistered p id v = record {
    listed = λ uid other e.
        let (before, differ) = find_user-clear_session p uid id other v e in
        (clear_session_lem p id v).0 other ∙ rw differ (v.listed uid other before);
    bound = λ uid other e.
        let (before, differ) = find_user-clear_session p uid id other v e in
        ap (λ (c : Text → Conn). (c other).user_uid) (conns-clear_session p id)
        ∙ v.bound uid other before;
  }
