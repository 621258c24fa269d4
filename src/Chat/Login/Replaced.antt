-- ===== src/Chat/Login/Replaced.antt =====
-- LoginHandler of LogicSystem.cpp and the checks of DealMsg together: a session that a later login of
-- its user has replaced.
use xiguchat.Prelude.{
  ℕ, ◌+◌, ◌≡◌, ◌≢◌, sym, ap, ◌∙◌, ◌⊎◌, inl, inr, true, Option, some, arith, Bool-cases,
}
use xiguchat.Prelude.Text.{Text}
use xiguchat.Prelude.Int.{ℤ, eqb_ℤ, eqb_ℤ→eq, eqb_ℤ_refl}
use xiguchat.Chat.Protocol.{ErrorCodes, success, chat_login}
use xiguchat.Chat.World.{World}
use xiguchat.Chat.Process.{Process, LogicNode}
use xiguchat.Chat.Registry.{find_user, has_session}
use xiguchat.Chat.Registry.Bindings.{IsRegistered}
use xiguchat.Chat.Cleanup.{send}
use xiguchat.Chat.Logic.{Handler, refusal, deal_node}
use xiguchat.Chat.Logic.Served.{ignored, refused, handled, deal_node-IsDealt}
use xiguchat.Chat.Login.{register}
use xiguchat.Chat.Login.Binding.{register-IsRegistered, register-only}

module _ (w : World) where
  -- DealMsg leaves the process as it is, or answers with an error.
  abbrev pub IsTurnedAway : (ℕ → Option (Handler w)) → LogicNode → Process w → Type 0
  IsTurnedAway fun_callbacks node p =
      (deal_node w fun_callbacks node p ≡ (tt, p))
      ⊎ ((error : ErrorCodes) × (error ≢ success)
          × (deal_node w fun_callbacks node p
              ≡ send w node.session (refusal w error) (node.recvnode.msg_id + 1) p))

  -- The session that a user had is nobody's after the registration of another one.
  register-nobody :
      (session old : Text) (uid u : ℤ) (p : Process w)
      → IsRegistered p
      → has_session p.sessions session ≡ true
      → ((u : ℤ) → find_user p.users u ≢ some session)
      → find_user p.users uid ≡ some old
      → find_user (register w session uid p).1.users u ≢ some old
  register-nobody session old uid u p v valid free had found = elim (Bool-cases (eqb_ℤ uid u)) [
    | inl same ↦
        let now = (register-IsRegistered w session uid p v valid free).0 in
        let named : find_user (register w session uid p).1.users uid ≡ some old =
          ap (λ (x : ℤ). find_user (register w session uid p).1.users x) (eqb_ℤ→eq uid u same)
          ∙ found in
        free uid (had ∙ sym named ∙ now)
    | inr differs ↦
        let apart : u ≢ uid =
          λ e. ground (arith, differs, ap (λ (x : ℤ). eqb_ℤ uid x) e, eqb_ℤ_refl uid) in
        let before = register-only w session uid p v valid free u old apart found in
        apart (sym (v.bound u old before) ∙ v.bound uid old had)
  ]

  -- After LoginHandler's registration of another session for its user, whatever Redis has answered,
  -- even if it has left the user's earlier session in the table of sessions: DealMsg turns away every
  -- message of the earlier session but a new login. It ignores it or answers it with an error, and no
  -- handler has it.
  pub register-replaces :
      (session old : Text) (uid : ℤ) (p : Process w) (fun_callbacks : ℕ → Option (Handler w))
      (node : LogicNode)
      → IsRegistered p
      → has_session p.sessions session ≡ true
      → ((u : ℤ) → find_user p.users u ≢ some session)
      → find_user p.users uid ≡ some old
      → node.session ≡ old
      → node.recvnode.msg_id ≢ chat_login
      → IsTurnedAway fun_callbacks node (register w session uid p).1
  register-replaces session old uid p fun_callbacks node v valid free had from other_id =
      let q = (register w session uid p).1 in
      elim (deal_node-IsDealt w fun_callbacks node q) [
        | ignored reason e ↦ inl e
        | refused error failed e ↦ inr (error, failed, e)
        | handled handler e served run ↦
            let found = served.current other_id ∙ ap some from in
            elim (register-nobody session old uid (q.conns node.session).user_uid p v valid free had
              found) [ ]
      ]
