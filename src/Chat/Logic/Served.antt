-- ===== src/Chat/Logic/Served.antt =====
-- Which requests DealMsg lets through to a handler.
use xiguchat.Prelude.{
  ℕ, ◌+◌, ◌≡◌, ◌≢◌, refl, ap, ◌∙◌, ◌⊎◌, inl, inr, Bool, true, false, not, ◌&&◌, Option, none, some,
  ◌==◌, arith, Bool-cases, Option-cases,
}
use xiguchat.Prelude.Text.{Text, text_eq→eq}
use xiguchat.Chat.Protocol.{ErrorCodes, success, chat_login}
use xiguchat.Chat.World.{World}
use xiguchat.Chat.Process.{Process, LogicNode}
use xiguchat.Chat.Registry.{find_user, has_session}
use xiguchat.Chat.Cleanup.{send}
use xiguchat.Chat.Json.{Json}
use xiguchat.Chat.Validation.{validate_chat_request}
use xiguchat.Chat.Validation.Identity.{IsAuthorised, validate-IsAuthorised}
use xiguchat.Chat.Logic.{
  data_of, Handler, is_current, recheck, check_request, check_data, refusal, answer, deal_node,
}

module _ (w : World) where
  -- The session may be served: it is open and valid, the body is a JSON text, and the request in it
  -- is authorised for the session's user; after login, that user's session is this one.
  pub record IsServed (node : LogicNode) (p : Process w) : Type 0 where
    pub opened : (p.conns node.session).out.closed ≡ false
    pub valid : has_session p.sessions node.session ≡ true
    pub root : Json.Value w.json
    pub parsed : w.parse (data_of node.recvnode) ≡ some root
    pub authorised : IsAuthorised w.json node.recvnode.msg_id root (p.conns node.session).user_uid
    pub current :
        node.recvnode.msg_id ≢ chat_login
        → find_user p.users (p.conns node.session).user_uid ≡ some node.session

  is_current→find_user :
      (id : Text) (p : Process w)
      → is_current w id p ≡ true
      → find_user p.users (p.conns id).user_uid ≡ some id
  unfolding is_current
  is_current→find_user id p h = elim (Option-cases (find_user p.users (p.conns id).user_uid)) [
    | inl e ↦ ground (arith, e)
    | inr (found, e) ↦ ground (arith, e, text_eq→eq found id)
  ]

  recheck-success :
      (error : ErrorCodes) (replaced : Bool)
      → recheck w error replaced ≡ success
      → (error ≡ success) × (replaced ≡ false)
  unfolding recheck
  recheck-success error replaced h = ground arith

  check_request-success :
      (id : ℕ) (root : Json.Value w.json) (session : Text) (p : Process w)
      → check_request w id root session p ≡ success
      → (validate_chat_request w.json id root (p.conns session).user_uid ≡ success)
        × (id ≢ chat_login → find_user p.users (p.conns session).user_uid ≡ some session)
  unfolding check_request
  check_request-success id root session p h =
      let (passed, held) =
        recheck-success (validate_chat_request w.json id root (p.conns session).user_uid)
          (not (id == chat_login) && not (is_current w session p)) h in
      (passed, λ differ. is_current→find_user session p (ground (arith, held)))

  -- What may become of a message, with the reason of each.
  pub data IsDealt (fun_callbacks : ℕ → Option (Handler w)) (node : LogicNode) (p : Process w)
      : Type 0 where
    ignored :
        (fun_callbacks node.recvnode.msg_id ≡ none)
          ⊎ ((p.conns node.session).out.closed ≡ true)
          ⊎ (p.p_server ≡ false)
          ⊎ (has_session p.sessions node.session ≡ false)
        → deal_node w fun_callbacks node p ≡ (tt, p)
        → IsDealt fun_callbacks node p
    refused :
        (error : ErrorCodes)
        → error ≢ success
        → deal_node w fun_callbacks node p
          ≡ send w node.session (refusal w error) (node.recvnode.msg_id + 1) p
        → IsDealt fun_callbacks node p
    handled :
        (handler : Handler w)
        → fun_callbacks node.recvnode.msg_id ≡ some handler
        → IsServed node p
        → deal_node w fun_callbacks node p
          ≡ handler node.session node.recvnode.msg_id (data_of node.recvnode) p
        → IsDealt fun_callbacks node p

  check_data-success :
      (id : ℕ) (msg_data session : Text) (p : Process w)
      → check_data w id msg_data session p ≡ success
      → (root : Json.Value w.json) × (w.parse msg_data ≡ some root)
        × (check_request w id root session p ≡ success)
  unfolding check_data
  check_data-success id msg_data session p h = elim (Option-cases (w.parse msg_data)) [
    | inl e ↦ ground (arith, e)
    | inr (root, e) ↦ (root, e, ground (arith, e))
  ]

  success-cases : (error : ErrorCodes) → (error ≡ success) ⊎ (error ≢ success)
  success-cases error = ground arith

  answer-refused :
      (handler : Handler w) (error : ErrorCodes) (session : Text) (id : ℕ) (msg_data : Text)
      (p : Process w)
      → error ≢ success
      → answer w handler error session id msg_data p ≡ send w session (refusal w error) (id + 1) p
  unfolding answer
  answer-refused handler error session id msg_data p h = ground arith

  answer-handled :
      (handler : Handler w) (session : Text) (id : ℕ) (msg_data : Text) (p : Process w)
      → answer w handler success session id msg_data p ≡ handler session id msg_data p
  unfolding answer
  answer-handled handler session id msg_data p = refl

  answered :
      (fun_callbacks : ℕ → Option (Handler w)) (node : LogicNode) (p : Process w)
      (handler : Handler w)
      → fun_callbacks node.recvnode.msg_id ≡ some handler
      → (p.conns node.session).out.closed ≡ false
      → p.p_server ≡ true
      → has_session p.sessions node.session ≡ true
      → deal_node w fun_callbacks node p
        ≡ answer w handler
            (check_data w node.recvnode.msg_id (data_of node.recvnode) node.session p)
            node.session
            node.recvnode.msg_id
            (data_of node.recvnode)
            p
  unfolding deal_node
  answered fun_callbacks node p handler e opened server valid =
      rw (deal_node, e, opened, server, valid)

  checked-IsServed :
      (node : LogicNode) (p : Process w)
      → (p.conns node.session).out.closed ≡ false
      → has_session p.sessions node.session ≡ true
      → check_data w node.recvnode.msg_id (data_of node.recvnode) node.session p ≡ success
      → IsServed node p
  checked-IsServed node p opened valid passed =
      let (root, parsed, checked) =
        check_data-success node.recvnode.msg_id (data_of node.recvnode) node.session p passed in
      let (validated, current) =
        check_request-success node.recvnode.msg_id root node.session p checked in
      record {
        opened = opened;
        valid = valid;
        root = root;
        parsed = parsed;
        authorised =
            validate-IsAuthorised w.json node.recvnode.msg_id root (p.conns node.session).user_uid
              validated;
        current = current;
      }

  -- A message whose session is open and valid and whose id has a handler is, while the server is
  -- set, either refused with an error code and the id of the answer, or served: parsed, authorised
  -- for the session's user and, after login, from that user's current session, and the handler of
  -- its id has it. Every other message is ignored.
  pub deal_node-IsDealt :
      (fun_callbacks : ℕ → Option (Handler w)) (node : LogicNode) (p : Process w)
      → IsDealt fun_callbacks node p
  unfolding deal_node
  deal_node-IsDealt fun_callbacks node p =
      let session = node.session in
      elim (Option-cases (fun_callbacks node.recvnode.msg_id)) [
        | inl e ↦ ignored (inl e) (rw (deal_node, e))
        | inr (handler, e) ↦ elim (Bool-cases (p.conns session).out.closed) [
          | inl closed ↦ ignored (inr (inl closed)) (rw (deal_node, e, closed))
          | inr opened ↦ elim (Bool-cases p.p_server) [
            | inr none_set ↦
                ignored (inr (inr (inl none_set))) (rw (deal_node, e, opened, none_set))
            | inl server ↦ elim (Bool-cases (has_session p.sessions session)) [
              | inr unknown ↦
                  ignored (inr (inr (inr unknown))) (rw (deal_node, e, opened, server, unknown))
              | inl valid ↦
                  let go = answered fun_callbacks node p handler e opened server valid in
                  elim (success-cases
                    (check_data w node.recvnode.msg_id (data_of node.recvnode) session p)) [
                      | inl passed ↦
                          handled handler e (checked-IsServed node p opened valid passed) (
                            go
                            ∙ ap
                                (λ (x : ErrorCodes).
                                  answer w handler x session node.recvnode.msg_id
                                    (data_of node.recvnode) p)
                                passed
                            ∙ answer-handled handler session node.recvnode.msg_id
                                (data_of node.recvnode) p)
                      | inr failed ↦ refused _ failed (
                          go
                          ∙ answer-refused handler _ session node.recvnode.msg_id
                              (data_of node.recvnode) p failed)
                    ]
            ]
          ]
        ]
      ]
