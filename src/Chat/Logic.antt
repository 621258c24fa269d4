-- ===== src/Chat/Logic.antt =====
-- server/services/ChatServer/src/LogicSystem.cpp: PostMsgToQue, DealMsg and Stop. The
-- table _fun_callbacks is an argument; a request is handled as one action.
pub mod Served
use xiguchat.Prelude.{
  ℕ, suc, zero, ◌+◌, Bool, true, false, not, ◌&&◌, ◌||◌, Option, none, some, List, [], ◌∷◌, ◌++◌,
  leb, ◌==◌, if◌then◌else◌, length, take,
}
use xiguchat.Prelude.Text.{Text, codes, text_eq}
use xiguchat.Prelude.Int.{ℤ, pos, eqb_ℤ}
use xiguchat.Wire.Node.{IdNode}
use xiguchat.Chat.Protocol.{
  ErrorCodes, success, error_json, token_invalid, error_number, chat_login,
}
use xiguchat.Chat.World.{World, Doc, int, object, with_field, none_yet}
use xiguchat.Chat.Process.{Process, Conn, LogicNode, Action, skip, edit_conn, ◌>>=◌, ◌>>◌}
use xiguchat.Chat.Registry.{find_user, has_session}
use xiguchat.Chat.Cleanup.{send}
use xiguchat.Chat.Validation.{validate_chat_request}
use xiguchat.Chat.Json.{Json}

-- MAX_LOGICQUE
abbrev pub max_logicque : ℕ
max_logicque = 10000

abbrev pub data_of : IdNode → Text
data_of node = take node.cur_len node.bytes

module _ (w : World) where
  abbrev pub Handler : Type 0
  Handler = Text → ℕ → Text → Action w (Unit {0})

  unfoldable pub post_msg_to_que : LogicNode → Action w (Unit {0})
  post_msg_to_que msg p =
      if p.b_stop || leb max_logicque (length p.msg_que)
      then (tt, p)
      else (tt, record p { msg_que = p.msg_que ++ msg ∷ [] })

  -- The session that UserMgr has for the user of the session is that session.
  unfoldable pub is_current : Text → Process w → Bool
  is_current id p = elim (find_user p.users (p.conns id).user_uid) [
    | none ↦ false
    | some found ↦ text_eq found id
  ]

  unfoldable pub recheck : ErrorCodes → Bool → ErrorCodes
  recheck success replaced = if replaced then token_invalid else success
  recheck error replaced = error

  -- The two checks of a request that has been parsed.
  unfoldable pub check_request : ℕ → Json.Value w.json → Text → Process w → ErrorCodes
  unfolding is_current recheck
  check_request id root session p =
      recheck (validate_chat_request w.json id root (p.conns session).user_uid)
        (not (id == chat_login) && not (is_current session p))

  unfoldable pub check_data : ℕ → Text → Text → Process w → ErrorCodes
  unfolding check_request
  check_data id msg_data session p = elim (w.parse msg_data) [
    | none ↦ error_json
    | some root ↦ check_request id root session p
  ]

  abbrev pub refusal : ErrorCodes → Text
  refusal error =
      w.to_styled_string (object (with_field none_yet (codes "error") (int (error_number error))))

  unfoldable pub answer : Handler → ErrorCodes → Text → ℕ → Text → Action w (Unit {0})
  answer handler success session id msg_data = handler session id msg_data
  answer handler error session id msg_data = send w session (refusal error) (id + 1)

  -- What DealMsg does with the message that it has taken.
  unfoldable pub deal_node : (ℕ → Option Handler) → LogicNode → Action w (Unit {0})
  unfolding check_data answer
  deal_node fun_callbacks node p =
      let id = node.recvnode.msg_id in
      let msg_data = data_of node.recvnode in
      let session = node.session in
      elim (fun_callbacks id) [
        | none ↦ (tt, p)
        | some handler ↦
            if (p.conns session).out.closed
              || (not p.p_server || not (has_session p.sessions session))
            then (tt, p)
            else answer handler (check_data id msg_data session p) session id msg_data p
      ]

  -- One round of the loop: true if the thread goes on, with an empty queue only after Stop.
  unfoldable pub deal_msg : (ℕ → Option Handler) → Action w Bool
  unfolding deal_node
  deal_msg fun_callbacks p = elim p.msg_que [
    | [] ↦ (not p.b_stop, p)
    | node ∷ nodes ↦ (true, (deal_node fun_callbacks node (record p { msg_que = nodes })).1)
  ]

  -- The loop of DealMsg, on fuel: a round for each message that is still queued and one more is
  -- enough after Stop. none: the fuel ran out.
  unfoldable pub deal_rounds : ℕ → (ℕ → Option Handler) → Process w → Option (Process w)
  unfolding deal_msg
  deal_rounds zero fun_callbacks p = none
  deal_rounds (suc fuel) fun_callbacks p =
      let (goes_on, q) = deal_msg fun_callbacks p in
      let rest = deal_rounds fuel fun_callbacks q in if goes_on then rest else some q

  -- Stop sets the flag; the worker then goes on with DealMsg to its end, and the server is released.
  unfoldable pub set_stop : Action w (Unit {0})
  set_stop p = (tt, record p { b_stop = true })

  unfoldable pub release_server : Action w (Unit {0})
  release_server p = (tt, record p { p_server = false })
