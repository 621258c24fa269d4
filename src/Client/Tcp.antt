-- ===== src/Client/Tcp.antt =====
-- client/network/tcpmgr.cpp: the receive buffer with its readyRead slot, CloseConnection and the
-- frame that slot_send_data writes.
pub mod Reassembly
use xiguchat.Prelude.{
  ℕ, zero, suc, ◌+◌, ◌*◌, Bool, true, false, Option, none, some, List, [], ◌∷◌, ◌++◌, ltb,
  if◌then◌else◌, length, take, drop,
}
use xiguchat.Prelude.Text.{Text}
use xiguchat.Wire.Node.{packet}

-- The members of TcpMgr that the reads use.
pub record TcpMgr : Type 0 where
  pub buffer : Text
  pub recv_pending : Bool
  pub message_id : ℕ
  pub message_len : ℕ

abbrev pub initial : TcpMgr
initial = record { buffer = []; recv_pending = false; message_id = 0; message_len = 0 }

unfoldable pub close_connection : TcpMgr → TcpMgr
close_connection s = record { buffer = []; recv_pending = false; message_id = 0; message_len = 0 }

-- The header is read, big-endian, and taken off the buffer; with fewer than four bytes the slot
-- returns.
split_head : TcpMgr → Text → Option TcpMgr
split_head s (a ∷ b ∷ c ∷ d ∷ rest) =
    some (record s { buffer = rest; message_id = a * 256 + b; message_len = c * 256 + d })
split_head s _ = none

unfoldable pub read_head : TcpMgr → Option TcpMgr
unfolding split_head
read_head s = if s.recv_pending then some s else split_head s s.buffer

-- One round of the `forever`: the slot returns, or a message is handed to handleMsg.
pub data Round : Type 0 where
  returns : TcpMgr → Round
  handles : ℕ → Text → TcpMgr → Round

unfoldable pub take_body : TcpMgr → Round
take_body s =
    if ltb (length s.buffer) s.message_len
    then returns (record s { recv_pending = true })
    else handles s.message_id (take s.message_len s.buffer)
        (record s { recv_pending = false; buffer = drop s.message_len s.buffer })

unfoldable pub round : TcpMgr → Round
unfolding read_head take_body
round s = elim (read_head s) [ none ↦ returns s | some t ↦ take_body t ]

abbrev prepend : ℕ × Text → TcpMgr × List (ℕ × Text) → TcpMgr × List (ℕ × Text)
prepend m (s, ms) = (s, m ∷ ms)

-- The `forever` on fuel, with the messages that reached handleMsg.
unfoldable pub drain : ℕ → TcpMgr → TcpMgr × List (ℕ × Text)
unfolding round
drain zero s = (s, [])
drain (suc fuel) s = elim (round s) [
  | returns t ↦ (t, [])
  | handles msg_id body t ↦ prepend (msg_id, body) (drain fuel t)
]

-- Each round but the last takes a header off the buffer or ends a pending message.
unfoldable pub ready_read : TcpMgr → Text → TcpMgr × List (ℕ × Text)
unfolding drain
ready_read s chunk =
    drain (suc (suc (length (s.buffer ++ chunk)))) (record s { buffer = s.buffer ++ chunk })

abbrev more : List (ℕ × Text) → TcpMgr × List (ℕ × Text) → TcpMgr × List (ℕ × Text)
more ms (s, later) = (s, ms ++ later)

-- The chunks that the socket delivers, one readyRead after another.
unfoldable pub feed : TcpMgr → List Text → TcpMgr × List (ℕ × Text)
unfolding ready_read
feed s [] = (s, [])
feed s (chunk ∷ chunks) = let (t, ms) = ready_read s chunk in more ms (feed t chunks)

-- slot_send_data: the bytes for the socket, or none if it is not connected or the body is too big.
unfoldable pub slot_send_data : Bool → ℕ → Text → Option Text
slot_send_data connected req_id bytes =
    if connected
    then (if ltb 2048 (length bytes) then none else some (packet req_id bytes))
    else none
