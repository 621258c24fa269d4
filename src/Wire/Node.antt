-- ===== src/Wire/Node.antt =====
-- server/services/ChatServer/src/MsgNode.cpp with the sizes of include/const.h: the buffers that
-- the framing of both directions is built on. A short is the number that it stands for; a
-- constructor whose length leaves the range of short asks new[] for a negative size, which throws.
use xiguchat.Prelude.{
  ℕ, ◌+◌, ◌/◌, ◌%◌, Option, none, some, [], ◌∷◌, ◌++◌, ltb, if◌then◌else◌, length, take, drop,
  replicate,
}
use xiguchat.Prelude.Text.{Text}

abbrev pub max_length : ℕ
max_length = 2048

abbrev pub head_total_len : ℕ
head_total_len = 4

abbrev pub head_id_len : ℕ
head_id_len = 2

abbrev pub head_data_len : ℕ
head_data_len = 2

-- std::numeric_limits<short>::max()
abbrev pub short_max : ℕ
short_max = 32767

-- host_to_network_short, and the two bytes that memcpy then copies.
abbrev pub host_to_network : ℕ → Text
host_to_network n = (n / 256 % 256) ∷ (n % 256) ∷ []

-- memcpy into a buffer at an offset.
unfoldable pub memcpy : Text → ℕ → Text → Text
memcpy buffer offset src = take offset buffer ++ (src ++ drop (offset + length src) buffer)

pub record MsgNode : Type 0 where
  pub cur_len : ℕ
  pub total_len : ℕ
  pub bytes : Text

unfoldable pub msg_node : ℕ → Option MsgNode
msg_node max_len =
    if ltb short_max max_len
    then none
    else some (record { cur_len = 0; total_len = max_len; bytes = replicate (max_len + 1) 0 })

unfoldable pub clear : MsgNode → MsgNode
unfolding memcpy
clear node = record node { cur_len = 0; bytes = memcpy node.bytes 0 (replicate node.total_len 0) }

-- A RecvNode and a SendNode are a MsgNode and a message id.
pub record IdNode : Type 0 where
  pub node : MsgNode
  pub open node use *
  pub msg_id : ℕ

unfoldable pub recv_node : ℕ → ℕ → Option IdNode
unfolding msg_node
recv_node max_len msg_id = elim (msg_node max_len) [
  | none ↦ none
  | some n ↦ some (record { node = n; msg_id = msg_id })
]

-- The three memcpy of the SendNode constructor, in their order.
unfoldable pub fill : MsgNode → Text → ℕ → ℕ → MsgNode
unfolding memcpy
fill node msg max_len msg_id =
    let with_id = memcpy node.bytes 0 (host_to_network msg_id) in
    let with_len = memcpy with_id head_id_len (host_to_network max_len) in
    record node { bytes = memcpy with_len (head_id_len + head_data_len) (take max_len msg) }

unfoldable pub send_node : Text → ℕ → ℕ → Option IdNode
unfolding msg_node fill
send_node msg max_len msg_id = elim (msg_node (max_len + head_total_len)) [
  | none ↦ none
  | some n ↦ some (record { node = fill n msg max_len msg_id; msg_id = msg_id })
]

-- What async_write sends: the first total_len bytes of the buffer.
abbrev pub sent_bytes : IdNode → Text
sent_bytes n = take n.total_len n.bytes

-- A packet on the wire: the id, the length of the body and the body.
abbrev pub packet : ℕ → Text → Text
packet msg_id body = host_to_network msg_id ++ (host_to_network (length body) ++ body)
