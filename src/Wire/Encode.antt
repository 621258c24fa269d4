-- ===== src/Wire/Encode.antt =====
-- What a SendNode puts on the wire (server/services/ChatServer/src/MsgNode.cpp).
use xiguchat.Prelude.{
  ℕ, suc, ◌+◌, ◌≤◌, ◌≡◌, refl, some, ◌∷◌, ◌++◌, arith, le→ltb, length, take, drop, replicate,
  take-length, take-append,
}
use xiguchat.Prelude.Text.{Text}
use xiguchat.Wire.Node.{
  IdNode, MsgNode, send_node, fill, sent_bytes, packet, short_max, host_to_network,
}

five_more : (n : ℕ) → n + 4 + 1 ≡ suc (suc (suc (suc (suc n))))
five_more n = omega arith

-- The zeros that the buffer starts with, past the header.
zeros : (n : ℕ) → replicate {A = ℕ} (n + 4 + 1) 0 ≡ 0 ∷ 0 ∷ 0 ∷ 0 ∷ 0 ∷ replicate n 0
zeros n = rw (five_more n)

fill-bytes :
    (node : MsgNode) (msg : Text) (msg_id : ℕ)
    → node.bytes ≡ replicate (length msg + 4 + 1) 0
    → (rest : Text) × ((fill node msg (length msg) msg_id).bytes
        ≡ host_to_network msg_id ++ (host_to_network (length msg) ++ (msg ++ rest)))
unfolding fill
fill-bytes node msg msg_id e = (
  drop (4 + length msg)
      (host_to_network msg_id ++ (host_to_network (length msg) ++ 0 ∷ replicate (length msg) 0)),
  rw (e, zeros, take-length),
)

four_more : (n : ℕ) → n + 4 ≡ suc (suc (suc (suc n)))
four_more n = omega arith

take-packet :
    (bytes msg rest : Text) (msg_id : ℕ)
    → bytes ≡ host_to_network msg_id ++ (host_to_network (length msg) ++ (msg ++ rest))
    → take (length msg + 4) bytes ≡ packet msg_id msg
take-packet bytes msg rest msg_id e = rw (e, four_more, take-append)

-- A SendNode of a body whose length with the header is in the range of short sends exactly the
-- packet of its id and body.
pub sent_bytes-send_node :
    (msg : Text) (msg_id : ℕ)
    → length msg + 4 ≤ short_max
    → (n : IdNode) × (send_node msg (length msg) msg_id ≡ some n)
      × (sent_bytes n ≡ packet msg_id msg)
unfolding send_node
sent_bytes-send_node msg msg_id h =
    let empty : MsgNode = record {
      cur_len = 0;
      total_len = length msg + 4;
      bytes = replicate (length msg + 4 + 1) 0;
    } in
    let (rest, e) = fill-bytes empty msg msg_id refl in
    (
      record { node = fill empty msg (length msg) msg_id; msg_id = msg_id },
      rw (le→ltb 32767 (length msg + 4) h, send_node),
      take-packet (fill empty msg (length msg) msg_id).bytes msg rest msg_id e,
    )
