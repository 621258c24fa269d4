-- ===== src/Examples/Wire.antt =====
-- Runs of the framing of both sides.
use xiguchat.Prelude.{ℕ, ◌≡◌, refl, inl, true, false, List, [], ◌∷◌, ◌++◌, some, arith, take, drop}
use xiguchat.Prelude.Text.{Text, codes}
use xiguchat.Prelude.Int.{pos}
use xiguchat.Prelude.Decimal.{to_text, from_chars, value, from_chars-to_text}
use xiguchat.Wire.Node.{MsgNode, IdNode, send_node, sent_bytes, packet, host_to_network}
use xiguchat.Wire.Encode.{sent_bytes-send_node}
use xiguchat.Wire.Read.{ReadEvent, got, receive, cleaned}
use xiguchat.Wire.Receive.{IsFrame, stream_of, Posts, receive-stream_of, receive_out_of_range}
use xiguchat.Client.Tcp.{TcpMgr, initial, feed}
use xiguchat.Client.Tcp.Reassembly.{feed-stream_of}

abbrev two_messages : List (ℕ × Text)
two_messages = (1005, codes "ab") ∷ (1023, codes "c") ∷ []

abbrev single_bytes : List ReadEvent
single_bytes =
    got 0 ∷ got 0 ∷ got 0 ∷ got 0 ∷ got 0 ∷ got 0 ∷ got 0 ∷ got 0 ∷ got 0 ∷ got 0 ∷ got 0 ∷ []

abbrev head_node : MsgNode
head_node = record { cur_len = 0; total_len = 4; bytes = 0 ∷ 0 ∷ 0 ∷ 0 ∷ 0 ∷ [] }

ab_IsFrame : IsFrame (1005, codes "ab")
ab_IsFrame = record {
  id_positive = omega arith;
  id_fits = omega arith;
  body_positive = omega arith;
  body_fits = omega arith;
}

c_IsFrame : IsFrame (1023, codes "c")
c_IsFrame = record {
  id_positive = omega arith;
  id_fits = omega arith;
  body_positive = omega arith;
  body_fits = omega arith;
}

receive-stream_of_example :
    Posts two_messages [] 0 (receive 2 true head_node (stream_of two_messages ++ []) single_bytes)
receive-stream_of_example =
    receive-stream_of two_messages head_node [] single_bytes 0 (ab_IsFrame, (c_IsFrame, tt))
      (tt, (tt, (tt, (tt, (tt, (tt, (tt, (tt, (tt, (tt, (tt, tt))))))))))) (omega arith)

receive_out_of_range_example :
    receive 3 true head_node
      (host_to_network 0 ++ (host_to_network 5 ++ codes "hello"))
      (got 9 ∷ got 9 ∷ got 9 ∷ got 9 ∷ [])
    ≡ ([], cleaned)
receive_out_of_range_example =
    receive_out_of_range 2 0 5 head_node (codes "hello") (got 9 ∷ got 9 ∷ got 9 ∷ got 9 ∷ [])
      (omega arith) (omega arith) (inl refl) (tt, (tt, (tt, (tt, tt)))) (omega arith)

feed-stream_of_example :
    (s : TcpMgr) × (feed initial
        (take 3 (stream_of two_messages) ∷ drop 3 (stream_of two_messages) ∷ [])
      ≡ (s, two_messages))
    × (s.buffer ≡ [])
    × (s.recv_pending ≡ false)
feed-stream_of_example =
    feed-stream_of two_messages
      (take 3 (stream_of two_messages) ∷ drop 3 (stream_of two_messages) ∷ [])
      (
        record { id_fits = omega arith; body_fits = omega arith },
        (record { id_fits = omega arith; body_fits = omega arith }, tt),
      )
      refl

sent_bytes-send_node_example :
    (n : IdNode) × (send_node (codes "hi") 2 1018 ≡ some n)
    × (sent_bytes n ≡ packet 1018 (codes "hi"))
sent_bytes-send_node_example = sent_bytes-send_node (codes "hi") 1018 (omega arith)

from_chars-to_text_example : from_chars (to_text 120) ≡ value (pos 120) []
from_chars-to_text_example = from_chars-to_text 120 (omega arith)
