-- ===== src/Wire/Read.antt =====
-- The reads of server/services/ChatServer/src/CSession.cpp: asyncReadFull and asyncReadLen, and
-- the completion handlers of AsyncReadHead and AsyncReadBody. The peer's bytes are a stream; each
-- event is one completion of async_read_some.
use xiguchat.Prelude.{
  ℕ, zero, suc, ◌+◌, ◌-◌, ◌*◌, min, Bool, ◌||◌, Option, none, some, List, [], ◌∷◌, ltb, leb, ◌==◌,
  if◌then◌else◌, length, take, drop, replicate,
}
use xiguchat.Prelude.Text.{Text}
use xiguchat.Wire.Node.{
  MsgNode, IdNode, recv_node, memcpy, clear, max_length, head_total_len, head_id_len,
}

-- `got k` brings k + 1 bytes, or fewer if fewer are wanted or there; `failed` is an error code.
pub data ReadEvent : Type 0 where
  got : ℕ → ReadEvent
  failed : ReadEvent

-- How a full read ends: not yet, by an error, or with the bytes read, the buffer, and what is left.
pub data ReadFull : Type 0 where
  waiting : ReadFull
  broken : List ReadEvent → ReadFull
  complete : ℕ → Text → Text → List ReadEvent → ReadFull

unfoldable pub async_read_len : ℕ → ℕ → Text → Text → List ReadEvent → ReadFull
unfolding memcpy
async_read_len read_len total_len buffer stream [] = waiting
async_read_len read_len total_len buffer stream (failed ∷ events) = broken events
async_read_len read_len total_len buffer stream (got k ∷ events) =
    let bytes_transfered = min (suc k) (min (total_len - read_len) (length stream)) in
    let now = read_len + bytes_transfered in
    let filled = memcpy buffer read_len (take bytes_transfered stream) in
    let rest = drop bytes_transfered stream in
    let again = async_read_len now total_len filled rest events in
    if leb total_len now then complete now filled rest events else again

unfoldable pub async_read_full : ℕ → Text → List ReadEvent → ReadFull
unfolding async_read_len
async_read_full length stream events =
    async_read_len 0 length (replicate max_length 0) stream events

-- network_to_host_short on the two bytes at an offset.
abbrev pub network_to_host : Text → ℕ
network_to_host (high ∷ low ∷ rest) = high * 256 + low
network_to_host rest = 0

-- What a completion handler does with the session: close it and clean up, close it, read a body
-- next, or post a message and read a header next.
pub data Verdict : Type 0 where
  close_and_clean : Verdict
  close_only : Verdict
  read_body : MsgNode → IdNode → Verdict
  post : IdNode → Verdict

abbrev out_of_range : ℕ → Bool
out_of_range n = (n == 0) || ltb max_length n

body_next : MsgNode → Option IdNode → Verdict
body_next head none = close_and_clean
body_next head (some n) = read_body head n

-- The checks of a header's two numbers.
unfoldable pub accept_head : MsgNode → ℕ → ℕ → Verdict
unfolding recv_node body_next
accept_head head msg_id msg_len =
    if out_of_range msg_id
    then close_and_clean
    else if out_of_range msg_len
    then close_and_clean
    else body_next head (recv_node msg_len msg_id)

-- The handler of AsyncReadHead, after a read without an error.
unfoldable pub on_head : Bool → MsgNode → ℕ → Text → Verdict
unfolding memcpy clear accept_head
on_head check_valid recv_head_node bytes_transfered buffer =
    let cleared = clear recv_head_node in
    let head = record cleared { bytes = memcpy cleared.bytes 0 (take bytes_transfered buffer) } in
    let msg_id = network_to_host head.bytes in
    let msg_len = network_to_host (drop head_id_len head.bytes) in
    if ltb bytes_transfered head_total_len
    then close_and_clean
    else if check_valid
    then accept_head head msg_id msg_len
    else close_only

-- The handler of AsyncReadBody, after a read without an error.
unfoldable pub on_body : Bool → IdNode → ℕ → ℕ → Text → Verdict
unfolding memcpy
on_body check_valid recv_msg_node total_len bytes_transfered buffer =
    let node = recv_msg_node.node in
    let copied = memcpy node.bytes 0 (take bytes_transfered buffer) in
    if ltb bytes_transfered total_len
    then close_and_clean
    else if check_valid
    then post (record recv_msg_node {
      node = record node {
        bytes = memcpy copied node.total_len (0 ∷ []);
        cur_len = node.cur_len + bytes_transfered;
      };
    })
    else close_only

-- How a run of the reading loop ends: the count of messages is reached, the next read has not
-- completed, or the session was closed, with or without its clean-up.
pub data Reading : Type 0 where
  stopped : MsgNode → Text → List ReadEvent → Reading
  pending : Reading
  cleaned : Reading
  closed : Reading

-- The string that DealMsg makes of a message.
abbrev pub message : IdNode → ℕ × Text
message n = (n.msg_id, take n.cur_len n.bytes)

abbrev prepend : ℕ × Text → List (ℕ × Text) × Reading → List (ℕ × Text) × Reading
prepend m (ms, r) = (m ∷ ms, r)

-- What follows the verdict on a body; `loop` is the reading of the next header.
after_body :
    Verdict
    → (Text → List ReadEvent → List (ℕ × Text) × Reading)
    → Text
    → List ReadEvent
    → List (ℕ × Text) × Reading
after_body (post n) loop stream events = prepend (message n) (loop stream events)
after_body close_only loop stream events = ([], closed)
after_body _ loop stream events = ([], cleaned)

read_body_of :
    Bool
    → IdNode
    → (Text → List ReadEvent → List (ℕ × Text) × Reading)
    → ReadFull
    → List (ℕ × Text) × Reading
unfolding on_body after_body
read_body_of check_valid n loop waiting = ([], pending)
read_body_of check_valid n loop (broken events) = ([], cleaned)
read_body_of check_valid n loop (complete count buffer rest events) =
    after_body (on_body check_valid n n.total_len count buffer) loop rest events

-- What follows the verdict on a header: AsyncReadBody for the length that it announces.
after_head :
    Bool
    → Verdict
    → (MsgNode → Text → List ReadEvent → List (ℕ × Text) × Reading)
    → Text
    → List ReadEvent
    → List (ℕ × Text) × Reading
unfolding read_body_of async_read_full
after_head check_valid (read_body head n) loop stream events =
    read_body_of check_valid n (loop head) (async_read_full n.total_len stream events)
after_head check_valid close_only loop stream events = ([], closed)
after_head check_valid _ loop stream events = ([], cleaned)

read_head_of :
    Bool
    → MsgNode
    → (MsgNode → Text → List ReadEvent → List (ℕ × Text) × Reading)
    → ReadFull
    → List (ℕ × Text) × Reading
unfolding on_head after_head
read_head_of check_valid head loop waiting = ([], pending)
read_head_of check_valid head loop (broken events) = ([], cleaned)
read_head_of check_valid head loop (complete count buffer rest events) =
    after_head check_valid (on_head check_valid head count buffer) loop rest events

-- The reading loop of a session up to a count of messages: those that reach PostMsgToQue, and how
-- it ended.
unfoldable pub receive : ℕ → Bool → MsgNode → Text → List ReadEvent → List (ℕ × Text) × Reading
unfolding read_head_of async_read_full
receive zero check_valid head stream events = ([], stopped head stream events)
receive (suc count) check_valid head stream events =
    read_head_of check_valid head (receive count check_valid)
      (async_read_full head_total_len stream events)
