-- ===== src/Wire/Receive.antt =====
-- The reading loop of CSession on a stream of packets, however the network cuts it.
use xiguchat.Prelude.{
  ℕ, suc, ◌+◌, ◌-◌, ◌*◌, ◌/◌, ◌%◌, ◌≤◌, ◌<◌, min, ◌≡◌, refl, ap, ◌∙◌, true, ◌⊎◌, inl, inr,
  ltb_irrefl, leb_refl, lt→leb, List, [], ◌∷◌, ◌++◌, arith, length, take, drop, replicate,
  length-append, take-append, drop-append, take-append_of_le, drop-append_of_le, take-append-drop,
  length-take, length-drop, append_assoc, All,
}
use native.Mathlib.Nat.{zero-add}
use xiguchat.Prelude.Text.{Text}
use xiguchat.Wire.Node.{MsgNode, IdNode, memcpy, clear, packet, host_to_network, max_length}
use xiguchat.Wire.Read.{
  ReadEvent, got, failed, ReadFull, complete, async_read_len, async_read_full, close_and_clean,
  read_body, post, accept_head, on_head, on_body, message, Reading, stopped, cleaned, receive,
}

abbrev pub IsGot : ReadEvent → Type 0
IsGot (got k) = Unit
IsGot failed = ⊥

-- A write after a prefix that is already there makes the prefix longer.
take-memcpy :
    (buffer p t : Text)
    → take (length p) buffer ≡ p
    → take (length (p ++ t)) (memcpy buffer (length p) t) ≡ p ++ t
unfolding memcpy
take-memcpy buffer p t e =
    rw (e, ← append_assoc p t (drop (length p + length t) buffer)) (take-append (p ++ t) _)

-- The read of the rest s of a message of which p is there.
abbrev pub Completes : ℕ → Text → Text → ℕ → ReadFull → Type 0
Completes total whole rest spare r =
    (buffer : Text) × (events : List ReadEvent) × (r ≡ complete total buffer rest events)
    × (take total buffer ≡ whole)
    × All IsGot events
    × (spare ≤ length events)

-- The two cases of one completion: it brings all that is missing, or k + 1 bytes of it.
count_cases :
    (k p s rest : ℕ)
    → ((s ≤ suc k) × (min (suc k) (min (p + s - p) (s + rest)) ≡ s))
      ⊎ ((suc k < s) × (min (suc k) (min (p + s - p) (s + rest)) ≡ suc k))
count_cases k p s rest = omega arith

module _ (k : ℕ) (p s rest : Text) (h : suc k < length s) where
  abbrev part : Text
  part = take (suc k) s

  length-part : length part ≡ suc k
  length-part = omega (arith, length-take (suc k) s)

  count-part : length (p ++ part) ≡ length p + suc k
  count-part = omega (arith, length-append p part, length-part)

  total-part : length (p ++ part) + length (drop (suc k) s) ≡ length p + length s
  total-part = omega (arith, count-part, length-drop (suc k) s)

  whole-part : (p ++ part) ++ drop (suc k) s ≡ p ++ s
  whole-part = append_assoc p part (drop (suc k) s) ∙ ap (λ x. p ++ x) (take-append-drop (suc k) s)

async_read_len-Completes :
    (events : List ReadEvent) (p s rest buffer : Text) (spare : ℕ)
    → take (length p) buffer ≡ p
    → All IsGot events
    → length s + spare ≤ length events
    → 0 < length s
    → Completes
        (length p + length s)
        (p ++ s)
        rest
        spare
        (async_read_len (length p) (length p + length s) buffer (s ++ rest) events)
unfolding async_read_len
async_read_len-Completes [] p s rest buffer spare e g n z = absurd (omega arith)
async_read_len-Completes (failed ∷ events) p s rest buffer spare e g n z = absurd g.0
async_read_len-Completes (got k ∷ events) p s rest buffer spare e g n z =
    elim (count_cases k (length p) (length s) (length rest)) [
      | inl (all, count) ↦
          rw
            (
              length-append s rest,
              count,
              take-append s rest,
              drop-append s rest,
              leb_refl (length p + length s),
            )
            (
              memcpy buffer (length p) s,
              events,
              refl,
              rw (length-append p s) at (take-memcpy buffer p s e),
              g.1,
              omega arith,
            )
      | inr (less, count) ↦
          rw
            (
              length-append s rest,
              count,
              lt→leb (length p + suc k) (length p + length s) (omega arith),
              take-append_of_le (suc k) s rest (omega arith),
              drop-append_of_le (suc k) s rest (omega arith),
            )
            (rw (count-part k p s rest less) at (
              rw (total-part k p s rest less, whole-part k p s rest less) at
                (async_read_len-Completes events (p ++ take (suc k) s) (drop (suc k) s) rest
                  (memcpy buffer (length p) (take (suc k) s)) spare
                  (take-memcpy buffer p (take (suc k) s) e) g.1
                  (omega (arith, length-drop (suc k) s)) (omega (arith, length-drop (suc k) s)))))
    ]

-- A full read of the bytes at the head of the stream brings them into the buffer, whatever the
-- sizes of the single reads.
pub async_read_full-Completes :
    (events : List ReadEvent) (s rest : Text) (spare : ℕ)
    → All IsGot events
    → length s + spare ≤ length events
    → 0 < length s
    → Completes (length s) s rest spare (async_read_full (length s) (s ++ rest) events)
unfolding async_read_full
async_read_full-Completes events s rest spare g n z =
    rw zero-add at
      (async_read_len-Completes events [] s rest (replicate max_length 0) spare refl g n z)

-- A message id and a body that the server accepts.
pub record IsFrame (m : ℕ × Text) : Type 0 where
  pub id_positive : 0 < m.0
  pub id_fits : m.0 ≤ max_length
  pub body_positive : 0 < length m.1
  pub body_fits : length m.1 ≤ max_length

-- A fresh RecvNode.
abbrev fresh : ℕ → ℕ → IdNode
fresh len msg_id = record {
  node = record { cur_len = 0; total_len = len; bytes = replicate (len + 1) 0 };
  msg_id = msg_id;
}

accept_head-in_range :
    (head : MsgNode) (msg_id len : ℕ)
    → (0 < msg_id) × (msg_id ≤ max_length) × (0 < len) × (len ≤ max_length)
    → accept_head head msg_id len ≡ read_body head (fresh len msg_id)
unfolding accept_head
accept_head-in_range head msg_id len h = ground arith

network_to_host_lem : (n : ℕ) → n ≤ max_length → n / 256 % 256 * 256 + n % 256 ≡ n
network_to_host_lem n h = omega arith

accept_head-out_of_range :
    (head : MsgNode) (msg_id len : ℕ)
    → (msg_id ≡ 0) ⊎ (max_length < msg_id) ⊎ (len ≡ 0) ⊎ (max_length < len)
    → accept_head head msg_id len ≡ close_and_clean
unfolding accept_head
accept_head-out_of_range head msg_id len h = ground arith

network_to_host_word : (n : ℕ) → n < 65536 → n / 256 % 256 * 256 + n % 256 ≡ n
network_to_host_word n h = omega arith

on_head-packet :
    (head : MsgNode) (buffer : Text) (msg_id len : ℕ)
    → take 4 buffer ≡ host_to_network msg_id ++ host_to_network len
    → (0 < msg_id) × (msg_id ≤ max_length) × (0 < len) × (len ≤ max_length)
    → (head' : MsgNode) × (on_head true head 4 buffer ≡ read_body head' (fresh len msg_id))
unfolding on_head
on_head-packet head buffer msg_id len e h = (
  record {
    cur_len = 0;
    total_len = head.total_len;
    bytes = host_to_network msg_id ++ (host_to_network len ++ drop 4 (clear head).bytes);
  },
  rw (e, network_to_host_lem msg_id h.1, network_to_host_lem len h.3)
      (accept_head-in_range _ msg_id len h),
)

on_body-packet :
    (msg_id : ℕ) (buffer body : Text)
    → take (length body) buffer ≡ body
    → (n : IdNode) × (on_body true (fresh (length body) msg_id) (length body) (length body) buffer
        ≡ post n)
      × (message n ≡ (msg_id, body))
unfolding on_body
on_body-packet msg_id buffer body e = (
  record {
    node = record {
      cur_len = 0 + length body;
      total_len = length body;
      bytes = body ++ 0 ∷ drop (length body + 1) (body ++ drop (0 + length body) zeros);
    };
    msg_id = msg_id;
  },
  rw (ltb_irrefl (length body), e, take-append body (drop (0 + length body) zeros)) refl,
  rw zero-add
      (rw (take-append body (0 ∷ drop (length body + 1) (body ++ drop (length body) zeros)))),
)
  where
    zeros : Text
    zeros = replicate (length body + 1) 0

-- The bytes of a sequence of messages.
abbrev pub stream_of : List (ℕ × Text) → Text
stream_of [] = []
stream_of ((msg_id, body) ∷ ms) = packet msg_id body ++ stream_of ms

-- A run of the loop that posts the messages, leaves the rest and has so many events to spare.
abbrev pub Posts : List (ℕ × Text) → Text → ℕ → List (ℕ × Text) × Reading → Type 0
Posts ms rest spare r =
    (head : MsgNode) × (events : List ReadEvent) × (r ≡ (ms, stopped head rest events))
    × All IsGot events
    × (spare ≤ length events)

-- One message, and then what the loop does.
receive-packet :
    (count msg_id : ℕ) (body tail : Text) (ms : List (ℕ × Text)) (head : MsgNode) (rest : Text)
    (events : List ReadEvent) (need spare : ℕ)
    → IsFrame (msg_id, body)
    → All IsGot events
    → 4 + (length body + need) ≤ length events
    → ((head : MsgNode) (events : List ReadEvent)
        → All IsGot events
        → need ≤ length events
        → Posts ms rest spare (receive count true head tail events))
    → Posts
        ((msg_id, body) ∷ ms)
        rest
        spare
        (receive (suc count) true head (packet msg_id body ++ tail) events)
unfolding receive
receive-packet count msg_id body tail ms head rest events need spare f g n loop =
    let (buffer, events', er, et, g', n') =
      async_read_full-Completes events (host_to_network msg_id ++ host_to_network (length body))
        (body ++ tail) (length body + need) g n (omega arith) in
    let (head', eh) =
      on_head-packet head buffer msg_id (length body) et
        (f.id_positive, f.id_fits, f.body_positive, f.body_fits) in
    let (buffer', events'', er', et', g'', n'') =
      async_read_full-Completes events' body tail need g' n' f.body_positive in
    let (node, eb, em) = on_body-packet msg_id buffer' body et' in
    let (head'', last, el, gl, nl) = loop head' events'' g'' n'' in
    (head'', last, rw (er, eh, er', eb, em, el) refl, gl, nl)

-- Whatever the sizes of the reads, the server posts exactly the messages that were sent, in their
-- order, provided their ids and lengths are in range and there are as many reads as bytes.
pub receive-stream_of :
    (ms : List (ℕ × Text)) (head : MsgNode) (rest : Text) (events : List ReadEvent) (spare : ℕ)
    → All IsFrame ms
    → All IsGot events
    → length (stream_of ms) + spare ≤ length events
    → Posts ms rest spare (receive (length ms) true head (stream_of ms ++ rest) events)
unfolding receive
receive-stream_of [] head rest events spare f g n = (head, events, refl, g, omega arith)
receive-stream_of ((msg_id, body) ∷ ms) head rest events spare f g n =
    rw (append_assoc (packet msg_id body) (stream_of ms) rest) (
      receive-packet (length ms) msg_id body (stream_of ms ++ rest) ms head rest events
        (length (stream_of ms) + spare) spare f.0 g
        (omega (arith, length-append body (stream_of ms)))
        λ head' events' g' n'. receive-stream_of ms head' rest events' spare f.1 g' n')

-- A header whose id or length is 0 or above max_length ends the session, with its clean-up, before
-- a byte of a body is read.
pub receive_out_of_range :
    (count msg_id len : ℕ) (head : MsgNode) (rest : Text) (events : List ReadEvent)
    → msg_id < 65536
    → len < 65536
    → (msg_id ≡ 0) ⊎ (max_length < msg_id) ⊎ (len ≡ 0) ⊎ (max_length < len)
    → All IsGot events
    → 4 ≤ length events
    → receive (suc count) true head (host_to_network msg_id ++ (host_to_network len ++ rest)) events
      ≡ ([], cleaned)
unfolding receive on_head
receive_out_of_range count msg_id len head rest events hi hl bad g n =
    let (buffer, events', er, et, g', n') =
      async_read_full-Completes events (host_to_network msg_id ++ host_to_network len) rest 0 g
        (omega arith) (omega arith) in
    rw (
      er,
      et,
      network_to_host_word msg_id hi,
      network_to_host_word len hl,
      accept_head-out_of_range _ msg_id len bad,
    )
