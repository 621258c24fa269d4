-- ===== src/Client/Tcp/Reassembly.antt =====
-- TcpMgr's receive buffer puts the messages together again, however the network cuts them.
use xiguchat.Prelude.{
  ℕ, zero, suc, ◌+◌, ◌*◌, ◌/◌, ◌%◌, ◌≤◌, ◌<◌, ◌≡◌, refl, sym, ap, ◌∙◌, subst, Bool, true, false,
  ◌⊎◌, inl, inr, List, [], ◌∷◌, ◌++◌, arith, ltb, Bool-cases, ltb→lt, length, take, drop,
  length-append, length-drop, take-append, drop-append, take-append_of_le, drop-append_of_le,
  append_assoc, append-nil, All,
}
use xiguchat.Prelude.Text.{Text}
use xiguchat.Wire.Receive.{stream_of}
use xiguchat.Client.Tcp.{
  TcpMgr, initial, Round, returns, handles, take_body, round, drain, ready_read, feed,
}

-- A message whose id and length fit the header.
pub record IsWord (m : ℕ × Text) : Type 0 where
  pub id_fits : m.0 < 65536
  pub body_fits : length m.1 < 65536

-- The messages still to come are in the buffer and the bytes t that are still to arrive: at a
-- header, or at the body of the first one.
abbrev AtBody : TcpMgr → Text → Text → List (ℕ × Text) → Type 0
AtBody s t body ms = (s.message_len ≡ length body) × (s.buffer ++ t ≡ body ++ stream_of ms)

abbrev View : TcpMgr → Text → List (ℕ × Text) → Type 0
View s t ms =
    ((s.recv_pending ≡ false) × (s.buffer ++ t ≡ stream_of ms))
    ⊎ ((body : Text) × (later : List (ℕ × Text)) × (s.recv_pending ≡ true)
        × (ms ≡ (s.message_id, body) ∷ later)
        × AtBody s t body later)

abbrev measure : TcpMgr → ℕ
measure s = length s.buffer + (elim s.recv_pending [ true ↦ 1 | false ↦ 0 ])

split_at :
    (xs t ys u : Text)
    → xs ++ t ≡ ys ++ u
    → length ys ≤ length xs
    → (take (length ys) xs ≡ ys) × (drop (length ys) xs ++ t ≡ u)
split_at xs t ys u e h = (
  sym (take-append_of_le (length ys) xs t h) ∙ ap (take (length ys)) e ∙ take-append ys u,
  sym (drop-append_of_le (length ys) xs t h) ∙ ap (drop (length ys)) e ∙ drop-append ys u,
)

-- What a round does at messages ms of which t has not arrived.
abbrev Turns : ℕ → Text → List (ℕ × Text) → Round → Type 0
Turns bound t ms r =
    ((s : TcpMgr) × (r ≡ returns s) × View s t ms × (t ≡ [] → ms ≡ []))
    ⊎ ((body : Text) × (msg_id : ℕ) × (later : List (ℕ × Text)) × (s : TcpMgr) × (r
          ≡ handles msg_id body s)
        × (ms ≡ (msg_id, body) ∷ later)
        × View s t later
        × (measure s < bound))

take_body-Turns :
    (s : TcpMgr) (t body : Text) (later : List (ℕ × Text))
    → AtBody s t body later
    → Turns (suc (length s.buffer)) t ((s.message_id, body) ∷ later) (take_body s)
unfolding take_body
take_body-Turns s t body later (len, e) = elim (Bool-cases (ltb (length s.buffer) s.message_len)) [
  | inl short ↦ inl (
    record s { recv_pending = true },
    rw short,
    inr (body, later, refl, refl, (len, e)),
    λ none_left. absurd (
        omega (
          arith,
          ltb→lt _ _ short,
          ap length e,
          length-append s.buffer t,
          length-append body (stream_of later),
          ap length none_left,
        )),
  )
  | inr enough ↦
      let halves = split_at s.buffer t body (stream_of later) e (ground arith) in
      inr (
        body,
        s.message_id,
        later,
        record s { recv_pending = false; buffer = drop s.message_len s.buffer },
        rw (enough, len, halves.0),
        refl,
        inl (refl, rw len halves.1),
        omega (arith, length-drop s.message_len s.buffer),
      )
]

word : (n : ℕ) → n < 65536 → n / 256 % 256 * 256 + n % 256 ≡ n
word n h = omega arith

-- A header in the buffer is that of the first message.
head-Turns :
    (s : TcpMgr) (a b c d : ℕ) (rest t : Text) (ms : List (ℕ × Text))
    → All IsWord ms
    → a ∷ b ∷ c ∷ d ∷ (rest ++ t) ≡ stream_of ms
    → Turns (suc (length rest)) t ms (
        take_body (record s { buffer = rest; message_id = a * 256 + b; message_len = c * 256 + d }))
head-Turns s a b c d rest t [] w e = absurd (cc)
head-Turns s a b c d rest t ((msg_id, body) ∷ later) w e =
    let id_is : a * 256 + b ≡ msg_id = omega (arith, word msg_id w.0.id_fits, ea, eb) in
    let len_is : c * 256 + d ≡ length body =
      omega (arith, word (length body) w.0.body_fits, ec, ed) in
    rw id_is (
      take_body-Turns (record s { buffer = rest; message_id = msg_id; message_len = c * 256 + d }) t
        body later (len_is, et))
  where
    ea : a ≡ msg_id / 256 % 256
    ea = ground arith

    eb : b ≡ msg_id % 256
    eb = ground arith

    ec : c ≡ length body / 256 % 256
    ec = ground arith

    ed : d ≡ length body % 256
    ed = ground arith

    et : rest ++ t ≡ body ++ stream_of later
    et = ground arith

-- With less than a header there is nothing more to do, and nothing is left if all has arrived.
short-Turns :
    (s : TcpMgr) (bound : ℕ) (t : Text) (ms : List (ℕ × Text))
    → length s.buffer < 4
    → s.recv_pending ≡ false
    → s.buffer ++ t ≡ stream_of ms
    → Turns bound t ms (returns s)
short-Turns s bound t [] h p e = inl (s, refl, inl (p, e), λ _. refl)
short-Turns s bound t ((msg_id, body) ∷ later) h p e = inl (
  s,
  refl,
  inl (p, e),
  λ none_left. absurd (omega (arith, ap length e, ap length none_left, length-append s.buffer t)),
)

Turns-mono :
    (m n : ℕ) (t : Text) (ms : List (ℕ × Text)) (r : Round)
    → m ≤ n
    → Turns m t ms r
    → Turns n t ms r
Turns-mono m n t ms r h (inl x) = inl x
Turns-mono m n t ms r h (inr (body, msg_id, later, s, er, em, v, less)) =
    inr (body, msg_id, later, s, er, em, v, omega arith)

abbrev tcp : Text → Bool → ℕ → ℕ → TcpMgr
tcp buffer pending msg_id len = record {
  buffer = buffer;
  recv_pending = pending;
  message_id = msg_id;
  message_len = len;
}

at_head :
    (buffer : Text) (msg_id len : ℕ) (t : Text) (ms : List (ℕ × Text))
    → All IsWord ms
    → buffer ++ t ≡ stream_of ms
    → Turns (length buffer) t ms (round (tcp buffer false msg_id len))
unfolding round
at_head (a ∷ b ∷ c ∷ d ∷ rest) msg_id len t ms w e =
    Turns-mono (suc (length rest)) _ t ms _ (omega arith)
      (head-Turns (tcp (a ∷ b ∷ c ∷ d ∷ rest) false msg_id len) a b c d rest t ms w e)
at_head [] msg_id len t ms w e = short-Turns _ _ t ms (omega arith) refl e
at_head (a ∷ []) msg_id len t ms w e = short-Turns _ _ t ms (omega arith) refl e
at_head (a ∷ b ∷ []) msg_id len t ms w e = short-Turns _ _ t ms (omega arith) refl e
at_head (a ∷ b ∷ c ∷ []) msg_id len t ms w e = short-Turns _ _ t ms (omega arith) refl e

round-Turns :
    (buffer : Text) (pending : Bool) (msg_id len : ℕ) (t : Text) (ms : List (ℕ × Text))
    → All IsWord ms
    → View (tcp buffer pending msg_id len) t ms
    → Turns (measure (tcp buffer pending msg_id len)) t ms (round (tcp buffer pending msg_id len))
unfolding round
round-Turns buffer false msg_id len t ms w (inl (p, e)) =
    Turns-mono (length buffer) _ t ms _ (omega arith) (at_head buffer msg_id len t ms w e)
round-Turns buffer true msg_id len t ms w (inl (p, e)) = absurd (cc)
round-Turns buffer false msg_id len t ms w (inr (body, later, p, em, at)) = absurd (cc)
round-Turns buffer true msg_id len t ms w (inr (body, later, p, em, at)) = rw em (
    Turns-mono (suc (length buffer)) _ t _ _ (omega arith)
      (take_body-Turns (tcp buffer true msg_id len) t body later at))

-- What the loop does: it handles messages done, and what is later stays in view.
abbrev Drains : Text → List (ℕ × Text) → TcpMgr × List (ℕ × Text) → Type 0
Drains t ms r =
    (later : List (ℕ × Text)) × (ms ≡ r.1 ++ later)
    × View r.0 t later
    × (t ≡ [] → later ≡ [])
    × All IsWord later

tail_words :
    (ms : List (ℕ × Text)) (msg_id : ℕ) (body : Text) (rest : List (ℕ × Text))
    → ms ≡ (msg_id, body) ∷ rest
    → All IsWord ms
    → All IsWord rest
tail_words ms msg_id body rest e w = (subst (All IsWord) e w).1

drain-Drains :
    (fuel : ℕ) (s : TcpMgr) (t : Text) (ms : List (ℕ × Text))
    → measure s < fuel
    → All IsWord ms
    → View s t ms
    → Drains t ms (drain fuel s)
unfolding drain
drain-Drains zero s t ms f w v = absurd (omega arith)
drain-Drains (suc fuel) s t ms f w v =
    elim (round-Turns s.buffer s.recv_pending s.message_id s.message_len t ms w v) [
      | inl (s', er, v', done) ↦ rw (er, drain) (ms, refl, v', done, w)
      | inr (body, msg_id, rest, s', er, em, v', less) ↦
          let (later, el, vl, dl, wl) =
            drain-Drains fuel s' t rest (omega arith) (tail_words ms msg_id body rest em w) v' in
          rw (er, drain) (later, em ∙ ap (λ x. (msg_id, body) ∷ x) el, vl, dl, wl)
    ]

extend :
    (s : TcpMgr) (chunk t : Text) (ms : List (ℕ × Text))
    → View s (chunk ++ t) ms
    → View (record s { buffer = s.buffer ++ chunk }) t ms
extend s chunk t ms (inl (p, e)) = inl (p, append_assoc s.buffer chunk t ∙ e)
extend s chunk t ms (inr (body, later, p, em, (len, e))) =
    inr (body, later, p, em, (len, append_assoc s.buffer chunk t ∙ e))

abbrev pub joined : List Text → Text
joined [] = []
joined (chunk ∷ chunks) = chunk ++ joined chunks

measure_fits :
    (s : TcpMgr) (pending : Bool)
    → s.recv_pending ≡ pending
    → measure s < suc (suc (length s.buffer))
measure_fits s true e = rw e (omega arith)
measure_fits s false e = rw e (omega arith)

no_bytes : (ms : List (ℕ × Text)) → stream_of ms ≡ [] → ms ≡ []
no_bytes [] e = refl
no_bytes (m ∷ ms) e = absurd (cc)

at_rest : (s : TcpMgr) → View s [] [] → (s.buffer ≡ []) × (s.recv_pending ≡ false)
at_rest s (inl (p, e)) = (sym (append-nil s.buffer) ∙ e, p)
at_rest s (inr (body, later, p, em, at)) = absurd (cc)

feed-Drains :
    (chunks : List Text) (s : TcpMgr) (ms : List (ℕ × Text))
    → All IsWord ms
    → View s (joined chunks) ms
    → (chunks ≡ [] → ms ≡ [])
    → (r : TcpMgr) × (feed s chunks ≡ (r, ms)) × View r [] []
unfolding feed ready_read
feed-Drains [] s ms w v d = (s, rw (d refl), subst (View s []) (d refl) v)
feed-Drains (chunk ∷ chunks) s ms w v d =
    let (later, e, v', d', w') =
      drain-Drains (suc (suc (length (s.buffer ++ chunk))))
        (record s { buffer = s.buffer ++ chunk }) (joined chunks) ms
        (measure_fits (record s { buffer = s.buffer ++ chunk }) s.recv_pending refl) w
        (extend s chunk (joined chunks) ms v) in
    let (r, er, vr) =
      feed-Drains chunks (ready_read s chunk).0 later w' v'
        (λ none_left. d' (ap joined none_left)) in
    (r, rw er (ap (λ m. (r, m)) (sym e)), vr)

-- Fed with the bytes of messages whose ids and lengths fit two bytes, cut into chunks in any way, a
-- new TcpMgr hands exactly these messages to handleMsg, in their order, and ends with an empty
-- buffer and no message pending.
pub feed-stream_of :
    (ms : List (ℕ × Text)) (chunks : List Text)
    → All IsWord ms
    → joined chunks ≡ stream_of ms
    → (s : TcpMgr) × (feed initial chunks ≡ (s, ms)) × (s.buffer ≡ []) × (s.recv_pending ≡ false)
feed-stream_of ms chunks w e =
    let (s, es, v) =
      feed-Drains chunks initial ms w (inl (refl, e))
        (λ none. no_bytes ms (sym e ∙ ap joined none)) in
    let (empty, idle) = at_rest s v in (s, es, empty, idle)
