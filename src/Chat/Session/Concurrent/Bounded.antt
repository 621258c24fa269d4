-- ===== src/Chat/Session/Concurrent/Bounded.antt =====
-- server/services/ChatServer/src/CSession.cpp: MAX_SENDQUE bounds what waits in a session, however the
-- threads that send interleave.
use xiguchat.Prelude.{
  ℕ, suc, ◌+◌, ◌≤◌, ◌<◌, ◌≡◌, ◌≢◌, refl, subst, Option, none, some, List, [], ◌∷◌, ◌++◌, inl, inr,
  Bool-cases, length, length-append, arith, All, leb,
}
use xiguchat.Prelude.Text.{Text}
use xiguchat.Wire.Node.{short_max}
use xiguchat.Chat.Session.{Session, send_on_io_task, close_task, max_sendque, initial, run_posted}
use xiguchat.Chat.Session.Invariant.{
  count_sends-append, All-append, IsConsistent, max_callers, write-IsConsistent, run-IsConsistent,
  run_posted-ne-none,
}
use xiguchat.Chat.Session.Concurrent.{
  Caller, counts, admitted, turned_away, closing, posts_close, begin_send, advance, Shared,
  with_next, Step, sends, closes, advances, runs, writes, Reach, start, then_step,
}

-- A thread between fetch_add and the end of Send holds a place; it may be admitted.
abbrev pub held_by : Caller → ℕ
held_by (admitted msg msg_id) = 1
held_by turned_away = 1
held_by _ = 0

abbrev pub admitted_by : Caller → ℕ
admitted_by (admitted msg msg_id) = 1
admitted_by _ = 0

abbrev pub sum_of : (Caller → ℕ) → List Caller → ℕ
sum_of f [] = 0
sum_of f (caller ∷ callers) = f caller + sum_of f callers

abbrev pub CallerFits : Caller → Type 0
CallerFits (counts msg msg_id) = length msg + 4 ≤ short_max
CallerFits (admitted msg msg_id) = length msg + 4 ≤ short_max
CallerFits _ = Unit

pub record IsBounded (c : Shared) : Type 0 where
  pub consistent : IsConsistent (sum_of held_by c.callers) (sum_of admitted_by c.callers) c.session
  pub fits : All CallerFits c.callers
  pub callers : length c.callers ≤ max_callers

sum_of-append :
    (f : Caller → ℕ) (xs ys : List Caller) → sum_of f (xs ++ ys) ≡ sum_of f xs + sum_of f ys
sum_of-append f [] ys = omega arith
sum_of-append f (x ∷ xs) ys = omega (arith, sum_of-append f xs ys)

held_by-le : (caller : Caller) → held_by caller ≤ 1
held_by-le (counts msg msg_id) = omega arith
held_by-le (admitted msg msg_id) = omega arith
held_by-le turned_away = omega arith
held_by-le closing = omega arith
held_by-le posts_close = omega arith

sum_of-held_by : (callers : List Caller) → sum_of held_by callers ≤ length callers
sum_of-held_by [] = omega arith
sum_of-held_by (x ∷ xs) = omega (arith, held_by-le x, sum_of-held_by xs)

-- The same counts of another list.
recount :
    {held held' admitted admitted' : ℕ} {s : Session}
    → held ≡ held'
    → admitted ≡ admitted'
    → IsConsistent held admitted s
    → IsConsistent held' admitted' s
recount {held} {held'} {admitted} {admitted'} {s} e e' v =
    subst (λ (n : ℕ). IsConsistent n admitted' s) e (subst (λ (n : ℕ). IsConsistent held n s) e' v)

-- What one operation of a caller does to the counts; h and a are those of the other callers.
advance-IsConsistent :
    (h a : ℕ) (caller : Caller) (s : Session)
    → suc h ≤ max_callers
    → a ≤ h
    → CallerFits caller
    → IsConsistent (h + held_by caller) (a + admitted_by caller) s
    → IsConsistent
        (h + sum_of held_by (with_next (advance caller s).0 []))
        (a + sum_of admitted_by (with_next (advance caller s).0 []))
        (advance caller s).1
unfolding advance
advance-IsConsistent h a (counts msg msg_id) s few le f v =
    elim (Bool-cases (leb max_sendque s.pending_sends)) [
      | inl full ↦ rw full (ground (arith, v.counted, v.bounded, full, few))
      | inr room ↦ rw room (ground (arith, v.counted, v.bounded, room, few))
    ]
advance-IsConsistent h a (admitted msg msg_id) s few le f v = ground (
  arith,
  count_sends-append s.posted (send_on_io_task msg msg_id ∷ []),
  All-append s.posted (send_on_io_task msg msg_id ∷ []) v.fits,
)
advance-IsConsistent h a turned_away s few le f v = ground (arith, v.counted, v.bounded, few)
advance-IsConsistent h a closing s few le f v = elim (Bool-cases s.closed) [
  | inl shut ↦ rw shut (ground (arith, v.counted, v.bounded))
  | inr alive ↦ rw alive (ground (arith, v.counted, v.bounded))
]
advance-IsConsistent h a posts_close s few le f v = ground (
  arith,
  count_sends-append s.posted (close_task ∷ []),
  All-append s.posted (close_task ∷ []) v.fits,
)

sum_of-with_next :
    (f : Caller → ℕ) (next : Option Caller) (after : List Caller)
    → sum_of f (with_next next after) ≡ sum_of f (with_next next []) + sum_of f after
sum_of-with_next f none after = omega arith
sum_of-with_next f (some caller) after = omega arith

length-with_next :
    (next : Option Caller) (after : List Caller)
    → length (with_next next after) ≤ suc (length after)
length-with_next none after = omega arith
length-with_next (some caller) after = omega arith

admitted_by-le : (callers : List Caller) → sum_of admitted_by callers ≤ sum_of held_by callers
admitted_by-le [] = omega arith
admitted_by-le (counts msg msg_id ∷ callers) = omega (arith, admitted_by-le callers)
admitted_by-le (admitted msg msg_id ∷ callers) = omega (arith, admitted_by-le callers)
admitted_by-le (turned_away ∷ callers) = omega (arith, admitted_by-le callers)
admitted_by-le (closing ∷ callers) = omega (arith, admitted_by-le callers)
admitted_by-le (posts_close ∷ callers) = omega (arith, admitted_by-le callers)

fits-caller :
    (before : List Caller) (caller : Caller) (after : List Caller)
    → All CallerFits (before ++ caller ∷ after)
    → CallerFits caller
fits-caller [] caller after all = all.0
fits-caller (x ∷ before) caller after all = fits-caller before caller after all.1

fits-with_next :
    (before : List Caller) (caller : Caller) (next : Option Caller) (after : List Caller)
    → All CallerFits (before ++ caller ∷ after)
    → All CallerFits (with_next next [])
    → All CallerFits (before ++ with_next next after)
fits-with_next [] caller none after all f = all.1
fits-with_next [] caller (some next) after all f = (f.0, all.1)
fits-with_next (x ∷ before) caller next after all f =
    (all.0, fits-with_next before caller next after all.1 f)

advance-fits :
    (caller : Caller) (s : Session)
    → CallerFits caller
    → All CallerFits (with_next (advance caller s).0 [])
unfolding advance
advance-fits (counts msg msg_id) s f = elim (Bool-cases (leb max_sendque s.pending_sends)) [
  | inl full ↦ rw full (tt, tt)
  | inr room ↦ rw room (f, tt)
]
advance-fits (admitted msg msg_id) s f = tt
advance-fits turned_away s f = (tt, tt)
advance-fits closing s f = elim (Bool-cases s.closed) [
  | inl shut ↦ rw shut tt
  | inr alive ↦ rw alive (tt, tt)
]
advance-fits posts_close s f = tt

-- A new caller holds no place yet.
begin_send-new :
    (s : Session) (msg : Text) (msg_id : ℕ)
    → (sum_of held_by (with_next (begin_send s msg msg_id) []) ≡ 0)
      × (sum_of admitted_by (with_next (begin_send s msg msg_id) []) ≡ 0)
      × All CallerFits (with_next (begin_send s msg msg_id) [])
unfolding begin_send
begin_send-new s msg msg_id = ground arith

new-IsBounded :
    (s : Session) (callers : List Caller) (next : Option Caller)
    → length callers < max_callers
    → (sum_of held_by (with_next next []) ≡ 0)
      × (sum_of admitted_by (with_next next []) ≡ 0)
      × All CallerFits (with_next next [])
    → IsBounded (record { session = s; callers = callers })
    → IsBounded (record { session = s; callers = with_next next callers })
new-IsBounded s callers none room new b = b
new-IsBounded s callers (some caller) room (held, given, f) b = record {
  consistent = recount (omega (arith, held)) (omega (arith, given)) b.consistent;
  fits = (f.0, b.fits);
  callers = omega (arith, room);
}

advance-IsBounded :
    (s : Session) (before : List Caller) (caller : Caller) (after : List Caller)
    → IsBounded (record { session = s; callers = before ++ caller ∷ after })
    → IsBounded (record {
      session = (advance caller s).1;
      callers = before ++ with_next (advance caller s).0 after;
    })
advance-IsBounded s before caller after b =
    let next = (advance caller s).0 in
    let h : (Caller → ℕ) → ℕ = λ f. sum_of f before + sum_of f after in
    let apart : (f : Caller → ℕ) → sum_of f (before ++ caller ∷ after) ≡ h f + f caller =
      λ f. omega (arith, sum_of-append f before (caller ∷ after)) in
    let joined : (f : Caller → ℕ)
        → h f + sum_of f (with_next next []) ≡ sum_of f (before ++ with_next next after) =
      λ f.
        omega
          (arith, sum_of-append f before (with_next next after), sum_of-with_next f next after) in
    let long = length-append before (caller ∷ after) in
    let few : suc (h held_by) ≤ max_callers =
      omega (arith, long, b.callers, sum_of-held_by before, sum_of-held_by after) in
    let le : h admitted_by ≤ h held_by =
      omega (arith, admitted_by-le before, admitted_by-le after) in
    let f = fits-caller before caller after b.fits in
    record {
      consistent = recount (joined held_by) (joined admitted_by) (
          advance-IsConsistent (h held_by) (h admitted_by) caller s few le f
            (recount (apart held_by) (apart admitted_by) b.consistent));
      fits = fits-with_next before caller next after b.fits (advance-fits caller s f);
      callers = omega (
        arith,
        long,
        b.callers,
        length-append before (with_next next after),
        length-with_next next after,
      );
    }

Step-IsBounded : {c d : Shared} → Step c d → IsBounded c → IsBounded d
Step-IsBounded (sends s callers msg msg_id room) b =
    new-IsBounded s callers (begin_send s msg msg_id) room (begin_send-new s msg msg_id) b
Step-IsBounded (closes s callers room) b =
    new-IsBounded s callers (some closing) room (refl, refl, (tt, tt)) b
Step-IsBounded (advances s before caller after) b = advance-IsBounded s before caller after b
Step-IsBounded (runs s t callers e) b = record {
  consistent = run-IsConsistent s t s.posted refl e b.consistent;
  fits = b.fits;
  callers = b.callers;
}
Step-IsBounded (writes s callers error busy) b = record {
  consistent = write-IsConsistent s error busy b.consistent;
  fits = b.fits;
  callers = b.callers;
}

-- However up to 2 ^ 32 threads in Send and Close interleave their single operations with each other and
-- with the callbacks of the IO thread: pending_sends is the number of the posted and the queued messages
-- and of the threads between their fetch_add and the end of their Send; the posted and the queued
-- messages, with those that threads have been admitted for, are at most max_sendque; at most one
-- async_write is under way, and the head of the queue stays there for it; an open session with a queue
-- is being written; and the next callback throws nothing.
pub Reach-IsBounded :
    {c : Shared} → Reach c → IsBounded c × (run_posted c.session c.session.posted ≢ none)
Reach-IsBounded start = (
  record {
    consistent = record {
      counted = omega arith;
      bounded = omega arith;
      within = omega arith;
      few = omega arith;
      single = omega arith;
      backed = omega arith;
      live = λ e. omega arith;
      fits = tt;
    };
    fits = tt;
    callers = omega arith;
  },
  run_posted-ne-none initial [] tt,
)
Reach-IsBounded (then_step {d} r step) =
    let b = Step-IsBounded step (Reach-IsBounded r).0 in
    (b, run_posted-ne-none d.session d.session.posted b.consistent.fits)
