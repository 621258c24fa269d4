-- ===== src/Chat/Pool/Balance.antt =====
-- The number that MySqlPool keeps of its connections, over every order of the threads' sections.
use xiguchat.Prelude.{
  ℕ, zero, suc, ◌+◌, ◌^◌, ◌≤◌, ◌<◌, ◌≡◌, refl, ap, subst, Bool, true, false, ◌||◌, ◌⊎◌, inl, inr,
  some, List, [], ◌∷◌, leb, if◌then◌else◌, length, arith, Bool-cases, length-append,
}
use xiguchat.Chat.Pool.{
  SqlConnection, MySqlPool, take_front, get_connection, new_connection, return_connection,
  check_one, give_back, add_connection, Checker, idle, started, checking, holding, refill,
  connecting, joined, Run, Event, borrow, give, check, stop, drain, borrowed, give_one, check_front,
  check_step, drain_joined, step, push,
}

abbrev pub held : Checker → ℕ
held (holding timestamp left con) = 1
held _ = 0

abbrev pub is_connecting : Checker → Bool
is_connecting (connecting timestamp) = true
is_connecting _ = false

abbrev pub is_joined : Checker → Bool
is_joined joined = true
is_joined _ = false

-- The checking thread ends only when the pool stops. A reconnect is under way only below the capacity.
-- While the pool runs, connection_count is the number of the connections that wait in it, that
-- business threads hold and that the checking thread holds, and it is at most poolSize.
pub record IsBalanced (r : Run) : Type 0 where
  -- poolSize is an int.
  pub small : r.shared.pool_size < 2 ^ 31
  pub counted :
      r.shared.b_stop ≡ false
      → r.shared.connection_count ≡ length r.shared.pool + r.lent_out + held r.checker
  pub bounded : r.shared.b_stop ≡ false → r.shared.connection_count ≤ r.shared.pool_size
  pub room :
      r.shared.b_stop ≡ false
      → is_connecting r.checker ≡ true
      → r.shared.connection_count < r.shared.pool_size
  pub ended : is_joined r.checker ≡ true → r.shared.b_stop ≡ true

length-push : (p : MySqlPool) (con : SqlConnection) → length (push p con).pool ≡ length p.pool + 1
length-push p con = length-append p.pool (con ∷ [])

pub some-eq : (r r' : Run) → some r ≡ some r' → r ≡ r'
some-eq r r' e = ground arith

List-cases :
    (xs : List SqlConnection)
    → (xs ≡ []) ⊎ ((x : SqlConnection) × (ys : List SqlConnection) × (xs ≡ x ∷ ys))
List-cases [] = inl refl
List-cases (x ∷ ys) = inr (x, ys, refl)

length-front :
    (r : Run) (con : SqlConnection) (cons : List SqlConnection)
    → r.shared.pool ≡ con ∷ cons
    → length r.shared.pool ≡ suc (length cons)
length-front r con cons front = ap length front

borrowed-IsBalanced :
    (r : Run) (con : SqlConnection) (cons : List SqlConnection)
    → r.shared.pool ≡ con ∷ cons
    → IsBalanced r
    → IsBalanced (record r { shared = record r.shared { pool = cons }; lent_out = suc r.lent_out })
borrowed-IsBalanced r con cons front b = record {
  small = b.small;
  counted = λ runs. omega (arith, b.counted runs, length-front r con cons front);
  bounded = b.bounded;
  room = b.room;
  ended = b.ended;
}

give-IsBalanced :
    (r : Run) (con : SqlConnection) (now n : ℕ)
    → r.lent_out ≡ suc n
    → IsBalanced r
    → IsBalanced (record r { shared = return_connection r.shared (some con) now; lent_out = n })
unfolding return_connection
give-IsBalanced r con now n e b =
    let pushed = length-push r.shared (record con { last_oper_time = now }) in
    record {
      small = ground (arith, b.small);
      counted = λ runs. ground (arith, e, b.counted, b.bounded, b.small, pushed);
      bounded = λ runs. ground (arith, e, b.counted, b.bounded, b.small, pushed);
      room = λ runs busy. ground (arith, e, b.counted, b.bounded, b.room, b.small);
      ended = λ end. ground (arith, b.ended end);
    }

borrow-IsBalanced :
    (r r' : Run) → IsBalanced r → borrowed r (get_connection r.shared) ≡ some r' → IsBalanced r'
unfolding borrowed get_connection take_front
borrow-IsBalanced r r' b e = elim (Bool-cases r.shared.b_stop) [
  | inl stopped ↦ subst IsBalanced (ground (arith, stopped, e)) b
  | inr runs ↦ elim (List-cases r.shared.pool) [
    | inl empty ↦ ground (arith, runs, empty, e)
    | inr (con, cons, front) ↦
        subst IsBalanced (ground (arith, runs, front, e)) (borrowed-IsBalanced r con cons front b)
  ]
]

-- The checking thread moves without a connection in its hand and without a change of the pool.
moved-IsBalanced :
    (r : Run) (c : Checker)
    → held r.checker ≡ 0
    → held c ≡ 0
    → (r.shared.b_stop ≡ false
        → is_connecting c ≡ true
        → r.shared.connection_count < r.shared.pool_size)
    → (is_joined c ≡ true → r.shared.b_stop ≡ true)
    → IsBalanced r
    → IsBalanced (record r { checker = c })
moved-IsBalanced r c before after room ended b = record {
  small = b.small;
  counted = λ runs. omega (arith, b.counted runs, before, after);
  bounded = b.bounded;
  room = room;
  ended = ended;
}

held-IsBalanced :
    (r : Run) (timestamp left : ℕ) (con : SqlConnection) (cons : List SqlConnection)
    → held r.checker ≡ 0
    → r.shared.pool ≡ con ∷ cons
    → IsBalanced r
    → IsBalanced (record r {
      shared = record r.shared { pool = cons };
      checker = holding timestamp left con;
    })
held-IsBalanced r timestamp left con cons before front b = record {
  small = b.small;
  counted = λ runs. omega (arith, b.counted runs, length-front r con cons front, before);
  bounded = b.bounded;
  room = λ runs busy. ground (arith, busy);
  ended = λ end. ground (arith, end);
}

give_back-IsBalanced :
    (r : Run) (con : SqlConnection) (healthy : Bool) (timestamp left : ℕ)
    → held r.checker ≡ 1
    → IsBalanced r
    → IsBalanced
        (record r { shared = give_back r.shared con healthy; checker = checking timestamp left })
unfolding give_back
give_back-IsBalanced r con healthy timestamp left before b =
    let pushed = length-push r.shared con in
    record {
      small = ground (arith, b.small);
      counted = λ runs. ground (arith, before, b.counted, b.bounded, b.small, pushed);
      bounded = λ runs. ground (arith, before, b.counted, b.bounded, b.small, pushed);
      room = λ runs busy. ground (arith, busy);
      ended = λ end. ground (arith, end);
    }

add_connection-IsBalanced :
    (r : Run) (timestamp : ℕ)
    → is_connecting r.checker ≡ true
    → held r.checker ≡ 0
    → IsBalanced r
    → (let (p, added) = add_connection r.shared timestamp in
        IsBalanced (record r { shared = p; checker = if added then refill timestamp else idle }))
unfolding add_connection
add_connection-IsBalanced r timestamp busy before b =
    let pushed = length-append r.shared.pool (new_connection timestamp ∷ []) in
    elim (Bool-cases r.shared.b_stop) [
      | inl stopped ↦ subst IsBalanced (ground (arith, stopped)) (
          moved-IsBalanced r idle before refl (λ runs now. ground (arith, now))
            (λ end. ground (arith, end)) b)
      | inr runs ↦ rw (runs) (record {
        small = b.small;
        counted = λ _. ground (arith, before, runs, b.counted, b.room, b.small, pushed);
        bounded = λ _. ground (arith, runs, busy, b.room, b.small);
        room = λ _ again. ground (arith, again);
        ended = λ end. ground (arith, end);
      })
    ]

check-IsBalanced :
    (r r' : Run) (now : ℕ) (alive made : Bool) (c : Checker)
    → r.checker ≡ c
    → IsBalanced r
    → check_step r now alive made c ≡ some r'
    → IsBalanced r'
unfolding check_step check_front
check-IsBalanced r r' now alive made idle at b e = elim (Bool-cases r.shared.b_stop) [
  | inl stopped ↦ subst IsBalanced (ground (arith, stopped, e)) (
      moved-IsBalanced r joined (ap held at) refl (λ runs now'. ground (arith, now'))
        (λ end. ground (arith, end)) b)
  | inr runs ↦
      let asked =
        moved-IsBalanced r started (ap held at) refl (λ _ now'. ground (arith, now'))
          (λ end. ground (arith, end)) b in
      let next : Run = record r {
        shared = record r.shared { check_requested = false };
        checker = started;
      } in
      let same : next ≡ r' = ground (arith, runs, e) in
      subst IsBalanced same (record {
        small = asked.small;
        counted = asked.counted;
        bounded = asked.bounded;
        room = asked.room;
        ended = asked.ended;
      })
]
check-IsBalanced r r' now alive made started at b e =
    subst IsBalanced (some-eq (record r { checker = (checking now (length r.shared.pool)) }) r' e) (
      moved-IsBalanced r (checking now (length r.shared.pool)) (ap held at) refl
        (λ runs now'. ground (arith, now')) (λ end. ground (arith, end)) b)
check-IsBalanced r r' now alive made (checking timestamp zero) at b e =
    subst IsBalanced (some-eq (record r { checker = (refill timestamp) }) r' e) (
      moved-IsBalanced r (refill timestamp) (ap held at) refl (λ runs now'. ground (arith, now'))
        (λ end. ground (arith, end)) b)
check-IsBalanced r r' now alive made (checking timestamp (suc left)) at b e =
    elim (List-cases r.shared.pool) [
      | inl empty ↦ subst IsBalanced (ground (arith, empty, e)) (
          moved-IsBalanced r (refill timestamp) (ap held at) refl
            (λ runs now'. ground (arith, now')) (λ end. ground (arith, end)) b)
      | inr (con, cons, front) ↦
          subst IsBalanced (ground (arith, front, e))
            (held-IsBalanced r timestamp left con cons (ap held at) front b)
    ]
check-IsBalanced r r' now alive made (holding timestamp left con) at b e =
    let (con', healthy) = check_one con timestamp alive in
    subst IsBalanced (some-eq _ _ e)
      (give_back-IsBalanced r con' healthy timestamp left (ap held at) b)
check-IsBalanced r r' now alive made (refill timestamp) at b e =
    elim (Bool-cases (r.shared.b_stop || leb r.shared.pool_size r.shared.connection_count)) [
      | inl full ↦ subst IsBalanced (ground (arith, full, e)) (
          moved-IsBalanced r idle (ap held at) refl (λ runs now'. ground (arith, now'))
            (λ end. ground (arith, end)) b)
      | inr short ↦ subst IsBalanced (ground (arith, short, e)) (
          moved-IsBalanced r (connecting timestamp) (ap held at) refl
            (λ runs now'. ground (arith, short)) (λ end. ground (arith, end)) b)
    ]
check-IsBalanced r r' now alive made (connecting timestamp) at b e = elim (Bool-cases made) [
  | inl ok ↦
      subst IsBalanced (ground (arith, ok, e))
        (add_connection-IsBalanced r timestamp (ap is_connecting at) (ap held at) b)
  | inr failed ↦ subst IsBalanced (ground (arith, failed, e)) (
      moved-IsBalanced r idle (ap held at) refl (λ runs now'. ground (arith, now'))
        (λ end. ground (arith, end)) b)
]
check-IsBalanced r r' now alive made joined at b e = ground (arith, e)

drain-step :
    (r r' : Run) (c : Checker)
    → r.checker ≡ c
    → IsBalanced r
    → drain_joined r c ≡ some r'
    → IsBalanced r'
unfolding drain_joined
drain-step r r' joined at b e =
    let stopped = b.ended (ap is_joined at) in
    subst IsBalanced (some-eq _ _ e) (record {
      small = b.small;
      counted = λ runs. ground (arith, stopped, runs);
      bounded = λ runs. ground (arith, stopped, runs);
      room = λ runs busy. ground (arith, stopped, runs);
      ended = b.ended;
    })
drain-step r r' c at b e = ground (arith, e)

give-step :
    (r r' : Run) (con : SqlConnection) (now n : ℕ)
    → r.lent_out ≡ n
    → IsBalanced r
    → give_one r con now n ≡ some r'
    → IsBalanced r'
unfolding give_one
give-step r r' con now zero at b e = ground (arith, e)
give-step r r' con now (suc n) at b e =
    subst IsBalanced (some-eq _ _ e) (give-IsBalanced r con now n at b)

drain-IsBalanced : (r r' : Run) → IsBalanced r → drain_joined r r.checker ≡ some r' → IsBalanced r'
drain-IsBalanced r r' b e = drain-step r r' r.checker refl b e

-- Every section of every thread keeps the count of the pool.
pub step-IsBalanced :
    (event : Event) (r r' : Run) → IsBalanced r → step event r ≡ some r' → IsBalanced r'
unfolding step give_one
step-IsBalanced borrow r r' b e = borrow-IsBalanced r r' b e
step-IsBalanced (give con now) r r' b e = give-step r r' con now r.lent_out refl b e
step-IsBalanced (check now alive made) r r' b e =
    check-IsBalanced r r' now alive made r.checker refl b e
step-IsBalanced stop r r' b e = subst IsBalanced (some-eq _ _ e) (record {
  small = b.small;
  counted = λ runs. ground (arith, runs);
  bounded = λ runs. ground (arith, runs);
  room = λ runs busy. ground (arith, runs);
  ended = λ end. refl;
})
step-IsBalanced drain r r' b e = drain-IsBalanced r r' b e
