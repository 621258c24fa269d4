-- ===== src/Status/Choice.antt =====
-- The chat server that the StatusServer chooses.
use mathlib.Core.List.{Memᴰ}
use mathlib.Core.List.Memᴰ.{head, tail}
use xiguchat.Prelude.{
  ℕ, ◌≤◌, ◌<◌, ◌≡◌, refl, sym, ap, ◌∙◌, subst, false, ◌⊎◌, inl, inr, Option, none, some, List, [],
  ◌∷◌, arith, All, Bool-cases, Option-cases, ltb,
}
use xiguchat.Prelude.Text.{Text, is_empty}
use xiguchat.Prelude.Int.{pos}
use xiguchat.Prelude.Decimal.{to_string, int_max, from_chars-to_text}
use xiguchat.Status.{ChatServer, no_server, candidate, select, scan, get_chat_server}

module _ (count : Text → Text) where
  abbrev pub count_of : ChatServer → Option ℕ
  count_of server = candidate (count server.name) server

  -- No candidate among the servers has fewer than n connections.
  abbrev pub IsLeast : ℕ → List ChatServer → Type 0
  IsLeast n = All (λ t. (m : ℕ) → count_of t ≡ some m → n ≤ m)

  -- One of the servers, with the count that Redis has for it, and no candidate has a lower one.
  pub record IsBest (servers : List ChatServer) (s : ChatServer) : Type 0 where
    pub server : ChatServer
    pub listed : Memᴰ server servers
    pub counted : count_of server ≡ some s.con_count
    pub same : s ≡ record server { con_count = s.con_count }
    pub least : IsLeast s.con_count servers

  -- The loop from a selected server on: it stays, and nothing is lower; or a better one is found.
  IsScanned : ChatServer → List ChatServer → ChatServer → Type 0
  IsScanned selected servers s =
      ((s ≡ selected) × IsLeast selected.con_count servers)
      ⊎ (IsBest servers s × (s.con_count < selected.con_count))

  weaken-IsLeast :
      (m n : ℕ) (servers : List ChatServer) → m ≤ n → IsLeast n servers → IsLeast m servers
  weaken-IsLeast m n [] h all = tt
  weaken-IsLeast m n (t ∷ servers) h (first, rest) =
      (λ k e. omega (arith, first k e), weaken-IsLeast m n servers h rest)

  abbrev IsNamed : ChatServer → Type 0
  IsNamed server = is_empty server.name ≡ false

  found-IsBest :
      (t : ChatServer) (n : ℕ) (servers : List ChatServer) (s : ChatServer)
      → count_of t ≡ some n
      → IsScanned (record t { con_count = n }) servers s
      → IsBest (t ∷ servers) s × (s.con_count ≤ n)
  unfolding IsScanned
  found-IsBest t n servers s e (inl (same, least)) =
      let c = ap (λ (x : ChatServer). x.con_count) same in
      (
        record {
          server = t;
          listed = head refl;
          counted = e ∙ ap some (sym c);
          same = same ∙ ap (λ (k : ℕ). record t { con_count = k }) (sym c);
          least = (
            λ m e'. ground (arith, c, e, e'),
            weaken-IsLeast s.con_count n servers (omega (arith, c)) least,
          );
        },
        omega (arith, c),
      )
  found-IsBest t n servers s e (inr (best, lower)) = (
    record {
      server = best.server;
      listed = tail best.listed;
      counted = best.counted;
      same = best.same;
      least = (λ m e'. ground (arith, e, e', lower), best.least);
    },
    ground (arith, lower),
  )

  passed-IsScanned :
      (selected t : ChatServer) (servers : List ChatServer) (s : ChatServer)
      → ((m : ℕ) → count_of t ≡ some m → selected.con_count ≤ m)
      → IsScanned selected servers s
      → IsScanned selected (t ∷ servers) s
  unfolding IsScanned
  passed-IsScanned selected t servers s higher (inl (same, least)) = inl (same, (higher, least))
  passed-IsScanned selected t servers s higher (inr (best, lower)) = inr (
    record {
      server = best.server;
      listed = tail best.listed;
      counted = best.counted;
      same = best.same;
      least = (λ m e. omega (arith, higher m e, lower), best.least);
    },
    lower,
  )

  lower-IsScanned :
      (selected t : ChatServer) (n : ℕ) (servers : List ChatServer) (s : ChatServer)
      → count_of t ≡ some n
      → n < selected.con_count
      → IsScanned (record t { con_count = n }) servers s
      → IsScanned selected (t ∷ servers) s
  lower-IsScanned selected t n servers s e lower scanned =
      let (best, bound) = found-IsBest t n servers s e scanned in
      unfold IsScanned in inr (best, omega (arith, lower, bound))

  scan-IsScanned :
      (selected : ChatServer) (servers : List ChatServer)
      → IsNamed selected
      → All IsNamed servers
      → IsScanned selected servers (scan count selected servers)
  unfolding scan IsScanned select
  scan-IsScanned selected [] named all = inl (refl, tt)
  scan-IsScanned selected (t ∷ servers) named (first, all) =
      let kept = scan-IsScanned selected servers named all in
      let go =
        λ (x : ChatServer) (sel : select selected t (count_of t) ≡ x)
            (scanned : IsScanned selected (t ∷ servers) (scan count x servers)).
          subst (λ (y : ChatServer). IsScanned selected (t ∷ servers) (scan count y servers))
            (sym sel) scanned in
      elim (Option-cases (count_of t)) [
        | inl absent ↦
            go selected (rw (absent) refl)
              (passed-IsScanned selected t servers _ (λ m e. ground (arith, absent, e)) kept)
        | inr (n, e) ↦ elim (Bool-cases (ltb n selected.con_count)) [
          | inl lower ↦
              go (record t { con_count = n }) (rw (e, named, lower) refl)
                (lower-IsScanned selected t n servers _ e (ground (arith, lower))
                  (scan-IsScanned (record t { con_count = n }) servers first all))
          | inr higher ↦
              go selected (rw (e, named, higher) refl)
                (passed-IsScanned selected t servers _ (λ m e'. ground (arith, e, e', higher)) kept)
        ]
      ]

  IsChosen : List ChatServer → ChatServer → Type 0
  IsChosen servers s = ((s ≡ no_server) × All (λ t. count_of t ≡ none) servers) ⊎ IsBest servers s

  passed-IsChosen :
      (t : ChatServer) (servers : List ChatServer) (s : ChatServer)
      → count_of t ≡ none
      → IsChosen servers s
      → IsChosen (t ∷ servers) s
  unfolding IsChosen
  passed-IsChosen t servers s absent (inl (same, nobody)) = inl (same, (absent, nobody))
  passed-IsChosen t servers s absent (inr best) = inr (record {
    server = best.server;
    listed = tail best.listed;
    counted = best.counted;
    same = best.same;
    least = (λ m e. ground (arith, absent, e), best.least);
  })

  -- The service chooses, whatever the order of the servers in its map: no server if no server is a
  -- candidate (its host and port are given, and its count in Redis is a whole number that is not
  -- negative), and otherwise a candidate such that no candidate has fewer connections. Every server
  -- has a name, as the constructor of the service requires.
  pub get_chat_server-IsBest :
      (servers : List ChatServer)
      → All (λ t. is_empty t.name ≡ false) servers
      → ((get_chat_server count servers ≡ no_server) × All (λ t. count_of t ≡ none) servers)
        ⊎ IsBest servers (get_chat_server count servers)
  unfolding get_chat_server scan select IsChosen
  get_chat_server-IsBest [] all = inl (refl, tt)
  get_chat_server-IsBest (t ∷ servers) (first, all) =
      let go =
        λ (x : ChatServer) (sel : select no_server t (count_of t) ≡ x)
            (chosen : IsChosen (t ∷ servers) (scan count x servers)).
          subst (λ (y : ChatServer). IsChosen (t ∷ servers) (scan count y servers)) (sym sel)
            chosen in
      elim (Option-cases (count_of t)) [
        | inl absent ↦
            go no_server (rw (absent) refl)
              (passed-IsChosen t servers _ absent (get_chat_server-IsBest servers all))
        | inr (n, e) ↦
            go (record t { con_count = n }) (rw (e) refl)
              (inr
                (found-IsBest t n servers _ e
                  (scan-IsScanned (record t { con_count = n }) servers first all)).0)
      ]

-- The number of sessions that on_timer of a ChatServer writes with std::to_string is the count that
-- the StatusServer reads for it, if it fits an int and the host and port are given.
pub candidate-to_string :
    (n : ℕ) (server : ChatServer)
    → n ≤ int_max
    → is_empty server.host ≡ false
    → is_empty server.port ≡ false
    → candidate (to_string (pos n)) server ≡ some n
unfolding candidate to_string
candidate-to_string n server fits host port = rw (host, port, from_chars-to_text n fits) refl
