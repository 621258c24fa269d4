-- ===== src/Client/ChatService/Cut.antt =====
-- client/core/service/chatservice.cpp: how the inner loop of sendText cuts a text.
use xiguchat.Prelude.{
  ℕ, ◌≤◌, ◌≡◌, refl, ◌∙◌, Bool, true, false, ◌&&◌, [], ◌∷◌, ◌++◌, inl, inr, Bool-cases, length,
  length-append, append_assoc, arith,
}
use xiguchat.Prelude.Text.{Text}
use xiguchat.Client.ChatService.{fill_content, is_high, is_low}

abbrev pub ends_high : Text → Bool
ends_high [] = false
ends_high (c ∷ []) = is_high c
ends_high (c ∷ d ∷ rest) = ends_high (d ∷ rest)

abbrev pub starts_low : Text → Bool
starts_low [] = false
starts_low (c ∷ rest) = is_low c

-- The cut between two texts goes through a surrogate pair.
abbrev pub cuts_pair : Text → Text → Bool
cuts_pair content rest = ends_high content && starts_low rest

pub record IsFilled (fits : Text → Bool) (content text : Text) (r : Text × Text) : Type 0 where
  pub whole : r.0 ++ r.1 ≡ content ++ text
  pub fitting : fits r.0 ≡ true
  pub apart : cuts_pair r.0 r.1 ≡ false
  pub longer : length content ≤ length r.0

ends_high-snoc : (content : Text) (c : ℕ) → ends_high (content ++ c ∷ []) ≡ is_high c
ends_high-snoc [] c = refl
ends_high-snoc (x ∷ []) c = refl
ends_high-snoc (x ∷ y ∷ content) c = ends_high-snoc (y ∷ content) c

ends_high-pair : (content : Text) (c d : ℕ) → ends_high (content ++ c ∷ d ∷ []) ≡ is_high d
ends_high-pair [] c d = refl
ends_high-pair (x ∷ []) c d = refl
ends_high-pair (x ∷ y ∷ content) c d = ends_high-pair (y ∷ content) c d

-- What ends in a low surrogate ends in no high one.
is_low-not_high :
    (c d : ℕ) (rest : Text)
    → (is_high c && is_low d) ≡ true
    → (is_high d && starts_low rest) ≡ false
is_low-not_high c d rest h = ground (arith, h)

and_false : (b : Bool) → (b && false) ≡ false
and_false true = refl
and_false false = refl

module _ (fits : Text → Bool) where
  -- More content has been taken on the way.
  further :
      (content more text : Text) (r : Text × Text)
      → IsFilled fits (content ++ more) text r
      → IsFilled fits content (more ++ text) r
  further content more text r f = record {
    whole = f.whole ∙ append_assoc content more text;
    fitting = f.fitting;
    apart = f.apart;
    longer = omega (arith, f.longer, length-append content more);
  }

  stopped :
      (content text : Text)
      → fits content ≡ true
      → cuts_pair content text ≡ false
      → IsFilled fits content text (content, text)
  stopped content text fitting apart = record {
    whole = refl;
    fitting = fitting;
    apart = apart;
    longer = omega arith;
  }

  pub fill_content-IsFilled :
      (content text : Text)
      → fits content ≡ true
      → cuts_pair content text ≡ false
      → IsFilled fits content text (fill_content fits content text)
  unfolding fill_content
  fill_content-IsFilled content [] fitting apart = stopped content [] fitting apart
  fill_content-IsFilled content (c ∷ []) fitting apart =
      elim (Bool-cases (fits (content ++ c ∷ []))) [
        | inl more ↦ rw more (
            further content (c ∷ []) [] (content ++ c ∷ [], [])
              (stopped (content ++ c ∷ []) [] more (and_false (ends_high (content ++ c ∷ [])))))
        | inr full ↦ rw full (stopped content (c ∷ []) fitting apart)
      ]
  fill_content-IsFilled content (c ∷ d ∷ rest) fitting apart =
      elim (Bool-cases (is_high c && is_low d)) [
        | inl pair ↦
            rw (fill_content, pair)
              (elim (Bool-cases (fits (content ++ c ∷ d ∷ []))) [
                | inl more ↦ rw more (
                    further content (c ∷ d ∷ []) rest
                      (fill_content fits (content ++ c ∷ d ∷ []) rest)
                      (fill_content-IsFilled (content ++ c ∷ d ∷ []) rest more
                        (rw (ends_high-pair content c d) (is_low-not_high c d rest pair))))
                | inr full ↦ rw full (stopped content (c ∷ d ∷ rest) fitting apart)
              ])
        | inr single ↦
            rw (fill_content, single)
              (elim (Bool-cases (fits (content ++ c ∷ []))) [
                | inl more ↦ rw more (
                    further content (c ∷ []) (d ∷ rest)
                      (fill_content fits (content ++ c ∷ []) (d ∷ rest))
                      (fill_content-IsFilled (content ++ c ∷ []) (d ∷ rest) more
                        (rw (ends_high-snoc content c) single)))
                | inr full ↦ rw full (stopped content (c ∷ d ∷ rest) fitting apart)
              ])
      ]

  -- A round takes at least one unit, where every character fits alone.
  pub fill_content-longer :
      (c : ℕ) (rest : Text)
      → ((part : Text) → length part ≤ 2 → fits part ≡ true)
      → 1 ≤ length (fill_content fits [] (c ∷ rest)).0
  unfolding fill_content
  fill_content-longer c [] small = rw (fill_content, small (c ∷ []) (omega arith)) (omega arith)
  fill_content-longer c (d ∷ rest) small = elim (Bool-cases (is_high c && is_low d)) [
    | inl pair ↦
        let taken =
          fill_content-IsFilled (c ∷ d ∷ []) rest (small (c ∷ d ∷ []) (omega arith))
            (is_low-not_high c d rest pair) in
        rw (fill_content, pair, small (c ∷ d ∷ []) (omega arith)) (omega (arith, taken.longer))
    | inr single ↦
        let taken =
          fill_content-IsFilled (c ∷ []) (d ∷ rest) (small (c ∷ []) (omega arith)) single in
        rw (fill_content, single, small (c ∷ []) (omega arith)) (omega (arith, taken.longer))
  ]
