-- ===== src/Gate/Table/Unique.antt =====
-- backup/xigu.sql: the accounts that reg_user makes are apart.
use xiguchat.Prelude.{
  ℕ, suc, ◌≤◌, ◌<◌, ◌≡◌, refl, Bool, true, false, some, List, [], ◌∷◌, ◌++◌, inl, inr, Bool-cases,
  All, arith,
}
use xiguchat.Prelude.Text.{Text}
use xiguchat.Gate.Table.{User, Tables, has_name, has_email, reg_user_procedure, user_of_email}

module _ (same : Text → Text → Bool) where
  -- Of two users the later one has another name, another email and a higher uid.
  pub record IsApart (user later : User) : Type 0 where
    pub name : same user.name later.name ≡ false
    pub email : same user.email later.email ≡ false
    pub uid : user.uid < later.uid

  unfoldable pub IsUnique : List User → Type 0
  IsUnique [] = Unit
  IsUnique (user ∷ users) = All (IsApart user) users × IsUnique users

  pub record IsTable (t : Tables) : Type 0 where
    pub unique : IsUnique t.users
    pub numbered : All (λ user. user.uid ≤ t.user_id) t.users

  All-snoc :
      (P : User → Type 0) (users : List User) (user : User)
      → All P users
      → P user
      → All P (users ++ user ∷ [])
  All-snoc P [] user all p = (p, tt)
  All-snoc P (u ∷ users) user (here, rest) p = (here, All-snoc P users user rest p)

  raised :
      (n : ℕ) (users : List User)
      → All (λ user. user.uid ≤ n) users
      → All (λ user. user.uid ≤ suc n) users
  raised n [] all = tt
  raised n (user ∷ users) (here, rest) = (omega (arith, here), raised n users rest)

  IsUnique-snoc :
      (users : List User) (user : User) (n : ℕ)
      → IsUnique users
      → has_name same user.name users ≡ false
      → has_email same user.email users ≡ false
      → All (λ u. u.uid ≤ n) users
      → n < user.uid
      → IsUnique (users ++ user ∷ [])
  unfolding IsUnique has_name has_email
  IsUnique-snoc [] user n unique no_name no_email below above = (tt, tt)
  IsUnique-snoc (u ∷ users) user n (apart, unique) no_name no_email (here, below) above = (
    All-snoc (IsApart u) users user apart (record {
      name = ground (arith, no_name);
      email = ground (arith, no_email);
      uid = omega (arith, here, above);
    }),
    IsUnique-snoc users user n unique (ground (arith, no_name)) (ground (arith, no_email)) below
        above,
  )

  -- Each call of reg_user keeps the users apart: no two of them have the same name, the same email or
  -- the same uid, and no uid is above the last one that was given.
  pub reg_user_procedure-IsTable :
      (broken : Bool) (name email pwd : Text) (t : Tables)
      → IsTable t
      → IsTable (reg_user_procedure same broken name email pwd t)
  unfolding reg_user_procedure
  reg_user_procedure-IsTable true name email pwd t v = record {
    unique = v.unique;
    numbered = v.numbered;
  }
  reg_user_procedure-IsTable false name email pwd t v =
      elim (Bool-cases (has_name same name t.users)) [
        | inl taken ↦ rw taken (record { unique = v.unique; numbered = v.numbered })
        | inr free ↦ elim (Bool-cases (has_email same email t.users)) [
          | inl taken ↦ rw (free, taken) (record { unique = v.unique; numbered = v.numbered })
          | inr new ↦
              let user : User = record {
                uid = suc t.user_id;
                name = name;
                email = email;
                pwd = pwd;
              } in
              rw (free, new)
                (record {
                  unique =
                      IsUnique-snoc t.users user t.user_id v.unique free new v.numbered
                        (omega arith);
                  numbered =
                      All-snoc (λ u. u.uid ≤ suc t.user_id) t.users user
                        (raised t.user_id t.users v.numbered) (omega arith);
                })
        ]
      ]

  -- A new user is found by its email.
  pub user_of_email-snoc :
      (users : List User) (user : User)
      → has_email same user.email users ≡ false
      → same user.email user.email ≡ true
      → user_of_email same user.email (users ++ user ∷ []) ≡ some user
  unfolding user_of_email has_email
  user_of_email-snoc [] user new h = rw h refl
  user_of_email-snoc (u ∷ users) user new h =
      let other : same u.email user.email ≡ false = ground (arith, new) in
      let rest : has_email same user.email users ≡ false = ground (arith, new) in
      rw other (user_of_email-snoc users user rest h)
