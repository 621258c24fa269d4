-- ===== src/Gate/Accounts/Registered.antt =====
-- server/services/GateServer/src/MysqlDao.cpp: an account that RegUser has made lets its user in.
use xiguchat.Prelude.{
  ◌≡◌, ◌≢◌, refl, sym, ◌∙◌, ap, Bool, true, false, ◌||◌, Option, none, some, inl, inr, Bool-cases,
  Option-cases, arith,
}
use xiguchat.Prelude.Text.{Text, is_empty}
use xiguchat.Prelude.Int.{ℤ, pos, negsuc, eqb_ℤ}
use xiguchat.Chat.Dao.{◌>>=◌}
use xiguchat.Gate.Outside.{Outside, UserRow}
use xiguchat.Gate.Dao.{
  handed_back, on_connection, hash, hash_text, insert_user, hash_and_insert, reg_user,
}
use xiguchat.Gate.Accounts.Login.{IsMember}

-- The uids that the handler takes for a failure.
abbrev pub is_failed : ℤ → Bool
is_failed uid = eqb_ℤ uid (pos 0) || eqb_ℤ uid (negsuc 0)

-- What the table user is, beside the code: the row of an email. CALL reg_user and its result make
-- the row with the uid, SELECT reads it, and a hash of libsodium fits the password that it is of.
pub record KeepsUsers (o : Outside) (row_of : Outside.State o → Text → Option UserRow)
    : Type 0 where
  pub inserted :
      (name email stored : Text) (uid : ℤ) (s : Outside.State o)
      → (o.call_reg_user name email stored s).0 ≡ some tt
      → (o.select_result (o.call_reg_user name email stored s).1).0 ≡ some (some uid)
      → is_failed uid ≡ false
      → row_of (o.select_result (o.call_reg_user name email stored s).1).1 email
        ≡ some (record { uid = uid; name = name; pwd = stored })
  pub returned :
      (healthy : Bool) (email : Text) (s : Outside.State o)
      → row_of (o.return_connection healthy s) email ≡ row_of s email
  pub connected :
      (email : Text) (s : Outside.State o) → row_of (o.get_connection s).1 email ≡ row_of s email
  pub selected :
      (email : Text) (row : Option UserRow) (s : Outside.State o)
      → (o.select_login email s).0 ≡ some row
      → row ≡ row_of s email
  pub fits :
      (pwd stored : Text) (s : Outside.State o)
      → (o.pwhash_str pwd s).0 ≡ some stored
      → o.pwhash_str_verify stored pwd ≡ true

module _ {o : Outside} {row_of : Outside.State o → Text → Option UserRow}
    (k : KeepsUsers o row_of) where
  open o use {State}

  -- A row that has been made, with the hash of the password.
  abbrev IsMade : Text → Text → Text → ℤ → State → Type 0
  IsMade name email pwd uid s =
      (stored : Text) × (row_of s email ≡ some (record { uid = uid; name = name; pwd = stored }))
      × (o.pwhash_str_verify stored pwd ≡ true)

  insert_user-IsMade :
      (name email pwd stored : Text) (uid : ℤ) (s : State)
      → (is_empty stored ≡ false → o.pwhash_str_verify stored pwd ≡ true)
      → is_failed uid ≡ false
      → (insert_user o name email stored s).0 ≡ some uid
      → IsMade name email pwd uid (insert_user o name email stored s).1
  unfolding insert_user
  insert_user-IsMade name email pwd stored uid s fits good h = elim (Bool-cases (is_empty stored)) [
    | inl failed ↦
        let e : negsuc 0 ≡ uid = ground (arith, failed, h) in
        let no : is_failed uid ≡ true = ap is_failed (sym e) in cc
    | inr hashed ↦
        let s' = (o.call_reg_user name email stored s).1 in
        elim (Option-cases (o.call_reg_user name email stored s).0) [
          | inl threw ↦ ground (arith, hashed, threw, h)
          | inr (done, called) ↦ elim (Option-cases (o.select_result s').0) [
            | inl threw ↦ ground (arith, hashed, called, threw, h)
            | inr (none, e) ↦
                let e' : negsuc 0 ≡ uid = ground (arith, hashed, called, e, h) in
                let no : is_failed uid ≡ true = ap is_failed (sym e') in cc
            | inr (some result, e) ↦
                let same : result ≡ uid = ground (arith, hashed, called, e, h) in
                let e' = e ∙ ap (λ (n : ℤ). some (some n)) same in
                (
                  stored,
                  rw (hashed) (
                      rw (◌>>=◌, called)
                        (rw (◌>>=◌, e) (k.inserted name email stored uid s called e' good))),
                  fits hashed,
                )
          ]
        ]
  ]

  hash_and_insert-IsMade :
      (name email pwd : Text) (uid : ℤ) (s : State)
      → is_failed uid ≡ false
      → (hash_and_insert o name email pwd s).0 ≡ some uid
      → IsMade name email pwd uid (hash_and_insert o name email pwd s).1
  unfolding hash_and_insert hash
  hash_and_insert-IsMade name email pwd uid s good h =
      let out = (o.pwhash_str pwd s).0 in
      let s' = (o.pwhash_str pwd s).1 in
      let fits : is_empty (hash_text out) ≡ false → o.pwhash_str_verify (hash_text out) pwd ≡ true =
        λ hashed. elim (Option-cases out) [
          | inl none_made ↦ ground (arith, none_made, hashed)
          | inr (stored, e) ↦ rw e (k.fits pwd stored s e)
        ] in
      insert_user-IsMade name email pwd (hash_text out) uid s' fits good h

  reg_user-IsMade :
      (name email pwd : Text) (uid : ℤ) (s : State)
      → is_failed uid ≡ false
      → (reg_user o name email pwd s).0 ≡ uid
      → IsMade name email pwd uid (reg_user o name email pwd s).1
  unfolding reg_user on_connection handed_back
  reg_user-IsMade name email pwd uid s good h = elim (Bool-cases (o.get_connection s).0) [
    | inr closed ↦
        let e : negsuc 0 ≡ uid = ground (arith, closed, h) in
        let no : is_failed uid ≡ true = ap is_failed (sym e) in cc
    | inl got ↦
        let s1 = (o.get_connection s).1 in
        elim (Option-cases (hash_and_insert o name email pwd s1).0) [
          | inl threw ↦
              let e : negsuc 0 ≡ uid = ground (arith, got, threw, h) in
              let no : is_failed uid ≡ true = ap is_failed (sym e) in cc
          | inr (result, e) ↦
              let same : result ≡ uid = ground (arith, got, e, h) in
              let (stored, made, fits) =
                hash_and_insert-IsMade name email pwd uid s1 good (e ∙ ap some same) in
              (
                stored,
                rw got (
                    rw (handed_back, e)
                      (k.returned true email (hash_and_insert o name email pwd s1).1 ∙ made)),
                fits,
              )
        ]
  ]

  -- After RegUser has made an account, its user is a member with the new uid whenever the row is as
  -- RegUser has left it, MySQL gives a connection and the SELECT does not throw: CheckPwd, and so the
  -- login, takes the email and the password.
  pub reg_user-IsMember :
      (name email pwd : Text) (uid : ℤ) (s later : State)
      → is_failed uid ≡ false
      → (reg_user o name email pwd s).0 ≡ uid
      → row_of later email ≡ row_of (reg_user o name email pwd s).1 email
      → (o.get_connection later).0 ≡ true
      → (o.select_login email (o.get_connection later).1).0 ≢ none
      → (row : UserRow) × (row.uid ≡ uid) × (row.name ≡ name) × IsMember o email pwd row later
  reg_user-IsMember name email pwd uid s later good h kept connected up =
      let (stored, made, fits) = reg_user-IsMade name email pwd uid s good h in
      let row : UserRow = record { uid = uid; name = name; pwd = stored } in
      let s' = (o.get_connection later).1 in
      elim (Option-cases (o.select_login email s').0) [
        | inl threw ↦ absurd (up threw)
        | inr (found, e) ↦
            let same : found ≡ some row =
              k.selected email found s' e ∙ k.connected email later ∙ kept ∙ made in
            (
              row,
              refl,
              refl,
              record { connected = connected; selected = e ∙ ap some same; fits = fits },
            )
      ]
