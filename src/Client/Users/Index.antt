-- ===== src/Client/Users/Index.antt =====
-- client/core/usermgr.cpp: the list and the map of the friends belong together.
use xiguchat.Prelude.{
  ℕ, ◌<◌, ◌==◌, ◌≡◌, refl, sym, ◌∙◌, subst, Bool, true, false, ◌||◌, Option, none, some, List, [],
  ◌∷◌, ◌++◌, inl, inr, Bool-cases, if◌then◌else◌, arith,
}
use xiguchat.Prelude.Int.{ℤ, eqb_ℤ, eqb_ℤ→eq, eqb_ℤ_refl}
use xiguchat.Client.Users.{
  Users, FriendInfo, find_in, insert_in, edit_info, edit_found, push_friend,
}

unfoldable pub is_in : ℕ → List ℕ → Bool
is_in n [] = false
is_in n (m ∷ list) = (m == n) || is_in n list

-- What the map has for a uid is a friend of the list with this uid; the friends are made.
pub record IsIndexed (u : Users) : Type 0 where
  pub mapped :
      (uid : ℤ) (friend : ℕ)
      → find_in u.friend_map uid ≡ some friend
      → (is_in friend u.friend_list ≡ true) × ((u.infos friend).uid ≡ uid)
  pub made : (friend : ℕ) → is_in friend u.friend_list ≡ true → friend < u.next

-- A change that leaves the user as it is, and the list and the map in agreement.
pub record IsLater (u u' : Users) : Type 0 where
  pub uid : u'.uid ≡ u.uid
  pub indexed : IsIndexed u → IsIndexed u'

pub IsLater-refl : (u : Users) → IsLater u u
IsLater-refl u = record { uid = refl; indexed = λ v. v }

pub IsLater-trans : {u u' : Users} (u'' : Users) → IsLater u u' → IsLater u' u'' → IsLater u u''
IsLater-trans u'' a b = record { uid = b.uid ∙ a.uid; indexed = λ v. b.indexed (a.indexed v) }

is_in-snoc : (n m : ℕ) (list : List ℕ) → is_in n list ≡ true → is_in n (list ++ m ∷ []) ≡ true
unfolding is_in
is_in-snoc n m [] h = cc
is_in-snoc n m (k ∷ list) h = ground (arith, is_in-snoc n m list)

is_in-snoc_self : (n : ℕ) (list : List ℕ) → is_in n (list ++ n ∷ []) ≡ true
unfolding is_in
is_in-snoc_self n [] = ground arith
is_in-snoc_self n (k ∷ list) = ground (arith, is_in-snoc_self n list)

is_in-snoc_cases :
    (n m : ℕ) (list : List ℕ) → is_in n (list ++ m ∷ []) ≡ true → (is_in n list || (m == n)) ≡ true
unfolding is_in
is_in-snoc_cases n m [] h = ground (arith, h)
is_in-snoc_cases n m (k ∷ list) h = ground (arith, h, is_in-snoc_cases n m list)

find_in-insert_in :
    (map : List (ℤ × ℕ)) (uid other : ℤ) (friend : ℕ)
    → find_in (insert_in map uid friend) other
      ≡ (if eqb_ℤ uid other then some friend else find_in map other)
unfolding find_in insert_in
find_in-insert_in [] uid other friend = refl
find_in-insert_in ((key, old) ∷ map) uid other friend = elim (Bool-cases (eqb_ℤ key uid)) [
  | inl same ↦
      let e : key ≡ uid = eqb_ℤ→eq key uid same in
      rw (insert_in, same)
        (rw e (elim (Bool-cases (eqb_ℤ uid other)) [ inl a ↦ rw a refl | inr a ↦ rw a refl ]))
  | inr differs ↦
      rw (insert_in, differs)
        (elim (Bool-cases (eqb_ℤ key other)) [
          | inr b ↦ rw b (find_in-insert_in map uid other friend)
          | inl b ↦
              let e : key ≡ other = eqb_ℤ→eq key other b in
              let no : eqb_ℤ uid other ≡ false = elim (Bool-cases (eqb_ℤ uid other)) [
                | inr a ↦ a
                | inl a ↦
                    let e' : key ≡ uid = e ∙ sym (eqb_ℤ→eq uid other a) in
                    let yes' : eqb_ℤ key uid ≡ true =
                      subst (λ (z : ℤ). eqb_ℤ z uid ≡ true) (sym e') (eqb_ℤ_refl uid) in
                    cc
              ] in
              rw (b, no) refl
        ])
]

pub edit_info-IsLater :
    (friend : ℕ) (f : FriendInfo → FriendInfo) (u : Users)
    → ((info : FriendInfo) → (f info).uid ≡ info.uid)
    → IsLater u (edit_info friend f u)
edit_info-IsLater friend f u keeps = record {
  uid = refl;
  indexed = λ v. record {
    mapped = λ uid n h.
        let (listed, named) = v.mapped uid n h in
        (
          listed,
          elim (Bool-cases (n == friend)) [
            | inl here ↦ rw here (keeps (u.infos n) ∙ named)
            | inr other ↦ rw other named
          ],
        );
    made = v.made;
  };
}

pub edit_found-IsLater :
    (found : Option ℕ) (f : FriendInfo → FriendInfo) (u : Users)
    → ((info : FriendInfo) → (f info).uid ≡ info.uid)
    → IsLater u (edit_found found f u)
edit_found-IsLater none f u keeps = IsLater-refl u
edit_found-IsLater (some friend) f u keeps = edit_info-IsLater friend f u keeps

pub push_friend-IsLater : (info : FriendInfo) (u : Users) → IsLater u (push_friend info u)
push_friend-IsLater info u = record {
  uid = refl;
  indexed = λ v. record {
    mapped = λ uid n h.
        let at = find_in-insert_in u.friend_map info.uid uid u.next in
        elim (Bool-cases (eqb_ℤ info.uid uid)) [
          | inl same ↦
              let new : u.next ≡ n = ground (arith, at, same, h) in
              let here : (n == u.next) ≡ true = ground (arith, new) in
              (
                subst (λ (k : ℕ). is_in k (u.friend_list ++ u.next ∷ []) ≡ true) new
                    (is_in-snoc_self u.next u.friend_list),
                rw here (eqb_ℤ→eq info.uid uid same),
              )
          | inr other ↦
              let old : find_in u.friend_map uid ≡ some n = ground (arith, at, other, h) in
              let (listed, named) = v.mapped uid n old in
              let elsewhere : (n == u.next) ≡ false = ground (arith, v.made n listed) in
              (is_in-snoc n u.next u.friend_list listed, rw elsewhere named)
        ];
    made = λ n h. ground (arith, is_in-snoc_cases n u.next u.friend_list h, v.made n);
  };
}
