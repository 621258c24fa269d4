-- ===== src/Chat/Dao/Paging/Cursor.antt =====
-- The cursor of GetChatThreads over the ids of a user's chats.
use xiguchat.Prelude.{
  ◌≤◌, ◌≡◌, refl, sym, ap, ◌∙◌, subst, true, List, [], ◌∷◌, ◌++◌, append_assoc, arith,
  if◌then◌else◌, length, All,
}
use xiguchat.Prelude.Int.{ℤ, ltb_ℤ, ltb_ℤ_asym, ltb_ℤ_irrefl}
use xiguchat.Chat.Data.{ChatThreadInfo}

-- The rows of a user with a thread_id above the cursor, and the cursor that a page gives.
abbrev pub above : ℤ → List ChatThreadInfo → List ChatThreadInfo
above last [] = []
above last (row ∷ rows) =
    let rest = above last rows in if ltb_ℤ last row.thread_id then row ∷ rest else rest

abbrev pub last_id : ℤ → List ChatThreadInfo → ℤ
last_id last [] = last
last_id last (thread ∷ threads) = last_id thread.thread_id threads

-- ORDER BY thread_id, which is a key.
abbrev pub IsAscending : List ChatThreadInfo → Type 0
IsAscending [] = Unit
IsAscending (row ∷ rows) =
    All (λ other. ltb_ℤ row.thread_id other.thread_id ≡ true) rows × IsAscending rows

pub above_whole :
    (last : ℤ) (rows : List ChatThreadInfo)
    → All (λ other. ltb_ℤ last other.thread_id ≡ true) rows
    → above last rows ≡ rows
above_whole last [] all = refl
above_whole last (row ∷ rows) (here, rest) =
    rw (here) (ap (λ l. row ∷ l) (above_whole last rows rest))

All-middle :
    (P : ChatThreadInfo → Type 0) (pre : List ChatThreadInfo) (x : ChatThreadInfo)
    (tail : List ChatThreadInfo)
    → All P (pre ++ x ∷ tail)
    → P x
All-middle P [] x tail (here, rest) = here
All-middle P (y ∷ pre) x tail (here, rest) = All-middle P pre x tail rest

-- Above the id of an entry are the entries behind it.
above-split :
    (pre : List ChatThreadInfo) (x : ChatThreadInfo) (tail : List ChatThreadInfo)
    → IsAscending (pre ++ x ∷ tail)
    → above x.thread_id (pre ++ x ∷ tail) ≡ tail
above-split [] x tail (all, ascending) =
    rw (ltb_ℤ_irrefl x.thread_id) (above_whole x.thread_id tail all)
above-split (y ∷ pre) x tail (all, ascending) =
    let smaller = All-middle (λ other. ltb_ℤ y.thread_id other.thread_id ≡ true) pre x tail all in
    rw (ltb_ℤ_asym y.thread_id x.thread_id smaller) (above-split pre x tail ascending)

last_id-append :
    (last : ℤ) (pre : List ChatThreadInfo) (x : ChatThreadInfo)
    → last_id last (pre ++ x ∷ []) ≡ x.thread_id
last_id-append last [] x = refl
last_id-append last (y ∷ pre) x = last_id-append y.thread_id pre x

-- A list that is not empty ends with an entry.
snoc-cases :
    (y : ChatThreadInfo) (l : List ChatThreadInfo)
    → (pre : List ChatThreadInfo) × (x : ChatThreadInfo) × (y ∷ l ≡ pre ++ x ∷ [])
snoc-cases y [] = ([], y, refl)
snoc-cases y (z ∷ l) = let (pre, x, e) = snoc-cases z l in (y ∷ pre, x, ap (λ r. y ∷ r) e)

-- After a page that is not empty, the cursor stands before the rest.
above-last_id :
    (last : ℤ) (before : List ChatThreadInfo) (y : ChatThreadInfo) (page rest : List ChatThreadInfo)
    → IsAscending (before ++ (y ∷ page) ++ rest)
    → above (last_id last (y ∷ page)) (before ++ (y ∷ page) ++ rest) ≡ rest
above-last_id last before y page rest ascending =
    let (pre, x, e) = snoc-cases y page in
    let shape : before ++ (y ∷ page) ++ rest ≡ (before ++ pre) ++ x ∷ rest =
      ap (λ l. before ++ l ++ rest) e
      ∙ ap (λ l. l ++ rest) (sym (append_assoc before pre (x ∷ [])))
      ∙ append_assoc (before ++ pre) (x ∷ []) rest in
    let cursor : last_id last (y ∷ page) ≡ x.thread_id =
      ap (last_id last) e ∙ last_id-append last pre x in
    ap (λ c. above c (before ++ (y ∷ page) ++ rest)) cursor
    ∙ ap (above x.thread_id) shape
    ∙ above-split (before ++ pre) x rest (subst IsAscending shape ascending)

pub cursor-rest :
    (last : ℤ) (before page rest rows : List ChatThreadInfo)
    → IsAscending rows
    → rows ≡ before ++ page ++ rest
    → 1 ≤ length page
    → above (last_id last page) rows ≡ rest
cursor-rest last before [] rest rows ascending split filled = ground (arith, filled)
cursor-rest last before (y ∷ page) rest rows ascending split filled =
    ap (above (last_id last (y ∷ page))) split
    ∙ above-last_id last before y page rest (subst IsAscending split ascending)
