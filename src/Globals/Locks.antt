-- ===== src/Globals/Locks.antt =====
-- The table of named locks is sorted, without doubles and without overflow, as `bsearch` needs it.
use libstatgrab.Base.{
  suc, ◌+◌, ◌≤◌, ◌≡◌, refl, ap, ◌∙◌, arith, List, [], ◌∷◌, Bool, true, false, inl, inr, Ordering,
  length, Bool-cases, if◌then◌else◌,
}
use libstatgrab.Base.Bytes.{Bytes, strcmp, strcmp_refl, strcmp-flip, strcmp_trans, flip}
use libstatgrab.Globals.{found, place, find_lock, insert_lock, count_new, add_locks}

-- `a` comes before all names of a table.
abbrev pub Above : Bytes → List Bytes → Type 0
Above a [] = Unit
Above a (l ∷ locks) = (strcmp a l ≡ Ordering.lt) × Above a locks

-- Strictly ascending: sorted, and no name twice.
abbrev pub Ascending : List Bytes → Type 0
Ascending [] = Unit
Ascending (l ∷ locks) = Above l locks × Ascending locks

abbrev pub AllFound : List Bytes → List Bytes → Type 0
AllFound [] locks = Unit
AllFound (n ∷ names) locks = (find_lock n locks ≡ true) × AllFound names locks

abbrev pub Keeps : List Bytes → List Bytes → Type 0
Keeps locks locks' = (m : Bytes) → find_lock m locks ≡ true → find_lock m locks' ≡ true

Above-trans :
    (a l : Bytes) (locks : List Bytes) → strcmp a l ≡ Ordering.lt → Above l locks → Above a locks
Above-trans a l [] h above = tt
Above-trans a l (m ∷ locks) h above =
    (strcmp_trans a l m h above.0, Above-trans a l locks h above.1)

Above-place :
    (a n l : Bytes) (locks rest : List Bytes) (o : Ordering)
    → strcmp a n ≡ Ordering.lt
    → Above a (l ∷ locks)
    → Above a rest
    → Above a (place o n l locks rest)
Above-place a n l locks rest Ordering.lt h above rest_above = (h, above)
Above-place a n l locks rest Ordering.eq h above rest_above = (above.0, rest_above)
Above-place a n l locks rest Ordering.gt h above rest_above = (above.0, rest_above)

Above-insert_lock :
    (a n : Bytes) (locks : List Bytes)
    → strcmp a n ≡ Ordering.lt
    → Above a locks
    → Above a (insert_lock n locks)
Above-insert_lock a n [] h above = (h, tt)
Above-insert_lock a n (l ∷ locks) h above =
    Above-place a n l locks (insert_lock n locks) (strcmp n l) h above
      (Above-insert_lock a n locks h above.1)

place-Ascending :
    (n l : Bytes) (locks : List Bytes) (o : Ordering)
    → strcmp n l ≡ o
    → Ascending (l ∷ locks)
    → Ascending (insert_lock n locks)
    → found o (find_lock n locks) ≡ false
    → Ascending (place o n l locks (insert_lock n locks))
place-Ascending n l locks Ordering.lt e asc rest new =
    ((e, Above-trans n l locks e asc.0), (asc.0, asc.1))
place-Ascending n l locks Ordering.eq e asc rest new = cc
place-Ascending n l locks Ordering.gt e asc rest new =
    (Above-insert_lock l n locks (strcmp-flip n l ∙ ap flip e) asc.0, rest)

not_found : (o : Ordering) (b : Bool) → found o b ≡ false → b ≡ false
not_found o b h = ground arith

insert_lock-Ascending :
    (n : Bytes) (locks : List Bytes)
    → Ascending locks
    → find_lock n locks ≡ false
    → Ascending (insert_lock n locks)
insert_lock-Ascending n [] asc new = (tt, tt)
insert_lock-Ascending n (l ∷ locks) asc new =
    place-Ascending n l locks (strcmp n l) refl asc
      (insert_lock-Ascending n locks asc.1 (not_found (strcmp n l) (find_lock n locks) new)) new

found-true : (o : Ordering) → found o true ≡ true
found-true o = ground arith

found_kept :
    (o : Ordering) (a b : Bool) → (a ≡ true → b ≡ true) → found o a ≡ true → found o b ≡ true
found_kept Ordering.lt a b h g = h g
found_kept Ordering.eq a b h g = refl
found_kept Ordering.gt a b h g = h g

place_keeps :
    (m n l : Bytes) (locks rest : List Bytes) (o : Ordering)
    → (find_lock m locks ≡ true → find_lock m rest ≡ true)
    → find_lock m (l ∷ locks) ≡ true
    → find_lock m (place o n l locks rest) ≡ true
place_keeps m n l locks rest Ordering.lt h g = ap (found (strcmp m n)) g ∙ found-true (strcmp m n)
place_keeps m n l locks rest Ordering.eq h g = found_kept (strcmp m l) _ _ h g
place_keeps m n l locks rest Ordering.gt h g = found_kept (strcmp m l) _ _ h g

insert_lock-Keeps : (n : Bytes) (locks : List Bytes) → Keeps locks (insert_lock n locks)
insert_lock-Keeps n [] m h = ground arith
insert_lock-Keeps n (l ∷ locks) m h =
    place_keeps m n l locks (insert_lock n locks) (strcmp n l) (insert_lock-Keeps n locks m) h

place_finds :
    (n l : Bytes) (locks rest : List Bytes) (o : Ordering)
    → find_lock n rest ≡ true
    → find_lock n (place o n l locks rest) ≡ true
place_finds n l locks rest Ordering.lt h =
    ap (λ o. found o (find_lock n (l ∷ locks))) (strcmp_refl n)
place_finds n l locks rest Ordering.eq h = ap (found (strcmp n l)) h ∙ found-true (strcmp n l)
place_finds n l locks rest Ordering.gt h = ap (found (strcmp n l)) h ∙ found-true (strcmp n l)

find_lock-insert_lock : (n : Bytes) (locks : List Bytes) → find_lock n (insert_lock n locks) ≡ true
find_lock-insert_lock n [] = ap (λ o. found o false) (strcmp_refl n)
find_lock-insert_lock n (l ∷ locks) =
    place_finds n l locks (insert_lock n locks) (strcmp n l) (find_lock-insert_lock n locks)

length-place :
    (n l : Bytes) (locks rest : List Bytes) (o : Ordering)
    → length rest ≡ suc (length locks)
    → length (place o n l locks rest) ≡ suc (suc (length locks))
length-place n l locks rest Ordering.lt h = refl
length-place n l locks rest Ordering.eq h = ap suc h
length-place n l locks rest Ordering.gt h = ap suc h

length-insert_lock :
    (n : Bytes) (locks : List Bytes) → length (insert_lock n locks) ≡ suc (length locks)
length-insert_lock n [] = refl
length-insert_lock n (l ∷ locks) =
    length-place n l locks (insert_lock n locks) (strcmp n l) (length-insert_lock n locks)

-- One name, added where it is not there yet.
abbrev with_lock : Bytes → List Bytes → List Bytes
with_lock n locks = if find_lock n locks then locks else insert_lock n locks

with_lock_lem :
    (n : Bytes) (locks : List Bytes)
    → Ascending locks
    → Ascending (with_lock n locks)
      × Keeps locks (with_lock n locks)
      × (find_lock n (with_lock n locks) ≡ true)
with_lock_lem n locks asc = elim (Bool-cases (find_lock n locks)) [
  | inl e ↦ rw e (asc, λ m h. h, e)
  | inr e ↦ rw e (
    insert_lock-Ascending n locks asc e,
    insert_lock-Keeps n locks,
    find_lock-insert_lock n locks,
  )
]

count_new-Keeps :
    (names locks locks' : List Bytes)
    → Keeps locks locks'
    → count_new names locks' ≤ count_new names locks
unfolding count_new
count_new-Keeps [] locks locks' keeps = omega arith
count_new-Keeps (n ∷ names) locks locks' keeps =
    ground (arith, count_new-Keeps names locks locks' keeps, keeps n)

pub AllFound-Keeps :
    (names locks locks' : List Bytes)
    → Keeps locks locks'
    → AllFound names locks
    → AllFound names locks'
AllFound-Keeps [] locks locks' keeps all = tt
AllFound-Keeps (n ∷ names) locks locks' keeps all =
    (keeps n all.0, AllFound-Keeps names locks locks' keeps all.1)

-- Adding the names that a component requires to a sorted table: the table stays sorted and without
-- doubles, it keeps all names that it had, it has all names that are required, and it grows by no
-- more names than were counted beforehand, for which the block was made.
pub add_locks_lem :
    (names locks : List Bytes)
    → Ascending locks
    → Ascending (add_locks names locks)
      × Keeps locks (add_locks names locks)
      × AllFound names (add_locks names locks)
      × (length (add_locks names locks) ≤ length locks + count_new names locks)
unfolding add_locks count_new
add_locks_lem [] locks asc = (asc, λ m h. h, tt, omega arith)
add_locks_lem (n ∷ names) locks asc =
    let (asc1, keeps1, here) = with_lock_lem n locks asc in
    let (asc2, keeps2, all, room) = add_locks_lem names (with_lock n locks) asc1 in
    (
      asc2,
      λ m h. keeps2 m (keeps1 m h),
      (keeps2 n here, all),
      ground (
        arith,
        room,
        length-insert_lock n locks,
        count_new-Keeps names locks (with_lock n locks) keeps1,
      ),
    )

-- Where no name was counted, all are there.
pub count_zero : (names locks : List Bytes) → count_new names locks ≡ 0 → AllFound names locks
unfolding count_new
count_zero [] locks h = tt
count_zero (n ∷ names) locks h = elim (Bool-cases (find_lock n locks)) [
  | inl e ↦ (e, count_zero names locks (ground arith))
  | inr e ↦ absurd (ground arith)
]
