-- ===== src/Disk/Filesystems/Sorting.antt =====
-- `sg_set_valid_filesystems` and `is_valid_fs_type`: the list is sorted and has the given types.
use libstatgrab.Base.{
  ◌≡◌, ◌≢◌, refl, ap, subst, sym, ◌∙◌, arith, false, ◌||◌, List, [], ◌∷◌, map, Option, none, some,
  Ordering, ◌⊎◌, inl, inr, Bool-cases,
}
use libstatgrab.Base.Bytes.{Bytes, strcmp, strcmp-flip, strcmp_eq, strcmp_trans, flip}
use libstatgrab.Error.{World, no_error, malloc, sg_set_error_with_errno_fmt}
use libstatgrab.Error.Slot.{set_SameRest}
use libstatgrab.Tools.Alloc.{malloc-fault}
use libstatgrab.Error.Codes.{SgError, error_none, error_malloc}
use libstatgrab.Tools.Strings.{sg_update_string}
use libstatgrab.Tools.Strings.Updates.{Updated, update_string_lem}
use libstatgrab.Disk.Filesystems.Search.{
  NotAbove, NotAboveAll, IsSorted, same_text, named_in, is_valid_fs_type_lem,
}
use libstatgrab.Disk.Filesystems.{
  lower, strcasecmp, put, insert_name, sort_names, is_valid_fs_type, keep_name, copy_name,
  copy_names, list_copied, sg_set_valid_filesystems,
}

trans_by :
    (a b c : Bytes) (o p : Ordering)
    → strcmp a b ≡ o
    → strcmp b c ≡ p
    → o ≢ Ordering.gt
    → p ≢ Ordering.gt
    → strcmp a c ≢ Ordering.gt
trans_by a b c Ordering.gt p e f h k g = h refl
trans_by a b c Ordering.eq p e f h k g =
    k (sym f ∙ subst (λ x. strcmp x c ≡ Ordering.gt) (strcmp_eq a b e) g)
trans_by a b c Ordering.lt Ordering.gt e f h k g = k refl
trans_by a b c Ordering.lt Ordering.eq e f h k g =
    h (sym e ∙ subst (λ x. strcmp a x ≡ Ordering.gt) (sym (strcmp_eq b c f)) g)
trans_by a b c Ordering.lt Ordering.lt e f h k g = let bad = sym (strcmp_trans a b c e f) ∙ g in cc

NotAbove-trans : (a b c : Bytes) → NotAbove a b → NotAbove b c → NotAbove a c
NotAbove-trans a b c h k =
    trans_by (map lower a) (map lower b) (map lower c) (strcasecmp a b) (strcasecmp b c) refl refl h
      k

NotAboveAll-trans :
    (a b : Bytes) (names : List Bytes) → NotAbove a b → NotAboveAll b names → NotAboveAll a names
NotAboveAll-trans a b [] h all = tt
NotAboveAll-trans a b (l ∷ names) h all =
    (NotAbove-trans a b l h all.0, NotAboveAll-trans a b names h all.1)

NotAboveAll-put :
    (a n l : Bytes) (names rest : List Bytes) (o : Ordering)
    → NotAbove a n
    → NotAboveAll a (l ∷ names)
    → NotAboveAll a rest
    → NotAboveAll a (put o n l names rest)
NotAboveAll-put a n l names rest Ordering.lt h all all' = (h, all)
NotAboveAll-put a n l names rest Ordering.eq h all all' = (h, all)
NotAboveAll-put a n l names rest Ordering.gt h all all' = (all.0, all')

NotAboveAll-insert_name :
    (a n : Bytes) (names : List Bytes)
    → NotAbove a n
    → NotAboveAll a names
    → NotAboveAll a (insert_name n names)
NotAboveAll-insert_name a n [] h all = (h, tt)
NotAboveAll-insert_name a n (l ∷ names) h all =
    NotAboveAll-put a n l names (insert_name n names) (strcasecmp n l) h all
      (NotAboveAll-insert_name a n names h all.1)

put-IsSorted :
    (n l : Bytes) (names : List Bytes) (o : Ordering)
    → strcasecmp n l ≡ o
    → IsSorted (l ∷ names)
    → IsSorted (insert_name n names)
    → IsSorted (put o n l names (insert_name n names))
put-IsSorted n l names Ordering.lt e sorted rest =
    let h : NotAbove n l = λ g. cc in ((h, NotAboveAll-trans n l names h sorted.0), sorted)
put-IsSorted n l names Ordering.eq e sorted rest =
    let h : NotAbove n l = λ g. cc in ((h, NotAboveAll-trans n l names h sorted.0), sorted)
put-IsSorted n l names Ordering.gt e sorted rest =
    let back = strcmp-flip (map lower n) (map lower l) ∙ ap flip e in
    (NotAboveAll-insert_name l n names (λ g. cc) sorted.0, rest)

insert_name-IsSorted :
    (n : Bytes) (names : List Bytes) → IsSorted names → IsSorted (insert_name n names)
insert_name-IsSorted n [] sorted = (tt, tt)
insert_name-IsSorted n (l ∷ names) sorted =
    put-IsSorted n l names (strcasecmp n l) refl sorted (insert_name-IsSorted n names sorted.1)

pub sort_names-IsSorted : (names : List Bytes) → IsSorted (sort_names names)
sort_names-IsSorted [] = tt
sort_names-IsSorted (n ∷ names) =
    insert_name-IsSorted n (sort_names names) (sort_names-IsSorted names)

named_in-put :
    (t n l : Bytes) (names rest : List Bytes) (o : Ordering)
    → named_in t rest ≡ (same_text t n || named_in t names)
    → named_in t (put o n l names rest) ≡ (same_text t n || named_in t (l ∷ names))
named_in-put t n l names rest Ordering.lt h = refl
named_in-put t n l names rest Ordering.eq h = refl
named_in-put t n l names rest Ordering.gt h = ground arith

named_in-insert_name :
    (t n : Bytes) (names : List Bytes)
    → named_in t (insert_name n names) ≡ (same_text t n || named_in t names)
named_in-insert_name t n [] = refl
named_in-insert_name t n (l ∷ names) =
    named_in-put t n l names (insert_name n names) (strcasecmp n l) (named_in-insert_name t n names)

named_in-sort_names :
    (t : Bytes) (names : List Bytes) → named_in t (sort_names names) ≡ named_in t names
named_in-sort_names t [] = refl
named_in-sort_names t (n ∷ names) =
    named_in-insert_name t n (sort_names names)
    ∙ ap (λ b. same_text t n || b) (named_in-sort_names t names)

-- The search in the sorted names finds just what is one of the names.
pub is_valid-sort_names :
    (names : List Bytes) (t : Bytes) → is_valid_fs_type t (sort_names names) ≡ named_in t names
is_valid-sort_names names t =
    is_valid_fs_type_lem t (sort_names names) (sort_names-IsSorted names)
    ∙ named_in-sort_names t names

-- A copy of all names, or an error.
abbrev Copied : List Bytes → World → SgError × List Bytes × World → Type 0
Copied names w out =
    (out.2.fault ≡ w.fault) × ((no_error out.0 ≡ false) ⊎ ((out.0 ≡ error_none) × (out.1 ≡ names)))

keep_name-Copied :
    (n : Bytes) (names : List Bytes) (w w1 : World) (out : SgError × Option Bytes × World)
    → w1.fault ≡ w.fault
    → Updated none (some n) w1 out
    → Copied (n ∷ names) w (keep_name names out)
unfolding keep_name
keep_name-Copied n names w w1 (rc, none, w2) fault (kept, inl (e, _, old)) =
    (kept ∙ fault, inl (ap no_error e))
keep_name-Copied n names w w1 (rc, some text, w2) fault (kept, inl (e, _, old)) = absurd (cc)
keep_name-Copied n names w w1 (rc, none, w2) fault (kept, inr (e, new)) = absurd (cc)
keep_name-Copied n names w w1 (rc, some text, w2) fault (kept, inr (e, new)) =
    let same : text ≡ n = ground arith in (kept ∙ fault, inr (e, ap (λ t. t ∷ names) same))

copy_name-Copied :
    (n : Bytes) (names : List Bytes) (w : World) (out : SgError × List Bytes × World)
    → Copied names w out
    → Copied (n ∷ names) w (copy_name n out)
unfolding copy_name
copy_name-Copied n names w (rc, l, w1) (fault, inl bad) = rw bad (fault, inl bad)
copy_name-Copied n names w (rc, l, w1) (fault, inr (ok, same)) =
    rw (ok, same)
      (keep_name-Copied n names w w1 (sg_update_string none (some n) w1) fault
        (update_string_lem none n w1))

copy_names-Copied : (names : List Bytes) (w : World) → Copied names w (copy_names names w)
unfolding copy_names
copy_names-Copied [] w = (refl, inr (refl, refl))
copy_names-Copied (n ∷ names) w =
    copy_name-Copied n names w (copy_names names w) (copy_names-Copied names w)

-- The outcome of setting the list to `names`.
abbrev pub ListSet : List Bytes → List Bytes → World → SgError × List Bytes × World → Type 0
ListSet old names w out =
    (out.2.fault ≡ w.fault)
    × (((no_error out.0 ≡ false) × (out.1 ≡ old))
        ⊎ ((out.0 ≡ error_none)
            × IsSorted out.1
            × ((t : Bytes) → is_valid_fs_type t out.1 ≡ named_in t names)))

list_copied_lem :
    (old names : List Bytes) (w : World) (out : SgError × List Bytes × World)
    → Copied names w out
    → ListSet old names w (list_copied old out)
unfolding list_copied
list_copied_lem old names w (rc, l, w1) (fault, inl bad) = rw bad (fault, inl (bad, refl))
list_copied_lem old names w (rc, l, w1) (fault, inr (ok, same)) =
    rw (ok, same) (fault, inr (refl, sort_names-IsSorted names, is_valid-sort_names names))

-- `sg_set_valid_filesystems`: without an error the list is sorted, as the search needs it, and the binary search of
-- `is_valid_fs_type` finds in it just the types that are one of the caller's names, letter by letter and
-- whatever their case. With
-- an error the list stays as it was. Nothing is written out of bounds. An empty list clears it.
pub set_valid_lem :
    (old names : List Bytes) (w : World)
    → ListSet old names w (sg_set_valid_filesystems old names w)
unfolding sg_set_valid_filesystems sg_set_error_with_errno_fmt
set_valid_lem old [] w = (refl, inr (refl, tt, is_valid-sort_names []))
set_valid_lem old (n ∷ names) w = elim (Bool-cases (malloc w).0) [
  | inl ok ↦ rw ok (
      let (fault, outcome) =
        list_copied_lem old (n ∷ names) (malloc w).1 (copy_names (n ∷ names) (malloc w).1)
          (copy_names-Copied (n ∷ names) (malloc w).1) in
      (fault ∙ malloc-fault w, outcome))
  | inr bad ↦
      rw bad
        ((set_SameRest error_malloc _ _ (malloc w).1).fault_kept ∙ malloc-fault w, inl (refl, refl))
]
