-- ===== src/Disk/Filesystems/Known/Types.antt =====
-- The types that `init_valid_fs_types` makes valid.
use mathlib.Core.List.{append_assoc, append-nil}
use libstatgrab.Base.{
  ℕ, ◌<◌, ◌≤◌, ◌+◌, ◌*◌, ◌≡◌, refl, ap, subst, sym, ◌∙◌, arith, Bool, true, false, List, [], ◌∷◌,
  ◌++◌, Option, none, some, ◌⊎◌, inl, inr, length, leb, ltb, ◌==◌, Bool-cases, Option-cases,
  if◌then◌else◌,
}
use libstatgrab.Base.Bytes.{Bytes}
use libstatgrab.Error.{World, no_error, malloc, sg_get_error}
use libstatgrab.Error.Codes.{SgError, error_none}
use libstatgrab.Stdio.{Stream, refused, opened, after_reads, lines_of}
use libstatgrab.Stdio.Failures.{after_reads_lem}
use libstatgrab.Tools.Alloc.{sg_realloc, malloc-fault, realloc-fault, realloc-error}
use libstatgrab.Tools.Strings.{sg_update_string}
use libstatgrab.Tools.Strings.Updates.{Updated, update_string_lem}
use libstatgrab.Vector.Append.Growth.{all_made}
use libstatgrab.Disk.Filesystems.{is_valid_fs_type}
use libstatgrab.Disk.Filesystems.Search.{IsSorted, named_in}
use libstatgrab.Disk.Filesystems.Sorting.{sort_names-IsSorted, is_valid-sort_names}
use libstatgrab.Disk.Filesystems.Known.Builtin.{BuiltinSet, malloc_errno, builtin_lem, builtin_past}
use libstatgrab.Disk.Filesystems.Known.Words.{type_told, fs_type_in_lem}
use libstatgrab.Disk.Filesystems.Known.{
  fs_type_in, grow_types, add_type, known_loop, known_end, types_buf_size, init_valid_fs_types,
}

-- All names so far and those of the lines, or an error and no list.
abbrev pub Known : List Bytes → World → SgError × List Bytes × ℕ × World → Type 0
Known names w out =
    (out.3.fault ≡ w.fault) × ((no_error out.0 ≡ false) ⊎ ((out.0 ≡ error_none) × (out.1 ≡ names)))

grow_types_lem :
    (i num : ℕ) (w : World)
    → let (ok, num', w') = grow_types i num w in
      (w'.fault ≡ w.fault) × ((ok ≡ true) ⊎ (no_error (sg_get_error w') ≡ false))
unfolding grow_types
grow_types_lem i num w =
    let size = 8 * (num + 16 + 1) in
    let some_size : (size == 0) ≡ false = ground arith in
    elim (Bool-cases (leb num i)) [
      | inl full ↦ elim (Bool-cases (sg_realloc size w).0) [
        | inl ok ↦ rw full (realloc-fault size w, inl ok)
        | inr bad ↦
            rw full (realloc-fault size w, inr (ap no_error (realloc-error size w some_size bad)))
      ]
      | inr room ↦ rw room (refl, inl refl)
    ]

-- One type more, for what growing and copying may answer.
one_more_type :
    (t : Bytes) (names more : List Bytes) (w w1 : World) (ok : Bool)
    (out : SgError × Option Bytes × World)
    (rest : List Bytes → World → SgError × List Bytes × ℕ × World)
    → w1.fault ≡ w.fault
    → ((ok ≡ true) ⊎ (no_error (sg_get_error w1) ≡ false))
    → Updated none (some t) w1 out
    → ((w2 : World) → Known ((names ++ t ∷ []) ++ more) w2 (rest (names ++ t ∷ []) w2))
    → Known (names ++ t ∷ more) w (
        if ok
        then (if no_error out.0 then rest (add_type names out.1) out.2 else (out.0, [], 0, out.2))
        else (sg_get_error w1, [], 0, w1))
one_more_type t names more w w1 ok out rest grown answer copied ih = elim (Bool-cases ok) [
  | inr denied ↦ elim answer [ inl given ↦ cc | inr bad ↦ rw denied (grown, inl bad) ]
  | inl given ↦ elim copied.1 [
    | inl (rc, set, kept) ↦
        let stop : no_error out.0 ≡ false = ap no_error rc in
        rw (given, stop) (copied.0 ∙ grown, inl stop)
    | inr (rc, is) ↦
        let go : no_error out.0 ≡ true = ap no_error rc in
        let (fault, what) = ih out.2 in
        rw (given, go, is)
          (subst (λ l. Known l w (rest (names ++ t ∷ []) out.2)) (append_assoc names (t ∷ []) more)
            (fault ∙ copied.0 ∙ grown, what))
  ]
]

known_loop_lem :
    (lines names : List Bytes) (num : ℕ) (w : World)
    → Known (names ++ all_made type_told lines) w (known_loop lines names num w)
unfolding known_loop
known_loop_lem [] names num w = (refl, inr (refl, sym (append-nil names)))
known_loop_lem (line ∷ lines) names num w = elim (Option-cases (fs_type_in line)) [
  | inl e ↦ rw (e, known_loop, sym (fs_type_in_lem line) ∙ e) (known_loop_lem lines names num w)
  | inr (t, e) ↦
      let (ok, num1, w1) = grow_types (length names) num w in
      let (grown, answer) = grow_types_lem (length names) num w in
      rw (e, known_loop, sym (fs_type_in_lem line) ∙ e)
        (one_more_type t names (all_made type_told lines) w w1 ok
          (sg_update_string none (some t) w1) (λ names2 w2. known_loop lines names2 num1 w2) grown
          answer (update_string_lem none t w1)
          (λ w2. known_loop_lem lines (names ++ t ∷ []) num1 w2))
]

-- The outcome of making the list of `names`: an error and no list, or the sorted list.
abbrev pub TypesSet : List Bytes → World → SgError × List Bytes × ℕ × World → Type 0
TypesSet names w out =
    (out.3.fault ≡ w.fault)
    × (((no_error out.0 ≡ false) × (out.1 ≡ []) × (out.2 ≡ 0))
        ⊎ ((out.0 ≡ error_none)
            × IsSorted out.1
            × ((t : Bytes) → is_valid_fs_type t out.1 ≡ named_in t names)))

known_end_lem :
    (f : Stream) (names : List Bytes) (w : World) (out : SgError × List Bytes × ℕ × World)
    → Known names w out
    → TypesSet names w (known_end f out)
unfolding known_end
known_end_lem f names w (rc, l, num, w1) (fault, inl bad) = rw bad (fault, inl (bad, refl, refl))
known_end_lem f names w (rc, l, num, w1) (fault, inr (ok, same)) =
    let w2 = after_reads f w1 in
    let read = (after_reads_lem f w1).0 in
    let size = 8 * (length names + 1) in
    let last : ((if ltb (length names) num then (sg_realloc size w2).1 else w2).fault ≡ w.fault) =
      elim (Bool-cases (ltb (length names) num)) [
        | inl less ↦ rw less (realloc-fault size w2 ∙ read ∙ fault)
        | inr full ↦ rw full (read ∙ fault)
      ] in
    rw (ok, same) (last, inr (refl, sort_names-IsSorted names, is_valid-sort_names names))

-- The types of the lines of /proc/filesystems.
abbrev pub types_of : Stream → List Bytes
types_of f = all_made type_told (lines_of types_buf_size f.text)

-- `init_valid_fs_types`, where `num_valid_file_systems` is `num` or, in a later run, `many`. Where
-- /proc/filesystems is opened and `calloc` gives a block: without an error the list is sorted, as the search
-- needs it, and `is_valid_fs_type` finds in it just the types that the lines of the file tell, whatever their case: a
-- line tells the word behind its blanks or tabs, before which another word may stand; with an error there is no list. A block that is refused is written to. Where the file is not
-- opened, `calloc` gives a block and `num` is at most 34: `num` stays, and without an error the list has the first
-- `num` built-in types, so that none is valid after the start of the program, where it is 0. With a
-- `many` above 34 and plenty of memory the built-in list is read beyond its end.
pub init_types_lem :
    (num many : ℕ) (f : Stream) (e : ℕ) (w w2 w3 : World)
    → num ≤ 34
    → 34 < many
    → (malloc w).0 ≡ true
    → (malloc w2).0 ≡ false
    → w3.oom ≡ []
    → TypesSet (types_of f) w (init_valid_fs_types num (opened f) w)
      × ((init_valid_fs_types num (opened f) w2).3.fault ≡ true)
      × BuiltinSet num w (init_valid_fs_types num (refused e) w)
      × ((init_valid_fs_types many (refused e) w3).3.fault ≡ true)
unfolding init_valid_fs_types
init_types_lem num many f e w w2 w3 few above ok bad plenty = (
  rw ok (
      let (fault, what) =
        known_end_lem f (types_of f) (malloc w).1 _
          (known_loop_lem (lines_of types_buf_size f.text) [] 15 (malloc w).1) in
      (fault ∙ malloc-fault w, what)),
  rw bad refl,
  builtin_lem num e w few (malloc_errno e w ∙ ok),
  builtin_past many e w3 plenty above,
)
