-- ===== src/Disk/Filesystems/Known/Builtin.antt =====
-- The branch `use_builtin_fs` of `init_valid_fs_types`: the built-in types that it makes valid.
use libstatgrab.Base.{
  ℕ, zero, suc, take, ◌<◌, ◌≤◌, ◌≡◌, refl, ap, ◌∙◌, arith, true, false, List, [], ◌∷◌, Option, none,
  some, ◌⊎◌, inl, inr, length, Bool-cases,
}
use libstatgrab.Base.Bytes.{Bytes}
use libstatgrab.Error.{World, no_error, malloc}
use libstatgrab.Error.Codes.{SgError, error_none}
use libstatgrab.Stdio.{refused, set_errno}
use libstatgrab.Tools.Alloc.{malloc-fault}
use libstatgrab.Tools.Strings.{sg_update_string}
use libstatgrab.Tools.Strings.Updates.{update_string_lem, update_string-plenty}
use libstatgrab.Disk.Filesystems.{is_valid_fs_type}
use libstatgrab.Disk.Filesystems.Search.{IsSorted, named_in}
use libstatgrab.Disk.Filesystems.Sorting.{sort_names-IsSorted, is_valid-sort_names}
use libstatgrab.Disk.Filesystems.Known.{
  builtin_types, builtin_name, copy_builtin, builtin_end, init_valid_fs_types,
}

-- So many built-in types, if there are that many, or an error.
abbrev BuiltinCopied : List Bytes → World → SgError × List Bytes × World → Type 0
BuiltinCopied names w out =
    (out.2.fault ≡ w.fault) × ((no_error out.0 ≡ false) ⊎ ((out.0 ≡ error_none) × (out.1 ≡ names)))

builtin_name-Copied :
    (t : Bytes) (names : List Bytes) (w w1 : World) (text : Option Bytes)
    (out : SgError × List Bytes × World)
    → text ≡ some t
    → w1.fault ≡ w.fault
    → BuiltinCopied names w1 out
    → BuiltinCopied (t ∷ names) w (builtin_name text out)
builtin_name-Copied t names w w1 text (rc, l, w2) is kept (fault, inl bad) =
    rw is (fault ∙ kept, inl bad)
builtin_name-Copied t names w w1 text (rc, l, w2) is kept (fault, inr (ok, same)) =
    rw is (fault ∙ kept, inr (ok, ap (λ ns. t ∷ ns) same))

copy_builtin-Copied :
    (n : ℕ) (types : List Bytes) (w : World)
    → n ≤ length types
    → BuiltinCopied (take n types) w (copy_builtin n types w)
unfolding copy_builtin
copy_builtin-Copied zero types w h = (refl, inr (refl, refl))
copy_builtin-Copied (suc n) [] w h = absurd (omega (arith, h))
copy_builtin-Copied (suc n) (t ∷ types) w h =
    let (kept, answer) = update_string_lem none t w in
    elim answer [
      | inl (rc, set, old) ↦
          let stop : no_error (sg_update_string none (some t) w).0 ≡ false = ap no_error rc in
          rw stop (kept, inl stop)
      | inr (rc, is) ↦
          let go : no_error (sg_update_string none (some t) w).0 ≡ true = ap no_error rc in
          rw go (
            builtin_name-Copied t (take n types) w (sg_update_string none (some t) w).2
              (sg_update_string none (some t) w).1
              (copy_builtin n types (sg_update_string none (some t) w).2) is kept
              (copy_builtin-Copied n types (sg_update_string none (some t) w).2 (omega (arith, h))))
    ]

builtin_name-world :
    (t : Bytes) (out : SgError × List Bytes × World) → (builtin_name (some t) out).2 ≡ out.2
builtin_name-world t (rc, names, w) = refl

copy_builtin-past :
    (n : ℕ) (types : List Bytes) (w : World)
    → w.oom ≡ []
    → length types < n
    → (copy_builtin n types w).2.fault ≡ true
unfolding copy_builtin
copy_builtin-past zero types w plenty h = absurd (omega (arith, h))
copy_builtin-past (suc n) [] w plenty h = refl
copy_builtin-past (suc n) (t ∷ types) w plenty h =
    rw (update_string-plenty none (some t) w plenty) (
      ap (λ (v : World). v.fault) (builtin_name-world t (copy_builtin n types w))
      ∙ copy_builtin-past n types w plenty (omega (arith, h)))

-- The outcome where the file is not opened, from a `num_valid_file_systems` on, which stays.
abbrev pub BuiltinSet : ℕ → World → SgError × List Bytes × ℕ × World → Type 0
BuiltinSet num w out =
    (out.3.fault ≡ w.fault)
    × (out.2 ≡ num)
    × ((no_error out.0 ≡ false)
        ⊎ ((out.0 ≡ error_none)
            × IsSorted out.1
            × ((t : Bytes) → is_valid_fs_type t out.1 ≡ named_in t (take num builtin_types))))

builtin_end-Set :
    (num : ℕ) (w : World) (out : SgError × List Bytes × World)
    → BuiltinCopied (take num builtin_types) w out
    → BuiltinSet num w (builtin_end num out)
unfolding builtin_end
builtin_end-Set num w (rc, l, w1) (fault, inl bad) = rw bad (fault, refl, inl bad)
builtin_end-Set num w (rc, l, w1) (fault, inr (ok, same)) =
    rw (ok, same)
      (
        fault,
        refl,
        inr (
          refl,
          sort_names-IsSorted (take num builtin_types),
          is_valid-sort_names (take num builtin_types),
        ),
      )

builtin_end-world : (num : ℕ) (out : SgError × List Bytes × World) → (builtin_end num out).3 ≡ out.2
unfolding builtin_end
builtin_end-world num (rc, names, w) = elim (Bool-cases (no_error rc)) [
  | inl ok ↦ rw ok refl
  | inr bad ↦ rw bad refl
]

pub builtin_lem :
    (num e : ℕ) (w : World)
    → num ≤ 34
    → (malloc (set_errno e w)).0 ≡ true
    → BuiltinSet num w (init_valid_fs_types num (refused e) w)
unfolding init_valid_fs_types
builtin_lem num e w few ok =
    let w1 = (malloc (set_errno e w)).1 in
    let (fault, kept, what) =
      builtin_end-Set num w1 (copy_builtin num builtin_types w1)
        (copy_builtin-Copied num builtin_types w1 few) in
    rw ok (fault ∙ malloc-fault (set_errno e w), kept, what)

malloc_plenty : (w : World) → w.oom ≡ [] → malloc w ≡ (true, w)
unfolding malloc
malloc_plenty w h = ground arith

pub malloc_errno : (e : ℕ) (w : World) → (malloc (set_errno e w)).0 ≡ (malloc w).0
unfolding malloc
malloc_errno e w = ground arith

pub builtin_past :
    (num e : ℕ) (w : World)
    → w.oom ≡ []
    → 34 < num
    → (init_valid_fs_types num (refused e) w).3.fault ≡ true
unfolding init_valid_fs_types
builtin_past num e w plenty many = rw (malloc_plenty (set_errno e w) plenty) (
    ap (λ (v : World). v.fault)
      (builtin_end-world num (copy_builtin num builtin_types (set_errno e w)))
    ∙ copy_builtin-past num builtin_types (set_errno e w) plenty many)
