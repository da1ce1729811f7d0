-- ===== src/Disk/Filesystems/Known/Tests.antt =====
-- Two types of a small /proc/filesystems.
use libstatgrab.Base.{ℕ, arith, refl, ◌≡◌, none, true, [], ◌∷◌, ◌++◌}
use libstatgrab.Base.Bytes.{codes}
use libstatgrab.Error.{World, calm, malloc}
use libstatgrab.Stdio.{Stream, opened, refused, fgets_lines}
use libstatgrab.Disk.Filesystems.Known.{fs_type_in, alnum_part, skip_blanks, init_valid_fs_types}
use libstatgrab.Disk.Filesystems.Known.Builtin.{BuiltinSet}
use libstatgrab.Disk.Filesystems.Known.Types.{TypesSet, types_of, init_types_lem}

abbrev out_of_memory : World
out_of_memory = record calm { oom = true ∷ [] }

abbrev filesystems : Stream
filesystems = record {
  text = codes "nodev" ++ 9 ∷ codes "proc" ++ 10 ∷ 9 ∷ codes "ext4" ++ 10 ∷ [];
  read_error = none;
}

types_test : types_of filesystems ≡ codes "proc" ∷ codes "ext4" ∷ []
unfolding fgets_lines fs_type_in alnum_part skip_blanks
types_test = refl

abbrev after_two_types : ℕ
after_two_types = 2

init_types_lem_example :
    TypesSet
      (types_of filesystems)
      calm
      (init_valid_fs_types after_two_types (opened filesystems) calm)
    × ((init_valid_fs_types after_two_types (opened filesystems) out_of_memory).3.fault ≡ true)
    × BuiltinSet after_two_types calm (init_valid_fs_types after_two_types (refused 2) calm)
    × ((init_valid_fs_types 40 (refused 2) calm).3.fault ≡ true)
unfolding malloc
init_types_lem_example =
    init_types_lem after_two_types 40 filesystems 2 calm out_of_memory calm (omega arith)
      (omega arith) refl refl refl
