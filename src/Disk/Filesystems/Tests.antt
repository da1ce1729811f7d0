-- ===== src/Disk/Filesystems/Tests.antt =====
-- The list of types of file systems at a concrete input.
use libstatgrab.Base.{[], ◌∷◌}
use libstatgrab.Base.Bytes.{codes}
use libstatgrab.Error.{calm}
use libstatgrab.Disk.Filesystems.{sg_set_valid_filesystems}
use libstatgrab.Disk.Filesystems.Sorting.{ListSet, set_valid_lem}

set_valid_lem_example :
    ListSet []
      (codes "xfs" ∷ codes "Ext4" ∷ [])
      calm
      (sg_set_valid_filesystems [] (codes "xfs" ∷ codes "Ext4" ∷ []) calm)
set_valid_lem_example = set_valid_lem [] (codes "xfs" ∷ codes "Ext4" ∷ []) calm
