-- ===== src/Disk/Mounts/Space.antt =====
-- The sums that the numbers of `sg_fill_fs_stat_int` keep.
use libstatgrab.Base.{ℕ, ◌+◌, ◌-◌, ◌*◌, ◌%◌, ◌≤◌, ◌<◌, ◌≡◌, refl, ap, ◌∙◌, arith, Option}
use libstatgrab.Base.Word.{u64_mod, add64, sub64, mul64, sub64_exact}
use libstatgrab.Base.Bytes.{Bytes}
use libstatgrab.Error.{World}
use libstatgrab.Error.Codes.{error_none, error_diskinfo}
use libstatgrab.Stdio.Failures.{Failed, set_with_errno-Failed}
use libstatgrab.Disk.{FsStats}
use libstatgrab.Disk.Mounts.{Statvfs, VfsAnswer, vfs, vfs_failed, vfs_text, sg_fill_fs_stat_int}

split_product : (b t f : ℕ) → f ≤ t → b * (t - f) + b * f ≡ b * t
split_product b t f h = grind arith

mod_sum : (x y z : ℕ) → x + y ≡ z → add64 (x % u64_mod) (y % u64_mod) ≡ z % u64_mod
mod_sum x y z h = omega (arith, h)

parts_of_size :
    (b t f : ℕ) → t < u64_mod → f ≤ t → add64 (mul64 b (sub64 t f)) (mul64 b f) ≡ mul64 b t
parts_of_size b t f word h =
    ap (λ k. add64 (mul64 b k) (mul64 b f)) (sub64_exact t f word h)
    ∙ mod_sum (b * (t - f)) (b * f) (b * t) (split_product b t f h)

-- The numbers of an item are those that `statvfs64` answered with.
abbrev pub Answered : Statvfs → FsStats → Type 0
Answered s d =
    (d.total_blocks ≡ s.f_blocks)
    × (d.free_blocks ≡ s.f_bfree)
    × (d.avail_blocks ≡ s.f_bavail)
    × (d.used_blocks ≡ s.f_blocks - s.f_bfree)
    × (d.total_inodes ≡ s.f_files)
    × (d.free_inodes ≡ s.f_ffree)
    × (d.avail_inodes ≡ s.f_favail)
    × (d.used_inodes ≡ s.f_files - s.f_ffree)
    × (d.io_size ≡ s.f_bsize)
    × (d.block_size ≡ s.f_frsize)
    × (d.size ≡ (s.f_frsize * s.f_blocks) % u64_mod)
    × (d.free ≡ (s.f_frsize * s.f_bfree) % u64_mod)
    × (d.avail ≡ (s.f_frsize * s.f_bavail) % u64_mod)
    × (d.used ≡ (s.f_frsize * (s.f_blocks - s.f_bfree)) % u64_mod)

module _ (statvfs : Option Bytes → VfsAnswer) (now : ℕ) where
  -- `sg_fill_fs_stat_int` where `statvfs64` succeeds with no more free blocks and inodes than there are: no
  -- error, the names and the type of the device stay, the blocks, the inodes and the two sizes of a block are
  -- those of its answer, what is used is what there is less what is free, the bytes are so many blocks of
  -- `f_frsize` modulo 2 ^ 64, and what is used and what is free add up to the size, to the blocks and to the inodes. Where it fails, `SG_ERROR_DISKINFO` is returned and set with its `errno`,
  -- and the item stays.
  pub fill_lem :
      (s : Statvfs) (d d2 : FsStats) (e : ℕ) (w : World)
      → statvfs d.mnt_point ≡ vfs s
      → statvfs d2.mnt_point ≡ vfs_failed e
      → s.f_blocks < u64_mod
      → s.f_files < u64_mod
      → s.f_bfree ≤ s.f_blocks
      → s.f_ffree ≤ s.f_files
      → (let (rc, d', w') = sg_fill_fs_stat_int statvfs now d w in
          (rc ≡ error_none)
          × (w' ≡ w)
          × (d'.device_name ≡ d.device_name)
          × (d'.device_canonical ≡ d.device_canonical)
          × (d'.fs_type ≡ d.fs_type)
          × (d'.mnt_point ≡ d.mnt_point)
          × (d'.device_type ≡ d.device_type)
          × (d'.systime ≡ now)
          × Answered s d'
          × (d'.used_blocks + d'.free_blocks ≡ d'.total_blocks)
          × (d'.used_inodes + d'.free_inodes ≡ d'.total_inodes)
          × (add64 d'.used d'.free ≡ d'.size))
        × (let (rc, d', w') = sg_fill_fs_stat_int statvfs now d2 w in
            (d' ≡ d2) × Failed error_diskinfo e w (rc, w'))
  unfolding sg_fill_fs_stat_int
  fill_lem s d d2 e w told failed blocks files bfree ffree =
      rw (told, sg_fill_fs_stat_int)
        (rw (failed, sg_fill_fs_stat_int)
          (
            (
              refl,
              refl,
              refl,
              refl,
              refl,
              refl,
              refl,
              refl,
              (
                refl,
                refl,
                refl,
                sub64_exact s.f_blocks s.f_bfree blocks bfree,
                refl,
                refl,
                refl,
                sub64_exact s.f_files s.f_ffree files ffree,
                refl,
                refl,
                refl,
                refl,
                refl,
                ap (mul64 s.f_frsize) (sub64_exact s.f_blocks s.f_bfree blocks bfree),
              ),
              omega (arith, sub64_exact s.f_blocks s.f_bfree blocks bfree),
              omega (arith, sub64_exact s.f_files s.f_ffree files ffree),
              parts_of_size s.f_frsize s.f_blocks s.f_bfree blocks bfree,
            ),
            (refl, set_with_errno-Failed error_diskinfo (vfs_text d2) e w),
          ))
