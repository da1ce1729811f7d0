-- ===== src/Disk/Mounts/Table.antt =====
-- The list of mounted file systems where memory is plenty.
use libstatgrab.Base.{
  ℕ, ◌+◌, ◌≡◌, refl, ap, subst, ◌∙◌, arith, List, [], ◌∷◌, none, some, true, inr, length,
}
use libstatgrab.Base.Bytes.{Bytes}
use libstatgrab.Error.{World, no_error}
use libstatgrab.Error.Codes.{error_none}
use libstatgrab.Stdio.{set_errno}
use libstatgrab.Tools.Chains.{and_then-done}
use libstatgrab.Tools.Strings.Updates.{update_string-plenty}
use libstatgrab.Vector.{null}
use libstatgrab.Vector.Append.{append_loop}
use libstatgrab.Vector.Append.Growth.{Room, AllShow, all_made}
use libstatgrab.Vector.Append.Plenty.{Holds, MakesWell, append_loop-plenty}
use libstatgrab.Disk.{FsStats, fs_unknown, sg_fs_stats_item_init, sg_fs_stats_vector_init_info}
use libstatgrab.Disk.Mounts.{
  MountEntry, MountTable, table, Link, mount_end, mount_fill, mount_record, list_end, list_done,
  sg_get_fs_list_int,
}
use libstatgrab.Disk.Mounts.Links.{Resolves, resolved, resolve-plenty}

-- An item with the names of an entry.
abbrev pub ShowsEntry : (Bytes → Link) → FsStats → MountEntry → Type 0
ShowsEntry link d m =
    (d.device_name ≡ some m.mnt_fsname)
    × (d.device_canonical ≡ some (resolved link m.mnt_fsname))
    × (d.fs_type ≡ some m.mnt_type)
    × (d.mnt_point ≡ some m.mnt_dir)
    × (d.device_type ≡ fs_unknown)

-- What the list keeps of the world: memory, and no fault of its own.
abbrev pub Calm : World → World → Type 0
Calm w0 w = (w.oom ≡ []) × (w.fault ≡ w0.fault) × (w.errno ≡ 0)

all_made-some : (ms : List MountEntry) → all_made (λ m. some m) ms ≡ ms
all_made-some [] = refl
all_made-some (m ∷ ms) = ap (◌∷◌ m) (all_made-some ms)

module _ (link : Bytes → Link) (raw : FsStats) (now : ℕ) where
  abbrev named : MountEntry → FsStats → FsStats
  named m d = record d {
    device_name = some m.mnt_fsname;
    device_canonical = some (resolved link m.mnt_fsname);
    fs_type = some m.mnt_type;
    mnt_point = some m.mnt_dir;
  }

  mount_fill-plenty :
      (m : MountEntry) (d : FsStats) (w : World)
      → Resolves link
      → w.oom ≡ []
      → mount_fill link raw now m d w ≡ (
        error_none,
        record (named m d) { device_type = fs_unknown; systime = now },
        set_errno 0 w,
      )
  unfolding mount_fill mount_end
  mount_fill-plenty m d w real h =
      and_then-done _ _ w _ _ (update_string-plenty d.device_name (some m.mnt_fsname) w h)
      ∙ and_then-done _ _ w _ _ (update_string-plenty d.device_canonical (some m.mnt_fsname) w h)
      ∙ and_then-done _ _ w _ _ (update_string-plenty d.fs_type (some m.mnt_type) w h)
      ∙ and_then-done _ _ w _ _ (update_string-plenty d.mnt_point (some m.mnt_dir) w h)
      ∙ ap (mount_end link raw now) (
          resolve-plenty link m.mnt_fsname
            (record d {
              device_name = some m.mnt_fsname;
              fs_type = some m.mnt_type;
              mnt_point = some m.mnt_dir;
            })
            w real h)

  mount_record-Makes :
      (w0 : World) (m : MountEntry)
      → Resolves link
      → MakesWell
          (sg_fs_stats_vector_init_info raw)
          sg_fs_stats_item_init
          refl
          0
          (mount_record link raw now)
          (ShowsEntry link)
          (λ m. some m)
          (Calm w0)
          (λ w c. c.0)
          m
  mount_record-Makes w0 m real = inr (
    mount_fill link raw now m,
    m,
    refl,
    refl,
    λ d w calm.
        rw (mount_fill-plenty m (sg_fs_stats_item_init d) w real calm.0)
          (refl, (refl, refl, refl, refl, refl), (calm.0, calm.1, refl)),
  )

  list_end-Calm :
      (t : MountTable) (w0 w : World)
      → t.read_error ≡ none
      → Calm w0 w
      → list_end link raw now t w ≡ (error_none, w)
  unfolding list_end
  list_end-Calm t w0 w ended (h, fault, clear) = rw (ended, clear)

  -- The list of a table that is read to its end.
  pub fs_list-plenty :
      (t : MountTable) (w : World)
      → Resolves link
      → t.read_error ≡ none
      → w.oom ≡ []
      → Room 0 (length t.entries) 160
      → let (rc, p, w') = sg_get_fs_list_int link raw now (table t) null w in
        (rc ≡ error_none)
        × (w'.oom ≡ [])
        × (w'.fault ≡ w.fault)
        × ((ds : List FsStats) × (n : ℕ) × AllShow (ShowsEntry link) ds t.entries
            × Holds (sg_fs_stats_vector_init_info raw) sg_fs_stats_item_init refl 0 p n ds)
  unfolding sg_get_fs_list_int list_done
  fs_list-plenty t w real ended h room =
      let info = sg_fs_stats_vector_init_info raw in
      let out = append_loop info (mount_record link raw now) t.entries 0 null (set_errno 0 w) in
      let count : length t.entries ≡ 0 + length t.entries = omega arith in
      let (ok, calm, (ds, all, holds)) =
        append_loop-plenty info sg_fs_stats_item_init refl 0 (mount_record link raw now)
          (ShowsEntry link) (λ m. some m) (Calm w) (λ w1 c. c.0) t.entries 0 [] null (set_errno 0 w)
          (λ m. mount_record-Makes w m real) (h, refl, refl) (refl, refl, refl)
          (subst (λ k. Room 0 k 160) count room) in
      let go : no_error out.rc ≡ true = ap no_error ok in
      rw (go, list_end-Calm t w out.world ended calm)
        (
          refl,
          calm.0,
          calm.1,
          (
            ds,
            out.count,
            subst (AllShow (ShowsEntry link) ds) (all_made-some t.entries) all,
            holds,
          ),
        )
