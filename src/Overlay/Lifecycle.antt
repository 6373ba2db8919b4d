-- ===== src/Overlay/Lifecycle.antt =====
-- What `MountOverlay` mounts, and what `Unmount` and `Cleanup` take back.
use oci_container_runtime_fr.Overlay.{
  Mount, part_of, make_dirs, mount_at, mount_overlay, unmount_overlay, cleanup,
}
use oci_container_runtime_fr.Sys.{
  remove_all, make_dir_all, mount, unmount, Trace, Oracle, pure, raise, wrapping, ◌>>=◌, ◌>>◌,
  perform, ignoring, log, calls,
}
use oci_container_runtime_fr.Base.{
  ◌≡◌, refl, true, [], ◌∷◌, arith, ok, Str, str, join_path, ◌++◌, NonEmpty, join_path-NonEmpty,
}

abbrev pub mount_of : Str → Mount
mount_of dir = record { container_dir = dir; merged = part_of dir "merged" }

pub part_of-NonEmpty : (dir : Str) → NonEmpty (part_of dir "merged")
unfolding str
part_of-NonEmpty dir = join_path-NonEmpty dir (str "merged") refl

module _ (os : Oracle) (lower_dirs dir : Str) (t : Trace) where
  -- A mount that succeeds has layers below it. The three directories were made, and then exactly
  -- one overlay was mounted, on the merged directory that is returned. Its data name the given layers
  -- as the lower directories, and the first two of the made directories as the upper and the work one.
  pub mount_overlay_ok :
      {m : Mount}
      → (mount_overlay os lower_dirs dir t).0 ≡ ok m
      → NonEmpty lower_dirs
        × (m ≡ record { container_dir = dir; merged = join_path (dir ∷ str "merged" ∷ []) })
        × (log (mount_overlay os lower_dirs dir t).1
            ≡ (
              mount (str "overlay") m.merged (str "overlay") [] (
                  str "lowerdir="
                  ++ lower_dirs
                  ++ str ",upperdir="
                  ++ join_path (dir ∷ str "upper" ∷ [])
                  ++ str ",workdir="
                  ++ join_path (dir ∷ str "work" ∷ [])),
              true,
            )
              ∷ (make_dir_all m.merged, true)
              ∷ (make_dir_all (join_path (dir ∷ str "work" ∷ [])), true)
              ∷ (make_dir_all (join_path (dir ∷ str "upper" ∷ [])), true)
              ∷ log t)
  unfolding mount_overlay mount_at make_dirs wrapping perform raise pure ◌>>=◌
  mount_overlay_ok h = ground arith

  -- After a mount that succeeded in a named directory, `Unmount` and then `Cleanup` make exactly two
  -- calls, whatever is answered: they ask to detach what is mounted on the merged directory of it, and
  -- then to remove that directory with all it holds.
  pub overlay_released :
      {m : Mount}
      → NonEmpty dir
      → (mount_overlay os lower_dirs dir t).0 ≡ ok m
      → (os' : Oracle) (t' : Trace)
      → calls ((ignoring (unmount_overlay os' m) >> ignoring (cleanup os' m)) t').1
        ≡ remove_all dir ∷ unmount (part_of dir "merged") ("MNT_DETACH" ∷ []) ∷ calls t'
  unfolding unmount_overlay cleanup ignoring wrapping perform ◌>>=◌
  overlay_released {m = m} real h os' t' =
      let (_, same, _) = mount_overlay_ok h in rw (same, real, part_of-NonEmpty dir) refl
