-- ===== src/Overlay/Holdings.antt =====
-- A mount that `MountOverlay` of mvp/internal/overlay/overlay_linux.go makes is held, and `Unmount`
-- gives it back.
use oci_container_runtime_fr.Overlay.{
  Mount, part_of, make_dirs, mount_at, mount_overlay, unmount_overlay, cleanup,
}
use oci_container_runtime_fr.Overlay.Lifecycle.{part_of-NonEmpty}
use oci_container_runtime_fr.Sys.{
  Oracle, ignoring, Resource, mounted, either_way, Moves, Keeps, Keeps-pure, Keeps-wrapping,
  Keeps-bind, Keeps-make_dir_all, Keeps-remove_all, Moves-wrapping_all, Moves-pure, Moves-raise,
  Moves-if, Keeps-if, Moves-Keeps, Moves-wrapping, Moves-bind, Moves-ignoring, Moves-mount,
  Moves-unmount,
}
use oci_container_runtime_fr.Base.{
  refl, inl, inr, List, [], ◌∷◌, ◌++◌, if◌then◌else◌, Bool-cases, Str, is_empty,
}

-- A mount with a place; `Unmount` does nothing without one.
abbrev pub mount_held : Mount → List Resource
mount_held m = if is_empty m.merged then [] else mounted m.merged ∷ []

module _ (os : Oracle) where
  make_dirs-Keeps : (dirs : List Str) → Keeps (make_dirs os dirs)
  unfolding make_dirs
  make_dirs-Keeps [] = Keeps-pure tt
  make_dirs-Keeps (d ∷ dirs) =
      Keeps-bind (Keeps-wrapping _ (Keeps-make_dir_all os d)) (λ _. make_dirs-Keeps dirs)

  pub cleanup-Keeps : (m : Mount) → Keeps (cleanup os m)
  unfolding cleanup
  cleanup-Keeps m = Keeps-if _ (Keeps-pure tt) (Keeps-remove_all os m.container_dir)

  module _ (from : List Resource) where
    mount_at-Moves :
        (lower_dirs dir : Str)
        → Moves from (mount_at os lower_dirs dir) (either_way (λ m. mount_held m ++ from) from)
    unfolding mount_at
    mount_at-Moves lower_dirs dir =
        Moves-bind
          (Moves-Keeps (
            make_dirs-Keeps (part_of dir "upper" ∷ part_of dir "work" ∷ part_of dir "merged" ∷ [])))
          (λ _.
            Moves-bind (Moves-wrapping _ (Moves-mount os from _ _ _ _ _))
              (λ _. Moves-pure _ (λ x. rw (part_of-NonEmpty dir) refl)) (λ e x. refl))
          (λ e x. refl)

    pub mount_overlay-Moves :
        (lower_dirs dir : Str)
        → Moves from (mount_overlay os lower_dirs dir) (either_way (λ m. mount_held m ++ from) from)
    unfolding mount_overlay
    mount_overlay-Moves lower_dirs dir =
        Moves-if _ (Moves-raise _ (λ x. refl)) (mount_at-Moves lower_dirs dir)

    pub unmount_overlay-Moves :
        (m : Mount) → Moves (mount_held m ++ from) (ignoring (unmount_overlay os m)) (λ _. from)
    unfolding unmount_overlay
    unmount_overlay-Moves m = elim (Bool-cases (is_empty m.merged)) [
      | inl no_place ↦ rw no_place (Moves-ignoring (Moves-Keeps (Keeps-pure tt)))
      | inr real ↦
          rw real
            (Moves-ignoring (Moves-wrapping_all _ (Moves-unmount os from m.merged _ (λ x. refl))))
    ]
