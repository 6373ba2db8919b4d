-- ===== src/Runtime/Rootfs/Holdings.antt =====
-- What `resolveRootfs` of mvp/internal/runtime/runtime_linux.go holds, and its clean-up gives back.
use oci_container_runtime_fr.Runtime.Rootfs.{
  new_container_id, mount_layers, resolve_image, resolve_rootfs, cleanup_overlay,
}
use oci_container_runtime_fr.Image.Reference.{Reference}
use oci_container_runtime_fr.Image.Layers.{ImageInfo}
use oci_container_runtime_fr.Image.Store.{Manifest, open_store, load_manifest}
use oci_container_runtime_fr.Overlay.{Mount}
use oci_container_runtime_fr.Overlay.Holdings.{
  mount_held, cleanup-Keeps, mount_overlay-Moves, unmount_overlay-Moves,
}
use oci_container_runtime_fr.Sys.{
  stat, random_bytes, Oracle, Resource, either_way, Moves, Keeps, Keeps-perform, Keeps-pure,
  Keeps-lift, Keeps-wrapping, Keeps-attempt, Keeps-ignoring, Keeps-bind, Keeps-make_dir_all,
  Keeps-read_file, Keeps-remove_all, Sure-attempt, Moves-Sure, Moves-ignored, Moves-pure, Moves-if,
  Moves-Keeps, Moves-bind, Moves-on_error,
}
use oci_container_runtime_fr.Base.{refl, Option, none, some, List, [], ◌++◌, Result, Str}

abbrev pub overlay_held : Option Mount → List Resource
overlay_held none = []
overlay_held (some m) = mount_held m

module _ (os : Oracle) where
  pub new_container_id-Keeps : Keeps (new_container_id os)
  unfolding new_container_id
  new_container_id-Keeps =
      Keeps-bind (Keeps-attempt (Keeps-perform os (random_bytes 6) refl)) (λ b. Keeps-pure _)

  open_store-Keeps : (root : Str) → Keeps (open_store os root)
  unfolding open_store
  open_store-Keeps root = search (Keeps-bind, Keeps-make_dir_all, Keeps-pure)

  load_manifest-Keeps :
      (decode : Str → Result Manifest) (root : Str) (ref : Reference)
      → Keeps (load_manifest os decode root ref)
  unfolding load_manifest
  load_manifest-Keeps decode root ref =
      search (Keeps-bind, Keeps-wrapping, Keeps-read_file, Keeps-lift, Keeps-pure)

  module _ (from : List Resource) where
    mount_layers-Moves :
        (info : ImageInfo) (dir : Str)
        → Moves from
            (mount_layers os info dir)
            (either_way (λ r. overlay_held r.overlay ++ from) from)
    unfolding mount_layers
    mount_layers-Moves info dir =
        Moves-bind (Moves-Keeps (Keeps-make_dir_all os dir))
          (λ _.
            Moves-bind
              (Moves-on_error {to = either_way (λ m. mount_held m ++ from) from}
                (mount_overlay-Moves os from _ dir)
                (λ e. Moves-Keeps (Keeps-ignoring (Keeps-remove_all os dir))) (λ a x. refl))
              (λ m. Moves-pure _ (λ x. refl)) (λ e x. refl))
          (λ e x. refl)

    resolve_image-Moves :
        (decode : Str → Result Manifest) (name store_root : Str)
        → Moves from
            (resolve_image os decode name store_root)
            (either_way (λ r. overlay_held r.overlay ++ from) from)
    unfolding resolve_image
    resolve_image-Moves decode name store_root =
        Moves-bind (Moves-Keeps (Keeps-wrapping _ (Keeps-lift _)))
          (λ ref.
            Moves-bind (Moves-Keeps (open_store-Keeps store_root))
              (λ root.
                Moves-bind (Moves-Keeps (Keeps-wrapping _ (load_manifest-Keeps decode root ref)))
                  (λ info.
                    Moves-bind (Moves-Keeps new_container_id-Keeps)
                      (λ id. mount_layers-Moves info _) (λ e x. refl))
                  (λ e x. refl))
              (λ e x. refl))
          (λ e x. refl)

    pub resolve_rootfs-Moves :
        (decode : Str → Result Manifest) (name store_root : Str)
        → Moves from
            (resolve_rootfs os decode name store_root)
            (either_way (λ r. overlay_held r.overlay ++ from) from)
    unfolding resolve_rootfs
    resolve_rootfs-Moves decode name store_root =
        Moves-Sure (Sure-attempt _)
          (Moves-Keeps (Keeps-attempt (Keeps-perform os (stat name) refl)))
          (λ found.
            Moves-if _ (Moves-pure _ (λ x. refl)) (resolve_image-Moves decode name store_root))

    pub cleanup_overlay-Moves :
        (m : Option Mount) → Moves (overlay_held m ++ from) (cleanup_overlay os m) (λ _. from)
    unfolding cleanup_overlay
    cleanup_overlay-Moves none = Moves-Keeps (Keeps-pure tt)
    cleanup_overlay-Moves (some m) =
        Moves-ignored _ (unmount_overlay-Moves os from m)
          (Moves-Keeps (Keeps-ignoring (cleanup-Keeps os m)))
