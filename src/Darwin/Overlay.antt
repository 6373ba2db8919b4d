-- ===== src/Darwin/Overlay.antt =====
-- mvp/internal/overlay/overlay_darwin.go. Its `Mount` is that of Linux.
use oci_container_runtime_fr.Overlay.{Mount}
use oci_container_runtime_fr.Sys.{Io, pure, raise}
use oci_container_runtime_fr.Base.{message, Str}

unfoldable pub mount_overlay : Str → Str → Io Mount
mount_overlay lower_dirs container_dir =
    raise (message "overlay requires Linux (OverlayFS). Run inside a Linux VM")

unfoldable pub unmount_overlay : Mount → Io (Unit {0})
unmount_overlay m = pure tt

unfoldable pub cleanup : Mount → Io (Unit {0})
cleanup m = pure tt
