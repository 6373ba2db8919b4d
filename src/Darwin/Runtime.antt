-- ===== src/Darwin/Runtime.antt =====
-- mvp/internal/runtime/runtime_darwin.go. Its `Config` is that of Linux.
use oci_container_runtime_fr.Runtime.Config.{Config}
use oci_container_runtime_fr.Runtime.Child.{ChildArgs}
use oci_container_runtime_fr.Sys.{Io, raise}
use oci_container_runtime_fr.Base.{Error, message}

abbrev unsupported : Error
unsupported =
    message "myrun runtime requires Linux (namespaces + chroot). Run inside a Linux VM — see README"

unfoldable pub run : {F : Type 0} → Config F → Io (Unit {0})
run cfg = raise unsupported

unfoldable pub child : ChildArgs → Io (Unit {0})
child c = raise unsupported
