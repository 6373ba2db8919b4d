-- ===== src/Darwin/Userns.antt =====
-- mvp/internal/userns/userns_darwin.go. Its `Config` is that of Linux.
use oci_container_runtime_fr.Userns.{Config}
use oci_container_runtime_fr.Sys.{Spawn, Io, pure}
use oci_container_runtime_fr.Base.{Bool, false, pos}

unfoldable pub detect : Bool → Io Config
detect force = pure (record { enabled = false; host_uid = pos 0; host_gid = pos 0; size = pos 0 })

unfoldable pub preflight : Config → Io (Unit {0})
preflight c = pure tt

unfoldable pub apply_to_spawn : Config → Spawn → Spawn
apply_to_spawn c spawn = spawn
