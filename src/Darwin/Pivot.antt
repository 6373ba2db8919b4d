-- ===== src/Darwin/Pivot.antt =====
-- mvp/internal/pivot/pivot_darwin.go
use oci_container_runtime_fr.Sys.{Io, raise}
use oci_container_runtime_fr.Base.{message, Str}

unfoldable pub pivot : Str → Io (Unit {0})
pivot new_root = raise (message "pivot_root requires Linux")
