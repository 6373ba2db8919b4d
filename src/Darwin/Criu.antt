-- ===== src/Darwin/Criu.antt =====
-- mvp/internal/criu/criu_darwin.go
use oci_container_runtime_fr.Sys.{Io, pure, raise}
use oci_container_runtime_fr.Base.{Bool, false, message, Str, ℤ}

unfoldable pub dump : ℤ → Str → Io (Unit {0})
dump pid images_dir = raise (message "CRIU checkpoint/restore requires Linux")

unfoldable pub restore : Str → Io (Unit {0})
restore images_dir = raise (message "CRIU checkpoint/restore requires Linux")

unfoldable pub available : Io Bool
available = pure false
