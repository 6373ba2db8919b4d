-- ===== src/Darwin/Seccomp.antt =====
-- mvp/internal/seccomp/seccomp_darwin.go
use oci_container_runtime_fr.Sys.{Io, pure}
use oci_container_runtime_fr.Base.{ℕ, List, []}

unfoldable pub apply : Io (Unit {0})
apply = pure tt

unfoldable pub default_allow_list : List ℕ
default_allow_list = []
