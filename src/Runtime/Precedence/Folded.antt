-- ===== src/Runtime/Precedence/Folded.antt =====
-- `applySpec` of mvp/internal/runtime/runtime_linux.go, setting by setting.
use oci_container_runtime_fr.Runtime.Config.{Config}
use oci_container_runtime_fr.Spec.{Spec}
