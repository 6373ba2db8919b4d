-- ===== src/Darwin/Cgroups.antt =====
-- mvp/internal/cgroups/cgroups_darwin.go. The log line is left out.
use oci_container_runtime_fr.Cgroups.{Limits, FloatOps}
use oci_container_runtime_fr.Sys.{Io, pure}
use oci_container_runtime_fr.Base.{ℕ, Bool, ◌||◌, [], Str, is_positive}

-- `Limits.Any`
unfoldable pub any : {F : Type 0} → FloatOps F → Limits F → Bool
any fl lim =
    is_positive lim.memory_bytes || (fl.above_zero lim.cpu_quota || is_positive lim.pids_max)

-- A group is its path, which is empty here.
unfoldable pub create : {F : Type 0} → Limits F → ℕ → Io Str
create lim owner_pid = pure []

unfoldable pub add_pid : Str → ℕ → Io (Unit {0})
add_pid path pid = pure tt

unfoldable pub close_group : Str → Io (Unit {0})
close_group path = pure tt
