-- ===== src/Darwin/Slirp.antt =====
-- mvp/internal/slirp/slirp_darwin.go. Its `Config` is that of Linux.
use oci_container_runtime_fr.Slirp.{Config}
use oci_container_runtime_fr.Sys.{Io, pure, raise}
use oci_container_runtime_fr.Base.{message}

pub data Handle : Type 0 where
  handle : Handle

unfoldable pub setup : Config → Io Handle
setup cfg = raise (message "slirp4netns requires Linux")

unfoldable pub teardown : Handle → Io (Unit {0})
teardown h = pure tt
