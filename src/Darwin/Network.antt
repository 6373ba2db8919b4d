-- ===== src/Darwin/Network.antt =====
-- mvp/internal/network/network_darwin.go. Its `PortMapping` and `Config` are those of Linux.
use oci_container_runtime_fr.Network.Types.{Config}
use oci_container_runtime_fr.Sys.{Io, pure, raise}
use oci_container_runtime_fr.Base.{message, Str}

pub record Network : Type 0 where
  pub container_ip : Str

unfoldable pub ensure_bridge : Io (Unit {0})
ensure_bridge =
    raise (message "network requires Linux (bridge/veth/netns/iptables). Run inside a Linux VM")

unfoldable pub setup : Config → Io Network
setup cfg =
    raise (message "network requires Linux (bridge/veth/netns/iptables). Run inside a Linux VM")

unfoldable pub teardown : Network → Config → Io (Unit {0})
teardown n cfg = pure tt
