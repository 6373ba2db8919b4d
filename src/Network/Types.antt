-- ===== src/Network/Types.antt =====
-- The data and constants of mvp/internal/network/bridge_linux.go, and its `run` and
-- `writeResolvConf`.
use oci_container_runtime_fr.Sys.{
  make_dir_all, write_file, command, Oracle, Io, wrapping, ◌>>◌, perform,
}
use oci_container_runtime_fr.Base.{ℕ, String, List, [], ◌∷◌, Str, str, ℤ, join_path}

pub record PortMapping : Type 0 where
  pub host_port : ℤ
  pub container_port : ℤ
  pub protocol : Str

pub record Config : Type 0 where
  pub container_id : Str
  pub child_pid : ℕ
  pub rootfs : Str
  pub port_mappings : List PortMapping

pub record Network : Type 0 where
  pub container_ip : Str
  pub host_veth : Str
  pub port_mappings : List PortMapping

abbrev pub bridge_name : Str
bridge_name = str "myrun0"

abbrev pub bridge_cidr : Str
bridge_cidr = str "10.44.0.1/24"

abbrev pub bridge_ip : Str
bridge_ip = str "10.44.0.1"

abbrev pub subnet : Str
subnet = str "10.44.0.0/24"

module _ (os : Oracle) where
  -- `run`, whose error text is not modelled.
  unfoldable pub run : String → List Str → Io (Unit {0})
  run name args = wrapping "run" (perform os (command (str name) args))

  unfoldable pub write_resolv_conf : Str → Io (Unit {0})
  write_resolv_conf rootfs = do
    let etc = join_path (rootfs ∷ str "etc" ∷ [])
    perform os (make_dir_all etc)
    perform os (
        write_file (join_path (etc ∷ str "resolv.conf" ∷ []))
          (str "nameserver 8.8.8.8\nnameserver 1.1.1.1\n"))
