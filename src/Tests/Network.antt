-- ===== src/Tests/Network.antt =====
-- The network theorems at a container with two published ports.
use oci_container_runtime_fr.Tests.Concrete.{refusing, first_bytes}
use oci_container_runtime_fr.Network.Types.{PortMapping, Config, run}
use oci_container_runtime_fr.Network.Names.{host_veth, peer_veth, container_ip, veth_names}
use oci_container_runtime_fr.Network.Bridge.{unless, ensure_bridge}
use oci_container_runtime_fr.Network.Publish.{protocol_or_tcp, add_publish_rules}
use oci_container_runtime_fr.Network.Publish.Symmetry.{edit_one, StoppedIn, done_all}
use oci_container_runtime_fr.Network.Setup.{
  delete_link, or_delete, configure_peer, publish_all, connect, setup,
}
use oci_container_runtime_fr.Network.Setup.Teardown.{delete_call}
use oci_container_runtime_fr.Network.Setup.Failure.{NoPair, publish_all_fails, setup_fails}
use oci_container_runtime_fr.Sys.{
  Call, command, Oracle, pure, wrapping, attempt, on_error, ◌>>=◌, perform, ignoring, log, when,
}
use oci_container_runtime_fr.Base.{
  ◌≤◌, ◌≡◌, refl, ◌≢◌, ◌⊎◌, Bool, false, ◌||◌, List, [], ◌∷◌, ◌++◌, length, Error, message, wrap,
  err, Str, str, str_eq, pos, format_int,
}

abbrev pub web : PortMapping
web = record { host_port = pos 8080; container_port = pos 80; protocol = str "tcp" }

abbrev pub dns : PortMapping
dns = record { host_port = pos 53; container_port = pos 53; protocol = str "udp" }

abbrev pub box : Config
box = record {
  container_id = str "0123456789abcdef";
  child_pid = 42;
  rootfs = [];
  port_mappings = web ∷ dns ∷ [];
}

abbrev box_ip : Str
box_ip = container_ip first_bytes box.container_id

-- iptables refuses to rewrite in the OUTPUT chain.
abbrev names_output : List Str → Bool
names_output [] = false
names_output (a ∷ args) = str_eq a (str "OUTPUT") || names_output args

abbrev edits_output : Call → Bool
edits_output (command name args) = names_output args
edits_output _ = false

abbrev no_output : Oracle
no_output = refusing edits_output

-- The error of the second rule.
abbrev refusal : Error
refusal = wrap "publish DNAT OUTPUT" (wrap "run" (message "refused"))

setup_refused : (setup no_output first_bytes box []).0 ≡ err refusal
unfolding setup connect configure_peer publish_all or_delete delete_link ensure_bridge unless
    add_publish_rules run wrapping ignoring perform on_error when pure str str_eq protocol_or_tcp
    format_int ◌>>=◌ attempt host_veth peer_veth container_ip
setup_refused = refl

publish_refused :
    (publish_all no_output (str "vm0") (str "id") (str "10.44.0.2") (web ∷ dns ∷ []) []).0
    ≡ err refusal
unfolding publish_all or_delete delete_link add_publish_rules run wrapping ignoring perform on_error
    when pure str str_eq protocol_or_tcp format_int ◌>>=◌
publish_refused = refl

setup_fails_example :
    (((ensure_bridge no_output []).0 ≡ err refusal)
      × ((setup no_output first_bytes box []).1 ≡ (ensure_bridge no_output []).1))
    ⊎ NoPair
        (host_veth box.container_id)
        (peer_veth box.container_id)
        (log (setup no_output first_bytes box []).1)
setup_fails_example = setup_fails no_output first_bytes box [] setup_refused

publish_all_fails_example :
    (done : List PortMapping) × (pm : PortMapping) × (rest : List PortMapping) × (after : List
      (Call × Bool))
    × (deleted : Bool) × (web ∷ dns ∷ [] ≡ done ++ pm ∷ rest)
    × StoppedIn
        (edit_one "-A" (str "id") (str "10.44.0.2") pm [])
        (done_all "-A" (str "id") (str "10.44.0.2") done [])
        after
    × (log (publish_all no_output (str "vm0") (str "id") (str "10.44.0.2") (web ∷ dns ∷ []) []).1
        ≡ (delete_call (str "vm0"), deleted) ∷ after)
publish_all_fails_example =
    publish_all_fails no_output (str "vm0") (str "id") (str "10.44.0.2") (web ∷ dns ∷ []) []
      publish_refused

veth_names_example :
    (length (host_veth box.container_id) ≤ 15)
    × (length (peer_veth box.container_id) ≤ 15)
    × (host_veth box.container_id ≢ peer_veth box.container_id)
veth_names_example = veth_names box.container_id
