-- ===== src/Network/Setup/Holdings.antt =====
-- The network's set-up and teardown of mvp/internal/network/bridge_linux.go run commands and write
-- files. They start no process that stays, and open nothing.
use oci_container_runtime_fr.Network.Types.{PortMapping, Config, Network, run, write_resolv_conf}
use oci_container_runtime_fr.Network.Bridge.{unless, ensure_bridge}
use oci_container_runtime_fr.Network.Publish.{add_publish_rules, del_publish_rules}
use oci_container_runtime_fr.Network.Setup.{
  delete_link, or_delete, configure_peer, publish_all, connect, setup, unpublish_all, teardown,
}
use oci_container_runtime_fr.Sys.{
  Call, make_dir_all, write_file, command, Oracle, Io, perform, is_neutral, Keeps, Makes,
  Makes-perform, Makes-pure, Makes-lift, Makes-wrapping, Makes-attempt, Makes-ignoring,
  Makes-on_error, Makes-bind, Makes-Keeps, Makes-when,
}
use oci_container_runtime_fr.Base.{String, ◌≡◌, refl, true, List, [], ◌∷◌, Result, Str, str}

-- What holds of each command that is run and of each file that is written.
pub record IsLocal (P : Call → Type 0) : Type 0 where
  pub commands : (name : Str) (args : List Str) → P (command name args)
  pub files : (path content : Str) → P (write_file path content)
  pub directories : (path : Str) → P (make_dir_all path)

module _ (os : Oracle) {P : Call → Type 0} (local : IsLocal P) where
  wrote : (path content : Str) → Makes P (perform os (write_file path content))
  wrote path content = Makes-perform os _ (local.files path content)

  made_dir : (path : Str) → Makes P (perform os (make_dir_all path))
  made_dir path = Makes-perform os _ (local.directories path)

  run-Makes : (name : String) (args : List Str) → Makes P (run os name args)
  unfolding run
  run-Makes name args =
      Makes-wrapping (Makes-perform os (command (str name) args) (local.commands (str name) args))
        "run"

  unless-Makes : {check m : Io (Unit {0})} → Makes P check → Makes P m → Makes P (unless os check m)
  unfolding unless
  unless-Makes c k = Makes-bind (Makes-attempt c) (λ found. Makes-when _ k)

  ensure_bridge-Makes : Makes P (ensure_bridge os)
  unfolding ensure_bridge
  ensure_bridge-Makes =
      search (Makes-bind, unless-Makes, Makes-wrapping, run-Makes, wrote, Makes-ignoring) depth 14

  delete_link-Makes : (veth : Str) → Makes P (delete_link os veth)
  unfolding delete_link
  delete_link-Makes veth = Makes-ignoring (run-Makes _ _)

  or_delete-Makes : (veth : Str) {m : Io (Unit {0})} → Makes P m → Makes P (or_delete os veth m)
  unfolding or_delete
  or_delete-Makes veth k = Makes-on_error k (delete_link-Makes veth)

  configure_peer-Makes :
      (veth : Str) (steps : List (List Str)) → Makes P (configure_peer os veth steps)
  unfolding configure_peer
  configure_peer-Makes veth [] = Makes-pure tt
  configure_peer-Makes veth (s ∷ steps) =
      Makes-bind (or_delete-Makes veth (Makes-wrapping (run-Makes _ s) _))
        (λ _. configure_peer-Makes veth steps)

  add_publish_rules-Makes :
      (id ip : Str) (pm : PortMapping) → Makes P (add_publish_rules os id ip pm)
  unfolding add_publish_rules
  add_publish_rules-Makes id ip pm = search (Makes-bind, Makes-wrapping, run-Makes)

  del_publish_rules-Makes :
      (id ip : Str) (pm : PortMapping) → Makes P (del_publish_rules os id ip pm)
  unfolding del_publish_rules
  del_publish_rules-Makes id ip pm = search (Makes-bind, Makes-ignoring, run-Makes)

  publish_all-Makes :
      (veth id ip : Str) (pms : List PortMapping) → Makes P (publish_all os veth id ip pms)
  unfolding publish_all
  publish_all-Makes veth id ip [] = Makes-pure tt
  publish_all-Makes veth id ip (pm ∷ pms) =
      Makes-bind (or_delete-Makes veth (add_publish_rules-Makes id ip pm))
        (λ _. publish_all-Makes veth id ip pms)

  connect-Makes : (host peer pid cidr : Str) → Makes P (connect os host peer pid cidr)
  unfolding connect
  connect-Makes host peer pid cidr =
      search
        (
          Makes-bind, delete_link-Makes, or_delete-Makes, Makes-wrapping, run-Makes,
          configure_peer-Makes,
        )
        depth 14

  write_resolv_conf-Makes : (rootfs : Str) → Makes P (write_resolv_conf os rootfs)
  unfolding write_resolv_conf
  write_resolv_conf-Makes rootfs = search (Makes-bind, made_dir, wrote)

  unpublish_all-Makes :
      (id ip : Str) (pms : List PortMapping) (first : Result (Unit {0}))
      → Makes P (unpublish_all os id ip pms first)
  unfolding unpublish_all
  unpublish_all-Makes id ip [] first = Makes-lift first
  unpublish_all-Makes id ip (pm ∷ pms) first =
      Makes-bind (Makes-attempt (del_publish_rules-Makes id ip pm))
        (λ r. unpublish_all-Makes id ip pms _)

  pub setup-Makes : (sha1 : Str → Str) (cfg : Config) → Makes P (setup os sha1 cfg)
  unfolding setup
  setup-Makes sha1 cfg =
      search
        (
          Makes-bind, ensure_bridge-Makes, connect-Makes, Makes-when, Makes-ignoring,
          write_resolv_conf-Makes, publish_all-Makes, Makes-pure,
        )
        depth 14

  pub teardown-Makes : (n : Network) (cfg : Config) → Makes P (teardown os n cfg)
  unfolding teardown
  teardown-Makes n cfg =
      search
        (Makes-bind, Makes-attempt, unpublish_all-Makes, Makes-when, delete_link-Makes, Makes-lift)

neutral : IsLocal (λ c. is_neutral c ≡ true)
neutral = record {
  commands = λ name args. refl;
  files = λ path content. refl;
  directories = λ path. refl;
}

pub setup-Keeps : (os : Oracle) (sha1 : Str → Str) (cfg : Config) → Keeps (setup os sha1 cfg)
setup-Keeps os sha1 cfg = Makes-Keeps (setup-Makes os neutral sha1 cfg)

pub teardown-Keeps : (os : Oracle) (n : Network) (cfg : Config) → Keeps (teardown os n cfg)
teardown-Keeps os n cfg = Makes-Keeps (teardown-Makes os neutral n cfg)
