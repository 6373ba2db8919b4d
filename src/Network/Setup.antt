-- ===== src/Network/Setup.antt =====
-- `Setup` and `Teardown` of mvp/internal/network/bridge_linux.go. The hash is a parameter.
pub mod Teardown
pub mod Restored
pub mod Failure
pub mod Holdings
use oci_container_runtime_fr.Network.Types.{
  PortMapping, Config, Network, bridge_name, bridge_ip, run, write_resolv_conf,
}
use oci_container_runtime_fr.Network.Names.{host_veth, peer_veth, container_ip}
use oci_container_runtime_fr.Network.Bridge.{ensure_bridge}
use oci_container_runtime_fr.Network.Publish.{add_publish_rules, del_publish_rules}
use oci_container_runtime_fr.Sys.{
  Spawn, Call, get_env, get_uid, get_gid, get_euid, stat, read_file, remove, remove_all, make_dir,
  make_dir_all, write_file, rename, command, look_path, start, signal, wait, make_pipe, read_byte,
  close, mount, unmount, pivot_root, change_root, change_dir, set_hostname, no_new_privs,
  set_filter, exec, random_bytes, Answer, Event, Trace, Oracle, is_ok, Io, pure, raise, lift,
  wrapping, attempt, finish, on_error, deferring, continue, ◌>>=◌, ◌>>◌, perform, ignoring, log,
  when, tolerated, tolerating, env, text_or_empty, bind-ok, bind-err,
}
use oci_container_runtime_fr.Base.{
  ℕ, zero, suc, ◌+◌, ◌-◌, ◌*◌, ◌/◌, ◌%◌, ◌^◌, ◌≤◌, ◌<◌, min, String, ◌≡◌, refl, sym, ap, ◌∙◌, ◌≢◌,
  ◌↔◌, ◌⊎◌, inl, inr, Bool, true, false, not, ◌&&◌, ◌||◌, Option, none, some, List, [], ◌∷◌, ◌++◌,
  map, reverse, append-nil, append_assoc, arith, ltb, leb, ◌==◌, if◌then◌else◌, ==_iff, Bool-cases,
  Option-cases, length, take, drop, length-append, length-take, take-append, drop-append,
  drop-append_suc, All, All-append, Error, message, wrap, os_error, Errno, already_exists,
  does_not_exist, other_error, is_exist, is_not_exist, Result, ok, err, wrapped, of_option,
  Result-cases, Str, str, str_eq, str_eq_iff, str_eq_refl, index_byte, last_index, contains_byte,
  has_prefix, trim_prefix, join, to_lower, trim_space, Lacks, index_byte-append, index_byte-none,
  last_index-none, last_index-append, last_index_split, contains_byte-append, contains_byte-none, ℤ,
  pos, negsuc, is_positive, is_zero, decimal, format_int, digits_value, parse_int, int64_bound,
  IsDigit, decimal-IsDigit, IsDigit-Lacks, parse_int-decimal, components, is_abs, clean,
  clean_components, is_empty, NonEmpty, clean-NonEmpty, join_path-NonEmpty, All-reverse, join_path,
  trim_by, is_space, concat-ne-nil,
}

-- The `ip` commands that set the peer up inside the child's namespace.
abbrev pub peer_steps : Str → Str → Str → List (List Str)
peer_steps pid peer cidr =
    (str "-n" ∷ pid ∷ str "link" ∷ str "set" ∷ peer ∷ str "name" ∷ str "eth0" ∷ [])
    ∷ (str "-n" ∷ pid ∷ str "link" ∷ str "set" ∷ str "lo" ∷ str "up" ∷ [])
    ∷ (str "-n" ∷ pid ∷ str "addr" ∷ str "add" ∷ cidr ∷ str "dev" ∷ str "eth0" ∷ [])
    ∷ (str "-n" ∷ pid ∷ str "link" ∷ str "set" ∷ str "eth0" ∷ str "up" ∷ [])
    ∷ (str "-n" ∷ pid ∷ str "route" ∷ str "add" ∷ str "default" ∷ str "via" ∷ bridge_ip ∷ [])
    ∷ []

module _ (os : Oracle) where
  unfoldable pub delete_link : Str → Io (Unit {0})
  delete_link veth = ignoring (run os "ip" (str "link" ∷ str "del" ∷ veth ∷ []))

  -- A step of `Setup` after the pair was created: a failure deletes the pair.
  unfoldable pub or_delete : Str → Io (Unit {0}) → Io (Unit {0})
  or_delete veth m = on_error m (delete_link veth)

  unfoldable pub configure_peer : Str → List (List Str) → Io (Unit {0})
  configure_peer veth [] = pure tt
  configure_peer veth (s ∷ steps) = do
    or_delete veth (wrapping "configure netns" (run os "ip" s))
    configure_peer veth steps

  unfoldable pub publish_all : Str → Str → Str → List PortMapping → Io (Unit {0})
  publish_all veth id ip [] = pure tt
  publish_all veth id ip (pm ∷ pms) = do
    or_delete veth (add_publish_rules os id ip pm)
    publish_all veth id ip pms

  -- `Setup` from the creation of the pair to the peer's address.
  unfoldable pub connect : Str → Str → Str → Str → Io (Unit {0})
  connect host peer pid cidr = do
    delete_link host
    wrapping "create veth" (
        run os "ip" (
          str "link"
          ∷ str "add"
          ∷ host
          ∷ str "type"
          ∷ str "veth"
          ∷ str "peer"
          ∷ str "name"
          ∷ peer
          ∷ []))
    or_delete host (
        wrapping "attach"
          (run os "ip" (str "link" ∷ str "set" ∷ host ∷ str "master" ∷ bridge_name ∷ [])))
    or_delete host
        (wrapping "bring up" (run os "ip" (str "link" ∷ str "set" ∷ host ∷ str "up" ∷ [])))
    or_delete host (
        wrapping "move into netns"
          (run os "ip" (str "link" ∷ str "set" ∷ peer ∷ str "netns" ∷ pid ∷ [])))
    configure_peer host (peer_steps pid peer cidr)

  module _ (sha1 : Str → Str) where
    unfoldable pub setup : Config → Io Network
    setup cfg = do
      ensure_bridge os
      let host = host_veth cfg.container_id
      let ip = container_ip sha1 cfg.container_id
      connect host (peer_veth cfg.container_id) (decimal cfg.child_pid) (ip ++ str "/24")
      when (not (is_empty cfg.rootfs)) (ignoring (write_resolv_conf os cfg.rootfs))
      publish_all host cfg.container_id ip cfg.port_mappings
      pure (record { container_ip = ip; host_veth = host; port_mappings = cfg.port_mappings })

  -- The loop of `Teardown`, which keeps the first error.
  unfoldable pub unpublish_all : Str → Str → List PortMapping → Result (Unit {0}) → Io (Unit {0})
  unpublish_all id ip [] first = lift first
  unpublish_all id ip (pm ∷ pms) first = do
    r ← attempt (del_publish_rules os id ip pm)
    unpublish_all id ip pms (if is_ok first then r else first)

  unfoldable pub teardown : Network → Config → Io (Unit {0})
  teardown n cfg = do
    first ← attempt (unpublish_all cfg.container_id n.container_ip n.port_mappings (ok tt))
    when (not (is_empty n.host_veth)) (delete_link n.host_veth)
    lift first
