-- ===== src/Network/Publish.antt =====
-- `addPublishRules` and `delPublishRules` of mvp/internal/network/bridge_linux.go.
pub mod Symmetry
pub mod Table
use oci_container_runtime_fr.Network.Types.{PortMapping, run}
use oci_container_runtime_fr.Sys.{
  Spawn, Call, get_env, get_uid, get_gid, get_euid, stat, read_file, remove, remove_all, make_dir,
  make_dir_all, write_file, rename, command, look_path, start, signal, wait, make_pipe, read_byte,
  close, mount, unmount, pivot_root, change_root, change_dir, set_hostname, no_new_privs,
  set_filter, exec, random_bytes, Answer, Event, Trace, Oracle, is_ok, Io, pure, raise, lift,
  wrapping, attempt, finish, on_error, deferring, continue, ◌>>=◌, ◌>>◌, perform, ignoring, log,
  when, tolerated, tolerating, env, text_or_empty, bind-ok, bind-err,
}
use oci_container_runtime_fr.Base.{
  ℕ, zero, suc, ◌+◌, ◌-◌, ◌*◌, ◌/◌, ◌%◌, ◌^◌, ◌≤◌, ◌<◌, min, String, ◌≡◌, refl, sym, ap, ◌∙◌, ◌≢◌,
  ◌↔◌, ◌⊎◌, inl, inr, Bool, true, false, not, ◌&&◌, ◌||◌, Option, none, some, List, [], ◌∷◌, ◌++◌,
  map, reverse, append-nil, append_assoc, arith, ltb, leb, ◌==◌, if◌then◌else◌, ==_iff, Bool-cases,
  Option-cases, length, take, drop, length-append, length-take, take-append, drop-append,
  drop-append_suc, All, All-append, Error, message, wrap, os_error, Errno, already_exists,
  does_not_exist, other_error, is_exist, is_not_exist, Result, ok, err, wrapped, of_option,
  Result-cases, Str, str, str_eq, str_eq_iff, str_eq_refl, index_byte, last_index, contains_byte,
  has_prefix, trim_prefix, join, to_lower, trim_space, Lacks, index_byte-append, index_byte-none,
  last_index-none, last_index-append, last_index_split, contains_byte-append, contains_byte-none, ℤ,
  pos, negsuc, is_positive, is_zero, decimal, format_int, digits_value, parse_int, int64_bound,
  IsDigit, decimal-IsDigit, IsDigit-Lacks, parse_int-decimal, components, is_abs, clean,
  clean_components, is_empty, NonEmpty, clean-NonEmpty, join_path-NonEmpty, All-reverse, join_path,
  trim_by, is_space, concat-ne-nil,
}

-- An empty protocol means tcp.
unfoldable pub protocol_or_tcp : Str → Str
protocol_or_tcp p = if is_empty p then str "tcp" else p

abbrev pub comment_of : Str → Str
comment_of id = str "myrun:" ++ id

abbrev pub target_of : Str → PortMapping → Str
target_of ip pm = ip ++ str ":" ++ format_int pm.container_port

module _ (os : Oracle) (id ip : Str) (pm : PortMapping) where
  unfoldable pub add_publish_rules : Io (Unit {0})
  add_publish_rules = do
    let proto = protocol_or_tcp pm.protocol
    wrapping "publish DNAT PREROUTING" (
        run os "iptables" (
          str "-t"
          ∷ str "nat"
          ∷ str "-A"
          ∷ str "PREROUTING"
          ∷ str "-p"
          ∷ proto
          ∷ str "--dport"
          ∷ format_int pm.host_port
          ∷ str "-m"
          ∷ str "comment"
          ∷ str "--comment"
          ∷ comment_of id
          ∷ str "-j"
          ∷ str "DNAT"
          ∷ str "--to-destination"
          ∷ target_of ip pm
          ∷ []))
    wrapping "publish DNAT OUTPUT" (
        run os "iptables" (
          str "-t"
          ∷ str "nat"
          ∷ str "-A"
          ∷ str "OUTPUT"
          ∷ str "-p"
          ∷ proto
          ∷ str "--dport"
          ∷ format_int pm.host_port
          ∷ str "-m"
          ∷ str "comment"
          ∷ str "--comment"
          ∷ comment_of id
          ∷ str "-j"
          ∷ str "DNAT"
          ∷ str "--to-destination"
          ∷ target_of ip pm
          ∷ []))
    wrapping "publish FORWARD accept" (
        run os "iptables" (
          str "-A"
          ∷ str "FORWARD"
          ∷ str "-p"
          ∷ proto
          ∷ str "-d"
          ∷ ip
          ∷ str "--dport"
          ∷ format_int pm.container_port
          ∷ str "-m"
          ∷ str "comment"
          ∷ str "--comment"
          ∷ comment_of id
          ∷ str "-j"
          ∷ str "ACCEPT"
          ∷ []))

  unfoldable pub del_publish_rules : Io (Unit {0})
  del_publish_rules = do
    let proto = protocol_or_tcp pm.protocol
    ignoring (
        run os "iptables" (
          str "-t"
          ∷ str "nat"
          ∷ str "-D"
          ∷ str "PREROUTING"
          ∷ str "-p"
          ∷ proto
          ∷ str "--dport"
          ∷ format_int pm.host_port
          ∷ str "-m"
          ∷ str "comment"
          ∷ str "--comment"
          ∷ comment_of id
          ∷ str "-j"
          ∷ str "DNAT"
          ∷ str "--to-destination"
          ∷ target_of ip pm
          ∷ []))
    ignoring (
        run os "iptables" (
          str "-t"
          ∷ str "nat"
          ∷ str "-D"
          ∷ str "OUTPUT"
          ∷ str "-p"
          ∷ proto
          ∷ str "--dport"
          ∷ format_int pm.host_port
          ∷ str "-m"
          ∷ str "comment"
          ∷ str "--comment"
          ∷ comment_of id
          ∷ str "-j"
          ∷ str "DNAT"
          ∷ str "--to-destination"
          ∷ target_of ip pm
          ∷ []))
    ignoring (
        run os "iptables" (
          str "-D"
          ∷ str "FORWARD"
          ∷ str "-p"
          ∷ proto
          ∷ str "-d"
          ∷ ip
          ∷ str "--dport"
          ∷ format_int pm.container_port
          ∷ str "-m"
          ∷ str "comment"
          ∷ str "--comment"
          ∷ comment_of id
          ∷ str "-j"
          ∷ str "ACCEPT"
          ∷ []))
