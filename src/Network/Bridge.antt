-- ===== src/Network/Bridge.antt =====
-- `EnsureBridge` of mvp/internal/network/bridge_linux.go.
pub mod Standing
pub mod Unique
use oci_container_runtime_fr.Network.Types.{bridge_name, bridge_cidr, subnet, run}
use oci_container_runtime_fr.Sys.{
  Spawn, Call, get_env, get_uid, get_gid, get_euid, stat, read_file, remove, remove_all, make_dir,
  make_dir_all, write_file, rename, command, look_path, start, signal, wait, make_pipe, read_byte,
  close, mount, unmount, pivot_root, change_root, change_dir, set_hostname, no_new_privs,
  set_filter, exec, random_bytes, Response, EntryKind, directory, regular, symbolic_link, hard_link,
  other_kind, Entry, Archive, symlink, link, create_file, copy_into, close_file, open_file,
  read_archive, http_get, await_exit, await_byte, Answer, Event, Trace, Oracle, is_ok, Io, pure,
  raise, lift, wrapping, attempt, finish, on_error, deferring, continue, ◌>>=◌, ◌>>◌, perform,
  ignoring, log, calls, when, tolerated, tolerating, env, text_or_empty, bind-ok, bind-err,
  on_error-ok, on_error-err, performed, performed-ok, step-ok, check-ok, lifted, Resource,
  descriptor, process, mounted, group, weight, count, change, held, is_neutral, either_way, Moves,
  Keeps, Keeps-perform, Keeps-pure, Keeps-raise, Keeps-lift, Keeps-wrapping, Keeps-attempt,
  Keeps-ignoring, Keeps-on_error, Keeps-bind, Keeps-when, Keeps-tolerating, Keeps-env,
  Keeps-make_dir_all, Keeps-write_file, Keeps-command, Keeps-signal, Keeps-read_file,
  Keeps-remove_all, find_program-Keeps, Sure, Sure-ignoring, Sure-attempt, Sure-env, Sure-pure,
  Sure-when, Sure-bind, Moves-Sure, Moves-ignored, Moves-kept, Moves-tolerating, Moves-wrapping_all,
  Moves-pure, Moves-raise, Moves-wait_all, Moves-attempted, count-append, Moves-if, Keeps-if,
  after_exit, Moves-await_exit, Moves-Keeps, Moves-to, Moves-from, Moves-wrapping, Moves-bind,
  Moves-on_error, Moves-deferring, Moves-ignoring, Moves-attempt, Moves-make_pipe, Moves-start,
  Moves-mount, Moves-make_dir, Moves-close, Moves-wait, Moves-unmount, Moves-remove, find_program,
  NewCalls, Makes, Makes-perform, Makes-env, Makes-pure, Makes-raise, Makes-lift, Makes-wrapping,
  Makes-attempt, Makes-ignoring, Makes-on_error, Makes-deferring, Makes-bind, no_calls, more_calls,
  Makes-Keeps, Makes-if, Makes-when, Makes-tolerating, find_program-Makes,
}
use oci_container_runtime_fr.Base.{
  ℕ, zero, suc, ◌+◌, ◌-◌, ◌*◌, ◌/◌, ◌%◌, ◌^◌, ◌≤◌, ◌<◌, min, String, ◌≡◌, refl, sym, ap, ◌∙◌, ◌≢◌,
  ◌↔◌, ◌⊎◌, inl, inr, Bool, true, false, not, ◌&&◌, ◌||◌, Option, none, some, List, [], ◌∷◌, ◌++◌,
  map, reverse, reverse-append, reverse-reverse, foldl, foldl-append, append-nil, append_assoc,
  arith, ltb, leb, ◌==◌, if◌then◌else◌, ==_iff, Bool-cases, Option-cases, length, take, drop,
  length-append, length-take, take-append, drop-append, drop-append_suc, All, All-append, Error,
  message, wrap, os_error, Errno, already_exists, does_not_exist, other_error, is_exist,
  is_not_exist, Result, ok, err, wrapped, of_option, Result-cases, Str, str, str_eq, str_eq_iff,
  str_eq_refl, index_byte, last_index, contains_byte, has_prefix, trim_prefix, contains_text, hex,
  join, to_lower, trim_space, Lacks, index_byte-append, index_byte-none, last_index-none,
  last_index-append, last_index_split, contains_byte-append, contains_byte-none, ℤ, pos, negsuc,
  is_positive, is_zero, decimal, format_int, digits_value, parse_int, int64_bound, IsDigit,
  decimal-IsDigit, IsDigit-Lacks, parse_int-decimal, split_on, split_on-append, split_on-Lacks,
  split_on-join, All-split_on, components, is_abs, clean, clean_components, clean_step,
  clean_parent, render_path, is_empty, NonEmpty, clean-NonEmpty, join_path-NonEmpty, All-reverse,
  join_path, split_last_slash, drop_slashes, dir_name, base_name, trim_by, is_space, concat-ne-nil,
  ok≢err,
}

abbrev pub masquerade_rule : String → List Str
masquerade_rule edit =
    str "-t"
    ∷ str "nat"
    ∷ str edit
    ∷ str "POSTROUTING"
    ∷ str "-s"
    ∷ subnet
    ∷ str "!"
    ∷ str "-o"
    ∷ bridge_name
    ∷ str "-j"
    ∷ str "MASQUERADE"
    ∷ []

abbrev pub forward_rule : String → String → List Str
forward_rule edit direction =
    str edit ∷ str "FORWARD" ∷ str direction ∷ bridge_name ∷ str "-j" ∷ str "ACCEPT" ∷ []

module _ (os : Oracle) where
  -- `if err := check(); err != nil { m }`
  unfoldable pub unless : Io (Unit {0}) → Io (Unit {0}) → Io (Unit {0})
  unless check m = do found ← attempt check; when (not (is_ok found)) m

  unfoldable pub create_bridge : Io (Unit {0})
  create_bridge = do
    wrapping "create bridge"
        (run os "ip" (str "link" ∷ str "add" ∷ bridge_name ∷ str "type" ∷ str "bridge" ∷ []))
    wrapping "assign"
        (run os "ip" (str "addr" ∷ str "add" ∷ bridge_cidr ∷ str "dev" ∷ bridge_name ∷ []))

  unfoldable pub ensure_bridge : Io (Unit {0})
  unfolding create_bridge
  ensure_bridge = do
    unless (run os "ip" (str "link" ∷ str "show" ∷ bridge_name ∷ [])) create_bridge
    wrapping "bring up" (run os "ip" (str "link" ∷ str "set" ∷ bridge_name ∷ str "up" ∷ []))
    wrapping "enable ip_forward"
        (perform os (write_file (str "/proc/sys/net/ipv4/ip_forward") (str "1")))
    unless (run os "iptables" (masquerade_rule "-C"))
        (wrapping "install MASQUERADE" (run os "iptables" (masquerade_rule "-A")))
    unless (run os "iptables" (forward_rule "-C" "-i"))
        (ignoring (run os "iptables" (forward_rule "-A" "-i")))
    unless (run os "iptables" (forward_rule "-C" "-o"))
        (ignoring (run os "iptables" (forward_rule "-A" "-o")))
