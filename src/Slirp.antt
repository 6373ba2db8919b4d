-- ===== src/Slirp.antt =====
-- mvp/internal/slirp/slirp_linux.go: the network of a rootless container.
pub mod Release
pub mod Stopped
use oci_container_runtime_fr.Cli.Memory.{mul_int64}
use oci_container_runtime_fr.Sys.{
  Spawn, Call, get_env, get_uid, get_gid, get_euid, stat, read_file, remove, remove_all, make_dir,
  make_dir_all, write_file, rename, command, look_path, start, signal, wait, make_pipe, read_byte,
  close, mount, unmount, pivot_root, change_root, change_dir, set_hostname, no_new_privs,
  set_filter, exec, random_bytes, Response, EntryKind, directory, regular, symbolic_link, hard_link,
  other_kind, Entry, Archive, symlink, link, create_file, copy_into, close_file, open_file,
  read_archive, http_get, await_exit, await_byte, Answer, Event, Trace, Oracle, is_ok, Io, pure,
  raise, lift, wrapping, attempt, finish, on_error, deferring, continue, ◌>>=◌, ◌>>◌, perform,
  ignoring, log, calls, when, tolerated, tolerating, env, text_or_empty, bind-ok, bind-err,
  on_error-ok, on_error-err, performed, lifted, Resource, descriptor, process, mounted, group,
  weight, count, change, held, is_neutral, either_way, Moves, Keeps, Keeps-perform, Keeps-pure,
  Keeps-raise, Keeps-lift, Keeps-wrapping, Keeps-attempt, Keeps-ignoring, Keeps-on_error,
  Keeps-bind, Keeps-when, Keeps-tolerating, Keeps-env, Moves-Keeps, Moves-to, Moves-from,
  Moves-wrapping, Moves-bind, Moves-on_error, Moves-deferring, Moves-ignoring, Moves-attempt,
  Moves-make_pipe, Moves-start, Moves-mount, Moves-make_dir, Moves-close, Moves-wait, Moves-unmount,
  Moves-remove, find_program,
}
use oci_container_runtime_fr.Base.{
  ℕ, zero, suc, ◌+◌, ◌-◌, ◌*◌, ◌/◌, ◌%◌, ◌^◌, ◌≤◌, ◌<◌, min, String, ◌≡◌, refl, sym, ap, ◌∙◌, ◌≢◌,
  ◌↔◌, ◌⊎◌, inl, inr, Bool, true, false, not, ◌&&◌, ◌||◌, Option, none, some, List, [], ◌∷◌, ◌++◌,
  map, reverse, append-nil, append_assoc, arith, ltb, leb, ◌==◌, if◌then◌else◌, ==_iff, Bool-cases,
  Option-cases, length, take, drop, length-append, length-take, take-append, drop-append,
  drop-append_suc, All, All-append, Error, message, wrap, os_error, Errno, already_exists,
  does_not_exist, other_error, is_exist, is_not_exist, Result, ok, err, wrapped, of_option,
  Result-cases, Str, str, str_eq, str_eq_iff, str_eq_refl, index_byte, last_index, contains_byte,
  has_prefix, trim_prefix, join, to_lower, trim_space, Lacks, index_byte-append, index_byte-none,
  last_index-none, last_index-append, last_index_split, contains_byte-append, contains_byte-none, ℤ,
  pos, negsuc, is_positive, is_zero, decimal, format_int, digits_value, parse_int, int64_bound,
  IsDigit, decimal-IsDigit, IsDigit-Lacks, parse_int-decimal, components, is_abs, clean,
  clean_components, is_empty, NonEmpty, clean-NonEmpty, join_path-NonEmpty, All-reverse, join_path,
  split_last_slash, dir_name, base_name, trim_by, is_space, concat-ne-nil,
}

pub record Config : Type 0 where
  pub child_pid : ℕ
  pub rootfs : Str

-- The process, and the read end of its ready pipe.
pub record Handle : Type 0 where
  pub pid : ℕ
  pub ready_end : ℕ

abbrev pub tap_device : Str
tap_device = str "tap0"

abbrev pub dns_ip : Str
dns_ip = str "10.0.2.3"

-- time.Second
abbrev pub second : ℕ
second = 10 ^ 9

-- The arguments of slirp4netns.
unfoldable pub arguments : ℕ → List Str
arguments pid =
    str "--configure"
    ∷ str "--mtu=65520"
    ∷ str "--disable-host-loopback"
    ∷ str "--ready-fd=3"
    ∷ decimal pid
    ∷ tap_device
    ∷ []

unfoldable pub spawn_of : Str → ℕ → ℕ → Spawn
spawn_of bin pid ready_write = record {
  program = bin;
  args = arguments pid;
  extra_file = ready_write;
  clone_flags = [];
  uid_map = none;
  gid_map = none;
  new_process_group = true;
}

-- The number of seconds that the variable's text sets, as a time.Duration: the product with
-- time.Second wraps around in int64.
unfoldable pub timeout_of : Str → ℤ
timeout_of v = elim (parse_int v) [
  | none ↦ pos (5 * second)
  | some n ↦ elim n [
    | pos k ↦ if ltb 0 k then mul_int64 k second else pos (5 * second)
    | negsuc k ↦ pos (5 * second)
  ]
]

-- What the select in `waitReady` makes of a byte, of the pipe's end, or of the timer.
unfoldable pub ready_result : Result (Option ℕ) → Result (Unit {0})
ready_result (ok none) = err (message "slirp: timed out")
ready_result (ok (some n)) = if n == 1 then ok tt else err (message "slirp: not ready (empty read)")
ready_result (err e) = err (wrap "slirp: not ready (pipe closed)" e)

-- cmd.Wait came back before the timer, with or without an error.
abbrev pub exited_in_time : Result Bool → Bool
exited_in_time (ok b) = b
exited_in_time (err e) = true

module _ (os : Oracle) where
  -- `readyTimeout`; an empty variable reads as one that is not set.
  unfoldable pub ready_timeout : Io ℤ
  unfolding timeout_of
  ready_timeout = do
    v ← env os "SLIRP4NETNS_READY_TIMEOUT"
    pure (if is_empty v then pos (5 * second) else timeout_of v)

  unfoldable pub wait_ready : ℕ → ℤ → Io (Unit {0})
  unfolding ready_result
  wait_ready fd timeout = do r ← attempt (perform os (await_byte fd timeout)); lift (ready_result r)

  unfoldable pub write_resolv_conf : Str → Io (Unit {0})
  write_resolv_conf rootfs = do
    perform os (make_dir_all (dir_name (join_path (rootfs ∷ str "etc" ∷ str "resolv.conf" ∷ []))))
    perform os (
        write_file (join_path (rootfs ∷ str "etc" ∷ str "resolv.conf" ∷ []))
          (str "nameserver " ++ dns_ip ++ str "\n"))

  -- The clean-up of `Setup` after a failed start, and after a failed wait.
  unfoldable pub close_both : ℕ → ℕ → Io (Unit {0})
  close_both ready_read ready_write = do
    ignoring (perform os (close ready_read))
    ignoring (perform os (close ready_write))

  unfoldable pub stop : ℕ → ℕ → Io (Unit {0})
  stop pid ready_read = do
    ignoring (perform os (signal pid "SIGKILL"))
    ignoring (perform os (wait pid))
    ignoring (perform os (close ready_read))

  -- `Setup` behind the start of the process.
  unfoldable pub await_setup : Config → ℕ → ℕ → Io Handle
  await_setup cfg pid ready_read = do
    timeout ← ready_timeout
    on_error (wait_ready ready_read timeout) (stop pid ready_read)
    when (not (is_empty cfg.rootfs)) (ignoring (write_resolv_conf cfg.rootfs))
    pure (record { pid = pid; ready_end = ready_read })

  unfoldable pub setup : Config → Io Handle
  setup cfg = do
    bin ← find_program os "slirp4netns" "slirp4netns not found on PATH"
    ready ← wrapping "slirp: pipe" (perform os make_pipe)
    pid ←
        on_error (wrapping "slirp: spawn" (perform os (start (spawn_of bin cfg.child_pid ready.1))))
          (close_both ready.0 ready.1)
    ignoring (perform os (close ready.1))
    await_setup cfg pid ready.0

  unfoldable pub teardown : Handle → Io (Unit {0})
  teardown h = do
    ignoring (perform os (signal h.pid "SIGTERM"))
    exited ← attempt (perform os (await_exit h.pid (pos (2 * second))))
    when (not (exited_in_time exited))
        (do ignoring (perform os (signal h.pid "SIGKILL")); ignoring (perform os (wait h.pid)))
    ignoring (perform os (close h.ready_end))
