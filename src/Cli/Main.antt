-- ===== src/Cli/Main.antt =====
-- `storeRoot`, the commands and `main` of mvp/cmd/myrun/main.go. What package flag makes of the
-- arguments is a parameter; what is printed is left out.
pub mod Exit
pub mod Release
use oci_container_runtime_fr.Cli.Memory.{parse_memory}
use oci_container_runtime_fr.Cli.Publish.{set_all}
use oci_container_runtime_fr.Network.Types.{PortMapping}
use oci_container_runtime_fr.Cli.Program.{Flags, Program, Platform}
use oci_container_runtime_fr.Image.Reference.{parse_ref}
use oci_container_runtime_fr.Image.Registry.{Codecs}
use oci_container_runtime_fr.Image.Pull.{pull}
use oci_container_runtime_fr.Runtime.Config.{Config}
use oci_container_runtime_fr.Runtime.Child.{ChildArgs, child_args}
use oci_container_runtime_fr.Spec.{Spec}
use oci_container_runtime_fr.Spec.Load.{load}
use oci_container_runtime_fr.Sys.{
  Spawn, Call, get_env, get_uid, get_gid, get_euid, stat, read_file, remove, remove_all, make_dir,
  make_dir_all, write_file, rename, command, look_path, start, signal, wait, make_pipe, read_byte,
  close, mount, unmount, pivot_root, change_root, change_dir, set_hostname, no_new_privs,
  set_filter, exec, random_bytes, Response, EntryKind, directory, regular, symbolic_link, hard_link,
  other_kind, Entry, Archive, symlink, link, create_file, copy_into, close_file, open_file,
  read_archive, http_get, await_exit, await_byte, Answer, Event, Trace, Oracle, is_ok, Io, pure,
  raise, lift, wrapping, attempt, finish, on_error, deferring, continue, ◌>>=◌, ◌>>◌, perform,
  ignoring, log, calls, when, tolerated, tolerating, env, text_or_empty, bind-ok, bind-err,
  on_error-ok, on_error-err, performed, performed-ok, step-ok, check-ok, lifted, Resource,
  descriptor, process, mounted, group, weight, count, change, held, is_neutral, either_way, Moves,
  Keeps, Keeps-perform, Keeps-pure, Keeps-raise, Keeps-lift, Keeps-wrapping, Keeps-attempt,
  Keeps-ignoring, Keeps-on_error, Keeps-bind, Keeps-when, Keeps-tolerating, Keeps-env,
  Keeps-make_dir_all, Keeps-write_file, Keeps-command, Keeps-signal, Keeps-read_file,
  Keeps-remove_all, find_program-Keeps, Sure, Sure-ignoring, Sure-attempt, Sure-env, Sure-pure,
  Sure-when, Sure-bind, Moves-Sure, Moves-ignored, Moves-kept, Moves-tolerating, Moves-wrapping_all,
  Moves-pure, Moves-raise, Moves-wait_all, Moves-attempted, count-append, Moves-if, Keeps-if,
  after_exit, Moves-await_exit, Moves-Keeps, Moves-to, Moves-from, Moves-wrapping, Moves-bind,
  Moves-on_error, Moves-deferring, Moves-ignoring, Moves-attempt, Moves-make_pipe, Moves-start,
  Moves-mount, Moves-make_dir, Moves-close, Moves-wait, Moves-unmount, Moves-remove, find_program,
  NewCalls, Makes, Makes-perform, Makes-env, Makes-pure, Makes-raise, Makes-lift, Makes-wrapping,
  Makes-attempt, Makes-ignoring, Makes-on_error, Makes-deferring, Makes-bind, Makes-if, Makes-when,
  Makes-tolerating, find_program-Makes,
}
use oci_container_runtime_fr.Base.{
  ℕ, zero, suc, ◌+◌, ◌-◌, ◌*◌, ◌/◌, ◌%◌, ◌^◌, ◌≤◌, ◌<◌, min, String, ◌≡◌, refl, sym, ap, ◌∙◌, ◌≢◌,
  ◌↔◌, ◌⊎◌, inl, inr, Bool, true, false, not, ◌&&◌, ◌||◌, Option, none, some, List, [], ◌∷◌, ◌++◌,
  map, reverse, reverse-append, reverse-reverse, foldl, foldl-append, append-nil, append_assoc,
  arith, ltb, leb, ◌==◌, if◌then◌else◌, ==_iff, Bool-cases, Option-cases, length, take, drop,
  length-append, length-take, take-append, drop-append, drop-append_suc, All, All-append, Error,
  message, wrap, os_error, Errno, already_exists, does_not_exist, other_error, is_exist,
  is_not_exist, Result, ok, err, wrapped, of_option, Result-cases, Str, str, str_eq, str_eq_iff,
  str_eq_refl, index_byte, last_index, contains_byte, has_prefix, trim_prefix, contains_text, hex,
  join, to_lower, trim_space, Lacks, index_byte-append, index_byte-none, last_index-none,
  last_index-append, last_index_split, contains_byte-append, contains_byte-none, ℤ, pos, negsuc,
  is_positive, is_zero, decimal, format_int, digits_value, parse_int, int64_bound, IsDigit,
  decimal-IsDigit, IsDigit-Lacks, parse_int-decimal, split_on, split_on-append, split_on-Lacks,
  split_on-join, All-split_on, components, is_abs, clean, clean_components, clean_step,
  clean_parent, render_path, is_empty, NonEmpty, clean-NonEmpty, join_path-NonEmpty, All-reverse,
  join_path, split_last_slash, dir_name, base_name, trim_by, is_space, concat-ne-nil, ok≢err,
}

-- An error gives status 1.
abbrev pub status_of : Result (Unit {0}) → ℕ
status_of (ok u) = 0
status_of (err e) = 1

unfoldable pub exiting : Io (Unit {0}) → Io ℕ
exiting m = do r ← attempt m; pure (status_of r)

abbrev pub first_or_empty : List Str → Str
first_or_empty [] = []
first_or_empty (rootfs ∷ rest) = rootfs

abbrev pub second_or_empty : List Str → Str
second_or_empty (rootfs ∷ cmd ∷ rest) = cmd
second_or_empty _ = []

abbrev pub is_nothing : Option Spec → Bool
is_nothing none = true
is_nothing (some s) = false

abbrev pub is_help : Str → Bool
is_help name = str_eq name (str "-h") || str_eq name (str "--help") || str_eq name (str "help")

module _ (os : Oracle) where
  -- `storeRoot`
  unfoldable pub store_root : Io Str
  store_root = do v ← env os "MYRUN_STORE"; pure (if is_empty v then str "data" else v)

  -- `pullCmd`
  unfoldable pub pull_cmd : Codecs → List Str → Io (Unit {0})
  pull_cmd codecs [] = raise (message "pull requires an image reference")
  pull_cmd codecs (text ∷ rest) = do
    ref ← lift (parse_ref text)
    root ← store_root
    dir ← pull os codecs ref root
    pure tt

  module _ {F : Type 0} (platform : Platform F) where
    unfoldable pub checkpoint_found : ℤ → Str → Io (Unit {0})
    checkpoint_found pid images_dir = do
      found ← platform.available
      (if found
          then platform.dump pid images_dir
          else raise (message "checkpoint: criu binary not found on PATH"))

    unfoldable pub checkpoint_pid : Option ℤ → Str → Io (Unit {0})
    checkpoint_pid none images_dir = raise (message "checkpoint: invalid pid")
    checkpoint_pid (some pid) images_dir =
        if is_positive pid
        then checkpoint_found pid images_dir
        else raise (message "checkpoint: invalid pid")

    -- `checkpointCmd`
    unfoldable pub checkpoint_cmd : List Str → Io (Unit {0})
    checkpoint_cmd (pid ∷ images_dir ∷ rest) = checkpoint_pid (parse_int pid) images_dir
    checkpoint_cmd _ = raise (message "checkpoint requires <pid> <images-dir>")

    -- `restoreCmd`
    unfoldable pub restore_cmd : List Str → Io (Unit {0})
    restore_cmd [] = raise (message "restore requires <images-dir>")
    restore_cmd (images_dir ∷ rest) = do
      found ← platform.available
      (if found
          then platform.restore images_dir
          else raise (message "restore: criu binary not found on PATH"))

  module _ {F : Type 0} (program : Program F) (platform : Platform F) where
    unfoldable pub load_spec : Str → Io (Option Spec)
    load_spec path =
        if is_empty path
        then pure none
        else (do s ← load os program.decode_spec path; pure (some s))

    unfoldable pub config_of : Flags F → List PortMapping → Option Spec → Io (Config F)
    config_of flags publish spec = do
      when (is_nothing spec && ltb (length flags.args) 2)
          (raise (message "run requires <rootfs-or-image> and <cmd> (or --spec)"))
      memory ← lift (parse_memory flags.memory)
      root ← store_root
      rootless ← platform.detect flags.rootless
      pure (record {
        rootfs = first_or_empty flags.args;
        cmd = second_or_empty flags.args;
        args = drop 2 flags.args;
        limits = record { memory_bytes = memory; cpu_quota = flags.cpu; pids_max = flags.pids };
        store_root = root;
        port_mappings = publish;
        rootless = rootless;
        seccomp = not flags.no_seccomp;
        spec = spec;
      })

    -- `runCmd`
    unfoldable pub run_cmd : List Str → Io (Unit {0})
    run_cmd argv = do
      flags ← lift (program.parse_flags argv)
      publish ← lift (set_all flags.publish [])
      spec ← load_spec flags.spec
      cfg ← config_of flags publish spec
      platform.run cfg

    unfoldable pub child_cmd : Option ChildArgs → Io ℕ
    child_cmd none = pure 2
    child_cmd (some c) = exiting (platform.child c)

    unfoldable pub dispatch : Str → List Str → Io ℕ
    dispatch name rest =
        if str_eq name (str "pull")
        then exiting (pull_cmd program.codecs rest)
        else if str_eq name (str "run")
        then exiting (run_cmd rest)
        else if str_eq name (str "checkpoint")
        then exiting (checkpoint_cmd platform rest)
        else if str_eq name (str "restore")
        then exiting (restore_cmd platform rest)
        else if str_eq name (str "child")
        then child_cmd (child_args (name ∷ rest))
        else pure (if is_help name then 0 else 2)

    -- `main` on os.Args[1:]; the value is the exit status.
    unfoldable pub main : List Str → Io ℕ
    main [] = pure 2
    main (name ∷ rest) = dispatch name rest
