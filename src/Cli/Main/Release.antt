-- ===== src/Cli/Main/Release.antt =====
-- What the commands of mvp/cmd/myrun/main.go have given back when the program exits.
use oci_container_runtime_fr.Cli.Program.{Flags, Program, linux}
use oci_container_runtime_fr.Cli.Main.{
  exiting, store_root, checkpoint_found, checkpoint_pid, checkpoint_cmd, restore_cmd, load_spec,
  config_of, run_cmd, dispatch, main,
}
use oci_container_runtime_fr.Criu
use oci_container_runtime_fr.Network.Types.{PortMapping}
use oci_container_runtime_fr.Runtime.Run.Release.{run_releases}
use oci_container_runtime_fr.Spec.{Spec}
use oci_container_runtime_fr.Spec.Load.{load}
use oci_container_runtime_fr.Userns.{detect, wants_rootless}
use oci_container_runtime_fr.Sys.{
  get_uid, get_gid, get_euid, stat, look_path, Trace, Oracle, Io, pure, Resource, held, Keeps,
  Keeps-perform, Keeps-pure, Keeps-raise, Keeps-lift, Keeps-wrapping, Keeps-attempt, Keeps-bind,
  Keeps-when, Keeps-env, Keeps-make_dir_all, Keeps-command, Keeps-read_file, find_program-Keeps,
  Keeps-if,
}
use oci_container_runtime_fr.Base.{
  ◌≡◌, refl, Bool, true, false, ◌||◌, Option, none, some, List, [], ◌∷◌, arith, Str, str, str_eq, ℤ,
  pos, negsuc, parse_int,
}

-- The two commands that are left out: `pull` may remove what a layer tells it to remove, and `child`
-- becomes the container.
abbrev pub is_pull_or_child : List Str → Bool
is_pull_or_child [] = false
is_pull_or_child (name ∷ rest) = str_eq name (str "pull") || str_eq name (str "child")

exiting-Keeps : {m : Io (Unit {0})} → Keeps m → Keeps (exiting m)
unfolding exiting
exiting-Keeps k = Keeps-bind (Keeps-attempt k) (λ r. Keeps-pure _)

module _ (os : Oracle) where
  store_root-Keeps : Keeps (store_root os)
  unfolding store_root
  store_root-Keeps = Keeps-bind (Keeps-env os _) (λ v. Keeps-pure _)

  available-Keeps : Keeps (Criu.available os)
  unfolding Criu.available
  available-Keeps =
      Keeps-bind (Keeps-attempt (Keeps-perform os (look_path (str "criu")) refl))
        (λ r. Keeps-pure _)

  dump-Keeps : (pid : ℤ) (images_dir : Str) → Keeps (Criu.dump os pid images_dir)
  unfolding Criu.dump Criu.dump_process
  dump-Keeps (pos n) images_dir =
      Keeps-if _
        (Keeps-bind (find_program-Keeps os _ _) (λ bin.
          Keeps-bind (Keeps-wrapping _ (Keeps-make_dir_all os _))
            (λ _. Keeps-wrapping _ (Keeps-command os _ _))))
        (Keeps-raise _)
  dump-Keeps (negsuc n) images_dir = Keeps-raise _

  wants_rootless-Keeps : (force : Bool) → Keeps (wants_rootless os force)
  unfolding wants_rootless
  wants_rootless-Keeps true = Keeps-pure true
  wants_rootless-Keeps false =
      Keeps-bind (Keeps-attempt (Keeps-perform os get_euid refl)) (λ euid. Keeps-pure _)

  detect-Keeps : (force : Bool) → Keeps (detect os force)
  unfolding detect
  detect-Keeps force = Keeps-bind (wants_rootless-Keeps force) (λ enabled.
      Keeps-bind (Keeps-attempt (Keeps-perform os get_uid refl))
        (λ uid. Keeps-bind (Keeps-attempt (Keeps-perform os get_gid refl)) (λ gid. Keeps-pure _)))

  module _ {F : Type 0} (program : Program F) where
    checkpoint_pid-Keeps :
        (pid : Option ℤ) (images_dir : Str)
        → Keeps (checkpoint_pid os (linux os program) pid images_dir)
    unfolding checkpoint_pid checkpoint_found
    checkpoint_pid-Keeps none images_dir = Keeps-raise _
    checkpoint_pid-Keeps (some pid) images_dir =
        Keeps-if _
          (Keeps-bind available-Keeps (λ found. Keeps-if found (dump-Keeps pid _) (Keeps-raise _)))
          (Keeps-raise _)

    checkpoint_cmd-Keeps : (argv : List Str) → Keeps (checkpoint_cmd os (linux os program) argv)
    unfolding checkpoint_cmd
    checkpoint_cmd-Keeps [] = Keeps-raise _
    checkpoint_cmd-Keeps (pid ∷ []) = Keeps-raise _
    checkpoint_cmd-Keeps (pid ∷ images_dir ∷ rest) = checkpoint_pid-Keeps (parse_int pid) images_dir

    restore_cmd-Keeps : (argv : List Str) → Keeps (restore_cmd os (linux os program) argv)
    unfolding restore_cmd Criu.restore
    restore_cmd-Keeps [] = Keeps-raise _
    restore_cmd-Keeps (images_dir ∷ rest) = Keeps-bind available-Keeps (λ found.
        Keeps-if found
          (Keeps-bind (Keeps-wrapping _ (Keeps-perform os (stat images_dir) refl)) (λ _.
            Keeps-bind (find_program-Keeps os _ _)
              (λ bin. Keeps-wrapping _ (Keeps-command os _ _))))
          (Keeps-raise _))

    load_spec-Keeps : (path : Str) → Keeps (load_spec os program (linux os program) path)
    unfolding load_spec load
    load_spec-Keeps path = Keeps-if _ (Keeps-pure _) (
        Keeps-bind
          (Keeps-bind (Keeps-wrapping _ (Keeps-perform os (stat path) refl)) (λ is_dir.
            Keeps-bind (Keeps-wrapping _ (Keeps-read_file os _))
              (λ b. Keeps-bind (Keeps-wrapping _ (Keeps-lift _)) (λ s. Keeps-lift _))))
          (λ s. Keeps-pure _))

    config_of-Keeps :
        (flags : Flags F) (publish : List PortMapping) (spec : Option Spec)
        → Keeps (config_of os program (linux os program) flags publish spec)
    unfolding config_of
    config_of-Keeps flags publish spec = Keeps-bind (Keeps-when _ (Keeps-raise _)) (λ _.
        Keeps-bind (Keeps-lift _) (λ memory.
          Keeps-bind store_root-Keeps
            (λ root. Keeps-bind (detect-Keeps flags.rootless) (λ rootless. Keeps-pure _))))

    run_cmd-Keeps : (argv : List Str) → Keeps (run_cmd os program (linux os program) argv)
    unfolding run_cmd
    run_cmd-Keeps argv = Keeps-bind (Keeps-lift _) (λ flags. Keeps-bind (Keeps-lift _) (λ publish.
        Keeps-bind (load_spec-Keeps flags.spec) (λ spec.
          Keeps-bind (config_of-Keeps flags publish spec) (λ cfg. record {
            same = run_releases os program.floats program.sha1 program.codecs.decode_manifest cfg;
          }))))

    dispatch-Keeps :
        (name : Str) (rest : List Str)
        → is_pull_or_child (name ∷ rest) ≡ false
        → Keeps (dispatch os program (linux os program) name rest)
    unfolding dispatch
    dispatch-Keeps name rest h =
        let not_pull : str_eq name (str "pull") ≡ false = ground (arith, h) in
        let not_child : str_eq name (str "child") ≡ false = ground (arith, h) in
        rw (not_pull, not_child)
          (Keeps-if _ (exiting-Keeps (run_cmd-Keeps rest)) (
            Keeps-if _ (exiting-Keeps (checkpoint_cmd-Keeps rest))
              (Keeps-if _ (exiting-Keeps (restore_cmd-Keeps rest)) (Keeps-pure _))))

    -- On Linux, every command line but those of `pull` and `child` leaves as many pipe ends, processes, mounts
    -- and control groups held as there were before, whatever the calls answer.
    pub main_releases :
        (argv : List Str) (t : Trace) (x : Resource)
        → is_pull_or_child argv ≡ false
        → held (main os program (linux os program) argv t).1 x ≡ held t x
    unfolding main pure
    main_releases [] t x h = refl
    main_releases (name ∷ rest) t x h = (dispatch-Keeps name rest h).same t x
