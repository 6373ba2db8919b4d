-- ===== src/Tests/Files.antt =====
-- The theorems on mounts, limits, specifications and the child at concrete runs.
use oci_container_runtime_fr.Tests.Concrete.{granting, refusing, quarters}
use oci_container_runtime_fr.Overlay.{
  part_of, make_dirs, mount_at, mount_overlay, unmount_overlay, cleanup,
}
use oci_container_runtime_fr.Overlay.Lifecycle.{mount_of, mount_overlay_ok, overlay_released}
use oci_container_runtime_fr.Pivot.{pivot}
use oci_container_runtime_fr.Pivot.Order.{steps, pivot_order}
use oci_container_runtime_fr.Cgroups.{
  Limits, create, prepare, root, write_limits, write_or_close, write, cpu_value, floor_quota,
}
use oci_container_runtime_fr.Cgroups.Writes.{limit_log, EndsInRemove, create_ok, create_err}
use oci_container_runtime_fr.Spec.{Spec}
use oci_container_runtime_fr.Spec.Load.{validate, load, IsComplete, StandsFor, load_sound}
use oci_container_runtime_fr.Seccomp.Install.{apply}
use oci_container_runtime_fr.Seccomp.Profile.{amd64, arch_audit_current}
use oci_container_runtime_fr.Runtime.Child.{
  ChildArgs, start_command, child, environment, child_args, self_args,
}
use oci_container_runtime_fr.Runtime.Child.Order.{installed, child_order, child_args-self_args}
use oci_container_runtime_fr.Userns
use oci_container_runtime_fr.Userns.Preflight.{preflight_lem}
use oci_container_runtime_fr.Userns.Rootless.{Answers, in_user_namespace, detect_enabled}
use oci_container_runtime_fr.Tests.Texts.{document, full, mapped}
use oci_container_runtime_fr.Sys.{
  Spawn, Oracle, get_gid, Call, stat, read_file, remove_all, make_dir_all, write_file, look_path,
  read_byte, close, mount, unmount, set_hostname, exec, pure, raise, lift, wrapping, attempt,
  on_error, ◌>>=◌, ◌>>◌, perform, ignoring, log, calls, when, tolerating, env,
}
use oci_container_runtime_fr.Base.{
  ℕ, ◌≡◌, refl, ◌⊎◌, ◌≢◌, none, Bool, true, false, some, [], ◌∷◌, ◌++◌, map, reverse, if◌then◌else◌,
  Error, message, wrap, Result, ok, err, Str, str, str_eq, trim_space, pos, decimal, format_int,
  parse_int, NonEmpty, join_path, trim_by, space_size, end_space_size,
}

abbrev new_root : Str
new_root = str "/merged"

pivot_granted : (pivot granting new_root []).0 ≡ ok tt
unfolding pivot wrapping perform on_error ◌>>=◌
pivot_granted = refl

pivot_order_example :
    log (pivot granting new_root []).1 ≡ reverse (map (λ c. (c, true)) (steps new_root)) ++ []
pivot_order_example = pivot_order granting new_root [] pivot_granted

abbrev limits : Limits ℕ
limits = record { memory_bytes = pos 4096; cpu_quota = 2; pids_max = pos 10 }

abbrev group : Str
group = join_path (str "/sys/fs/cgroup" ∷ str "myrun-42" ∷ [])

create_granted : (create granting quarters limits 42 []).0 ≡ ok group
unfolding create prepare root env write_limits write_or_close write wrapping tolerating ignoring
    perform on_error when pure ◌>>=◌ str join_path decimal
create_granted = refl

create_ok_example :
    ((prepare granting 42 []).0 ≡ ok group)
    × (log (create granting quarters limits 42 []).1
        ≡ limit_log quarters limits group (log (prepare granting 42 []).1))
create_ok_example = create_ok granting quarters limits 42 [] create_granted

-- The limit on processes cannot be written.
abbrev names_pids : Call → Bool
names_pids (write_file path content) = str_eq content (str "10")
names_pids _ = false

abbrev refusal : Error
refusal = wrap "write" (message "refused")

create_refused : (create (refusing names_pids) quarters limits 42 []).0 ≡ err refusal
unfolding create prepare root env write_limits write_or_close write wrapping tolerating ignoring
    perform on_error when pure ◌>>=◌ str join_path str_eq format_int cpu_value floor_quota
create_refused = refl

create_err_example :
    ((prepare (refusing names_pids) 42 []).0 ≡ err refusal)
    ⊎ ((path : Str) × ((prepare (refusing names_pids) 42 []).0 ≡ ok path)
        × EndsInRemove path (log (create (refusing names_pids) quarters limits 42 []).1))
create_err_example = create_err (refusing names_pids) quarters limits 42 [] create_refused

abbrev decode : Str → Result Spec
decode b = if str_eq b (str "1") then ok document else err (message "syntax")

load_granted : (load granting decode (str "bundle") []).0 ≡ ok document
unfolding load validate wrapping lift perform ◌>>=◌ str str_eq
load_granted = refl

load_sound_example :
    (is_dir : Bool) × (file b : Str) × (log (load granting decode (str "bundle") []).1
      ≡ (read_file file, true) ∷ (stat (str "bundle"), true) ∷ [])
    × StandsFor (str "bundle") is_dir file
    × (granting [] (stat (str "bundle")) ≡ ok is_dir)
    × (granting (record { call = stat (str "bundle"); answer = ok is_dir } ∷ []) (read_file file)
        ≡ ok b)
    × (decode b ≡ ok document)
    × IsComplete document
load_sound_example = load_sound granting decode (str "bundle") [] load_granted

abbrev shell : ChildArgs
shell = record { rootfs = new_root; cmd = str "sh"; args = []; seccomp_enabled = true }

child_granted : (child granting amd64 shell []).0 ≡ ok tt
unfolding child start_command apply arch_audit_current pivot wrapping attempt ignoring lift perform
    on_error when ◌>>=◌
child_granted = refl

child_order_example :
    (bin : Str) × (read closed found : Bool) × (log (child granting amd64 shell []).1
      ≡ (exec bin (bin ∷ []) environment, true) ∷ installed amd64 true
        ++ ((look_path (str "sh"), found)
            ∷ (reverse (map (λ s. (s, true)) (steps new_root))
                ++ ((set_hostname (str "container"), true)
                    ∷ (close 3, closed)
                    ∷ (read_byte 3, read)
                    ∷ []))))
child_order_example = child_order granting amd64 shell [] child_granted

child_args-self_args_example :
    child_args (self_args new_root full)
    ≡ some record {
      rootfs = new_root;
      cmd = full.cmd;
      args = full.args;
      seccomp_enabled = full.seccomp;
    }
child_args-self_args_example = child_args-self_args new_root full

-- The user with the id 1000 in the group 100.
abbrev of_user : Oracle
of_user t get_gid = ok (pos 100)
of_user t c = granting t c

of_user-Answers : Answers of_user (pos 1000) (pos 100) (pos 1000)
of_user-Answers = record { user = λ t. refl; group_id = λ t. refl; effective = λ t. refl }

abbrev container : Spawn
container = record {
  program = str "/proc/self/exe";
  args = [];
  extra_file = 3;
  clone_flags = "CLONE_NEWPID" ∷ [];
  uid_map = none;
  gid_map = none;
  new_process_group = false;
}

detect_enabled_example :
    (c : Userns.Config) × ((Userns.detect of_user false []).0 ≡ ok c)
    × (((false ≡ true) ⊎ (pos 1000 ≢ pos 0))
          × (Userns.apply_to_spawn c container ≡ in_user_namespace (pos 1000) (pos 100) container)
        ⊎ (((false ≡ false) × (pos 1000 ≡ pos 0))
            × (Userns.apply_to_spawn c container ≡ container)))
detect_enabled_example = detect_enabled of_user of_user-Answers false [] container

preflight_lem_example : (Userns.preflight granting mapped []).0 ≡ ok tt
unfolding str trim_space trim_by space_size end_space_size parse_int
preflight_lem_example = preflight_lem granting mapped []

abbrev layers : Str
layers = str "/layers/2:/layers/1"

abbrev scratch : Str
scratch = str "/store/containers/7"

mount_granted : (mount_overlay granting layers scratch []).0 ≡ ok (mount_of scratch)
unfolding mount_overlay mount_at make_dirs wrapping perform raise pure str ◌>>=◌
mount_granted = refl

mount_overlay_ok_example :
    NonEmpty layers
    × (mount_of scratch
        ≡ record { container_dir = scratch; merged = join_path (scratch ∷ str "merged" ∷ []) })
    × (log (mount_overlay granting layers scratch []).1
        ≡ (
          mount (str "overlay") (part_of scratch "merged") (str "overlay") [] (
              str "lowerdir="
              ++ layers
              ++ str ",upperdir="
              ++ join_path (scratch ∷ str "upper" ∷ [])
              ++ str ",workdir="
              ++ join_path (scratch ∷ str "work" ∷ [])),
          true,
        )
          ∷ (make_dir_all (part_of scratch "merged"), true)
          ∷ (make_dir_all (join_path (scratch ∷ str "work" ∷ [])), true)
          ∷ (make_dir_all (join_path (scratch ∷ str "upper" ∷ [])), true)
          ∷ [])
mount_overlay_ok_example = mount_overlay_ok granting layers scratch [] mount_granted

scratch-NonEmpty : NonEmpty scratch
unfolding str
scratch-NonEmpty = refl

overlay_released_example :
    calls
      ((ignoring (unmount_overlay granting (mount_of scratch))
          >> ignoring (cleanup granting (mount_of scratch)))
        []).1
    ≡ remove_all scratch ∷ unmount (part_of scratch "merged") ("MNT_DETACH" ∷ []) ∷ []
overlay_released_example =
    overlay_released granting layers scratch [] scratch-NonEmpty mount_granted granting []
