-- ===== src/Runtime/Sync/Gate.antt =====
-- `Child` of mvp/internal/runtime/runtime_linux.go begins with the read on the pipe.
use oci_container_runtime_fr.Runtime.Child.{ChildArgs, child, start_command, found_or, environment}
use oci_container_runtime_fr.Runtime.Sync.{since}
use oci_container_runtime_fr.Runtime.Sync.Quiet.{IsCall}
use oci_container_runtime_fr.Runtime.Sync.Supervision.{since-around}
use oci_container_runtime_fr.Pivot.{pivot, old_root, old_root_rel, old_in_new}
use oci_container_runtime_fr.Seccomp.Install.{apply, filter_call}
use oci_container_runtime_fr.Seccomp.Profile.{GoArch, arch_audit_current, default_allow_list}
use oci_container_runtime_fr.Seccomp.Filter.{build_filter}
use oci_container_runtime_fr.Sys.{
  Call, remove, make_dir_all, look_path, read_byte, close, mount, unmount, pivot_root, change_root,
  change_dir, set_hostname, no_new_privs, exec, Event, Oracle, Io, wrapping, on_error, ◌>>=◌, ◌>>◌,
  perform, ignoring, calls, Makes, Makes-perform, Makes-lift, Makes-wrapping, Makes-attempt,
  Makes-ignoring, Makes-on_error, Makes-bind, Makes-when,
}
use oci_container_runtime_fr.Base.{String, ◌≡◌, ap, ◌∙◌, List, [], ◌∷◌, reverse, Str, str}

module _ (os : Oracle) where
  called : (text : String) (c : Call) → Makes IsCall (wrapping text (perform os c))
  called text c = Makes-wrapping (Makes-perform os c tt) text

  dropped : (c : Call) → Makes IsCall (ignoring (perform os c))
  dropped c = Makes-ignoring (Makes-perform os c tt)

  step :
      (text : String) (c : Call) {k : Io (Unit {0})}
      → Makes IsCall k
      → Makes IsCall (wrapping text (perform os c) >> k)
  step text c h = Makes-bind (called text c) (λ _. h)

  pivot-Makes : (root : Str) → Makes IsCall (pivot os root)
  unfolding pivot
  pivot-Makes root = step _ (mount [] (str "/") [] ("MS_PRIVATE" ∷ "MS_REC" ∷ []) []) (
      step _ (mount root root (str "bind") ("MS_BIND" ∷ "MS_REC" ∷ []) []) (
        step _ (make_dir_all (old_root root)) (
          step _ (change_dir root) (
            Makes-bind
              (Makes-wrapping
                (Makes-on_error (Makes-perform os (pivot_root (str ".") old_root_rel) tt)
                  (dropped (remove (old_root root))))
                _)
              (λ _. step _ (change_root (str ".")) (
                step _ (change_dir (str "/")) (
                  step _ (unmount old_in_new ("MNT_DETACH" ∷ [])) (
                    step _ (remove old_in_new)
                      (called _ (mount (str "proc") (str "/proc") (str "proc") [] []))))))))))

  apply-Makes : (arch : GoArch) → Makes IsCall (apply os arch)
  unfolding apply
  apply-Makes arch = step _ no_new_privs (
      Makes-bind (Makes-lift (arch_audit_current arch))
        (λ audit. called _ (filter_call (build_filter audit (default_allow_list arch)))))

  start_command-Makes : (arch : GoArch) (c : ChildArgs) → Makes IsCall (start_command os arch c)
  unfolding start_command
  start_command-Makes arch c =
      Makes-bind (Makes-attempt (Makes-perform os (look_path c.cmd) tt)) (λ found.
        Makes-bind (Makes-when c.seccomp_enabled (Makes-wrapping (apply-Makes arch) _))
          (λ _. called _ (exec (found_or c.cmd found) (found_or c.cmd found ∷ c.args) environment)))

  abbrev behind_read : GoArch → ChildArgs → Io (Unit {0})
  behind_read arch c = do
    ignoring (perform os (close 3))
    wrapping "sethostname" (perform os (set_hostname (str "container")))
    wrapping "pivot_root" (pivot os c.rootfs)
    on_error (start_command os arch c) (ignoring (perform os (unmount (str "/proc") [])))

  behind_read-Makes : (arch : GoArch) (c : ChildArgs) → Makes IsCall (behind_read arch c)
  behind_read-Makes arch c = Makes-bind (dropped (close 3)) (λ _.
      step _ (set_hostname (str "container")) (
        Makes-bind (Makes-wrapping (pivot-Makes c.rootfs) _)
          (λ _. Makes-on_error (start_command-Makes arch c) (dropped (unmount (str "/proc") [])))))

  pub child_begins :
      (arch : GoArch) (c : ChildArgs)
      → (rest : List Call) × (since [] (child os arch c []).1 ≡ read_byte 3 ∷ rest)
  unfolding child ignoring perform ◌>>=◌
  child_begins arch c =
      let first : Event = record { call = read_byte 3; answer = os [] (read_byte 3) } in
      let behind = (behind_read-Makes arch c).made (first ∷ []) in
      (reverse (calls behind.new), ap (since []) behind.parts ∙ since-around behind.new first [] [])
