-- ===== src/Runtime/Child/Order.antt =====
-- What `Child` has done by the time the user's command runs, and the arguments it gets.
use oci_container_runtime_fr.Runtime.Child.{
  ChildArgs, self_args, child_args, environment, found_or, start_command, child,
}
use oci_container_runtime_fr.Runtime.Config.{Config}
use oci_container_runtime_fr.Seccomp.Filter.{build_filter}
use oci_container_runtime_fr.Seccomp.Install.{apply, filter_call}
use oci_container_runtime_fr.Seccomp.Profile.{GoArch, arch_audit_current, default_allow_list}
use oci_container_runtime_fr.Pivot.{pivot}
use oci_container_runtime_fr.Pivot.Order.{steps, pivot_order}
use oci_container_runtime_fr.Sys.{
  Call, look_path, read_byte, close, unmount, set_hostname, no_new_privs, exec, Trace, Oracle,
  is_ok, pure, lift, wrapping, attempt, on_error, ◌>>=◌, ◌>>◌, perform, ignoring, log, when,
  bind-ok, on_error-ok, performed,
}
use oci_container_runtime_fr.Base.{
  ℕ, String, ◌≡◌, refl, ap, ◌∙◌, Bool, true, false, some, List, [], ◌∷◌, ◌++◌, map, reverse, arith,
  Result, ok, err, wrapped, Str, str, str_eq,
}

-- The child reads back the root, the command, its arguments and the seccomp switch that the parent
-- put on its command line.
pub child_args-self_args :
    {F : Type 0} (rootfs : Str) (cfg : Config F)
    → child_args (self_args rootfs cfg)
      ≡ some
          record { rootfs = rootfs; cmd = cfg.cmd; args = cfg.args; seccomp_enabled = cfg.seccomp }
unfolding child_args self_args str str_eq
child_args-self_args rootfs cfg = ground arith

-- The calls that install the filter of an architecture, the last one first.
abbrev pub filter_log : GoArch → Result ℕ → List (Call × Bool)
filter_log arch (ok audit) =
    (filter_call (build_filter audit (default_allow_list arch)), true) ∷ (no_new_privs, true) ∷ []
filter_log arch (err e) = []

abbrev pub installed : GoArch → Bool → List (Call × Bool)
installed arch true = filter_log arch (arch_audit_current arch)
installed arch false = []

wrapped-ok : {A : Type 0} (text : String) (r : Result A) {a : A} → wrapped text r ≡ ok a → r ≡ ok a
wrapped-ok text (ok x) h = h
wrapped-ok text (err x) h = cc

module _ (os : Oracle) (arch : GoArch) where
  log-apply :
      (t : Trace)
      → (apply os arch t).0 ≡ ok tt
      → log (apply os arch t).1 ≡ installed arch true ++ log t
  unfolding apply wrapping perform lift ◌>>=◌
  log-apply t h = ground arith

  log-when :
      (b : Bool) (t : Trace)
      → (when b (wrapping "seccomp apply" (apply os arch)) t).0 ≡ ok tt
      → log (when b (wrapping "seccomp apply" (apply os arch)) t).1 ≡ installed arch b ++ log t
  unfolding when wrapping pure
  log-when false t h = refl
  log-when true t h = log-apply t (wrapped-ok _ (apply os arch t).0 h)

  log-start_command :
      (c : ChildArgs) (t : Trace)
      → (start_command os arch c t).0 ≡ ok tt
      → (bin : Str) × (b : Bool) × (log (start_command os arch c t).1
          ≡ (exec bin (bin ∷ c.args) environment, true) ∷ installed arch c.seccomp_enabled
            ++ ((look_path c.cmd, b) ∷ log t))
  unfolding start_command wrapping perform attempt ◌>>=◌
  log-start_command c t h =
      let bin = found_or c.cmd (os t (look_path c.cmd)) in
      let seen = record { call = look_path c.cmd; answer = os t (look_path c.cmd) } ∷ t in
      let install = when c.seccomp_enabled (wrapping "seccomp apply" (apply os arch)) in
      let run = exec bin (bin ∷ c.args) environment in
      let (u, w, e, same) = bind-ok install (λ _. wrapping "exec" (perform os run)) seen h in
      let (_, tail) = performed os "exec" run (install seen).1 e in
      (
        bin,
        is_ok (os t (look_path c.cmd)),
        ap (λ r. log r.1) same
            ∙ ap log tail
            ∙ ap (λ l. (run, true) ∷ l) (log-when c.seccomp_enabled seen w),
      )

  log-pivot :
      (root : Str) (t : Trace)
      → (wrapping "pivot_root" (pivot os root) t).0 ≡ ok tt
      → log (wrapping "pivot_root" (pivot os root) t).1
        ≡ reverse (map (λ s. (s, true)) (steps root)) ++ log t
  unfolding wrapping
  log-pivot root t h = pivot_order os root t (wrapped-ok _ (pivot os root t).0 h)

  -- When the child has reached the user's command, its calls are exactly these, the last one first:
  -- exec with the given arguments; where seccomp is enabled, the installation of the default filter;
  -- the look-up of the command; every step of the pivot; the host name; and the wait for the parent.
  -- All but the wait and the look-up have succeeded.
  pub child_order :
      (c : ChildArgs) (t : Trace)
      → (child os arch c t).0 ≡ ok tt
      → (bin : Str) × (read closed found : Bool) × (log (child os arch c t).1
          ≡ (exec bin (bin ∷ c.args) environment, true) ∷ installed arch c.seccomp_enabled
            ++ ((look_path c.cmd, found)
                ∷ (reverse (map (λ s. (s, true)) (steps c.rootfs))
                    ++ ((set_hostname (str "container"), true)
                        ∷ (close 3, closed)
                        ∷ (read_byte 3, read)
                        ∷ log t))))
  unfolding child ignoring perform ◌>>=◌
  child_order c t h =
      let first = record { call = read_byte 3; answer = os t (read_byte 3) } ∷ t in
      let waited = record { call = close 3; answer = os first (close 3) } ∷ first in
      let name = wrapping "sethostname" (perform os (set_hostname (str "container"))) in
      let enter = wrapping "pivot_root" (pivot os c.rootfs) in
      let start = start_command os arch c in
      let tidy = ignoring (perform os (unmount (str "/proc") [])) in
      let (_, _, left, e1) = bind-ok name (λ _. enter >> on_error start tidy) waited h in
      let (_, named) =
        performed os "sethostname" (set_hostname (str "container")) waited
          (bind-ok name (λ _. enter >> on_error start tidy) waited h).1 in
      let (_, entered, left', e2) = bind-ok enter (λ _. on_error start tidy) (name waited).1 left in
      let (started, e3) = on_error-ok start tidy (enter (name waited).1).1 left' in
      let (bin, found, end) = log-start_command c (enter (name waited).1).1 started in
      let front = ap (λ l. reverse (map (λ s. (s, true)) (steps c.rootfs)) ++ l) (ap log named) in
      let rest = log-pivot c.rootfs (name waited).1 entered ∙ front in
      let behind =
        ap
          (λ l.
            (exec bin (bin ∷ c.args) environment, true) ∷ installed arch c.seccomp_enabled
            ++ ((look_path c.cmd, found) ∷ l))
          rest in
      (
        bin,
        is_ok (os t (read_byte 3)),
        is_ok (os first (close 3)),
        found,
        ap (λ r. log r.1) (e1 ∙ e2 ∙ e3) ∙ end ∙ behind,
      )
