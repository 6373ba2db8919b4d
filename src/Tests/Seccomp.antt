-- ===== src/Tests/Seccomp.antt =====
-- The filter theorems at concrete programs.
use oci_container_runtime_fr.Tests.Concrete.{interpreter}
use oci_container_runtime_fr.Seccomp.Filter.{ret_allow, ret_kill_process, build_filter}
use oci_container_runtime_fr.Seccomp.Filter.Verdict.{filter_verdict, filter_wraps}
use oci_container_runtime_fr.Seccomp.Machine.{SeccompData}
use oci_container_runtime_fr.Seccomp.Denied.{default_profile, excluded_killed}
use oci_container_runtime_fr.Seccomp.Profile.{amd64, default_allow_list, arch_audit_current}
use oci_container_runtime_fr.Base.{ℕ, zero, suc, ◌≡◌, refl, List, [], ◌∷◌, arith}

abbrev x86_64 : ℕ
x86_64 = 0xc000003e

-- 59 is execve on x86_64, 101 is ptrace.
abbrev execve : SeccompData
execve = record { nr = 59; arch = x86_64 }

abbrev ptrace : SeccompData
ptrace = record { nr = 101; arch = x86_64 }

filter_verdict_example :
    interpreter.exec (build_filter x86_64 (0 ∷ 1 ∷ 59 ∷ [])) 0 execve ≡ ret_allow
filter_verdict_example = filter_verdict interpreter x86_64 (0 ∷ 1 ∷ 59 ∷ []) execve (omega arith)

default_profile_example :
    interpreter.exec (build_filter x86_64 (default_allow_list amd64)) 0 execve ≡ ret_allow
unfolding default_allow_list arch_audit_current
default_profile_example = default_profile interpreter amd64 x86_64 execve refl

excluded_killed_example :
    interpreter.exec (build_filter x86_64 (default_allow_list amd64)) 0 ptrace ≡ ret_kill_process
unfolding arch_audit_current
excluded_killed_example = excluded_killed interpreter ptrace x86_64 refl refl

abbrev zeros : ℕ → List ℕ
zeros zero = []
zeros (suc n) = 0 ∷ zeros n

filter_wraps_example :
    interpreter.exec (build_filter x86_64 (59 ∷ zeros 255)) 0 execve ≡ ret_kill_process
filter_wraps_example = filter_wraps interpreter x86_64 59 (zeros 255) refl refl
