-- ===== src/Seccomp/Install.antt =====
-- `Apply` of mvp/internal/seccomp/seccomp_linux.go.
use oci_container_runtime_fr.Seccomp.Filter.{SockFilter, build_filter}
use oci_container_runtime_fr.Seccomp.Profile.{GoArch, arch_audit_current, default_allow_list}
use oci_container_runtime_fr.Sys.{
  Call, no_new_privs, set_filter, Oracle, Io, lift, wrapping, ◌>>=◌, ◌>>◌, perform,
}
use oci_container_runtime_fr.Base.{ℕ, ◌%◌, ◌^◌, List, map, length}

abbrev pub instruction : SockFilter → ℕ × ℕ × ℕ × ℕ
instruction f = (f.code, f.jt, f.jf, f.k)

-- The program that `Apply` hands to the kernel, with `uint16(len(prog))`.
abbrev pub filter_call : List SockFilter → Call
filter_call prog = set_filter (length prog % 2 ^ 16) (map instruction prog)

-- The kernel reads the instructions through the pointer and the length it is given.
unfoldable pub apply : Oracle → GoArch → Io (Unit {0})
apply os arch = do
  wrapping "prctl(PR_SET_NO_NEW_PRIVS)" (perform os no_new_privs)
  audit ← lift (arch_audit_current arch)
  wrapping "seccomp(SET_MODE_FILTER)"
      (perform os (filter_call (build_filter audit (default_allow_list arch))))
