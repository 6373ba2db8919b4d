-- ===== src/Seccomp/Denied.antt =====
-- The default profiles: mvp/internal/seccomp/allowlist_amd64.go, allowlist_arm64.go, and the list of
-- excluded calls in README.md.
use oci_container_runtime_fr.Seccomp.Filter.{ret_allow, ret_kill_process, build_filter}
use oci_container_runtime_fr.Seccomp.Filter.Verdict.{elem, filter_verdict}
use oci_container_runtime_fr.Seccomp.Machine.{Machine, SeccompData}
use oci_container_runtime_fr.Seccomp.Profile.{
  GoArch, amd64, arm64, other, amd64_list, default_allow_list, arch_audit_current,
}
use oci_container_runtime_fr.Base.{
  ℕ, ◌≤◌, ◌≡◌, refl, ◌∙◌, inl, inr, Bool, true, false, not, ◌&&◌, List, [], ◌∷◌, arith, ◌==◌,
  if◌then◌else◌, ==_iff, Bool-cases, length, ok,
}

-- The x86_64 numbers of the calls that README.md names as excluded: ptrace, mount, umount2,
-- kexec_load, kexec_file_load, reboot, init_module, finit_module, delete_module, iopl, ioperm,
-- swapon, swapoff, settimeofday, clock_settime, create_module, query_module, get_kernel_syms,
-- nfsservctl, lookup_dcookie, perf_event_open, bpf, userfaultfd, mbind, move_pages, set_mempolicy,
-- get_mempolicy, acct, add_key, request_key, keyctl.
abbrev pub excluded_amd64 : List ℕ
excluded_amd64 =
    101 ∷ 165 ∷ 166 ∷ 246 ∷ 320 ∷ 169 ∷ 175 ∷ 313 ∷ 176 ∷ 172 ∷ 173 ∷ 167 ∷ 168 ∷ 164 ∷ 227 ∷ 174
    ∷ 178 ∷ 177 ∷ 180 ∷ 212 ∷ 298 ∷ 321 ∷ 323 ∷ 237 ∷ 279 ∷ 238 ∷ 239 ∷ 163 ∷ 248 ∷ 249 ∷ 250 ∷ []

disjoint : List ℕ → List ℕ → Bool
disjoint [] ys = true
disjoint (x ∷ xs) ys = not (elem x ys) && disjoint xs ys

disjoint_sound :
    (a : ℕ) (xs ys : List ℕ) → disjoint xs ys ≡ true → elem a xs ≡ true → elem a ys ≡ false
unfolding disjoint
disjoint_sound a [] ys h k = cc
disjoint_sound a (x ∷ xs) ys h k = elim (Bool-cases (a == x)) [
  | inl t ↦ rw ((==_iff a x).0 t) (ground arith)
  | inr t ↦ disjoint_sound a xs ys (ground arith) (ground arith)
]

length-default_allow_list : (g : GoArch) → length (default_allow_list g) ≤ 255
unfolding default_allow_list
length-default_allow_list amd64 = omega arith
length-default_allow_list arm64 = omega arith
length-default_allow_list other = omega arith

-- On a supported architecture the installed profile allows a call exactly when it is made in that
-- architecture's convention and stands in the allow list; any other call kills the process.
pub default_profile :
    (vm : Machine) (g : GoArch) (audit : ℕ) (d : SeccompData)
    → arch_audit_current g ≡ ok audit
    → vm.exec (build_filter audit (default_allow_list g)) 0 d ≡ (
        if d.arch == audit && elem d.nr (default_allow_list g) then ret_allow else ret_kill_process)
default_profile vm g audit d h =
    filter_verdict vm audit (default_allow_list g) d (length-default_allow_list g)

-- Each call that README.md names as excluded on x86_64 is killed there, in every convention.
pub excluded_killed :
    (vm : Machine) (d : SeccompData) (audit : ℕ)
    → arch_audit_current amd64 ≡ ok audit
    → elem d.nr excluded_amd64 ≡ true
    → vm.exec (build_filter audit (default_allow_list amd64)) 0 d ≡ ret_kill_process
unfolding default_allow_list disjoint
excluded_killed vm d audit h k =
    default_profile vm amd64 audit d h
    ∙ rw (disjoint_sound d.nr excluded_amd64 amd64_list refl k) (ground arith)
