-- ===== src/Seccomp/Machine.antt =====
-- The kernel's filter machine, which is not code of this repository: what linux/filter.h documents
-- of the three instructions that the filter uses.
use oci_container_runtime_fr.Seccomp.Filter.{
  SockFilter, ld_abs, jmp_jeq, ret_k, nr_offset, arch_offset,
}
use oci_container_runtime_fr.Base.{ℕ, ◌≡◌, List, ◌∷◌, ◌==◌, if◌then◌else◌, drop}

-- The fields of `struct seccomp_data` that the filter loads.
pub record SeccompData : Type 0 where
  pub nr : ℕ
  pub arch : ℕ

-- `exec` runs what is left of a program, with the accumulator, and gives the action. Jump offsets
-- count from the next instruction.
pub record Machine : Type 0 where
  pub exec : List SockFilter → ℕ → SeccompData → ℕ
  pub exec-ret :
      (a k : ℕ) (d : SeccompData) (rest : List SockFilter)
      → exec (record { code = ret_k; jt = 0; jf = 0; k = k } ∷ rest) a d ≡ k
  pub exec-ld_nr :
      (a : ℕ) (d : SeccompData) (rest : List SockFilter)
      → exec (record { code = ld_abs; jt = 0; jf = 0; k = nr_offset } ∷ rest) a d ≡ exec rest d.nr d
  pub exec-ld_arch :
      (a : ℕ) (d : SeccompData) (rest : List SockFilter)
      → exec (record { code = ld_abs; jt = 0; jf = 0; k = arch_offset } ∷ rest) a d
        ≡ exec rest d.arch d
  pub exec-jeq :
      (a k jt jf : ℕ) (d : SeccompData) (rest : List SockFilter)
      → exec (record { code = jmp_jeq; jt = jt; jf = jf; k = k } ∷ rest) a d
        ≡ exec (drop (if a == k then jt else jf) rest) a d
