-- ===== src/Seccomp/Filter.antt =====
-- `sockFilter` and `buildFilter` of mvp/internal/seccomp/seccomp_linux.go.
pub mod Verdict
use oci_container_runtime_fr.Base.{
  ℕ, zero, suc, ◌+◌, ◌-◌, ◌*◌, ◌/◌, ◌%◌, ◌^◌, ◌≤◌, ◌<◌, min, String, ◌≡◌, refl, sym, ap, ◌∙◌, ◌≢◌,
  ◌↔◌, ◌⊎◌, inl, inr, Bool, true, false, not, ◌&&◌, ◌||◌, Option, none, some, List, [], ◌∷◌, ◌++◌,
  map, reverse, append-nil, append_assoc, arith, ltb, leb, ◌==◌, if◌then◌else◌, ==_iff, Bool-cases,
  Option-cases, length, take, drop, length-append, length-take, take-append, drop-append,
  drop-append_suc, All, All-append, Error, message, wrap, os_error, Result, ok, err, ◌>>=◌, wrapped,
  of_option, Result-cases, Str, str, str_eq, str_eq_iff, str_eq_refl, index_byte, last_index,
  contains_byte, has_prefix, trim_prefix, join, to_lower, trim_space, Lacks, index_byte-append,
  index_byte-none, last_index-none, last_index-append, last_index_split, contains_byte-append,
  contains_byte-none, ℤ, pos, negsuc, is_positive, is_zero, decimal, format_int, digits_value,
  parse_int, int64_bound, IsDigit, decimal-IsDigit, IsDigit-Lacks, parse_int-decimal, trim_by,
  is_space, concat-ne-nil,
}

-- Fields have the widths uint16, uint8, uint8 and uint32.
pub record SockFilter : Type 0 where
  pub code : ℕ
  pub jt : ℕ
  pub jf : ℕ
  pub k : ℕ

-- BPF_LD | BPF_W | BPF_ABS, BPF_JMP | BPF_JEQ | BPF_K and BPF_RET | BPF_K.
abbrev pub ld_abs : ℕ
ld_abs = 0x20

abbrev pub jmp_jeq : ℕ
jmp_jeq = 0x15

abbrev pub ret_k : ℕ
ret_k = 0x06

-- Offsets into `struct seccomp_data`.
abbrev pub nr_offset : ℕ
nr_offset = 0

abbrev pub arch_offset : ℕ
arch_offset = 4

abbrev pub ret_allow : ℕ
ret_allow = 0x7fff0000

abbrev pub ret_kill_process : ℕ
ret_kill_process = 0x80000000

abbrev pub statement : ℕ → ℕ → SockFilter
statement code k = record { code = code; jt = 0; jf = 0; k = k }

-- `n - uint32(i)` in uint32.
abbrev pub sub32 : ℕ → ℕ → ℕ
sub32 n i = (n + 2 ^ 32 - i % 2 ^ 32) % 2 ^ 32

-- The loop over the allow list: `uint8(skip)` keeps the low eight bits of the offset.
unfoldable pub jumps : ℕ → ℕ → List ℕ → List SockFilter
jumps n i [] = []
jumps n i (nr ∷ rest) =
    record { code = jmp_jeq; jt = sub32 n i % 2 ^ 8; jf = 0; k = nr } ∷ jumps n (i + 1) rest

abbrev pub epilogue : List SockFilter
epilogue = statement ret_k ret_kill_process ∷ statement ret_k ret_allow ∷ []

unfoldable pub build_filter : ℕ → List ℕ → List SockFilter
build_filter audit_arch allowed =
    statement ld_abs arch_offset
    ∷ record { code = jmp_jeq; jt = 1; jf = 0; k = audit_arch }
    ∷ statement ret_k ret_kill_process
    ∷ statement ld_abs nr_offset
    ∷ (jumps (length allowed % 2 ^ 32) 0 allowed ++ epilogue)
