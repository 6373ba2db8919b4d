-- ===== src/Spec.antt =====
-- mvp/internal/ocispec/spec.go. What encoding/json makes of the bytes is a parameter.
pub mod Load
use oci_container_runtime_fr.Base.{
  ℕ, zero, suc, ◌+◌, ◌-◌, ◌*◌, ◌/◌, ◌%◌, ◌^◌, ◌≤◌, ◌<◌, min, String, ◌≡◌, refl, sym, ap, ◌∙◌, ◌≢◌,
  ◌↔◌, ◌⊎◌, inl, inr, Bool, true, false, not, ◌&&◌, ◌||◌, Option, none, some, List, [], ◌∷◌, ◌++◌,
  map, reverse, append-nil, append_assoc, arith, ltb, leb, ◌==◌, if◌then◌else◌, ==_iff, Bool-cases,
  Option-cases, length, take, drop, length-append, length-take, take-append, drop-append,
  drop-append_suc, All, All-append, Error, message, wrap, os_error, Errno, already_exists,
  does_not_exist, other_error, is_exist, is_not_exist, Result, ok, err, ◌>>=◌, wrapped, of_option,
  Result-cases, Str, str, str_eq, str_eq_iff, str_eq_refl, index_byte, last_index, contains_byte,
  has_prefix, trim_prefix, join, to_lower, trim_space, Lacks, index_byte-append, index_byte-none,
  last_index-none, last_index-append, last_index_split, contains_byte-append, contains_byte-none, ℤ,
  pos, negsuc, is_positive, is_zero, decimal, format_int, digits_value, parse_int, int64_bound,
  IsDigit, decimal-IsDigit, IsDigit-Lacks, parse_int-decimal, components, is_abs, clean,
  clean_components, is_empty, NonEmpty, clean-NonEmpty, join_path-NonEmpty, All-reverse, join_path,
  trim_by, is_space, concat-ne-nil,
}

pub record User : Type 0 where
  pub uid : ℕ
  pub gid : ℕ
  pub additional_gids : List ℕ

pub record Capabilities : Type 0 where
  pub bounding : List Str
  pub effective : List Str
  pub inheritable : List Str
  pub permitted : List Str
  pub ambient : List Str

pub record Process : Type 0 where
  pub terminal : Bool
  pub user : User
  pub args : List Str
  pub env_vars : List Str
  pub cwd : Str
  pub capabilities : Option Capabilities
  pub no_new_privs : Bool

pub record Root : Type 0 where
  pub path : Str
  pub readonly : Bool

pub record Mount : Type 0 where
  pub destination : Str
  pub fs_type : Str
  pub source : Str
  pub options : List Str

pub record Namespace : Type 0 where
  pub ns_type : Str
  pub path : Str

pub record IdMapping : Type 0 where
  pub container_id : ℕ
  pub host_id : ℕ
  pub size : ℕ

pub record MemoryResources : Type 0 where
  pub limit : ℤ

pub record CpuResources : Type 0 where
  pub quota : ℤ
  pub period : ℕ

pub record PidsResources : Type 0 where
  pub limit : ℤ

pub record Resources : Type 0 where
  pub memory : Option MemoryResources
  pub cpu : Option CpuResources
  pub pids : Option PidsResources

pub record SeccompBlock : Type 0 where
  pub default_action : Str

pub record LinuxBlock : Type 0 where
  pub namespaces : List Namespace
  pub uid_mappings : List IdMapping
  pub gid_mappings : List IdMapping
  pub resources : Option Resources
  pub seccomp : Option SeccompBlock
  pub masked_paths : List Str
  pub readonly_paths : List Str

pub record Spec : Type 0 where
  pub oci_version : Str
  pub process : Option Process
  pub root : Option Root
  pub hostname : Str
  pub mounts : List Mount
  pub linux : Option LinuxBlock
