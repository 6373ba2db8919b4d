-- ===== src/Runtime/Precedence.antt =====
-- What wins where both the command line and a document give a setting: `applySpec` of
-- mvp/internal/runtime/runtime_linux.go.
pub mod Settings
pub mod Command
pub mod Folded
use oci_container_runtime_fr.Runtime.Config.{
  Config, apply_args, apply_process, apply_root, apply_memory, apply_cpu, apply_pids,
  apply_resources, has_user, mapped, apply_linux, apply_spec, is_given,
}
use oci_container_runtime_fr.Cgroups.{FloatOps, Limits}
use oci_container_runtime_fr.Userns
use oci_container_runtime_fr.Spec.{
  Spec, Process, Root, LinuxBlock, Resources, MemoryResources, CpuResources, PidsResources,
  Namespace, IdMapping,
}
use mathlib.Core.Bool.{true≢false}
use mathlib.Core.Path.{subst}
use oci_container_runtime_fr.Base.{
  ℕ, zero, suc, All, ◌≡◌, refl, ap, sym, ◌∙◌, ◌≢◌, ◌⊎◌, inl, inr, Bool, true, false, ◌||◌, ◌&&◌,
  ◌==◌, ==_iff, Option, none, some, List, [], ◌∷◌, ◌++◌, arith, if◌then◌else◌, Bool-cases, Str, str,
  str_eq, str_eq_iff, ℤ, pos, negsuc, is_zero, is_positive, is_empty,
}

-- A field of an optional block.
abbrev pub field : {A B : Type 0} → Option A → (A → Option B) → Option B
field none f = none
field (some a) f = f a

-- The settings that a document gives.
abbrev pub document_root : Spec → Option Str
document_root s = field s.root (λ r. some r.path)

abbrev pub document_words : Spec → Option (List Str)
document_words s = field s.process (λ p. some p.args)

abbrev pub document_resources : Spec → Option Resources
document_resources s = field s.linux (λ l. l.resources)

abbrev pub document_memory : Spec → Option ℤ
document_memory s = field (document_resources s) (λ r. field r.memory (λ m. some m.limit))

abbrev pub document_pids : Spec → Option ℤ
document_pids s = field (document_resources s) (λ r. field r.pids (λ p. some p.limit))

abbrev pub document_cpu : Spec → Option CpuResources
document_cpu s = field (document_resources s) (λ r. r.cpu)

-- The command line's value where it is set, else the document's, else it stays unset.
abbrev pub IsChosen : {A : Type 0} → A → A → Option A → A → Type 0
IsChosen unset own given result =
    ((own ≢ unset) × (result ≡ own))
    ⊎ (((own ≡ unset) × (given ≡ some result))
        ⊎ ((own ≡ unset) × (given ≡ none) × (result ≡ unset)))

-- The command and its arguments: the command line's, else the document's. A document that gives only
-- a command leaves the arguments of the command line.
abbrev pub IsCommand : {F : Type 0} → Config F → Option (List Str) → Str → List Str → Type 0
IsCommand own given cmd args =
    ((own.cmd ≢ []) × (cmd ≡ own.cmd) × (args ≡ own.args))
    ⊎ (((own.cmd ≡ [])
          × (l : List Str) × (given ≡ some (cmd ∷ l))
          × (((l ≢ []) × (args ≡ l)) ⊎ ((l ≡ []) × (args ≡ own.args))))
        ⊎ ((own.cmd ≡ []) × ((given ≡ none) ⊎ (given ≡ some [])) × (cmd ≡ []) × (args ≡ own.args)))

-- The part of a processor: the command line's, else a positive quota of the document for its period,
-- which is 100000 where the document says 0.
abbrev pub IsQuota : {F : Type 0} → FloatOps F → F → Option CpuResources → F → Type 0
IsQuota fl own given result =
    ((fl.equals_zero own ≡ false) × (result ≡ own))
    ⊎ (((fl.equals_zero own ≡ true)
          × (c : CpuResources) × (each : ℕ) × (given ≡ some c)
          × (is_positive c.quota ≡ true)
          × (((c.period ≡ 0) × (each ≡ 100000)) ⊎ ((c.period ≢ 0) × (each ≡ c.period)))
          × (result ≡ fl.ratio c.quota each))
        ⊎ ((fl.equals_zero own ≡ true)
            × ((given ≡ none)
                ⊎ ((c : CpuResources) × (given ≡ some c) × (is_positive c.quota ≡ false)))
            × (result ≡ own)))

-- A document asks for a user namespace and gives both mappings.
abbrev pub HasUser : LinuxBlock → Type 0
HasUser l =
    (before : List Namespace) × (ns : Namespace) × (after : List Namespace) × (l.namespaces
      ≡ before ++ ns ∷ after)
    × (ns.ns_type ≡ str "user")

abbrev pub HasNoUser : LinuxBlock → Type 0
HasNoUser l =
    All (λ (ns : Namespace). ns.ns_type ≢ str "user") l.namespaces
    ⊎ ((l.uid_mappings ≡ []) ⊎ (l.gid_mappings ≡ []))

-- Rootless mode: what the command line enabled, else what the first mappings of a document say that
-- asks for a user namespace.
abbrev pub IsRootless : Userns.Config → Option LinuxBlock → Userns.Config → Type 0
IsRootless own given result =
    ((own.enabled ≡ true) × (result ≡ own))
    ⊎ (((own.enabled ≡ false)
          × (l : LinuxBlock) × (um gm : IdMapping) × (us gs : List IdMapping) × (given ≡ some l)
          × HasUser l
          × (l.uid_mappings ≡ um ∷ us)
          × (l.gid_mappings ≡ gm ∷ gs)
          × (result ≡ record {
            enabled = true;
            host_uid = pos um.host_id;
            host_gid = pos gm.host_id;
            size = pos um.size;
          }))
        ⊎ ((own.enabled ≡ false)
            × ((given ≡ none) ⊎ ((l : LinuxBlock) × (given ≡ some l) × HasNoUser l))
            × (result ≡ own)))

-- The result of folding a document into a configuration, setting by setting.
pub record IsFolded {F : Type 0} (fl : FloatOps F) (s : Spec) (own result : Config F) : Type 0 where
  pub root_folded : IsChosen [] own.rootfs (document_root s) result.rootfs
  pub command_folded : IsCommand own (document_words s) result.cmd result.args
  pub memory_folded :
      IsChosen (pos 0) own.limits.memory_bytes (document_memory s) result.limits.memory_bytes
  pub cpu_folded : IsQuota fl own.limits.cpu_quota (document_cpu s) result.limits.cpu_quota
  pub pids_folded : IsChosen (pos 0) own.limits.pids_max (document_pids s) result.limits.pids_max
  pub rootless_folded : IsRootless own.rootless s.linux result.rootless
  pub seccomp_folded : result.seccomp ≡ (own.seccomp || is_given (field s.linux (λ l. l.seccomp)))
  pub store_root_kept : result.store_root ≡ own.store_root
  pub port_mappings_kept : result.port_mappings ≡ own.port_mappings
  pub spec_kept : result.spec ≡ own.spec
