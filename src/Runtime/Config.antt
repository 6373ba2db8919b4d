-- ===== src/Runtime/Config.antt =====
-- `Config` and `applySpec` of mvp/internal/runtime/runtime_linux.go.
use oci_container_runtime_fr.Network.Types.{PortMapping}
use oci_container_runtime_fr.Cgroups.{FloatOps, Limits}
use oci_container_runtime_fr.Userns
use oci_container_runtime_fr.Spec.{
  Spec, Process, Root, LinuxBlock, Resources, MemoryResources, CpuResources, PidsResources,
  Namespace, IdMapping,
}
use oci_container_runtime_fr.Base.{
  Bool, true, false, ◌&&◌, ◌||◌, Option, none, some, List, [], ◌∷◌, ◌==◌, if◌then◌else◌, Str, str,
  str_eq, pos, is_positive, is_zero, is_empty,
}

pub record Config (F : Type 0) : Type 0 where
  pub rootfs : Str
  pub cmd : Str
  pub args : List Str
  pub limits : Limits F
  pub store_root : Str
  pub port_mappings : List PortMapping
  pub rootless : Userns.Config
  pub seccomp : Bool
  pub spec : Option Spec

module _ {F : Type 0} where
  -- `process.args`: the command and its arguments, where no command was given.
  unfoldable pub apply_args : List Str → Config F → Config F
  apply_args [] cfg = cfg
  apply_args (a ∷ []) cfg = if is_empty cfg.cmd then record cfg { cmd = a } else cfg
  apply_args (a ∷ b ∷ rest) cfg =
      if is_empty cfg.cmd then record cfg { cmd = a; args = b ∷ rest } else cfg

  unfoldable pub apply_process : Option Process → Config F → Config F
  unfolding apply_args
  apply_process none cfg = cfg
  apply_process (some p) cfg = apply_args p.args cfg

  unfoldable pub apply_root : Option Root → Config F → Config F
  apply_root none cfg = cfg
  apply_root (some r) cfg = if is_empty cfg.rootfs then record cfg { rootfs = r.path } else cfg

  unfoldable pub apply_memory : Option MemoryResources → Limits F → Limits F
  apply_memory none lim = lim
  apply_memory (some m) lim =
      if is_zero lim.memory_bytes then record lim { memory_bytes = m.limit } else lim

  unfoldable pub apply_cpu : FloatOps F → Option CpuResources → Limits F → Limits F
  apply_cpu fl none lim = lim
  apply_cpu fl (some c) lim =
      if fl.equals_zero lim.cpu_quota && is_positive c.quota
      then record lim { cpu_quota = fl.ratio c.quota (if c.period == 0 then 100000 else c.period) }
      else lim

  unfoldable pub apply_pids : Option PidsResources → Limits F → Limits F
  apply_pids none lim = lim
  apply_pids (some p) lim = if is_zero lim.pids_max then record lim { pids_max = p.limit } else lim

  unfoldable pub apply_resources : FloatOps F → Option Resources → Limits F → Limits F
  apply_resources fl none lim = lim
  apply_resources fl (some r) lim =
      apply_pids r.pids (apply_cpu fl r.cpu (apply_memory r.memory lim))

-- A pointer field of the document is there.
abbrev pub is_given : {A : Type 0} → Option A → Bool
is_given none = false
is_given (some _) = true

-- `ns.Type == "user"` for some namespace.
unfoldable pub has_user : List Namespace → Bool
has_user [] = false
has_user (ns ∷ rest) = str_eq ns.ns_type (str "user") || has_user rest

-- The loop over the namespaces: the first user namespace decides, if both mappings are there.
unfoldable pub mapped : Bool → List IdMapping → List IdMapping → Userns.Config → Userns.Config
mapped true (um ∷ us) (gm ∷ gs) rootless = record {
  enabled = true;
  host_uid = pos um.host_id;
  host_gid = pos gm.host_id;
  size = pos um.size;
}
mapped _ _ _ rootless = rootless

module _ {F : Type 0} (fl : FloatOps F) where
  unfoldable pub apply_linux : Option LinuxBlock → Config F → Config F
  apply_linux none cfg = cfg
  apply_linux (some l) cfg = record cfg {
    limits = apply_resources fl l.resources cfg.limits;
    rootless =
        if cfg.rootless.enabled
        then cfg.rootless
        else mapped (has_user l.namespaces) l.uid_mappings l.gid_mappings cfg.rootless;
    seccomp = cfg.seccomp || is_given l.seccomp;
  }

  -- `applySpec`
  unfoldable pub apply_spec : Spec → Config F → Config F
  apply_spec s cfg = apply_linux s.linux (apply_root s.root (apply_process s.process cfg))
