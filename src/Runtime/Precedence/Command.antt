-- ===== src/Runtime/Precedence/Command.antt =====
-- The command and the user namespace that `applySpec` takes from a document.
use oci_container_runtime_fr.Runtime.Config.{
  Config, apply_args, apply_process, apply_root, has_user, mapped, apply_linux, apply_spec,
}
use oci_container_runtime_fr.Cgroups.{FloatOps}
use oci_container_runtime_fr.Userns
use oci_container_runtime_fr.Spec.{Spec, Process, LinuxBlock, Namespace, IdMapping}
use mathlib.Core.Bool.{true≢false}
use oci_container_runtime_fr.Base.{
  All, ◌≡◌, refl, ap, sym, ◌∙◌, ◌≢◌, inl, inr, Bool, true, false, Option, none, some, List, [], ◌∷◌,
  ◌++◌, arith, Bool-cases, Str, str, str_eq, str_eq_iff, is_empty,
}
use oci_container_runtime_fr.Runtime.Precedence.{field, IsCommand, IsRootless}
use oci_container_runtime_fr.Runtime.Precedence.Settings.{empty_text, filled_text}

module _ {F : Type 0} where
  args-IsCommand :
      (words : List Str) (cfg : Config F)
      → IsCommand cfg (some words) (apply_args words cfg).cmd (apply_args words cfg).args
  unfolding apply_args
  args-IsCommand [] cfg = elim (Bool-cases (is_empty cfg.cmd)) [
    | inl t ↦ inr (inr (empty_text cfg.cmd t, inr refl, empty_text cfg.cmd t, refl))
    | inr t ↦ inl (filled_text cfg.cmd t, refl, refl)
  ]
  args-IsCommand (a ∷ []) cfg = elim (Bool-cases (is_empty cfg.cmd)) [
    | inl t ↦ rw t (inr (inl (empty_text cfg.cmd t, [], refl, inr (refl, refl))))
    | inr t ↦ rw t (inl (filled_text cfg.cmd t, refl, refl))
  ]
  args-IsCommand (a ∷ b ∷ l) cfg = elim (Bool-cases (is_empty cfg.cmd)) [
    | inl t ↦ rw t (inr (inl (empty_text cfg.cmd t, b ∷ l, refl, inl (λ e. cc, refl))))
    | inr t ↦ rw t (inl (filled_text cfg.cmd t, refl, refl))
  ]

  pub process-IsCommand :
      (p : Option Process) (cfg : Config F)
      → IsCommand cfg
          (field p (λ p. some p.args))
          (apply_process p cfg).cmd
          (apply_process p cfg).args
  unfolding apply_process
  process-IsCommand none cfg = elim (Bool-cases (is_empty cfg.cmd)) [
    | inl t ↦ inr (inr (empty_text cfg.cmd t, inl refl, empty_text cfg.cmd t, refl))
    | inr t ↦ inl (filled_text cfg.cmd t, refl, refl)
  ]
  process-IsCommand (some p) cfg = args-IsCommand p.args cfg

module _ {F : Type 0} (fl : FloatOps F) (s : Spec) (cfg : Config F) where
  rootfs_kept : (apply_spec fl s cfg).rootfs ≡ (apply_root s.root cfg).rootfs
  unfolding apply_spec apply_linux apply_root apply_process apply_args
  rootfs_kept = ground arith

  limits_kept : (apply_spec fl s cfg).limits ≡ (apply_linux fl s.linux cfg).limits
  unfolding apply_spec apply_linux apply_root apply_process apply_args
  limits_kept = ground arith

  linux_kept :
      ((apply_spec fl s cfg).rootless ≡ (apply_linux fl s.linux cfg).rootless)
      × ((apply_spec fl s cfg).seccomp ≡ (apply_linux fl s.linux cfg).seccomp)
  unfolding apply_spec apply_linux apply_root apply_process apply_args
  linux_kept = ground arith

  command_kept :
      ((apply_spec fl s cfg).cmd ≡ (apply_process s.process cfg).cmd)
      × ((apply_spec fl s cfg).args ≡ (apply_process s.process cfg).args)
  unfolding apply_spec apply_linux apply_root apply_process apply_args
  command_kept = ground arith

  rest_kept :
      ((apply_spec fl s cfg).store_root ≡ cfg.store_root)
      × ((apply_spec fl s cfg).port_mappings ≡ cfg.port_mappings)
      × ((apply_spec fl s cfg).spec ≡ cfg.spec)
  unfolding apply_spec apply_linux apply_root apply_process apply_args
  rest_kept = ground arith

user_listed :
    (l : List Namespace)
    → has_user l ≡ true
    → (before : List Namespace) × (ns : Namespace) × (after : List Namespace) × (l
        ≡ before ++ ns ∷ after)
      × (ns.ns_type ≡ str "user")
unfolding has_user
user_listed [] h = cc
user_listed (ns ∷ l) h = elim (Bool-cases (str_eq ns.ns_type (str "user"))) [
  | inl t ↦ ([], ns, l, refl, (str_eq_iff ns.ns_type (str "user")).0 t)
  | inr t ↦
      let (before, found, after, e, user) = user_listed l (rw t at h) in
      (ns ∷ before, found, after, ap (λ m. ns ∷ m) e, user)
]

no_user_listed :
    (l : List Namespace) → has_user l ≡ false → All (λ (ns : Namespace). ns.ns_type ≢ str "user") l
unfolding has_user
no_user_listed [] h = tt
no_user_listed (ns ∷ l) h = elim (Bool-cases (str_eq ns.ns_type (str "user"))) [
  | inl t ↦ absurd (true≢false (rw t at h))
  | inr t ↦ (
    λ e. true≢false (sym ((str_eq_iff ns.ns_type (str "user")).1 e) ∙ t),
    no_user_listed l (rw t at h),
  )
]

pub mapped-IsRootless :
    (own : Userns.Config) (l : LinuxBlock) (user : Bool) (uids gids : List IdMapping)
    → has_user l.namespaces ≡ user
    → l.uid_mappings ≡ uids
    → l.gid_mappings ≡ gids
    → own.enabled ≡ false
    → IsRootless own (some l) (mapped user uids gids own)
unfolding mapped
mapped-IsRootless own l true (um ∷ us) (gm ∷ gs) h eu eg off =
    inr (inl (off, l, um, gm, us, gs, refl, user_listed l.namespaces h, eu, eg, refl))
mapped-IsRootless own l true [] gids h eu eg off =
    inr (inr (off, inr (l, refl, inr (inl eu)), refl))
mapped-IsRootless own l true (um ∷ us) [] h eu eg off =
    inr (inr (off, inr (l, refl, inr (inr eg)), refl))
mapped-IsRootless own l false uids gids h eu eg off =
    inr (inr (off, inr (l, refl, inl (no_user_listed l.namespaces h)), refl))
