-- ===== src/Runtime/Precedence/Settings.antt =====
-- The root and the limits that `applySpec` takes from a document.
use oci_container_runtime_fr.Runtime.Config.{
  Config, apply_root, apply_memory, apply_cpu, apply_pids,
}
use oci_container_runtime_fr.Cgroups.{FloatOps, Limits}
use oci_container_runtime_fr.Spec.{Root, MemoryResources, CpuResources, PidsResources}
use oci_container_runtime_fr.Base.{
  ℕ, ◌≡◌, refl, ap, ◌≢◌, ◌⊎◌, inl, inr, Bool, true, false, ◌==◌, ==_iff, Option, none, some, [],
  ◌∷◌, arith, if◌then◌else◌, Bool-cases, Str, ℤ, pos, negsuc, is_zero, is_positive, is_empty,
}
use oci_container_runtime_fr.Runtime.Precedence.{field, IsChosen, IsQuota}

ungiven-IsChosen :
    {A : Type 0} (unset own : A) (b : Bool)
    → (b ≡ true → own ≡ unset)
    → (b ≡ false → own ≢ unset)
    → IsChosen unset own none own
ungiven-IsChosen unset own true h k = inr (inr (h refl, refl, h refl))
ungiven-IsChosen unset own false h k = inl (k refl, refl)

pub empty_text : (v : Str) → is_empty v ≡ true → v ≡ []
empty_text [] h = refl
empty_text (c ∷ v) h = cc

pub filled_text : (v : Str) → is_empty v ≡ false → v ≢ []
filled_text [] h = cc
filled_text (c ∷ v) h = λ e. cc

no_number : (n : ℤ) → is_zero n ≡ true → n ≡ pos 0
no_number (pos n) h = ap pos ((==_iff n 0).0 h)
no_number (negsuc n) h = cc

some_number : (n : ℤ) → is_zero n ≡ false → n ≢ pos 0
some_number (pos n) h = λ e. grind arith
some_number (negsuc n) h = λ e. cc

not_zero : (n : ℕ) → n == 0 ≡ false → n ≢ 0
not_zero n h e = grind arith

period_or_default :
    (n : ℕ)
    → ((n ≡ 0) × ((if n == 0 then 100000 else n) ≡ 100000))
      ⊎ ((n ≢ 0) × ((if n == 0 then 100000 else n) ≡ n))
period_or_default n = elim (Bool-cases (n == 0)) [
  | inl t ↦ rw t (inl ((==_iff n 0).0 t, refl))
  | inr t ↦ rw t (inr (not_zero n t, refl))
]

module _ {F : Type 0} where
  pub root-IsChosen :
      (r : Option Root) (cfg : Config F)
      → IsChosen [] cfg.rootfs (field r (λ r. some r.path)) (apply_root r cfg).rootfs
  unfolding apply_root
  root-IsChosen none cfg =
      ungiven-IsChosen [] cfg.rootfs (is_empty cfg.rootfs) (empty_text cfg.rootfs)
        (filled_text cfg.rootfs)
  root-IsChosen (some r) cfg = elim (Bool-cases (is_empty cfg.rootfs)) [
    | inl t ↦ rw t (inr (inl (empty_text cfg.rootfs t, refl)))
    | inr t ↦ rw t (inl (filled_text cfg.rootfs t, refl))
  ]

  pub memory-IsChosen :
      (m : Option MemoryResources) (lim : Limits F)
      → IsChosen
          (pos 0)
          lim.memory_bytes
          (field m (λ m. some m.limit))
          (apply_memory m lim).memory_bytes
  unfolding apply_memory
  memory-IsChosen none lim =
      ungiven-IsChosen (pos 0) lim.memory_bytes (is_zero lim.memory_bytes)
        (no_number lim.memory_bytes) (some_number lim.memory_bytes)
  memory-IsChosen (some m) lim = elim (Bool-cases (is_zero lim.memory_bytes)) [
    | inl t ↦ rw t (inr (inl (no_number lim.memory_bytes t, refl)))
    | inr t ↦ rw t (inl (some_number lim.memory_bytes t, refl))
  ]

  pub pids-IsChosen :
      (p : Option PidsResources) (lim : Limits F)
      → IsChosen (pos 0) lim.pids_max (field p (λ p. some p.limit)) (apply_pids p lim).pids_max
  unfolding apply_pids
  pids-IsChosen none lim =
      ungiven-IsChosen (pos 0) lim.pids_max (is_zero lim.pids_max) (no_number lim.pids_max)
        (some_number lim.pids_max)
  pids-IsChosen (some p) lim = elim (Bool-cases (is_zero lim.pids_max)) [
    | inl t ↦ rw t (inr (inl (no_number lim.pids_max t, refl)))
    | inr t ↦ rw t (inl (some_number lim.pids_max t, refl))
  ]

  pub cpu-IsQuota :
      (fl : FloatOps F) (c : Option CpuResources) (lim : Limits F)
      → IsQuota fl lim.cpu_quota c (apply_cpu fl c lim).cpu_quota
  unfolding apply_cpu
  cpu-IsQuota fl none lim = elim (Bool-cases (fl.equals_zero lim.cpu_quota)) [
    | inl t ↦ inr (inr (t, inl refl, refl))
    | inr t ↦ inl (t, refl)
  ]
  cpu-IsQuota fl (some c) lim = elim (Bool-cases (fl.equals_zero lim.cpu_quota)) [
    | inl t ↦ elim (Bool-cases (is_positive c.quota)) [
      | inl p ↦ rw (t, p) (inr (inl (refl, c, _, refl, p, period_or_default c.period, refl)))
      | inr p ↦ rw (t, p) (inr (inr (refl, inr (c, refl, p), refl)))
    ]
    | inr t ↦ rw t (inl (refl, refl))
  ]
