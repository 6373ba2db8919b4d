-- ===== src/Userns/Rootless.antt =====
-- What `Detect` and `ApplyToSysProcAttr` of mvp/internal/userns/userns_linux.go make of the user.
use oci_container_runtime_fr.Userns.{Config, wants_rootless, detect, apply_to_spawn}
use oci_container_runtime_fr.Sys.{
  Spawn, get_uid, get_gid, get_euid, Trace, Oracle, pure, attempt, ◌>>=◌, perform,
}
use oci_container_runtime_fr.Base.{
  ℕ, ◌≡◌, refl, ap, ◌≢◌, ◌⊎◌, inl, inr, Bool, true, false, some, [], ◌∷◌, ◌++◌, arith, ◌==◌, ==_iff,
  Bool-cases, ok, ℤ, pos, negsuc, is_zero,
}

-- A user's ids as the kernel tells them, in every state: the user, the group and the effective user.
pub record Answers (os : Oracle) (uid gid euid : ℤ) : Type 0 where
  pub user : (t : Trace) → os t get_uid ≡ ok uid
  pub group_id : (t : Trace) → os t get_gid ≡ ok gid
  pub effective : (t : Trace) → os t get_euid ≡ ok euid

-- The program is started in a new user namespace too, where one user and one group exist: container
-- id 0 is this user, and this group, outside.
abbrev pub in_user_namespace : ℤ → ℤ → Spawn → Spawn
in_user_namespace uid gid s = record s {
  clone_flags = s.clone_flags ++ "CLONE_NEWUSER" ∷ [];
  uid_map = some (uid, pos 1);
  gid_map = some (gid, pos 1);
}

positive : (n : ℕ) → n == 0 ≡ false → pos n ≢ pos 0
positive n h e = grind arith

is_root : (id : ℤ) → ((is_zero id ≡ true) × (id ≡ pos 0)) ⊎ ((is_zero id ≡ false) × (id ≢ pos 0))
is_root (pos n) = elim (Bool-cases (n == 0)) [
  | inl same ↦ inl (same, ap pos ((==_iff n 0).0 same))
  | inr other ↦ inr (other, λ e. positive n other e)
]
is_root (negsuc n) = inr (refl, λ e. cc)

module _ (os : Oracle) {uid gid euid : ℤ} (told : Answers os uid gid euid) where
  -- Where the kernel tells the ids of the user, `Detect` succeeds, and what `ApplyToSysProcAttr` then
  -- makes of a process to start is decided by the flag and the effective user. If the flag is set, or
  -- the effective user is not root, it is started in a new user namespace with root mapped to the user
  -- and to the group that run myrun, and no other id mapped; otherwise it is left as it is. So a flag
  -- that is not set does not turn rootless mode off.
  pub detect_enabled :
      (force : Bool) (t : Trace) (s : Spawn)
      → (c : Config) × ((detect os force t).0 ≡ ok c)
        × (((force ≡ true) ⊎ (euid ≢ pos 0)) × (apply_to_spawn c s ≡ in_user_namespace uid gid s)
            ⊎ (((force ≡ false) × (euid ≡ pos 0)) × (apply_to_spawn c s ≡ s)))
  unfolding detect wants_rootless attempt perform pure ◌>>=◌ apply_to_spawn
  detect_enabled true t s = (_, refl, inl (inl refl, rw (told.user _, told.group_id _) refl))
  detect_enabled false t s = elim (is_root euid) [
    | inl (none_set, root) ↦ (_, refl, inr ((refl, root), rw (told.effective t, none_set) refl))
    | inr (other, user) ↦
        (_, refl, inl (inr user, rw (told.effective t, other, told.user _, told.group_id _) refl))
  ]
