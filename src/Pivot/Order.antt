-- ===== src/Pivot/Order.antt =====
-- The order of the steps of `Do`, and its clean-up.
use oci_container_runtime_fr.Pivot.{old_root_rel, old_root, old_in_new, pivot}
use oci_container_runtime_fr.Sys.{
  Call, remove, make_dir_all, mount, unmount, pivot_root, change_root, change_dir, Trace, Oracle,
  wrapping, on_error, ◌>>=◌, perform, log,
}
use oci_container_runtime_fr.Base.{
  ◌≡◌, true, List, [], ◌∷◌, ◌++◌, map, reverse, arith, ok, Str, str,
}

-- The documented sequence, the first step first.
abbrev pub steps : Str → List Call
steps newroot =
    mount [] (str "/") [] ("MS_PRIVATE" ∷ "MS_REC" ∷ []) []
    ∷ mount newroot newroot (str "bind") ("MS_BIND" ∷ "MS_REC" ∷ []) []
    ∷ make_dir_all (old_root newroot)
    ∷ change_dir newroot
    ∷ pivot_root (str ".") old_root_rel
    ∷ change_root (str ".")
    ∷ change_dir (str "/")
    ∷ unmount old_in_new ("MNT_DETACH" ∷ [])
    ∷ remove old_in_new
    ∷ mount (str "proc") (str "/proc") (str "proc") [] []
    ∷ []

module _ (os : Oracle) (newroot : Str) (t : Trace) where
  -- A pivot that succeeds has made each step, in order, and each has succeeded.
  pub pivot_order :
      (pivot os newroot t).0 ≡ ok tt
      → log (pivot os newroot t).1 ≡ reverse (map (λ c. (c, true)) (steps newroot)) ++ log t
  unfolding pivot wrapping perform on_error ◌>>=◌
  pivot_order h = ground arith
