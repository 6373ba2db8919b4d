-- ===== src/Cgroups/Holdings.antt =====
-- A group that `Create` of mvp/internal/cgroups/cgroups_linux.go makes is held, and `Close` removes it.
use oci_container_runtime_fr.Cgroups.{
  FloatOps, Limits, root, write, close_group, add_pid, prepare, write_or_close, write_limits,
  create,
}
use oci_container_runtime_fr.Cgroups.Writes.{group_name-NonEmpty}
use oci_container_runtime_fr.Sys.{
  Oracle, ignoring, when, Resource, group, either_way, Moves, Keeps, Keeps-pure, Keeps-wrapping,
  Keeps-bind, Keeps-env, Keeps-write_file, Sure, Sure-env, Sure-pure, Sure-bind, Moves-Sure,
  Moves-kept, Moves-tolerating, Moves-wrapping_all, Moves-pure, Moves-Keeps, Moves-bind,
  Moves-on_error, Moves-ignoring, Moves-make_dir, Moves-remove,
}
use oci_container_runtime_fr.Base.{
  ℕ, String, refl, inl, inr, Bool, true, false, List, [], ◌∷◌, ◌++◌, if◌then◌else◌, Bool-cases, Str,
  str, decimal, is_empty, join_path-NonEmpty,
}

-- A group with a path; `Close` does nothing without one.
abbrev pub group_of : Str → List Resource
group_of path = if is_empty path then [] else group path ∷ []

module _ (os : Oracle) where
  root-Keeps : Keeps (root os)
  unfolding root
  root-Keeps = search (Keeps-bind, Keeps-env, Keeps-pure)

  root-Sure : Sure (root os)
  unfolding root
  root-Sure = Sure-bind _ _ (Sure-env os _) (λ r. Sure-pure _)

  write-Keeps : (dir : Str) (name : String) (content : Str) → Keeps (write os dir name content)
  unfolding write
  write-Keeps dir name content = Keeps-wrapping _ (Keeps-write_file os _ content)

  pub add_pid-Keeps : (path : Str) (pid : ℕ) → Keeps (add_pid os path pid)
  unfolding add_pid
  add_pid-Keeps path pid = write-Keeps path _ _

  module _ (from : List Resource) where
    prepare-Moves :
        (pid : ℕ) → Moves from (prepare os pid) (either_way (λ path. group_of path ++ from) from)
    unfolding prepare
    prepare-Moves pid = Moves-Sure root-Sure (Moves-Keeps root-Keeps) (λ parent.
        Moves-Sure root-Sure (Moves-Keeps root-Keeps) (λ parent'.
          Moves-kept (Keeps-write_file os _ _) (
            Moves-bind (Moves-make_dir os from _ _)
              (λ _. Moves-pure _ (λ x.
                rw
                  (join_path-NonEmpty parent (str "myrun-" ++ decimal pid)
                    (group_name-NonEmpty pid))
                  refl))
              (λ e x. refl))))

    pub close_group-Moves :
        (path : Str) → Moves (group_of path ++ from) (ignoring (close_group os path)) (λ _. from)
    unfolding close_group
    close_group-Moves path = elim (Bool-cases (is_empty path)) [
      | inl no_path ↦ rw no_path (Moves-ignoring (Moves-Keeps (Keeps-pure tt)))
      | inr real ↦ rw real (
          Moves-ignoring
            (Moves-wrapping_all _ (Moves-tolerating _ (Moves-remove os from path (λ x. refl)))))
    ]

    write_or_close-Moves :
        (path : Str) (name : String) (content : Str)
        → Moves
            (group_of path ++ from)
            (write_or_close os path name content)
            (either_way (λ _. group_of path ++ from) from)
    unfolding write_or_close
    write_or_close-Moves path name content =
        Moves-on_error (Moves-Keeps (write-Keeps path name content)) (λ e. close_group-Moves path)
          (λ a x. refl)

    step-Moves :
        (path : Str) (b : Bool) (name : String) (content : Str)
        → Moves
            (group_of path ++ from)
            (when b (write_or_close os path name content))
            (either_way (λ _. group_of path ++ from) from)
    unfolding when
    step-Moves path true name content = write_or_close-Moves path name content
    step-Moves path false name content = Moves-pure tt (λ x. refl)

    module _ {F : Type 0} (fl : FloatOps F) (lim : Limits F) where
      write_limits-Moves :
          (path : Str)
          → Moves
              (group_of path ++ from)
              (write_limits os fl lim path)
              (either_way (λ _. group_of path ++ from) from)
      unfolding write_limits
      write_limits-Moves path =
          Moves-bind (step-Moves path _ _ _)
            (λ _. Moves-bind (step-Moves path _ _ _) (λ _. step-Moves path _ _ _) (λ e x. refl))
            (λ e x. refl)

      pub create-Moves :
          (pid : ℕ)
          → Moves from (create os fl lim pid) (either_way (λ path. group_of path ++ from) from)
      unfolding create
      create-Moves pid =
          Moves-bind (prepare-Moves pid)
            (λ path.
              Moves-bind (write_limits-Moves path) (λ _. Moves-pure path (λ x. refl)) (λ e x. refl))
            (λ e x. refl)
