-- ===== src/Cli/Main/Exit.antt =====
-- The exit status of `main` of mvp/cmd/myrun/main.go, and what is left when it exits.
use oci_container_runtime_fr.Cli.Program.{Program, Platform}
use oci_container_runtime_fr.Cli.Main.{status_of, exiting, is_help, child_cmd, dispatch, main}
use oci_container_runtime_fr.Runtime.Child.{child_args}
use oci_container_runtime_fr.Sys.{Trace, Oracle, Io, pure, attempt, ◌>>=◌}
use oci_container_runtime_fr.Base.{
  ℕ, suc, ◌≤◌, ◌<◌, ◌≡◌, refl, ◌↔◌, inl, inr, Bool, true, false, not, ◌||◌, List, [], ◌∷◌, arith,
  leb, if◌then◌else◌, Bool-cases, length, Result, ok, err, Str, str, str_eq,
}

-- The command line names no command, an unknown one, or `child` with too few arguments.
abbrev pub is_misuse : List Str → Bool
is_misuse [] = true
is_misuse (name ∷ rest) = not (
    str_eq name (str "pull")
    || (str_eq name (str "run")
        || (str_eq name (str "checkpoint")
            || (str_eq name (str "restore")
                || (if str_eq name (str "child") then leb 3 (length rest) else is_help name)))))

-- Every run ends with a status; 2 tells of misuse, and then no call was made.
abbrev Exits : Io ℕ → Trace → Bool → Type 0
Exits m t misuse =
    (s : ℕ) × ((m t).0 ≡ ok s) × (s ≤ 2) × ((s ≡ 2) ↔ (misuse ≡ true)) × ((s ≡ 2) → ((m t).1 ≡ t))

status_below : (r : Result (Unit {0})) → status_of r < 2
status_below (ok u) = omega arith
status_below (err e) = omega arith

module _ (t : Trace) where
  exiting-Exits : (m : Io (Unit {0})) → Exits (exiting m) t false
  unfolding exiting attempt pure ◌>>=◌
  exiting-Exits m =
      let below = status_below (m t).0 in
      (status_of (m t).0, refl, omega (arith, below), ground (arith, below), ground (arith, below))

  pure-Exits : (b : Bool) → Exits (pure (if b then 0 else 2)) t (not b)
  unfolding pure
  pure-Exits true = (0, refl, omega arith, ground arith, ground arith)
  pure-Exits false = (2, refl, omega arith, ground arith, λ e. refl)

  if-Exits :
      (b : Bool) (m k : Io ℕ) (misuse : Bool)
      → Exits m t false
      → Exits k t (not misuse)
      → Exits (if b then m else k) t (not (b || misuse))
  if-Exits true m k misuse hm hk = hm
  if-Exits false m k misuse hm hk = hk

module _ (os : Oracle) {F : Type 0} (program : Program F) (platform : Platform F) (t : Trace) where
  child_cmd-Exits :
      (name : Str) (rest : List Str)
      → Exits
          (child_cmd os program platform (child_args (name ∷ rest)))
          t
          (not (leb 3 (length rest)))
  unfolding child_cmd child_args pure
  child_cmd-Exits name [] = (2, refl, omega arith, ground arith, λ e. refl)
  child_cmd-Exits name (flag ∷ []) = (2, refl, omega arith, ground arith, λ e. refl)
  child_cmd-Exits name (flag ∷ root ∷ []) = (2, refl, omega arith, ground arith, λ e. refl)
  child_cmd-Exits name (flag ∷ root ∷ cmd ∷ args) =
      rw (enough (length args)) (exiting-Exits t (platform.child _))
    where
      enough : (n : ℕ) → leb 3 (suc (suc (suc n))) ≡ true
      enough n = ground arith

  last-Exits :
      (name : Str) (rest : List Str)
      → Exits
          (if str_eq name (str "child")
            then child_cmd os program platform (child_args (name ∷ rest))
            else pure (if is_help name then 0 else 2))
          t
          (not (if str_eq name (str "child") then leb 3 (length rest) else is_help name))
  last-Exits name rest = elim (Bool-cases (str_eq name (str "child"))) [
    | inl same ↦ rw same (child_cmd-Exits name rest)
    | inr other ↦ rw other (pure-Exits t (is_help name))
  ]

  -- `main` always exits with a status of at most 2. The status is 2 exactly if the command line names
  -- no command, an unknown one, or `child` with fewer than three arguments, and then nothing was done.
  pub main_status :
      (argv : List Str)
      → (s : ℕ) × ((main os program platform argv t).0 ≡ ok s)
        × (s ≤ 2)
        × ((s ≡ 2) ↔ (is_misuse argv ≡ true))
        × ((s ≡ 2) → ((main os program platform argv t).1 ≡ t))
  unfolding main dispatch pure
  main_status [] = (2, refl, omega arith, ground arith, λ e. refl)
  main_status (name ∷ rest) = if-Exits t (str_eq name (str "pull")) _ _ _ (exiting-Exits t _) (
      if-Exits t (str_eq name (str "run")) _ _ _ (exiting-Exits t _) (
        if-Exits t (str_eq name (str "checkpoint")) _ _ _ (exiting-Exits t _) (
          if-Exits t (str_eq name (str "restore")) _ _ _ (exiting-Exits t _)
            (last-Exits name rest))))
