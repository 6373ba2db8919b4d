-- ===== src/Darwin/Refused.antt =====
-- The commands of mvp/cmd/myrun/main.go on macOS.
use mathlib.Core.Path.{subst}
use oci_container_runtime_fr.Darwin.{darwin}
use oci_container_runtime_fr.Darwin.Runtime
use oci_container_runtime_fr.Darwin.Criu
use oci_container_runtime_fr.Darwin.Userns
use oci_container_runtime_fr.Cli.Program.{Flags, Program}
use oci_container_runtime_fr.Cli.Main.{
  is_help, status_of, exiting, store_root, checkpoint_found, checkpoint_pid, checkpoint_cmd,
  restore_cmd, load_spec, config_of, run_cmd, child_cmd, dispatch, main,
}
use oci_container_runtime_fr.Network.Types.{PortMapping}
use oci_container_runtime_fr.Runtime.Child.{child_args}
use oci_container_runtime_fr.Spec.{Spec}
use oci_container_runtime_fr.Spec.Load.{load}
use oci_container_runtime_fr.Sys.{
  Call, get_env, stat, read_file, Trace, Oracle, Io, pure, raise, attempt, continue, ◌>>=◌,
  NewCalls, Makes, Makes-perform, Makes-env, Makes-pure, Makes-raise, Makes-lift, Makes-wrapping,
  Makes-bind, Makes-if, Makes-when,
}
use oci_container_runtime_fr.Base.{
  ℕ, ◌≡◌, refl, ap, inl, inr, Bool, true, false, ◌&&◌, ◌||◌, Option, none, some, List, [], ◌∷◌,
  arith, leb, if◌then◌else◌, Bool-cases, length, Error, Result, ok, err, Str, str, str_eq,
  str_eq_iff, ℤ, parse_int,
}

-- A call that changes nothing: a variable or a file is read, or a path looked at.
abbrev pub is_read : Call → Bool
is_read (get_env name) = true
is_read (stat path) = true
is_read (read_file path) = true
is_read _ = false

abbrev pub IsRead : Call → Type 0
IsRead c = is_read c ≡ true

-- The commands that run, checkpoint or restore a container.
abbrev pub needs_linux : List Str → Bool
needs_linux [] = false
needs_linux (name ∷ rest) =
    str_eq name (str "run")
    || (str_eq name (str "checkpoint")
        || (str_eq name (str "restore") || (str_eq name (str "child") && leb 3 (length rest))))

-- An error, whatever is answered, and only reads on the way.
record Refuses {A : Type 0} (m : Io A) : Type 0 where
  reads : Makes IsRead m
  refused : (t : Trace) → (e : Error) × ((m t).0 ≡ err e)

module _ {A : Type 0} where
  Refuses-raise : (e : Error) → Refuses (raise {A = A} e)
  unfolding raise
  Refuses-raise e = record { reads = Makes-raise e; refused = λ t. (e, refl) }

  Refuses-if : (b : Bool) {m k : Io A} → Refuses m → Refuses k → Refuses (if b then m else k)
  Refuses-if true hm hk = hm
  Refuses-if false hm hk = hk

  Refuses-bind :
      {B : Type 0} {m : Io B} {f : B → Io A}
      → Makes IsRead m
      → ((b : B) → Refuses (f b))
      → Refuses (m >>= f)
  unfolding ◌>>=◌
  Refuses-bind {B} {m} {f} k h = record {
    reads = Makes-bind k (λ b. (h b).reads);
    refused = λ t. go (m t).0 (m t).1;
  }
    where
      go : (r : Result B) (t : Trace) → (e : Error) × ((continue r f t).0 ≡ err e)
      go (ok b) t = (h b).refused t
      go (err e) t = (e, refl)

-- The exit status of such an action.
exiting-Refuses :
    {m : Io (Unit {0})} (t : Trace)
    → Refuses m
    → ((exiting m t).0 ≡ ok 1) × NewCalls IsRead t (exiting m t).1
unfolding exiting attempt pure ◌>>=◌
exiting-Refuses t h =
    let (e, failed) = h.refused t in (ap (λ r. ok (status_of r)) failed, h.reads.made t)

module _ (os : Oracle) where
  store_root-Makes : Makes IsRead (store_root os)
  unfolding store_root
  store_root-Makes = Makes-bind (Makes-env os _ refl) (λ v. Makes-pure _)

  module _ {F : Type 0} (program : Program F) where
    checkpoint_pid-Refuses :
        (pid : Option ℤ) (images_dir : Str)
        → Refuses (checkpoint_pid os (darwin {F = F}) pid images_dir)
    unfolding checkpoint_pid checkpoint_found Criu.available Criu.dump
    checkpoint_pid-Refuses none images_dir = Refuses-raise _
    checkpoint_pid-Refuses (some pid) images_dir =
        Refuses-if _
          (Refuses-bind (Makes-pure false)
            (λ found. Refuses-if found (Refuses-raise _) (Refuses-raise _)))
          (Refuses-raise _)

    checkpoint_cmd-Refuses : (argv : List Str) → Refuses (checkpoint_cmd os (darwin {F = F}) argv)
    unfolding checkpoint_cmd
    checkpoint_cmd-Refuses [] = Refuses-raise _
    checkpoint_cmd-Refuses (pid ∷ []) = Refuses-raise _
    checkpoint_cmd-Refuses (pid ∷ images_dir ∷ rest) =
        checkpoint_pid-Refuses (parse_int pid) images_dir

    restore_cmd-Refuses : (argv : List Str) → Refuses (restore_cmd os (darwin {F = F}) argv)
    unfolding restore_cmd Criu.available Criu.restore
    restore_cmd-Refuses [] = Refuses-raise _
    restore_cmd-Refuses (images_dir ∷ rest) =
        Refuses-bind (Makes-pure false)
          (λ found. Refuses-if found (Refuses-raise _) (Refuses-raise _))

    load_spec-Makes : (path : Str) → Makes IsRead (load_spec os program darwin path)
    unfolding load_spec load
    load_spec-Makes path = Makes-if _ (Makes-pure _) (
        Makes-bind
          (Makes-bind (Makes-wrapping (Makes-perform os (stat path) refl) _) (λ is_dir.
            Makes-bind (Makes-wrapping (Makes-perform os (read_file _) refl) _)
              (λ b. Makes-bind (Makes-wrapping (Makes-lift _) _) (λ s. Makes-lift _))))
          (λ s. Makes-pure _))

    config_of-Makes :
        (flags : Flags F) (publish : List PortMapping) (spec : Option Spec)
        → Makes IsRead (config_of os program darwin flags publish spec)
    unfolding config_of Userns.detect
    config_of-Makes flags publish spec = Makes-bind (Makes-when _ (Makes-raise _)) (λ _.
        Makes-bind (Makes-lift _) (λ memory.
          Makes-bind store_root-Makes
            (λ root. Makes-bind (Makes-pure _) (λ rootless. Makes-pure _))))

    run_cmd-Refuses : (argv : List Str) → Refuses (run_cmd os program darwin argv)
    unfolding run_cmd Runtime.run
    run_cmd-Refuses argv = Refuses-bind (Makes-lift _) (λ flags.
        Refuses-bind (Makes-lift _) (λ publish.
          Refuses-bind (load_spec-Makes flags.spec)
            (λ spec. Refuses-bind (config_of-Makes flags publish spec) (λ cfg. Refuses-raise _))))

    child_cmd-Refuses :
        (name : Str) (rest : List Str) (t : Trace)
        → leb 3 (length rest) ≡ true
        → ((child_cmd os program darwin (child_args (name ∷ rest)) t).0 ≡ ok 1)
          × NewCalls IsRead t (child_cmd os program darwin (child_args (name ∷ rest)) t).1
    unfolding child_cmd child_args Runtime.child
    child_cmd-Refuses name (flag ∷ root ∷ cmd ∷ args) t h = exiting-Refuses t (Refuses-raise _)
    child_cmd-Refuses name _ t h = ground arith

    choose :
        (b : Bool) (m k : Io ℕ) (q : Bool) (t : Trace)
        → ((m t).0 ≡ ok 1) × NewCalls IsRead t (m t).1
        → (q ≡ true → ((k t).0 ≡ ok 1) × NewCalls IsRead t (k t).1)
        → (b || q) ≡ true
        → (((if b then m else k) t).0 ≡ ok 1) × NewCalls IsRead t ((if b then m else k) t).1
    choose true m k q t hm hk h = hm
    choose false m k q t hm hk h = hk h

    last :
        (name : Str) (rest : List Str) (t : Trace)
        → (str_eq name (str "child") && leb 3 (length rest)) ≡ true
        → (((if str_eq name (str "child")
                then child_cmd os program darwin (child_args (name ∷ rest))
                else pure (if is_help name then 0 else 2))
              t).0
            ≡ ok 1)
          × NewCalls IsRead t
              ((if str_eq name (str "child")
                  then child_cmd os program darwin (child_args (name ∷ rest))
                  else pure (if is_help name then 0 else 2))
                t).1
    last name rest t h = elim (Bool-cases (str_eq name (str "child"))) [
      | inl same ↦ rw same (child_cmd-Refuses name rest t (ground (arith, h, same)))
      | inr other ↦ absurd (ground (arith, h, other))
    ]

    not_pull :
        (name : Str) (rest : List Str)
        → needs_linux (name ∷ rest) ≡ true
        → str_eq name (str "pull") ≡ false
    unfolding str str_eq
    not_pull name rest h = elim (Bool-cases (str_eq name (str "pull"))) [
      | inl same ↦
          let pulls = (str_eq_iff name (str "pull")).0 same in
          absurd (cc (subst (λ n. needs_linux (n ∷ rest) ≡ true) pulls h))
      | inr other ↦ other
    ]

    -- On macOS, every command line that would run, checkpoint or restore a container exits with status
    -- 1, whatever is answered, and only variables, files and paths are read before.
    pub darwin_refuses :
        (argv : List Str) (t : Trace)
        → needs_linux argv ≡ true
        → ((main os program darwin argv t).0 ≡ ok 1)
          × NewCalls IsRead t (main os program darwin argv t).1
    unfolding main dispatch
    darwin_refuses [] t h = absurd (cc h)
    darwin_refuses (name ∷ rest) t h = rw (not_pull name rest h) (
        choose (str_eq name (str "run")) _ _ _ t (exiting-Refuses t (run_cmd-Refuses rest))
          (λ h1.
            choose (str_eq name (str "checkpoint")) _ _ _ t
              (exiting-Refuses t (checkpoint_cmd-Refuses rest))
              (λ h2.
                choose (str_eq name (str "restore")) _ _ _ t
                  (exiting-Refuses t (restore_cmd-Refuses rest)) (λ h3. last name rest t h3) h2)
              h1)
          h)
