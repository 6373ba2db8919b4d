-- ===== src/Runtime/Sync/Quiet.antt =====
-- What `Run` of mvp/internal/runtime/runtime_linux.go does between the start of the child and its release
-- has no part in the play between the two processes; or it ends with a kill of the child.
use oci_container_runtime_fr.Runtime.Run.{
  Running, Connection, close_some, disconnect, finish_child, bridged,
}
use oci_container_runtime_fr.Runtime.Config.{Config}
use oci_container_runtime_fr.Network.Types.{Network}
use oci_container_runtime_fr.Runtime.Sync.Phases.{IsSparing}
use oci_container_runtime_fr.Cgroups
use oci_container_runtime_fr.Cgroups.{FloatOps, Limits}
use oci_container_runtime_fr.Network.Setup.Holdings.{IsLocal, teardown-Makes}
use oci_container_runtime_fr.Sys.{
  Call, get_env, remove, make_dir, wait, Oracle, Makes, Makes-perform, Makes-env, Makes-pure,
  Makes-lift, Makes-wrapping, Makes-attempt, Makes-ignoring, Makes-on_error, Makes-bind, Makes-if,
  Makes-when, Makes-tolerating,
}
use oci_container_runtime_fr.Base.{ℕ, String, ◌≡◌, refl, Option, none, some, wrapped, Str, is_empty}

-- Every call.
abbrev pub IsCall : Call → Type 0
IsCall c = Unit {0}

pub every_call : IsLocal IsCall
every_call = record { commands = λ n a. tt; files = λ p c. tt; directories = λ p. tt }

module _ (os : Oracle) where
  module _ (P : Call → Type 0) (local : IsLocal P) (variables : (name : String) → P (get_env name))
      (groups : (path : Str) → P (make_dir path) × P (remove path)) where
    pub close_group-Makes : (path : Str) → Makes P (Cgroups.close_group os path)
    unfolding Cgroups.close_group
    close_group-Makes path =
        Makes-if (is_empty path) (Makes-pure tt)
          (Makes-wrapping (Makes-tolerating _ (Makes-perform os _ (groups path).1)) _)

    write-Makes :
        (dir : Str) (name : String) (content : Str) → Makes P (Cgroups.write os dir name content)
    unfolding Cgroups.write
    write-Makes dir name content = Makes-wrapping (Makes-perform os _ (local.files _ _)) _

    pub add_pid-Makes : (path : Str) (pid : ℕ) → Makes P (Cgroups.add_pid os path pid)
    unfolding Cgroups.add_pid
    add_pid-Makes path pid = write-Makes path _ _

    root-Makes : Makes P (Cgroups.root os)
    unfolding Cgroups.root
    root-Makes = Makes-bind (Makes-env os _ (variables _)) (λ r. Makes-pure _)

    write_or_close-Makes :
        (path : Str) (name : String) (content : Str)
        → Makes P (Cgroups.write_or_close os path name content)
    unfolding Cgroups.write_or_close
    write_or_close-Makes path name content =
        Makes-on_error (write-Makes path name content) (Makes-ignoring (close_group-Makes path))

    pub create-Makes :
        {F : Type 0} (fl : FloatOps F) (lim : Limits F) (pid : ℕ)
        → Makes P (Cgroups.create os fl lim pid)
    unfolding Cgroups.create Cgroups.prepare Cgroups.write_limits
    create-Makes fl lim pid =
        Makes-bind
          (Makes-bind root-Makes (λ parent. Makes-bind root-Makes (λ parent'.
            Makes-bind (Makes-ignoring (Makes-perform os _ (local.files _ _))) (λ _.
              Makes-bind (Makes-wrapping (Makes-tolerating _ (Makes-perform os _ (groups _).0)) _)
                (λ _. Makes-pure _)))))
          (λ path.
            Makes-bind
              (Makes-bind (Makes-when _ (write_or_close-Makes path _ _)) (λ _.
                Makes-bind (Makes-when _ (write_or_close-Makes path _ _))
                  (λ _. Makes-when _ (write_or_close-Makes path _ _))))
              (λ _. Makes-pure path))

    pub close_some-Makes : (path : Option Str) → Makes P (close_some os path)
    unfolding close_some
    close_some-Makes none = Makes-pure tt
    close_some-Makes (some path) = Makes-ignoring (close_group-Makes path)

  -- What is done behind the release of a child on the bridge spares it.
  module _ (w : ℕ) {F : Type 0} (sha1 : Str → Str) (cfg : Config F) (rootfs id : Str) where
    IsSparing-local : (pid : ℕ) → IsLocal (IsSparing w pid)
    IsSparing-local pid = record {
      commands = λ n a. refl;
      files = λ p c. refl;
      directories = λ p. refl;
    }

    disconnect-IsSparing :
        (pid pid' : ℕ) (c : Connection) (n : Network)
        → c ≡ bridged n
        → Makes (IsSparing w pid) (disconnect os sha1 cfg rootfs id pid' c)
    unfolding disconnect
    disconnect-IsSparing pid pid' c n h =
        rw h (Makes-ignoring (teardown-Makes os (IsSparing-local pid) n _))

    pub finish_child-IsSparing :
        (fl : FloatOps F) (pid : ℕ) (c : Running) (n : Network)
        → c.connection ≡ bridged n
        → Makes (IsSparing w pid) (finish_child os fl sha1 cfg rootfs id c)
    unfolding finish_child
    finish_child-IsSparing fl pid c n h =
        Makes-bind (Makes-attempt (Makes-perform os (wait c.pid) refl)) (λ r.
          Makes-bind
            (close_some-Makes (IsSparing w pid) (IsSparing-local pid) (λ _. refl)
              (λ _. (refl, refl)) c.group_path)
            (λ _.
              Makes-bind (disconnect-IsSparing pid c.pid c.connection n h)
                (λ _. Makes-lift (wrapped "child exited" r))))
