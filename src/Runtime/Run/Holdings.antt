-- ===== src/Runtime/Run/Holdings.antt =====
-- What the steps of `Run` of mvp/internal/runtime/runtime_linux.go get and give back.
use oci_container_runtime_fr.Runtime.Run.{
  Connection, bridged, tunnelled, unconnected, connection_of, net_config, kill_child, close_some,
  make_group, limit_child, connect_child, disconnect,
}
use oci_container_runtime_fr.Runtime.Config.{Config}
use oci_container_runtime_fr.Cgroups.{FloatOps}
use oci_container_runtime_fr.Cgroups.Holdings.{
  group_of, add_pid-Keeps, close_group-Moves, create-Moves,
}
use oci_container_runtime_fr.Network.Setup.Holdings.{setup-Keeps, teardown-Keeps}
use oci_container_runtime_fr.Slirp
use oci_container_runtime_fr.Slirp.Release.{resources, setup-Moves, teardown-Moves}
use oci_container_runtime_fr.Userns
use oci_container_runtime_fr.Sys.{
  Oracle, Io, pure, ◌>>◌, Resource, process, count, either_way, Moves, Keeps, Keeps-pure,
  Keeps-raise, Keeps-lift, Keeps-wrapping, Keeps-attempt, Keeps-ignoring, Keeps-bind, Keeps-signal,
  Keeps-read_file, Sure, Sure-ignoring, Sure-pure, Sure-bind, Moves-Sure, Moves-kept, Moves-pure,
  Moves-attempted, count-append, Moves-if, Keeps-if, Moves-Keeps, Moves-from, Moves-wrapping,
  Moves-bind, Moves-on_error, Moves-ignoring, Moves-wait,
}
use oci_container_runtime_fr.Base.{
  ℕ, ◌≡◌, refl, Option, none, some, List, [], ◌∷◌, ◌++◌, arith, Result, ok, err, Str,
}

abbrev pub group_held : Option Str → List Resource
group_held none = []
group_held (some path) = group_of path

abbrev pub connection_held : Connection → List Resource
connection_held (bridged n) = []
connection_held (tunnelled h) = resources h
connection_held unconnected = []

module _ (os : Oracle) where
  pub preflight-Keeps : (c : Userns.Config) → Keeps (Userns.preflight os c)
  unfolding Userns.preflight Userns.check_sysctls Userns.read_int_file
  preflight-Keeps c =
      Keeps-if _
        (Keeps-bind (Keeps-attempt (Keeps-bind (Keeps-read_file os _) (λ b. Keeps-lift _)))
          (λ clone. Keeps-bind (Keeps-if _ (Keeps-raise _) (Keeps-pure tt)) (λ _.
            Keeps-bind (Keeps-attempt (Keeps-bind (Keeps-read_file os _) (λ b. Keeps-lift _)))
              (λ most. Keeps-if _ (Keeps-raise _) (Keeps-pure tt)))))
        (Keeps-pure tt)

  kill_child-Sure : (pid : ℕ) → Sure (kill_child os pid)
  unfolding kill_child
  kill_child-Sure pid = Sure-bind _ _ (Sure-ignoring _) (λ _. Sure-ignoring _)

  kill_child-Moves :
      (from : List Resource) (pid : ℕ) → Moves (process pid ∷ from) (kill_child os pid) (λ _. from)
  unfolding kill_child
  kill_child-Moves from pid =
      Moves-kept (Keeps-signal os pid "SIGKILL") (Moves-wait os from pid (λ x. refl))

  pub close_some-Sure : (path : Option Str) → Sure (close_some os path)
  unfolding close_some
  close_some-Sure none = Sure-pure tt
  close_some-Sure (some path) = Sure-ignoring _

  pub disconnect-Sure :
      {F : Type 0} (sha1 : Str → Str) (cfg : Config F) (rootfs id : Str) (pid : ℕ) (c : Connection)
      → Sure (disconnect os sha1 cfg rootfs id pid c)
  unfolding disconnect
  disconnect-Sure sha1 cfg rootfs id pid (bridged n) = Sure-ignoring _
  disconnect-Sure sha1 cfg rootfs id pid (tunnelled h) = Sure-ignoring _
  disconnect-Sure sha1 cfg rootfs id pid unconnected = Sure-pure tt

  module _ (from : List Resource) where
    pub close_some-Moves :
        (path : Option Str) → Moves (group_held path ++ from) (close_some os path) (λ _. from)
    unfolding close_some
    close_some-Moves none = Moves-Keeps (Keeps-pure tt)
    close_some-Moves (some path) = close_group-Moves os from path

    -- The process may be held below other resources.
    kill_then :
        (above : List Resource) (pid : ℕ) {k : Io (Unit {0})}
        → Moves (above ++ from) k (λ _. from)
        → Moves (above ++ process pid ∷ from) (kill_child os pid >> k) (λ _. from)
    kill_then above pid next =
        Moves-Sure (kill_child-Sure pid)
          (Moves-from (λ x. below x) (kill_child-Moves (above ++ from) pid)) (λ _. next)
      where
        below :
            (x : Resource)
            → count x (above ++ process pid ∷ from) ≡ count x (process pid ∷ above ++ from)
        below x =
            omega (arith, count-append x above (process pid ∷ from), count-append x above from)

    module _ {F : Type 0} (fl : FloatOps F) where
      make_group-Moves :
          (cfg : Config F) (pid : ℕ)
          → Moves
              (process pid ∷ from)
              (make_group os fl cfg pid)
              (either_way (λ path. group_held path ++ process pid ∷ from) from)
      unfolding make_group
      make_group-Moves cfg pid =
          Moves-bind
            (Moves-on_error {to = either_way (λ path. group_of path ++ process pid ∷ from) from}
              (Moves-wrapping _ (create-Moves os (process pid ∷ from) fl cfg.limits pid))
              (λ e. kill_child-Moves from pid) (λ a x. refl))
            (λ path.
              Moves-bind
                (Moves-on_error {to = either_way (λ _. group_of path ++ process pid ∷ from) from}
                  (Moves-Keeps (Keeps-wrapping _ (add_pid-Keeps os path pid)))
                  (λ e. kill_then (group_of path) pid (close_group-Moves os from path))
                  (λ a x. refl))
                (λ _. Moves-pure _ (λ x. refl)) (λ e x. refl))
            (λ e x. refl)

      pub limit_child-Moves :
          (cfg : Config F) (pid : ℕ)
          → Moves
              (process pid ∷ from)
              (limit_child os fl cfg pid)
              (either_way (λ path. group_held path ++ process pid ∷ from) from)
      unfolding limit_child
      limit_child-Moves cfg pid =
          Moves-if _ (make_group-Moves cfg pid) (Moves-pure none (λ x. refl))

    module _ {F : Type 0} (sha1 : Str → Str) (cfg : Config F) (rootfs id : Str) where
      pub connect_child-Moves :
          (pid : ℕ) (path : Option Str)
          → Moves
              (group_held path ++ process pid ∷ from)
              (connect_child os sha1 cfg rootfs id pid path)
              (either_way (λ c. connection_held c ++ group_held path ++ process pid ∷ from) from)
      unfolding connect_child
      connect_child-Moves pid path =
          Moves-if _
            (Moves-bind
              (Moves-on_error {to = either_way (λ _. group_held path ++ process pid ∷ from) from}
                (Moves-Keeps
                  (Keeps-wrapping _ (setup-Keeps os sha1 (net_config cfg rootfs id pid))))
                (λ e. kill_then (group_held path) pid (close_some-Moves path)) (λ a x. refl))
              (λ n. Moves-pure _ (λ x. refl)) (λ e x. refl))
            (Moves-attempted
              (setup-Moves os (group_held path ++ process pid ∷ from)
                (record { child_pid = pid; rootfs = rootfs }))
              (λ r. connected r))
        where
          connected :
              (r : Result Slirp.Handle)
              → Moves
                  (either_way
                    (λ h. resources h ++ group_held path ++ process pid ∷ from)
                    (group_held path ++ process pid ∷ from)
                    r)
                  (pure (connection_of r))
                  (either_way
                    (λ c. connection_held c ++ group_held path ++ process pid ∷ from)
                    from)
          connected (ok h) = Moves-pure _ (λ x. refl)
          connected (err e) = Moves-pure _ (λ x. refl)

      pub disconnect-Moves :
          (pid : ℕ) (c : Connection)
          → Moves (connection_held c ++ from) (disconnect os sha1 cfg rootfs id pid c) (λ _. from)
      unfolding disconnect
      disconnect-Moves pid (bridged n) =
          Moves-Keeps (Keeps-ignoring (teardown-Keeps os n (net_config cfg rootfs id pid)))
      disconnect-Moves pid (tunnelled h) = Moves-ignoring (teardown-Moves os from h)
      disconnect-Moves pid unconnected = Moves-Keeps (Keeps-pure tt)
