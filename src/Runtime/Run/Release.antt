-- ===== src/Runtime/Run/Release.antt =====
-- What `Run` of mvp/internal/runtime/runtime_linux.go holds while it works, and has given back when it
-- returns.
use oci_container_runtime_fr.Runtime.Run.{
  Running, prepare_child, finish_child, supervise, start_child, run_in, run,
}
use oci_container_runtime_fr.Runtime.Config.{Config}
use oci_container_runtime_fr.Cgroups.{FloatOps}
use oci_container_runtime_fr.Runtime.Rootfs.Holdings.{
  overlay_held, new_container_id-Keeps, resolve_rootfs-Moves, cleanup_overlay-Moves,
}
use oci_container_runtime_fr.Image.Store.{Manifest}
use oci_container_runtime_fr.Sys.{
  Trace, Oracle, Resource, descriptor, process, weight, count, held, either_way, Moves, Keeps-lift,
  Moves-Sure, Moves-ignored, Moves-pure, Moves-wait_all, Moves-attempted, count-append, Moves-Keeps,
  Moves-from, Moves-wrapping, Moves-bind, Moves-on_error, Moves-deferring, Moves-make_pipe,
  Moves-start, Moves-close,
}
use oci_container_runtime_fr.Base.{ℕ, ◌+◌, ◌≡◌, refl, List, [], ◌∷◌, ◌++◌, arith, Result, Str}
use oci_container_runtime_fr.Runtime.Run.Holdings.{
  group_held, connection_held, preflight-Keeps, close_some-Sure, close_some-Moves, disconnect-Sure,
  disconnect-Moves, limit_child-Moves, connect_child-Moves,
}

abbrev running_held : List Resource → Running → List Resource
running_held from c =
    connection_held c.connection ++ group_held c.group_path ++ process c.pid ∷ from

sink :
    (x z : Resource) (above from : List Resource)
    → count x (above ++ z ∷ from) ≡ weight x z + count x (above ++ from)
sink x z above from = omega (arith, count-append x above (z ∷ from), count-append x above from)

-- Two groups of resources above others trade places.
trade :
    (x : Resource) (first second from : List Resource)
    → count x (first ++ second ++ from) ≡ count x (second ++ (first ++ from))
trade x first second from = omega (
  arith,
  count-append x (first ++ second) from,
  count-append x first second,
  count-append x second (first ++ from),
  count-append x first from,
)

module _ (os : Oracle) where
  module _ {F : Type 0} (fl : FloatOps F) (sha1 : Str → Str) (cfg : Config F) (rootfs id : Str)
      (from : List Resource) where
    prepare_child-Moves :
        (read_end pid : ℕ)
        → Moves
            (process pid ∷ descriptor read_end ∷ from)
            (prepare_child os fl sha1 cfg rootfs id read_end pid)
            (either_way (running_held from) from)
    unfolding prepare_child
    prepare_child-Moves read_end pid =
        Moves-ignored _ (Moves-close os (process pid ∷ from) read_end (λ x. omega arith)) (
          Moves-bind (limit_child-Moves os from fl cfg pid)
            (λ path.
              Moves-bind (connect_child-Moves os from sha1 cfg rootfs id pid path)
                (λ c. Moves-pure _ (λ x. refl)) (λ e x. refl))
            (λ e x. refl))

    finish_child-Moves :
        (c : Running)
        → Moves (running_held from c) (finish_child os fl sha1 cfg rootfs id c) (λ _. from)
    unfolding finish_child
    finish_child-Moves c =
        Moves-attempted
          (Moves-wait_all os (connection_held c.connection ++ group_held c.group_path ++ from) c.pid
            (λ x.
              sink x (process c.pid) (connection_held c.connection ++ group_held c.group_path)
                from))
          (λ r.
            Moves-Sure (close_some-Sure os c.group_path)
              (Moves-from
                (λ x. trade x (connection_held c.connection) (group_held c.group_path) from)
                (close_some-Moves os (connection_held c.connection ++ from) c.group_path))
              (λ _.
                Moves-Sure (disconnect-Sure os _ _ _ _ _ _)
                  (disconnect-Moves os from sha1 cfg rootfs id c.pid c.connection)
                  (λ _. Moves-Keeps (Keeps-lift _))))

  module _ {F : Type 0} (fl : FloatOps F) (sha1 : Str → Str) where
    supervise-Moves :
        (from : List Resource) (cfg : Config F) (rootfs id : Str) (ends : ℕ × ℕ) (pid : ℕ)
        → Moves
            (process pid ∷ descriptor ends.0 ∷ descriptor ends.1 ∷ from)
            (supervise os fl sha1 cfg rootfs id ends pid)
            (λ _. from)
    unfolding supervise
    supervise-Moves from cfg rootfs id ends pid =
        Moves-bind
          (Moves-on_error {to = either_way (running_held (descriptor ends.1 ∷ from)) from}
            (prepare_child-Moves fl sha1 cfg rootfs id (descriptor ends.1 ∷ from) ends.0 pid)
            (λ e. Moves-close os from ends.1 (λ x. refl)) (λ a x. refl))
          (λ c.
            Moves-ignored _
              (Moves-close os (running_held from c) ends.1 (λ x. omega (
                arith,
                sink x (process c.pid) (connection_held c.connection ++ group_held c.group_path)
                    (descriptor ends.1 ∷ from),
                sink x (descriptor ends.1) (connection_held c.connection ++ group_held c.group_path)
                    from,
                sink x (process c.pid) (connection_held c.connection ++ group_held c.group_path)
                    from,
              )))
              (finish_child-Moves fl sha1 cfg rootfs id from c))
          (λ e x. refl)

    start_child-Moves :
        (from : List Resource) (cfg : Config F) (rootfs : Str) (ends : ℕ × ℕ)
        → Moves
            (descriptor ends.0 ∷ descriptor ends.1 ∷ from)
            (start_child os fl sha1 cfg rootfs ends)
            (either_way (λ pid. process pid ∷ descriptor ends.0 ∷ descriptor ends.1 ∷ from) from)
    unfolding start_child
    start_child-Moves from cfg rootfs ends =
        Moves-on_error
          {to = either_way (λ pid. process pid ∷ descriptor ends.0 ∷ descriptor ends.1 ∷ from) from}
          (Moves-wrapping _ (Moves-start os (descriptor ends.0 ∷ descriptor ends.1 ∷ from) _))
          (λ e.
            Moves-ignored _ (Moves-close os (descriptor ends.1 ∷ from) ends.0 (λ x. refl))
              (Moves-close os from ends.1 (λ x. refl)))
          (λ a x. refl)

    run_in-Moves :
        (from : List Resource) (cfg : Config F) (rootfs : Str)
        → Moves from (run_in os fl sha1 cfg rootfs) (λ _. from)
    unfolding run_in
    run_in-Moves from cfg rootfs =
        Moves-bind (Moves-Keeps (new_container_id-Keeps os))
          (λ id.
            Moves-bind (Moves-wrapping _ (Moves-make_pipe os from))
              (λ ends.
                Moves-bind (start_child-Moves from cfg rootfs ends)
                  (λ pid. supervise-Moves from cfg rootfs id ends pid) (λ e x. refl))
              (λ e x. refl))
          (λ e x. refl)

    run-Moves :
        (from : List Resource) (decode : Str → Result Manifest) (cfg : Config F)
        → Moves from (run os fl sha1 decode cfg) (λ _. from)
    unfolding run
    run-Moves from decode cfg =
        Moves-bind (Moves-Keeps (preflight-Keeps os _))
          (λ _.
            Moves-bind (resolve_rootfs-Moves os from decode _ _)
              (λ resolved.
                Moves-deferring
                  (run_in-Moves (overlay_held resolved.overlay ++ from) _ resolved.rootfs)
                  (λ r. cleanup_overlay-Moves os from resolved.overlay))
              (λ e x. refl))
          (λ e x. refl)

    -- Whatever the calls answer, and wherever `Run` returns, it holds as much as it held before: it has
    -- tried to give back each pipe end, process, mount and control group that it got, its own and those
    -- of slirp4netns.
    pub run_releases :
        (decode : Str → Result Manifest) (cfg : Config F) (t : Trace) (x : Resource)
        → held (run os fl sha1 decode cfg t).1 x ≡ held t x
    run_releases decode cfg t x =
        let e = (run-Moves [] decode cfg).moves t (held t) (λ y. omega arith) x in omega (arith, e)
