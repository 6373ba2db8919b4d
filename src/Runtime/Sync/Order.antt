-- ===== src/Runtime/Sync/Order.antt =====
-- The play between `Run` and `Child` of mvp/internal/runtime/runtime_linux.go over the pipe, for a
-- container that is not rootless.
use oci_container_runtime_fr.Runtime.Run.{Running, supervise}
use oci_container_runtime_fr.Runtime.Child.{ChildArgs, child}
use oci_container_runtime_fr.Runtime.Config.{Config}
use oci_container_runtime_fr.Runtime.Sync.{
  Procs, Steps, since, paused, was_released, calls_left, is_over,
}
use oci_container_runtime_fr.Runtime.Sync.Phases.{
  Course, Phase, waiting, released, killed, Steps-Phase,
}
use oci_container_runtime_fr.Runtime.Sync.Supervision.{prepare, oversee-Course}
use oci_container_runtime_fr.Runtime.Sync.Gate.{child_begins}
use oci_container_runtime_fr.Runtime.Sync.Ending.{Steps-bound, ends_within, at_end, lets_in}
use mathlib.Core.Path.{subst}
use oci_container_runtime_fr.Cgroups.{FloatOps}
use oci_container_runtime_fr.Seccomp.Profile.{GoArch}
use oci_container_runtime_fr.Sys.{Call, read_byte, close, Trace, Oracle, is_ok}
use oci_container_runtime_fr.Base.{
  ℕ, ◌+◌, ◌≤◌, ◌≡◌, refl, sym, ap, ◌≢◌, Bool, true, false, List, [], ◌∷◌, ◌++◌, reverse, arith,
  if◌then◌else◌, Result, ok, err, Str,
}

module _ (w pid : ℕ) where
  -- A child that has made a call was released.
  moved :
      {ready all : List Call} {b : Bool} (s : Procs)
      → Phase w pid ready all b s
      → s.child_done ≢ []
      → (b ≡ true) × (later : List Call) × (s.parent_done ≡ later ++ close w ∷ ready)
  moved s (waiting e locked rest gate whole course) h = absurd (h e)
  moved s (released e later h whole spared) h' = (e, later, h)
  moved s (killed h' e e') h = absurd (h e)

  succeeded : {A : Type 0} (r : Result A) → is_ok r ≡ true → (a : A) × (r ≡ ok a)
  succeeded (ok a) h = (a, refl)
  succeeded (err e) h = absurd cc

module _ (os child_os : Oracle) {F : Type 0} (fl : FloatOps F) (sha1 : Str → Str) (cfg : Config F)
    (rootfs id : Str) (read_end w pid : ℕ) (arch : GoArch) (c : ChildArgs) (t : Trace) where
  -- The two processes behind the start of the child.
  abbrev pub both : Procs
  both = paused (supervise os fl sha1 cfg rootfs id (read_end, w) pid) t (child child_os arch c)

  first-Phase :
      cfg.rootless.enabled ≡ false
      → read_end ≢ w
      → Phase w pid
          (reverse (since t (prepare w pid os fl sha1 cfg rootfs id read_end t).1))
          (since [] (child child_os arch c []).1)
          (is_ok (prepare w pid os fl sha1 cfg rootfs id read_end t).0)
          both
  unfolding was_released
  first-Phase h h' =
      let (rest, e) = child_begins child_os arch c in
      waiting refl refl rest e refl (oversee-Course w pid os fl sha1 cfg rootfs id read_end t h h')

  -- For a container that is not rootless, and a pipe with two different ends: at whatever point the
  -- child has made its first call, the parent's preparation, that is the control group with the child
  -- in it, if a limit is set, and the network, has succeeded, and the parent has made all calls of it,
  -- and behind them the close of the write end.
  pub child_waits :
      {n : ℕ} {s : Procs}
      → cfg.rootless.enabled ≡ false
      → read_end ≢ w
      → Steps w pid both n s
      → s.child_done ≢ []
      → (r : Running) × ((prepare w pid os fl sha1 cfg rootfs id read_end t).0 ≡ ok r)
        × (later : List Call) × (s.parent_done
            ≡ later
              ++ close w ∷ reverse (since t (prepare w pid os fl sha1 cfg rootfs id read_end t).1))
  child_waits {n} {s} h h' path moves =
      let (good, later, e) = moved w pid s (Steps-Phase w pid path (first-Phase h h')) moves in
      let (r, e') = succeeded w pid (prepare w pid os fl sha1 cfg rootfs id read_end t).0 good in
      (r, e', later, e)

  -- For a container that is not rootless, and a pipe with two different ends: from every point that
  -- the two processes reach, they can go on until neither has a call left, and the steps made and those
  -- to come are at most as many as both have calls. By then the child has made all its calls if the
  -- preparation succeeded, and none if not.
  pub both_end :
      {n : ℕ} {s : Procs}
      → cfg.rootless.enabled ≡ false
      → read_end ≢ w
      → Steps w pid both n s
      → (m : ℕ) × (u : Procs) × Steps w pid s m u
        × (is_over u ≡ true)
        × (n + m ≤ calls_left both)
        × (u.child_done ≡ (
            if is_ok (prepare w pid os fl sha1 cfg rootfs id read_end t).0
            then reverse (since [] (child child_os arch c []).1)
            else []))
  both_end {n} {s} h h' path =
      let phase = Steps-Phase w pid path (first-Phase h h') in
      let (m, u, onward, over) = ends_within w pid (calls_left s) s phase (omega arith) in
      (
        m,
        u,
        onward,
        over,
        omega (arith, Steps-bound w pid path, Steps-bound w pid onward),
        at_end w pid u (Steps-Phase w pid onward phase) over,
      )

  -- For a container that is not rootless, a pipe with two different ends and a preparation that
  -- succeeded, some order of steps lets the child make its first call.
  pub child_gets_in :
      {r : Running}
      → cfg.rootless.enabled ≡ false
      → read_end ≢ w
      → (prepare w pid os fl sha1 cfg rootfs id read_end t).0 ≡ ok r
      → (n : ℕ) × (s : Procs) × Steps w pid both n s × (s.child_done ≡ read_byte 3 ∷ [])
  child_gets_in h h' good =
      let (rest, e) = child_begins child_os arch c in
      let course =
        subst
          (λ b.
            Course w pid (reverse (since t (prepare w pid os fl sha1 cfg rootfs id read_end t).1)) b
              [] both.parent_left)
          (ap is_ok good) (oversee-Course w pid os fl sha1 cfg rootfs id read_end t h h') in
      let (n, s, path, moves) = lets_in w pid rest course in
      (
        n,
        s,
        subst
            (λ l.
              Steps w pid
                record {
                  parent_done = [];
                  parent_left = both.parent_left;
                  child_done = [];
                  child_left = l;
                }
                n s)
            (sym e) path,
        moves,
      )
