-- ===== src/Tests/Pipe.antt =====
-- The play between the two processes of a run, on one schedule.
use oci_container_runtime_fr.Tests.Concrete.{granting, quarters, first_bytes}
use oci_container_runtime_fr.Tests.Texts.{full, mapped}
use oci_container_runtime_fr.Runtime.Child.{ChildArgs, child}
use oci_container_runtime_fr.Runtime.Config.{Config}
use oci_container_runtime_fr.Runtime.Run.{
  Running, prepare_child, limit_child, make_group, connect_child,
}
use oci_container_runtime_fr.Cgroups
use oci_container_runtime_fr.Network.Setup
use oci_container_runtime_fr.Network.Bridge
use oci_container_runtime_fr.Network.Types
use oci_container_runtime_fr.Runtime.Sync.{Procs, Steps, here, since, is_over, calls_left}
use oci_container_runtime_fr.Runtime.Sync.Supervision.{prepare}
use oci_container_runtime_fr.Runtime.Sync.Order.{both, child_waits, both_end, child_gets_in}
use oci_container_runtime_fr.Seccomp.Profile.{amd64}
use oci_container_runtime_fr.Sys.{
  Call, read_byte, close, is_ok, pure, wrapping, attempt, on_error, ◌>>=◌, perform, ignoring, when,
  tolerating, env,
}
use oci_container_runtime_fr.Base.{
  ℕ, ◌+◌, ◌≤◌, ◌≡◌, refl, ◌≢◌, true, false, List, [], ◌∷◌, ◌++◌, reverse, if◌then◌else◌, Result, ok,
  str,
}

abbrev shell : ChildArgs
shell = record { rootfs = str "/rootfs"; cmd = str "/bin/sh"; args = []; seccomp_enabled = true }

-- Not rootless, and without a published port.
abbrev boxed : Config ℕ
boxed = record full { rootless = record mapped { enabled = false }; port_mappings = [] }

abbrev pair : Procs
pair =
    both granting granting quarters first_bytes boxed (str "/rootfs") (str "0a1b") 3 4 42 amd64
      shell []

abbrev connected : Result Running
connected = (prepare 4 42 granting quarters first_bytes boxed (str "/rootfs") (str "0a1b") 3 []).0

boxed_prepared : (r : Running) × (connected ≡ ok r)
unfolding prepare_child limit_child make_group Cgroups.any Cgroups.create Cgroups.prepare
    Cgroups.root Cgroups.write Cgroups.write_or_close Cgroups.write_limits Cgroups.add_pid
    connect_child Setup.setup Setup.connect Setup.delete_link Setup.or_delete Setup.configure_peer
    Setup.publish_all Bridge.ensure_bridge Bridge.unless Types.run Types.write_resolv_conf ◌>>=◌
    ignoring perform wrapping on_error tolerating env pure when attempt str
boxed_prepared = (_, refl)

boxed_separate : ◌≢◌ {A = ℕ} 3 4
boxed_separate = λ e. cc

moved_in : (n : ℕ) × (s : Procs) × Steps 4 42 pair n s × (s.child_done ≡ read_byte 3 ∷ [])
moved_in =
    child_gets_in granting granting quarters first_bytes boxed (str "/rootfs") (str "0a1b") 3 4 42
      amd64 shell [] refl boxed_separate boxed_prepared.1

nothing : (l : List Call) → l ≡ read_byte 3 ∷ [] → l ≢ []
nothing l h e = cc

moved_on : moved_in.1.child_done ≢ []
moved_on = nothing _ moved_in.3

child_waits_example :
    (r : Running) × (connected ≡ ok r)
    × (later : List Call) × (moved_in.1.parent_done
        ≡ later
          ++ close 4
            ∷ reverse (
                since []
                  (prepare 4 42 granting quarters first_bytes boxed
                    (str "/rootfs")
                    (str "0a1b")
                    3
                    []).1))
child_waits_example =
    child_waits granting granting quarters first_bytes boxed (str "/rootfs") (str "0a1b") 3 4 42
      amd64 shell [] refl boxed_separate moved_in.2 moved_on

both_end_example :
    (m : ℕ) × (u : Procs) × Steps 4 42 pair m u
    × (is_over u ≡ true)
    × (0 + m ≤ calls_left pair)
    × (u.child_done
        ≡ (if is_ok connected then reverse (since [] (child granting amd64 shell []).1) else []))
both_end_example =
    both_end granting granting quarters first_bytes boxed (str "/rootfs") (str "0a1b") 3 4 42 amd64
      shell [] refl boxed_separate here
