-- ===== src/Darwin.antt =====
-- The packages as they are built for macOS, where no container can be run.
pub mod Cgroups
pub mod Criu
pub mod Network
pub mod Overlay
pub mod Pivot
pub mod Runtime
pub mod Seccomp
pub mod Slirp
pub mod Userns
pub mod Refused
use oci_container_runtime_fr.Cli.Program.{Platform}

-- What `main` takes from them.
abbrev pub darwin : {F : Type 0} → Platform F
darwin = record {
  run = Runtime.run;
  child = Runtime.child;
  detect = Userns.detect;
  available = Criu.available;
  dump = Criu.dump;
  restore = Criu.restore;
}
