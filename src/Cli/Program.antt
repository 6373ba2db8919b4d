-- ===== src/Cli/Program.antt =====
-- What mvp/cmd/myrun/main.go takes from its packages and libraries. Each package has a file for
-- Linux and one for macOS with the same functions, and a build has one of the two.
use oci_container_runtime_fr.Cgroups.{FloatOps}
use oci_container_runtime_fr.Criu
use oci_container_runtime_fr.Image.Registry.{Codecs}
use oci_container_runtime_fr.Runtime.Config.{Config}
use oci_container_runtime_fr.Runtime.Child.{ChildArgs, child}
use oci_container_runtime_fr.Runtime.Run.{run}
use oci_container_runtime_fr.Seccomp.Profile.{GoArch}
use oci_container_runtime_fr.Spec.{Spec}
use oci_container_runtime_fr.Userns
use oci_container_runtime_fr.Sys.{Oracle, Io}
use oci_container_runtime_fr.Base.{Bool, List, Result, Str, ℤ}

-- The flags of `run` and what stands behind them. `publish` has the values of each --publish.
pub record Flags (F : Type 0) : Type 0 where
  pub memory : Str
  pub cpu : F
  pub pids : ℤ
  pub publish : List Str
  pub rootless : Bool
  pub no_seccomp : Bool
  pub spec : Str
  pub args : List Str

-- What the program uses of its libraries and of the machine it was built for.
pub record Program (F : Type 0) : Type 0 where
  pub floats : FloatOps F
  pub parse_flags : List Str → Result (Flags F)
  pub decode_spec : Str → Result Spec
  pub codecs : Codecs
  pub sha1 : Str → Str
  pub arch : GoArch

-- The functions of the packages that have two files.
pub record Platform (F : Type 0) : Type 0 where
  pub run : Config F → Io (Unit {0})
  pub child : ChildArgs → Io (Unit {0})
  pub detect : Bool → Io Userns.Config
  pub available : Io Bool
  pub dump : ℤ → Str → Io (Unit {0})
  pub restore : Str → Io (Unit {0})

abbrev pub linux : {F : Type 0} → Oracle → Program F → Platform F
linux os program = record {
  run = run os program.floats program.sha1 program.codecs.decode_manifest;
  child = child os program.arch;
  detect = Userns.detect os;
  available = Criu.available os;
  dump = Criu.dump os;
  restore = Criu.restore os;
}
