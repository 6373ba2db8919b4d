-- ===== src/Tests/Runs.antt =====
-- Runs of a container, of slirp4netns and of criu, with every call granted.
use oci_container_runtime_fr.Tests.Concrete.{granting, quarters, first_bytes}
use oci_container_runtime_fr.Tests.Texts.{full}
use oci_container_runtime_fr.Cli.Main.{main}
use oci_container_runtime_fr.Cli.Program.{Program, Platform, linux}
use oci_container_runtime_fr.Cli.Main.Exit.{is_misuse, main_status}
use oci_container_runtime_fr.Cli.Main.Release.{is_pull_or_child, main_releases}
use oci_container_runtime_fr.Darwin.{darwin}
use oci_container_runtime_fr.Darwin.Refused.{IsRead, needs_linux, darwin_refuses}
use oci_container_runtime_fr.Image.Store.{Manifest}
use oci_container_runtime_fr.Runtime.Run.{run}
use oci_container_runtime_fr.Runtime.Run.Release.{run_releases}
use oci_container_runtime_fr.Seccomp.Profile.{amd64}
use oci_container_runtime_fr.Slirp
use oci_container_runtime_fr.Slirp.{second, teardown}
use oci_container_runtime_fr.Slirp.Release.{session, session_releases}
use oci_container_runtime_fr.Slirp.Stopped.{waited, asked, teardown_stops}
use oci_container_runtime_fr.Sys.{signal, wait, close, calls, descriptor, process, held, NewCalls}
use oci_container_runtime_fr.Base.{
  ℕ, ◌≤◌, ◌≡◌, refl, ◌≢◌, ◌↔◌, ◌⊎◌, true, false, List, [], ◌∷◌, message, ok, err, Str, str, str_eq,
  pos,
}

-- A manifest with one layer, whatever the bytes.
abbrev pub one_layer : Manifest
one_layer = record {
  schema_version = pos 2;
  media_type = [];
  config = record { media_type = []; digest = str "sha256:00"; size = pos 0 };
  layers = record { media_type = []; digest = str "sha256:01"; size = pos 0 } ∷ [];
}

run_releases_example :
    held (run granting quarters first_bytes (λ b. ok one_layer) full []).1 (process 42)
    ≡ held [] (process 42)
run_releases_example =
    run_releases granting quarters first_bytes (λ b. ok one_layer) full [] (process 42)

abbrev program : Program ℕ
program = record {
  floats = quarters;
  parse_flags = λ argv. ok (record {
    memory = [];
    cpu = 2;
    pids = pos 10;
    publish = str "8080:80" ∷ [];
    rootless = false;
    no_seccomp = false;
    spec = [];
    args = argv;
  });
  decode_spec = λ b. err (message "no specification");
  codecs = record {
    escape = λ s. s;
    decode_token = λ b. err (message "no token");
    decode_index = λ b. err (message "no index");
    decode_manifest = λ b. ok one_layer;
    sha256 = first_bytes;
    architecture = str "amd64";
  };
  sha1 = first_bytes;
  arch = amd64;
}

abbrev on_linux : Platform ℕ
on_linux = linux granting program

-- `myrun run alpine sh`
abbrev run_alpine : List Str
run_alpine = str "run" ∷ str "alpine" ∷ str "sh" ∷ []

run_kept : is_pull_or_child run_alpine ≡ false
unfolding str str_eq
run_kept = refl

main_releases_example :
    held (main granting program on_linux run_alpine []).1 (descriptor 3) ≡ held [] (descriptor 3)
main_releases_example = main_releases granting program run_alpine [] (descriptor 3) run_kept

-- `myrun child` with two arguments.
abbrev short_child : List Str
short_child = str "child" ∷ str "seccomp=1" ∷ str "/rootfs" ∷ []

main_status_example :
    (s : ℕ) × ((main granting program on_linux short_child []).0 ≡ ok s)
    × (s ≤ 2)
    × ((s ≡ 2) ↔ (is_misuse short_child ≡ true))
    × ((s ≡ 2) → ((main granting program on_linux short_child []).1 ≡ []))
main_status_example = main_status granting program on_linux [] short_child

abbrev rootless_box : Slirp.Config
rootless_box = record { child_pid = 42; rootfs = str "/rootfs" }

session_releases_example :
    held (session granting rootless_box []).1 (process 42) ≡ held [] (process 42)
session_releases_example = session_releases granting rootless_box [] (process 42)

abbrev tunnel : Slirp.Handle
tunnel = record { pid = 7; ready_end = 3 }

teardown_stops_example :
    ((teardown granting tunnel []).0 ≡ ok tt)
    × (((waited granting tunnel [] ≡ ok false)
          × (calls (teardown granting tunnel []).1
              ≡ close 3 ∷ wait 7 ∷ signal 7 "SIGKILL" ∷ asked tunnel []))
        ⊎ ((waited granting tunnel [] ≢ ok false)
            × (calls (teardown granting tunnel []).1 ≡ close 3 ∷ asked tunnel [])))
teardown_stops_example = teardown_stops granting tunnel []

runs_container : needs_linux run_alpine ≡ true
unfolding str str_eq
runs_container = refl

darwin_refuses_example :
    ((main granting program darwin run_alpine []).0 ≡ ok 1)
    × NewCalls IsRead [] (main granting program darwin run_alpine []).1
darwin_refuses_example = darwin_refuses granting program run_alpine [] runs_container
