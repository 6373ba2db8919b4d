-- ===== src/Tests/Texts.antt =====
-- The theorems on references, published ports, sizes and configurations at concrete texts.
use oci_container_runtime_fr.Image.Reference.{
  Reference, parse_ref, to_string, qualify, split_tag, cut_tag,
}
use oci_container_runtime_fr.Image.Reference.RoundTrip.{parse_ref_stable}
use oci_container_runtime_fr.Network.Types.{PortMapping}
use oci_container_runtime_fr.Cli.Publish.{
  render, parse_publish, set_all, split_protocol, split_ports, mapping_of, valid_port,
}
use oci_container_runtime_fr.Cli.Publish.RoundTrip.{
  IsPublishable, parse_publish-IsPublishable, set_all-render,
}
use oci_container_runtime_fr.Cli.Memory.{parse_memory}
use oci_container_runtime_fr.Cli.Memory.Wrap.{mega, parse_memory_exact, parse_memory_vanishes}
use oci_container_runtime_fr.Userns
use oci_container_runtime_fr.Spec.{Spec}
use oci_container_runtime_fr.Runtime.Config.{Config}
use oci_container_runtime_fr.Base.{
  ℕ, ◌*◌, ◌^◌, ◌≡◌, refl, inl, inr, true, false, none, some, [], ◌∷◌, ◌++◌, map, arith, ok, str,
  str_eq, index_byte, last_index, contains_byte, has_prefix, to_lower, pos, decimal, parse_int,
}

abbrev pub alpine : Reference
alpine = record { repo = str "library/alpine"; tag = str "latest" }

parse_alpine : parse_ref (str "alpine") ≡ ok alpine
unfolding parse_ref qualify split_tag cut_tag last_index contains_byte has_prefix str
parse_alpine = refl

parse_ref_stable_example : parse_ref (to_string alpine) ≡ ok alpine
parse_ref_stable_example = parse_ref_stable (str "alpine") parse_alpine

abbrev pub web : PortMapping
web = record { host_port = pos 8080; container_port = pos 80; protocol = str "tcp" }

abbrev dns : PortMapping
dns = record { host_port = pos 53; container_port = pos 53; protocol = str "udp" }

web-IsPublishable : IsPublishable web
web-IsPublishable = record { host = omega arith; container = omega arith; known = inl refl }

dns-IsPublishable : IsPublishable dns
dns-IsPublishable = record { host = omega arith; container = omega arith; known = inr refl }

set_all-render_example : set_all (map render (web ∷ dns ∷ [])) [] ≡ ok (web ∷ dns ∷ [])
set_all-render_example =
    set_all-render (web ∷ dns ∷ []) [] (web-IsPublishable, (dns-IsPublishable, tt))

parse_web : parse_publish (str "8080:80") ≡ ok web
unfolding parse_publish split_protocol split_ports mapping_of valid_port parse_int index_byte
    to_lower str_eq str
parse_web = refl

parse_publish-IsPublishable_example : IsPublishable web
parse_publish-IsPublishable_example = parse_publish-IsPublishable (str "8080:80") parse_web

parse_memory_exact_example : parse_memory (decimal 512 ++ b'm' ∷ []) ≡ ok (pos (512 * 1048576))
parse_memory_exact_example = parse_memory_exact 512 b'm' 1048576 mega (omega arith)

parse_memory_vanishes_example : parse_memory (decimal (1 * 2 ^ 34) ++ b'G' ∷ []) ≡ ok (pos 0)
parse_memory_vanishes_example = parse_memory_vanishes 1 (omega arith)

abbrev pub nobody : Userns.Config
nobody = record { enabled = false; host_uid = pos 1000; host_gid = pos 1000; size = pos 1 }

abbrev pub mapped : Userns.Config
mapped = record { enabled = true; host_uid = pos 1000; host_gid = pos 1000; size = pos 1 }

abbrev pub document : Spec
document = record {
  oci_version = str "1.0.2";
  process = some record {
    terminal = false;
    user = record { uid = 0; gid = 0; additional_gids = [] };
    args = str "/bin/sh" ∷ str "-c" ∷ str "id" ∷ [];
    env_vars = [];
    cwd = str "/";
    capabilities = none;
    no_new_privs = true;
  };
  root = some record { path = str "rootfs"; readonly = false };
  hostname = [];
  mounts = [];
  linux = some record {
    namespaces = record { ns_type = str "user"; path = [] } ∷ [];
    uid_mappings = record { container_id = 0; host_id = 1000; size = 1 } ∷ [];
    gid_mappings = record { container_id = 0; host_id = 1000; size = 1 } ∷ [];
    resources = none;
    seccomp = none;
    masked_paths = [];
    readonly_paths = [];
  };
}

abbrev bare : Config ℕ
bare = record {
  rootfs = [];
  cmd = [];
  args = [];
  limits = record { memory_bytes = pos 0; cpu_quota = 0; pids_max = pos 0 };
  store_root = str "store";
  port_mappings = [];
  rootless = nobody;
  seccomp = true;
  spec = some document;
}

abbrev pub full : Config ℕ
full = record {
  rootfs = str "alpine";
  cmd = str "/bin/true";
  args = [];
  limits = record { memory_bytes = pos 4096; cpu_quota = 2; pids_max = pos 10 };
  store_root = str "store";
  port_mappings = web ∷ [];
  rootless = mapped;
  seccomp = true;
  spec = some document;
}
