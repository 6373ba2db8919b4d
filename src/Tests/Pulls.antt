-- ===== src/Tests/Pulls.antt =====
-- A blob pulled from a registry, an entry's name, and a checkpoint with its restore.
use oci_container_runtime_fr.Tests.Concrete.{granting, refusing, first_bytes}
use oci_container_runtime_fr.Criu.{dump, dump_process, restore}
use oci_container_runtime_fr.Criu.Symmetry.{dump_call, restore_call, dump-restore}
use oci_container_runtime_fr.Image.Registry.{Codecs}
use oci_container_runtime_fr.Image.Registry.{IndexEntry, choose_digest}
use oci_container_runtime_fr.Image.Registry.Choice.{IsFirst, IsMissing, choose_digest_lem}
use oci_container_runtime_fr.Tests.Texts.{alpine}
use oci_container_runtime_fr.Tests.Runs.{one_layer}
use oci_container_runtime_fr.Image.Store.{blob_path, image_path, root_or_data}
use oci_container_runtime_fr.Image.Extract.{extract_entries}
use oci_container_runtime_fr.Image.Extract.Confined.{IsConfined, IsOrdinary, unpacking-IsConfined}
use oci_container_runtime_fr.Image.Pull.{
  digest_of, pull_blob, download_blob, store_body, save_blob, commit_blob,
}
use oci_container_runtime_fr.Image.Pull.Verified.{requested, saved, pull_blob_verified}
use oci_container_runtime_fr.Sys.{
  Call, stat, look_path, make_dir_all, regular, Entry, Oracle, pure, lift, wrapping, attempt,
  on_error, ◌>>=◌, perform, ignoring, log, find_program, NewCalls,
}
use oci_container_runtime_fr.Base.{
  ℕ, ◌<◌, ◌≡◌, refl, ◌⊎◌, Bool, true, false, List, [], ◌∷◌, ◌++◌, All, Error, message, ok, err, Str,
  str, str_eq, hex, join, pos, split_on, clean, clean_components, clean_step, clean_parent,
  NonEmpty, split_last_slash, base_name,
}

abbrev codecs : Codecs
codecs = record {
  escape = λ s. s;
  decode_token = λ b. err (message "no token");
  decode_index = λ b. err (message "no index");
  decode_manifest = λ b. err (message "no manifest");
  sha256 = first_bytes;
  architecture = str "amd64";
}

abbrev asks_stat : Call → Bool
asks_stat (stat path) = true
asks_stat _ = false

-- Nothing is in the store yet.
abbrev empty_store : Oracle
empty_store = refusing asks_stat

abbrev repo : Str
repo = str "library/alpine"

-- What the four bytes of the empty content's hash read as.
abbrev digest : Str
digest = str "sha256:00000000"

blob_pulled :
    (pull_blob empty_store codecs repo digest [] (str "data") []).0
    ≡ ok (blob_path (str "data") digest)
unfolding pull_blob download_blob store_body save_blob commit_blob wrapping attempt ignoring lift
    perform on_error pure ◌>>=◌ str str_eq hex
blob_pulled = refl

pull_blob_verified_example :
    (blob_path (str "data") digest ≡ blob_path (str "data") digest)
    × ((log (pull_blob empty_store codecs repo digest [] (str "data") []).1
          ≡ (stat (blob_path (str "data") digest), true) ∷ [])
        ⊎ ((content : Str) × (digest_of codecs content ≡ digest)
            × (log (pull_blob empty_store codecs repo digest [] (str "data") []).1
                ≡ saved
                    (blob_path (str "data") digest)
                    content
                    (requested repo digest [] (blob_path (str "data") digest) []))))
pull_blob_verified_example =
    pull_blob_verified empty_store codecs repo digest [] (str "data") [] blob_pulled

-- An entry's name with detours.
abbrev entry_name : Str
entry_name = str "./etc/..//usr/bin"

abbrev layer_dir : Str
layer_dir = str "/store/rootfs"

-- A program, and the whiteout of a file beside it.
abbrev two_files : List Entry
two_files =
    record { name = entry_name; kind = regular; link_name = []; content = ok (str "ELF") }
    ∷ record { name = str "etc/.wh.motd"; kind = regular; link_name = []; content = ok [] }
    ∷ []

files-IsOrdinary : All IsOrdinary two_files
unfolding clean clean_components clean_step clean_parent base_name split_last_slash str str_eq
    split_on join
files-IsOrdinary =
    (record { below = refl; no_parent = refl }, (record { below = refl; no_parent = refl }, tt))

dir_filled : NonEmpty layer_dir
unfolding str
dir_filled = refl

unpacking-IsConfined_example :
    NewCalls (IsConfined layer_dir) [] (extract_entries granting layer_dir two_files (ok tt) []).1
unpacking-IsConfined_example =
    unpacking-IsConfined granting layer_dir two_files (ok tt) [] dir_filled files-IsOrdinary

dumped : (dump granting (pos 5) (str "images") []).0 ≡ ok tt
unfolding dump dump_process find_program wrapping attempt lift perform ◌>>=◌
dumped = refl

restored : (restore granting (str "images") []).0 ≡ ok tt
unfolding restore find_program wrapping attempt lift perform ◌>>=◌
restored = refl

dump-restore_example :
    ((n : ℕ) × (bin : Str) × (pos 5 ≡ pos n)
      × (0 < n)
      × (granting [] (look_path (str "criu")) ≡ ok bin)
      × (log (dump granting (pos 5) (str "images") []).1
          ≡ (dump_call bin n (str "images"), true)
            ∷ (make_dir_all (str "images"), true)
            ∷ (look_path (str "criu"), true)
            ∷ []))
    × ((is_dir : Bool) × (bin : Str) × (granting
            (record { call = stat (str "images"); answer = ok is_dir } ∷ [])
            (look_path (str "criu"))
          ≡ ok bin)
        × (log (restore granting (str "images") []).1
            ≡ (restore_call bin (str "images"), true)
              ∷ (look_path (str "criu"), true)
              ∷ (stat (str "images"), true)
              ∷ []))
dump-restore_example = dump-restore granting granting (pos 5) (str "images") [] [] dumped restored

abbrev entry_for : Str → IndexEntry
entry_for arch = record {
  media_type = [];
  digest = str "sha256:" ++ arch;
  size = pos 0;
  architecture = arch;
  os_name = str "linux";
  variant = [];
}

abbrev two_entries : List IndexEntry
two_entries = entry_for (str "arm64") ∷ entry_for (str "amd64") ∷ []

choose_digest_lem_example :
    ((d : Str) × (choose_digest (str "riscv64") two_entries ≡ ok d)
      × NonEmpty d
      × (IsFirst (str "riscv64") two_entries d
          ⊎ (IsMissing (str "riscv64") two_entries × IsFirst (str "amd64") two_entries d)))
    ⊎ ((e : Error) × (choose_digest (str "riscv64") two_entries ≡ err e)
        × IsMissing (str "riscv64") two_entries
        × IsMissing (str "amd64") two_entries)
choose_digest_lem_example = choose_digest_lem (str "riscv64") two_entries

-- A registry whose manifests have one layer.
abbrev one_layer_codecs : Codecs
one_layer_codecs = record {
  escape = λ s. s;
  decode_token = λ b. ok (record { token_text = []; access_token = [] });
  decode_index = λ b. err (message "no index");
  decode_manifest = λ b. ok one_layer;
  sha256 = first_bytes;
  architecture = str "amd64";
}

abbrev alpine_dir : Str
alpine_dir = image_path (root_or_data (str "store")) alpine
