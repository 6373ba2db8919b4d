-- ===== src/Image/Pull/Stored.antt =====
-- What `Pull` of mvp/internal/image/pull.go has stored when it succeeds, and what `LoadManifest` of
-- mvp/internal/image/store.go makes of it.
use oci_container_runtime_fr.Image.Reference.{Reference}
use oci_container_runtime_fr.Image.Registry.{Codecs}
use oci_container_runtime_fr.Image.Store.{Manifest, manifest_path}
use oci_container_runtime_fr.Image.Pull.{pull_layers}
use oci_container_runtime_fr.Sys.{
  read_file, write_file, Trace, Oracle, Io, pure, wrapping, ◌>>◌, perform,
}
use oci_container_runtime_fr.Base.{◌≡◌, ◌∷◌, if◌then◌else◌, ok, Str, str_eq}

-- The trace right behind the write of the manifest's bytes.
abbrev pub behind_write : Str → Str → Trace → Trace
behind_write dir content written =
    record { call = write_file (manifest_path dir) content; answer = ok tt } ∷ written

module _ (os : Oracle) (codecs : Codecs) (ref : Reference) where
  -- The manifest's bytes were written to their file, and behind that every layer was fetched and
  -- extracted, which ends in the given trace.
  pub record IsStored (root tok content : Str) (mf : Manifest) (dir : Str) (ended : Trace)
      : Type 0 where
    pub written : Trace
    pub granted : os written (write_file (manifest_path dir) content) ≡ ok tt
    pub extracted :
        (pull_layers os codecs ref.repo tok root dir mf.layers (behind_write dir content written)).0
        ≡ ok tt
    pub last :
        ended
        ≡ (pull_layers os codecs ref.repo tok root dir mf.layers
            (behind_write dir content written)).1

  abbrev store_layers : Str → Str → Str → Manifest → Str → Io Str
  store_layers root tok content mf dir =
      wrapping "write manifest" (perform os (write_file (manifest_path dir) content))
      >> (pull_layers os codecs ref.repo tok root dir mf.layers >> pure dir)

-- A system where the file at one path holds these bytes; everything else is answered as before.
abbrev pub holding : Str → Str → Oracle → Oracle
holding file content os t (read_file path) =
    if str_eq path file then ok content else os t (read_file path)
holding file content os t c = os t c
