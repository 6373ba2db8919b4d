-- ===== src/Image/Store.antt =====
-- `Store` of mvp/internal/image/store.go, and the manifest type of pull.go. What encoding/json makes
-- of the bytes of a manifest is a parameter.
use oci_container_runtime_fr.Image.Reference.{Reference}
use oci_container_runtime_fr.Image.Layers.{ImageInfo}
use oci_container_runtime_fr.Sys.{
  read_file, make_dir_all, Oracle, Io, pure, lift, wrapping, ◌>>=◌, ◌>>◌, perform,
}
use oci_container_runtime_fr.Base.{
  List, [], ◌∷◌, map, if◌then◌else◌, Result, Str, str, trim_prefix, ℤ, is_empty, join_path,
}

pub record Descriptor : Type 0 where
  pub media_type : Str
  pub digest : Str
  pub size : ℤ

pub record Manifest : Type 0 where
  pub schema_version : ℤ
  pub media_type : Str
  pub config : Descriptor
  pub layers : List Descriptor

-- A store is its root directory.
abbrev pub root_or_data : Str → Str
root_or_data root = if is_empty root then str "data" else root

-- The directory of an image.
unfoldable pub image_path : Str → Reference → Str
image_path root ref = join_path (root ∷ str "images" ∷ ref.repo ∷ ref.tag ∷ [])

unfoldable pub manifest_path : Str → Str
manifest_path image_dir = join_path (image_dir ∷ str "manifest.json" ∷ [])

unfoldable pub blob_path : Str → Str → Str
blob_path root digest =
    join_path (root ∷ str "blobs" ∷ str "sha256" ∷ trim_prefix digest (str "sha256:") ∷ [])

unfoldable pub rootfs_dir : Str → Str → Str
rootfs_dir image_dir digest =
    join_path (image_dir ∷ str "rootfs" ∷ trim_prefix digest (str "sha256:") ∷ [])

-- What `LoadManifest` makes of a decoded manifest.
unfoldable pub info_of : Reference → Str → Manifest → ImageInfo
info_of ref image_dir mf = record {
  ref = ref;
  dir = image_dir;
  config = mf.config.digest;
  layers = map (λ (l : Descriptor). rootfs_dir image_dir l.digest) mf.layers;
}

module _ (os : Oracle) where
  unfoldable pub open_store : Str → Io Str
  open_store root = do
    perform os (make_dir_all (join_path (root_or_data root ∷ str "blobs" ∷ str "sha256" ∷ [])))
    perform os (make_dir_all (join_path (root_or_data root ∷ str "images" ∷ [])))
    pure (root_or_data root)

  -- `ImageDir`
  unfoldable pub make_image_dir : Str → Reference → Io Str
  make_image_dir root ref = do
    perform os (make_dir_all (image_path root ref))
    pure (image_path root ref)

  unfoldable pub load_manifest : (Str → Result Manifest) → Str → Reference → Io ImageInfo
  load_manifest decode root ref = do
    content ←
        wrapping "read manifest" (perform os (read_file (manifest_path (image_path root ref))))
    mf ← wrapping "decode manifest" (lift (decode content))
    pure (info_of ref (image_path root ref) mf)
