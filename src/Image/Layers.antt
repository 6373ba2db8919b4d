-- ===== src/Image/Layers.antt =====
-- `ImageInfo` and `OverlayLowerDirs` of mvp/internal/image/store.go.
use oci_container_runtime_fr.Image.Reference.{Reference}
use oci_container_runtime_fr.Base.{
  ◌≡◌, refl, ◌≢◌, List, [], ◌∷◌, reverse, All, Str, str, join, Lacks, split_on, split_on-join,
  All-reverse,
}

pub record ImageInfo : Type 0 where
  pub ref : Reference
  pub dir : Str
  pub config : Str
  pub layers : List Str

-- `OverlayLowerDirs`
unfoldable pub overlay_lower_dirs : ImageInfo → Str
overlay_lower_dirs i = join (reverse i.layers) (str ":")

split_on-join_ne :
    (dirs : List Str)
    → dirs ≢ []
    → All (Lacks b':') dirs
    → split_on b':' (join dirs (b':' ∷ [])) ≡ dirs
split_on-join_ne [] some_dir h = absurd (some_dir refl)
split_on-join_ne (d ∷ dirs) some_dir h = split_on-join b':' d dirs h

-- Where an image has a layer and no layer's directory has a colon in its name, splitting the option
-- at its colons gives the layers' directories, the topmost layer first.
overlay_lower_dirs_lem :
    (i : ImageInfo)
    → reverse i.layers ≢ []
    → All (Lacks b':') i.layers
    → split_on b':' (overlay_lower_dirs i) ≡ reverse i.layers
unfolding overlay_lower_dirs str
overlay_lower_dirs_lem i some_layer h =
    split_on-join_ne (reverse i.layers) some_layer (All-reverse (Lacks b':') i.layers h)
