-- ===== src/Image/Registry.antt =====
-- What mvp/internal/image/pull.go exchanges with the registry: its types, its URLs, the token, and the
-- choice of a manifest.
pub mod Choice
use oci_container_runtime_fr.Image.Store.{Manifest}
use oci_container_runtime_fr.Sys.{http_get, Oracle, Io, pure, lift, wrapping, ◌>>=◌, ◌>>◌, perform}
use oci_container_runtime_fr.Base.{
  ℕ, String, Bool, not, ◌&&◌, ◌||◌, List, [], ◌∷◌, ◌++◌, map, ◌==◌, if◌then◌else◌, message, Result,
  ok, err, Str, str, str_eq, contains_text, ℤ, is_empty,
}

pub record IndexEntry : Type 0 where
  pub media_type : Str
  pub digest : Str
  pub size : ℤ
  pub architecture : Str
  pub os_name : Str
  pub variant : Str

pub record Index : Type 0 where
  pub schema_version : ℤ
  pub media_type : Str
  pub manifests : List IndexEntry

pub record TokenResponse : Type 0 where
  pub token_text : Str
  pub access_token : Str

-- What the client uses of net/url, encoding/json, crypto/sha256 and runtime.GOARCH.
pub record Codecs : Type 0 where
  pub escape : Str → Str
  pub decode_token : Str → Result TokenResponse
  pub decode_index : Str → Result Index
  pub decode_manifest : Str → Result Manifest
  pub sha256 : Str → Str
  pub architecture : Str

abbrev pub media_manifest_v2 : Str
media_manifest_v2 = str "application/vnd.docker.distribution.manifest.v2+json"

abbrev pub media_manifest_list_v2 : Str
media_manifest_list_v2 = str "application/vnd.docker.distribution.manifest.list.v2+json"

abbrev pub media_oci_manifest : Str
media_oci_manifest = str "application/vnd.oci.image.manifest.v1+json"

abbrev pub media_oci_index : Str
media_oci_index = str "application/vnd.oci.image.index.v1+json"

unfoldable pub token_url : Codecs → Str → Str
token_url codecs repo =
    str "https://auth.docker.io/token?service=registry.docker.io&scope="
    ++ codecs.escape (str "repository:" ++ repo ++ str ":pull")

unfoldable pub manifest_url : Str → Str → Str
manifest_url repo tag = str "https://registry-1.docker.io/v2/" ++ repo ++ str "/manifests/" ++ tag

unfoldable pub blob_url : Str → Str → Str
blob_url repo digest = str "https://registry-1.docker.io/v2/" ++ repo ++ str "/blobs/" ++ digest

-- The headers of `authedGet`.
abbrev pub headers : Str → List Str → List (Str × Str)
headers token accepts =
    (str "Authorization", str "Bearer " ++ token) ∷ map (λ a. (str "Accept", a)) accepts

abbrev pub token_of : TokenResponse → Str
token_of r = if is_empty r.token_text then r.access_token else r.token_text

-- The digest of the first entry for linux and an architecture; empty if there is none.
unfoldable pub digest_for : Str → List IndexEntry → Str
digest_for want [] = []
digest_for want (m ∷ rest) =
    if str_eq m.os_name (str "linux") && str_eq m.architecture want
    then m.digest
    else digest_for want rest

unfoldable pub choose_digest : Str → List IndexEntry → Result Str
unfolding digest_for
choose_digest want entries =
    if not (is_empty (digest_for want entries))
    then ok (digest_for want entries)
    else if not (is_empty (digest_for (str "amd64") entries))
    then ok (digest_for (str "amd64") entries)
    else err (message "no linux manifest in index")

-- A manifest list or an index, by its content type.
abbrev pub is_index : Str → Bool
is_index content_type =
    contains_text content_type (str "manifest.list")
    || contains_text content_type (str "image.index")

-- `if resp.StatusCode != 200 { return … }`
abbrev pub expect_found : String → ℕ → Result (Unit {0})
expect_found text status = if status == 200 then ok tt else err (message text)

module _ (os : Oracle) (codecs : Codecs) where
  unfoldable pub token : Str → Io Str
  token repo = do
    resp ← wrapping "token" (perform os (http_get (token_url codecs repo) []))
    lift (expect_found "token: status" resp.status)
    r ← wrapping "token decode" (do content ← lift resp.body; lift (codecs.decode_token content))
    pure (token_of r)
