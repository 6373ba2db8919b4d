-- ===== src/Image/Pull.antt =====
-- `Pull` and `pullBlob` of mvp/internal/image/pull.go.
pub mod Stored
pub mod Verified
use oci_container_runtime_fr.Image.Reference.{Reference}
use oci_container_runtime_fr.Image.Registry.{
  Codecs, media_manifest_v2, media_manifest_list_v2, media_oci_manifest, media_oci_index,
  manifest_url, blob_url, headers, choose_digest, is_index, expect_found, token,
}
use oci_container_runtime_fr.Image.Store.{
  Descriptor, Manifest, manifest_path, blob_path, rootfs_dir, open_store, make_image_dir,
}
use oci_container_runtime_fr.Image.Extract.{copy, extract_layer}
use oci_container_runtime_fr.Sys.{
  Spawn, Call, get_env, get_uid, get_gid, get_euid, stat, read_file, remove, remove_all, make_dir,
  make_dir_all, write_file, rename, command, look_path, start, signal, wait, make_pipe, read_byte,
  close, mount, unmount, pivot_root, change_root, change_dir, set_hostname, no_new_privs,
  set_filter, exec, random_bytes, Response, EntryKind, directory, regular, symbolic_link, hard_link,
  other_kind, Entry, Archive, symlink, link, create_file, copy_into, close_file, open_file,
  read_archive, http_get, await_exit, await_byte, Answer, Event, Trace, Oracle, is_ok, Io, pure,
  raise, lift, wrapping, attempt, finish, on_error, deferring, continue, ◌>>=◌, ◌>>◌, perform,
  ignoring, log, calls, when, tolerated, tolerating, env, text_or_empty, bind-ok, bind-err,
  on_error-ok, on_error-err, performed, lifted, Resource, descriptor, process, mounted, group,
  weight, count, change, held, is_neutral, either_way, Moves, Keeps, Keeps-perform, Keeps-pure,
  Keeps-raise, Keeps-lift, Keeps-wrapping, Keeps-attempt, Keeps-ignoring, Keeps-on_error,
  Keeps-bind, Keeps-when, Keeps-tolerating, Keeps-env, Keeps-make_dir_all, Keeps-write_file,
  Keeps-command, Keeps-signal, Keeps-read_file, Keeps-remove_all, find_program-Keeps, Sure,
  Sure-ignoring, Sure-attempt, Sure-env, Sure-pure, Sure-when, Sure-bind, Moves-Sure, Moves-ignored,
  Moves-kept, Moves-tolerating, Moves-wrapping_all, Moves-pure, Moves-raise, Moves-wait_all,
  Moves-attempted, count-append, Moves-if, Keeps-if, after_exit, Moves-await_exit, Moves-Keeps,
  Moves-to, Moves-from, Moves-wrapping, Moves-bind, Moves-on_error, Moves-deferring, Moves-ignoring,
  Moves-attempt, Moves-make_pipe, Moves-start, Moves-mount, Moves-make_dir, Moves-close, Moves-wait,
  Moves-unmount, Moves-remove, find_program,
}
use oci_container_runtime_fr.Base.{
  ℕ, zero, suc, ◌+◌, ◌-◌, ◌*◌, ◌/◌, ◌%◌, ◌^◌, ◌≤◌, ◌<◌, min, String, ◌≡◌, refl, sym, ap, ◌∙◌, ◌≢◌,
  ◌↔◌, ◌⊎◌, inl, inr, Bool, true, false, not, ◌&&◌, ◌||◌, Option, none, some, List, [], ◌∷◌, ◌++◌,
  map, reverse, append-nil, append_assoc, arith, ltb, leb, ◌==◌, if◌then◌else◌, ==_iff, Bool-cases,
  Option-cases, length, take, drop, length-append, length-take, take-append, drop-append,
  drop-append_suc, All, All-append, Error, message, wrap, os_error, Errno, already_exists,
  does_not_exist, other_error, is_exist, is_not_exist, Result, ok, err, wrapped, of_option,
  Result-cases, Str, str, str_eq, str_eq_iff, str_eq_refl, index_byte, last_index, contains_byte,
  has_prefix, trim_prefix, contains_text, hex, join, to_lower, trim_space, Lacks, index_byte-append,
  index_byte-none, last_index-none, last_index-append, last_index_split, contains_byte-append,
  contains_byte-none, ℤ, pos, negsuc, is_positive, is_zero, decimal, format_int, digits_value,
  parse_int, int64_bound, IsDigit, decimal-IsDigit, IsDigit-Lacks, parse_int-decimal, components,
  is_abs, clean, clean_components, is_empty, NonEmpty, clean-NonEmpty, join_path-NonEmpty,
  All-reverse, join_path, split_last_slash, dir_name, base_name, trim_by, is_space, concat-ne-nil,
  ok≢err,
}

-- `"sha256:" + hex.EncodeToString(h.Sum(nil))`
abbrev pub digest_of : Codecs → Str → Str
digest_of codecs content = str "sha256:" ++ hex (codecs.sha256 content)

abbrev pub part_path : Str → Str
part_path dst = dst ++ str ".part"

abbrev pub is_nil : List Descriptor → Bool
is_nil [] = true
is_nil (l ∷ rest) = false

module _ (os : Oracle) (codecs : Codecs) where
  -- The temporary file, hashed on the way; it is moved into place if its hash is the digest.
  unfoldable pub commit_blob : Str → Str → Str → Io Str
  commit_blob dst digest content =
      if str_eq (digest_of codecs content) digest
      then (do perform os (rename (part_path dst) dst); pure dst)
      else (do ignoring (perform os (remove (part_path dst))); raise (message "digest mismatch"))

  unfoldable pub save_blob : Str → Str → Str → Io Str
  save_blob dst digest content = do
    on_error (perform os (copy_into (part_path dst) content)) (do
      ignoring (perform os (close_file (part_path dst)))
      ignoring (perform os (remove (part_path dst))))
    on_error (perform os (close_file (part_path dst)))
        (ignoring (perform os (remove (part_path dst))))
    commit_blob dst digest content

  -- A body that breaks off is given up like a copy that fails.
  unfoldable pub store_body : Str → Str → Result Str → Io Str
  store_body dst digest (ok content) = save_blob dst digest content
  store_body dst digest (err e) = do
    ignoring (perform os (close_file (part_path dst)))
    ignoring (perform os (remove (part_path dst)))
    raise e

  unfoldable pub download_blob : Str → Str → Str → Str → Io Str
  download_blob repo digest tok dst = do
    resp ← perform os (http_get (blob_url repo digest) (headers tok []))
    lift (expect_found "blob: status" resp.status)
    perform os (make_dir_all (dir_name dst))
    perform os (create_file (part_path dst))
    store_body dst digest resp.body

  -- `pullBlob`
  unfoldable pub pull_blob : Str → Str → Str → Str → Io Str
  pull_blob repo digest tok root = do
    found ← attempt (perform os (stat (blob_path root digest)))
    if is_ok found
        then pure (blob_path root digest)
        else download_blob repo digest tok (blob_path root digest)

  -- The bytes of the manifest, which an index names by a digest.
  unfoldable pub fetch_listed : Str → Str → Str → Io Str
  fetch_listed repo tok body = do
    idx ← wrapping "index decode" (lift (codecs.decode_index body))
    digest ← lift (choose_digest codecs.architecture idx.manifests)
    sub ← wrapping "sub-manifest" (
        perform os (
          http_get (manifest_url repo digest)
            (headers tok (media_manifest_v2 ∷ media_oci_manifest ∷ []))))
    content ← wrapping "sub-manifest read" (lift sub.body)
    lift (expect_found "sub-manifest: status" sub.status)
    pure content

  unfoldable pub fetch_manifest : Reference → Str → Io Str
  fetch_manifest ref tok = do
    resp ← wrapping "manifest" (
        perform os (
          http_get (manifest_url ref.repo ref.tag) (
            headers tok (
              media_manifest_v2 ∷ media_oci_manifest ∷ media_manifest_list_v2 ∷ media_oci_index
              ∷ []))))
    body ← wrapping "manifest read" (lift resp.body)
    lift (expect_found "manifest: status" resp.status)
    if is_index resp.content_type then fetch_listed ref.repo tok body else pure body

  unfoldable pub pull_layers : Str → Str → Str → Str → List Descriptor → Io (Unit {0})
  pull_layers repo tok root image_dir [] = pure tt
  pull_layers repo tok root image_dir (l ∷ rest) = do
    blob ← wrapping "pull layer" (pull_blob repo l.digest tok root)
    wrapping "extract layer" (extract_layer os blob (rootfs_dir image_dir l.digest))
    pull_layers repo tok root image_dir rest

  -- `Pull` behind the decoding of the manifest.
  unfoldable pub store_image : Reference → Str → Str → Str → Manifest → Io Str
  store_image ref tok store_root content mf = do
    root ← open_store os store_root
    image_dir ← make_image_dir os root ref
    wrapping "write manifest" (perform os (write_file (manifest_path image_dir) content))
    pull_layers ref.repo tok root image_dir mf.layers
    pure image_dir

  -- `Pull`
  unfoldable pub pull : Reference → Str → Io Str
  pull ref store_root = do
    tok ← token os codecs ref.repo
    content ← fetch_manifest ref tok
    mf ← wrapping "manifest decode" (lift (codecs.decode_manifest content))
    if is_nil mf.layers
        then raise (message "manifest has no layers")
        else store_image ref tok store_root content mf
