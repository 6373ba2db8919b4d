-- ===== src/Image/Pull/Verified.antt =====
-- What enters the blob cache.
use oci_container_runtime_fr.Image.Registry.{Codecs, blob_url, headers, expect_found}
use oci_container_runtime_fr.Image.Store.{blob_path}
use oci_container_runtime_fr.Image.Pull.{
  digest_of, part_path, commit_blob, save_blob, store_body, download_blob, pull_blob,
}
use oci_container_runtime_fr.Sys.{
  Call, stat, remove, make_dir_all, rename, create_file, copy_into, close_file, http_get, Trace,
  Oracle, is_ok, pure, raise, attempt, on_error, ◌>>=◌, ◌>>◌, perform, ignoring, log, bind-ok,
  on_error-ok, performed-ok, step-ok, check-ok,
}
use oci_container_runtime_fr.Base.{
  ◌≡◌, refl, ap, ◌∙◌, ◌≢◌, ◌⊎◌, inl, inr, Bool, true, false, List, [], ◌∷◌, arith, if◌then◌else◌,
  Bool-cases, Error, message, Result, ok, err, Str, str_eq, str_eq_iff, dir_name,
}

-- The calls that save a content in the part file and move it into place, the last one first.
abbrev pub saved : Str → Str → List (Call × Bool) → List (Call × Bool)
saved dst content before =
    (rename (part_path dst) dst, true)
    ∷ (close_file (part_path dst), true)
    ∷ (copy_into (part_path dst) content, true)
    ∷ before

-- The calls of a download, up to the open part file.
abbrev pub requested : Str → Str → Str → Str → List (Call × Bool) → List (Call × Bool)
requested repo digest tok dst before =
    (create_file (part_path dst), true)
    ∷ (make_dir_all (dir_name dst), true)
    ∷ (http_get (blob_url repo digest) (headers tok []), true)
    ∷ (stat dst, false)
    ∷ before

module _ (os : Oracle) (codecs : Codecs) where
  moved :
      (dst : Str) (t : Trace) {path : Str}
      → ((perform os (rename (part_path dst) dst) >> pure dst) t).0 ≡ ok path
      → (path ≡ dst)
        × (log ((perform os (rename (part_path dst) dst) >> pure dst) t).1
            ≡ (rename (part_path dst) dst, true) ∷ log t)
  unfolding perform pure ◌>>=◌
  moved dst t h = ground arith

  not_moved :
      (dst : Str) (t : Trace) {path : Str}
      → ((ignoring (perform os (remove (part_path dst)))
            >> raise {A = Str} (message "digest mismatch"))
          t).0
        ≢ ok path
  unfolding ignoring raise ◌>>=◌
  not_moved dst t h = cc

  given_up :
      (dst : Str) (e : Error) (t : Trace) {path : Str}
      → ((ignoring (perform os (close_file (part_path dst)))
            >> ignoring (perform os (remove (part_path dst)))
            >> raise {A = Str} e)
          t).0
        ≢ ok path
  unfolding ignoring raise ◌>>=◌
  given_up dst e t h = cc

  commit_ok :
      (dst digest content : Str) (t : Trace) {path : Str}
      → (commit_blob os codecs dst digest content t).0 ≡ ok path
      → (path ≡ dst)
        × (digest_of codecs content ≡ digest)
        × (log (commit_blob os codecs dst digest content t).1
            ≡ (rename (part_path dst) dst, true) ∷ log t)
  unfolding commit_blob
  commit_ok dst digest content t h = elim (Bool-cases (str_eq (digest_of codecs content) digest)) [
    | inl right ↦
        let (p, l) = moved dst t (rw right at h) in
        (p, (str_eq_iff (digest_of codecs content) digest).0 right, rw right l)
    | inr wrong ↦ absurd (not_moved dst t (rw wrong at h))
  ]

  save_ok :
      (dst digest content : Str) (t : Trace) {path : Str}
      → (save_blob os codecs dst digest content t).0 ≡ ok path
      → (path ≡ dst)
        × (digest_of codecs content ≡ digest)
        × (log (save_blob os codecs dst digest content t).1 ≡ saved dst content (log t))
  unfolding save_blob
  save_ok dst digest content t h =
      let copied = on_error (perform os (copy_into (part_path dst) content)) (
        ignoring (perform os (close_file (part_path dst)))
        >> ignoring (perform os (remove (part_path dst)))) in
      let closed =
        on_error (perform os (close_file (part_path dst)))
          (ignoring (perform os (remove (part_path dst)))) in
      let (_, h1, k1, s1) = bind-ok copied _ t h in
      let (g1, e1) = on_error-ok (perform os (copy_into (part_path dst) content)) _ t h1 in
      let (_, h2, k2, s2) = bind-ok closed _ (copied t).1 k1 in
      let (g2, e2) = on_error-ok (perform os (close_file (part_path dst))) _ (copied t).1 h2 in
      let (p, d, l) = commit_ok dst digest content (closed (copied t).1).1 k2 in
      let first = ap (λ r. log r.1) e1 ∙ performed-ok os (copy_into (part_path dst) content) t g1 in
      let second =
        ap (λ r. log r.1) e2 ∙ performed-ok os (close_file (part_path dst)) (copied t).1 g2 in
      (
        p,
        d,
        ap (λ r. log r.1) (s1 ∙ s2)
            ∙ l
            ∙ ap (λ b. (rename (part_path dst) dst, true) ∷ b)
                (second ∙ ap (λ b. (close_file (part_path dst), true) ∷ b) first),
      )

  body_ok :
      (dst digest : Str) (body : Result Str) (t : Trace) {path : Str}
      → (store_body os codecs dst digest body t).0 ≡ ok path
      → (path ≡ dst)
        × (content : Str) × (digest_of codecs content ≡ digest)
        × (log (store_body os codecs dst digest body t).1 ≡ saved dst content (log t))
  unfolding store_body ignoring raise ◌>>=◌
  body_ok dst digest (ok content) t h =
      let (p, d, l) = save_ok dst digest content t h in (p, content, d, l)
  body_ok dst digest (err e) t h = absurd (given_up dst e t h)

  download_ok :
      (repo digest tok dst : Str) (t : Trace) {path : Str}
      → (download_blob os codecs repo digest tok dst t).0 ≡ ok path
      → (path ≡ dst)
        × (content : Str) × (digest_of codecs content ≡ digest)
        × (log (download_blob os codecs repo digest tok dst t).1
            ≡ saved dst content (
                (create_file (part_path dst), true)
                ∷ (make_dir_all (dir_name dst), true)
                ∷ (http_get (blob_url repo digest) (headers tok []), true)
                ∷ log t))
  unfolding download_blob
  download_ok repo digest tok dst t h =
      let (resp, t1, k1, s1, l1) =
        step-ok os (http_get (blob_url repo digest) (headers tok [])) _ t h in
      let (_, _, k2, s2) = check-ok (expect_found "blob: status" resp.status) _ t1 k1 in
      let (_, t3, k3, s3, l3) = step-ok os (make_dir_all (dir_name dst)) _ t1 k2 in
      let (_, t4, k4, s4, l4) = step-ok os (create_file (part_path dst)) _ t3 k3 in
      let (p, content, d, l) = body_ok dst digest resp.body t4 k4 in
      let below =
        l4
        ∙ ap (λ b. (create_file (part_path dst), true) ∷ b)
            (l3 ∙ ap (λ b. (make_dir_all (dir_name dst), true) ∷ b) l1) in
      (p, content, d, s1 ∙ s2 ∙ s3 ∙ s4 ∙ l ∙ ap (saved dst content) below)

  chosen :
      (repo digest tok dst : Str) (b : Bool) (t1 : Trace) (before : List (Call × Bool)) {path : Str}
      → log t1 ≡ (stat dst, b) ∷ before
      → ((if b then pure dst else download_blob os codecs repo digest tok dst) t1).0 ≡ ok path
      → (path ≡ dst)
        × ((log ((if b then pure dst else download_blob os codecs repo digest tok dst) t1).1
              ≡ (stat dst, true) ∷ before)
            ⊎ ((content : Str) × (digest_of codecs content ≡ digest)
                × (log ((if b then pure dst else download_blob os codecs repo digest tok dst) t1).1
                    ≡ saved dst content (requested repo digest tok dst before))))
  unfolding pure
  chosen repo digest tok dst true t1 before e h = (cc, inl e)
  chosen repo digest tok dst false t1 before e h =
      let (p, content, d, l) = download_ok repo digest tok dst t1 h in
      (
        p,
        inr (
          content,
          d,
          l
              ∙ ap
                  (λ b. saved dst content (
                    (create_file (part_path dst), true)
                    ∷ (make_dir_all (dir_name dst), true)
                    ∷ (http_get (blob_url repo digest) (headers tok []), true)
                    ∷ b))
                  e,
        ),
      )

  -- A blob that `pullBlob` gives back is the one in the store, and either it was there already, or it
  -- was downloaded by this call: a content with the wanted hash was copied into the part file, which
  -- was then moved into place, and every call on the way succeeded.
  pub pull_blob_verified :
      (repo digest tok root : Str) (t : Trace) {path : Str}
      → (pull_blob os codecs repo digest tok root t).0 ≡ ok path
      → (path ≡ blob_path root digest)
        × ((log (pull_blob os codecs repo digest tok root t).1
              ≡ (stat (blob_path root digest), true) ∷ log t)
            ⊎ ((content : Str) × (digest_of codecs content ≡ digest)
                × (log (pull_blob os codecs repo digest tok root t).1
                    ≡ saved
                        (blob_path root digest)
                        content
                        (requested repo digest tok (blob_path root digest) (log t)))))
  unfolding pull_blob attempt perform ◌>>=◌
  pull_blob_verified repo digest tok root t h =
      chosen repo digest tok (blob_path root digest) (is_ok (os t (stat (blob_path root digest)))) _
        (log t) refl h
