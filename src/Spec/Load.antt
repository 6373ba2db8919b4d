-- ===== src/Spec/Load.antt =====
-- `Load` of mvp/internal/ocispec/spec.go.
use oci_container_runtime_fr.Spec.{Spec, Root, Process}
use oci_container_runtime_fr.Sys.{
  stat, read_file, Trace, Oracle, Io, lift, wrapping, ◌>>=◌, perform, log, bind-ok, performed,
  lifted,
}
use oci_container_runtime_fr.Base.{
  ◌≢◌, ◌⊎◌, inl, inr, ◌≡◌, refl, ap, ◌∙◌, Bool, true, false, not, Option, none, some, List, [], ◌∷◌,
  ◌++◌, arith, if◌then◌else◌, message, Result, ok, err, Str, str, is_empty,
}

abbrev pub has_root_path : Option Root → Bool
has_root_path none = false
has_root_path (some r) = not (is_empty r.path)

abbrev pub is_nil : List Str → Bool
is_nil [] = true
is_nil (a ∷ args) = false

abbrev pub has_args : Option Process → Bool
has_args none = false
has_args (some p) = not (is_nil p.args)

-- The checks behind the decoder.
unfoldable pub validate : Spec → Result Spec
validate s =
    if is_empty s.oci_version
    then err (message "ocispec: missing ociVersion")
    else if not (has_root_path s.root)
    then err (message "ocispec: missing root.path")
    else if not (has_args s.process)
    then err (message "ocispec: missing process.args")
    else ok s

-- A directory stands for the config.json in it.
unfoldable pub config_file : Str → Bool → Str
config_file path is_dir = if is_dir then path ++ str "/config.json" else path

unfoldable pub load : Oracle → (Str → Result Spec) → Str → Io Spec
load os decode path = do
  is_dir ← wrapping "ocispec: stat" (perform os (stat path))
  b ← wrapping "ocispec: read" (perform os (read_file (config_file path is_dir)))
  s ← wrapping "ocispec: parse" (lift (decode b))
  lift (validate s)

-- A specification with all that a run needs: a version, a root with a path, and a process with a
-- program to run.
abbrev pub IsComplete : Spec → Type 0
IsComplete s =
    (s.oci_version ≢ [])
    × ((r : Root) × (s.root ≡ some r) × (r.path ≢ []))
    × ((p : Process) × (program : Str) × (args : List Str) × (s.process ≡ some p)
        × (p.args ≡ program ∷ args))

filled : (v : Str) → is_empty v ≡ false → v ≢ []
filled [] h = cc
filled (c ∷ v) h = λ e. cc

rooted : (r : Option Root) → has_root_path r ≡ true → (r' : Root) × (r ≡ some r') × (r'.path ≢ [])
rooted none h = cc
rooted (some r) h = (r, refl, filled r.path (ground arith))

listed : (args : List Str) → is_nil args ≡ false → (a : Str) × (l : List Str) × (args ≡ a ∷ l)
listed [] h = cc
listed (a ∷ l) h = (a, l, refl)

runnable :
    (p : Option Process)
    → has_args p ≡ true
    → (p' : Process) × (a : Str) × (l : List Str) × (p ≡ some p') × (p'.args ≡ a ∷ l)
runnable none h = cc
runnable (some p) h = let (a, l, e) = listed p.args (ground arith) in (p, a, l, refl, e)

validated :
    (s s' : Spec)
    → validate s ≡ ok s'
    → (s ≡ s')
      × (is_empty s'.oci_version ≡ false)
      × (has_root_path s'.root ≡ true)
      × (has_args s'.process ≡ true)
unfolding validate
validated s s' h = ground arith

validate-IsComplete : (s s' : Spec) → validate s ≡ ok s' → (s ≡ s') × IsComplete s'
validate-IsComplete s s' h =
    let (same, h1, h2, h3) = validated s s' h in
    (same, (filled s'.oci_version h1, rooted s'.root h2, runnable s'.process h3))

-- The file that a path stands for: config.json in it if it is a directory, itself if it is none.
abbrev pub StandsFor : Str → Bool → Str → Type 0
StandsFor path is_dir file =
    ((is_dir ≡ true) × (file ≡ path ++ str "/config.json")) ⊎ ((is_dir ≡ false) × (file ≡ path))

config_file-StandsFor :
    (path : Str) (is_dir : Bool) → StandsFor path is_dir (config_file path is_dir)
unfolding config_file
config_file-StandsFor path true = inl (refl, refl)
config_file-StandsFor path false = inr (refl, refl)

-- What `Load` returns is what the decoder made of the bytes of the file at the path, or of
-- config.json in the directory at the path, as the answer to stat tells. It has a version that is
-- not empty, a root with a path that is not empty, and a process with at least one argument.
pub load_sound :
    (os : Oracle) (decode : Str → Result Spec) (path : Str) (t : Trace) {s : Spec}
    → (load os decode path t).0 ≡ ok s
    → (is_dir : Bool) × (file b : Str) × (log (load os decode path t).1
        ≡ (read_file file, true) ∷ (stat path, true) ∷ log t)
      × StandsFor path is_dir file
      × (os t (stat path) ≡ ok is_dir)
      × (os (record { call = stat path; answer = ok is_dir } ∷ t) (read_file file) ≡ ok b)
      × (decode b ≡ ok s)
      × IsComplete s
unfolding load lift
load_sound os decode path t h =
    let (is_dir, h1, k1, s1) = bind-ok (wrapping "ocispec: stat" (perform os (stat path))) _ t h in
    let (found, t1) = performed os "ocispec: stat" (stat path) t h1 in
    let (b, h2, k2, s2) = bind-ok (wrapping "ocispec: read" _) _ _ k1 in
    let (bytes, t2) = performed os "ocispec: read" (read_file (config_file path is_dir)) _ h2 in
    let (s, h3, k3, s3) = bind-ok (wrapping "ocispec: parse" (lift (decode b))) _ _ k2 in
    let (decoded, t3) = lifted "ocispec: parse" (decode b) _ h3 in
    let (same, complete) = validate-IsComplete s _ k3 in
    (
      is_dir,
      config_file path is_dir,
      b,
      rw (s1, s2, s3, t3, t2, t1) refl,
      config_file-StandsFor path is_dir,
      found,
      rw t1 at bytes,
      decoded ∙ ap ok same,
      complete,
    )
