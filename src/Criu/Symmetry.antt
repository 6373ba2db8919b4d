-- ===== src/Criu/Symmetry.antt =====
-- What `Dump` and `Restore` of mvp/internal/criu/criu_linux.go ask criu for.
use oci_container_runtime_fr.Criu.{dump_args, restore_args, dump_process, dump, restore}
use oci_container_runtime_fr.Sys.{
  Call, look_path, stat, make_dir_all, command, Trace, Oracle, raise, lift, wrapping, attempt,
  ◌>>=◌, perform, log, bind-ok, performed, find_program, or_text,
}
use oci_container_runtime_fr.Base.{
  err, ℕ, ◌<◌, ◌≡◌, refl, sym, ap, ◌∙◌, inl, inr, Bool, true, List, [], ◌∷◌, ◌++◌, arith, ltb,
  Bool-cases, ok, Str, str, ℤ, pos, negsuc, decimal, ok≢err, String, Result,
}

-- The options that a dump and its restore have to agree on, in front of the log file.
abbrev pub shared_options : Str → List Str
shared_options images_dir =
    str "--images-dir"
    ∷ images_dir
    ∷ str "--shell-job"
    ∷ str "--tcp-established"
    ∷ str "--file-locks"
    ∷ str "--link-remap"
    ∷ str "--manage-cgroups=soft"
    ∷ str "--log-file"
    ∷ []

-- The call of a dump, and of a restore, with the program at this path.
abbrev pub dump_call : Str → ℕ → Str → Call
dump_call bin n images_dir =
    command bin
      (str "dump" ∷ str "--tree" ∷ decimal n ∷ (shared_options images_dir ++ str "dump.log" ∷ []))

abbrev pub restore_call : Str → Str → Call
restore_call bin images_dir =
    command bin (str "restore" ∷ (shared_options images_dir ++ str "restore.log" ∷ []))

-- A program that was found, and what the trace shows of it.
found :
    (os : Oracle) (name text : String) (t : Trace) {bin : Str}
    → (find_program os name text t).0 ≡ ok bin
    → (os t (look_path (str name)) ≡ ok bin)
      × ((find_program os name text t).1
          ≡ record { call = look_path (str name); answer = ok bin } ∷ t)
unfolding find_program attempt perform lift ◌>>=◌
found os name text t {bin} h = go (os t (look_path (str name))) refl h
  where
    go :
        (r : Result Str)
        → os t (look_path (str name)) ≡ r
        → or_text text r ≡ ok bin
        → (os t (look_path (str name)) ≡ ok bin)
          × (◌≡◌ {A = Trace}
              (record { call = look_path (str name); answer = os t (look_path (str name)) } ∷ t)
              (record { call = look_path (str name); answer = ok bin } ∷ t))
    go (ok x) e k =
        let same = e ∙ k in
        (same, ap (λ r. record { call = look_path (str name); answer = r } ∷ t) same)
    go (err x) e k = cc

module _ (os : Oracle) (images_dir : Str) (t : Trace) where
  process_dumped :
      (n : ℕ)
      → (dump_process os n images_dir t).0 ≡ ok tt
      → (bin : Str) × (os t (look_path (str "criu")) ≡ ok bin)
        × (log (dump_process os n images_dir t).1
            ≡ (dump_call bin n images_dir, true)
              ∷ (make_dir_all images_dir, true)
              ∷ (look_path (str "criu"), true)
              ∷ log t)
  unfolding dump_process dump_args
  process_dumped n h =
      let (bin, h1, k1, s1) = bind-ok (find_program os "criu" _) _ t h in
      let (at, t1) = found os "criu" _ t h1 in
      let (_, h2, k2, s2) = bind-ok (wrapping _ (perform os (make_dir_all images_dir))) _ _ k1 in
      let (_, t2) = performed os _ (make_dir_all images_dir) _ h2 in
      let (_, t3) = performed os "criu dump" (command bin (dump_args n images_dir)) _ k2 in
      (bin, at, rw (s1, s2, t3, t2, t1) refl)

  dumped :
      (pid : ℤ)
      → (dump os pid images_dir t).0 ≡ ok tt
      → (n : ℕ) × (bin : Str) × (pid ≡ pos n)
        × (0 < n)
        × (os t (look_path (str "criu")) ≡ ok bin)
        × (log (dump os pid images_dir t).1
            ≡ (dump_call bin n images_dir, true)
              ∷ (make_dir_all images_dir, true)
              ∷ (look_path (str "criu"), true)
              ∷ log t)
  unfolding dump raise
  dumped (pos n) h = elim (Bool-cases (ltb 0 n)) [
    | inl above ↦
        let (bin, at, e) = process_dumped n (rw above at h) in
        (n, bin, refl, ground arith, at, rw above e)
    | inr other ↦ absurd (ok≢err (sym (rw other at h)))
  ]
  dumped (negsuc n) h = cc

  restored :
      (restore os images_dir t).0 ≡ ok tt
      → (is_dir : Bool) × (bin : Str) × (os
            (record { call = stat images_dir; answer = ok is_dir } ∷ t)
            (look_path (str "criu"))
          ≡ ok bin)
        × (log (restore os images_dir t).1
            ≡ (restore_call bin images_dir, true)
              ∷ (look_path (str "criu"), true)
              ∷ (stat images_dir, true)
              ∷ log t)
  unfolding restore restore_args
  restored h =
      let (is_dir, h1, k1, s1) = bind-ok (wrapping _ (perform os (stat images_dir))) _ t h in
      let (_, t1) = performed os _ (stat images_dir) t h1 in
      let (bin, h2, k2, s2) = bind-ok (find_program os "criu" _) _ _ k1 in
      let (at, t2) = found os "criu" _ _ h2 in
      let (_, t3) = performed os "criu restore" (command bin (restore_args images_dir)) _ k2 in
      (is_dir, bin, rw t1 at at, rw (s1, s2, t3, t2, t1) refl)

module _ (os os' : Oracle) (pid : ℤ) (images_dir : Str) (t t' : Trace) where
  -- When a dump and a restore of one directory have succeeded, the process id was above 0, and each
  -- made exactly three calls, which succeeded: the dump looked criu up, made the directory and ran the
  -- program that was found; the restore asked for the directory, looked criu up and ran what was found.
  -- Both gave the program the same options: the same directory, and the same five switches.
  pub dump-restore :
      (dump os pid images_dir t).0 ≡ ok tt
      → (restore os' images_dir t').0 ≡ ok tt
      → ((n : ℕ) × (bin : Str) × (pid ≡ pos n)
          × (0 < n)
          × (os t (look_path (str "criu")) ≡ ok bin)
          × (log (dump os pid images_dir t).1
              ≡ (dump_call bin n images_dir, true)
                ∷ (make_dir_all images_dir, true)
                ∷ (look_path (str "criu"), true)
                ∷ log t))
        × ((is_dir : Bool) × (bin : Str) × (os'
                (record { call = stat images_dir; answer = ok is_dir } ∷ t')
                (look_path (str "criu"))
              ≡ ok bin)
            × (log (restore os' images_dir t').1
                ≡ (restore_call bin images_dir, true)
                  ∷ (look_path (str "criu"), true)
                  ∷ (stat images_dir, true)
                  ∷ log t'))
  dump-restore h h' = (dumped os images_dir t pid h, restored os' images_dir t' h')
