-- ===== src/Slirp/Release.antt =====
-- What `Setup` of mvp/internal/slirp/slirp_linux.go holds, and `Teardown` gives back.
use oci_container_runtime_fr.Slirp.{
  Config, Handle, ready_result, exited_in_time, ready_timeout, wait_ready, write_resolv_conf,
  close_both, stop, await_setup, setup, teardown,
}
use oci_container_runtime_fr.Sys.{
  signal, wait, close, await_byte, Trace, Oracle, Io, ◌>>=◌, ◌>>◌, perform, ignoring, when,
  Resource, descriptor, process, held, either_way, Moves, Keeps, Keeps-perform, Keeps-pure,
  Keeps-lift, Keeps-attempt, Keeps-ignoring, Keeps-bind, Keeps-when, Keeps-env, Keeps-make_dir_all,
  Keeps-write_file, Keeps-signal, find_program-Keeps, Sure, Sure-ignoring, Sure-env, Sure-pure,
  Sure-when, Sure-bind, Moves-Sure, Moves-ignored, Moves-kept, Moves-pure, after_exit,
  Moves-await_exit, Moves-Keeps, Moves-wrapping, Moves-bind, Moves-on_error, Moves-make_pipe,
  Moves-start, Moves-close, Moves-wait,
}
use oci_container_runtime_fr.Base.{
  ℕ, ◌≡◌, refl, Bool, true, false, not, List, [], ◌∷◌, ◌++◌, arith, Result, ok, err, Str, ℤ,
}

-- What a running slirp4netns is.
abbrev pub resources : Handle → List Resource
resources h = process h.pid ∷ descriptor h.ready_end ∷ []

-- A set-up and, if it succeeds, the teardown of what it gave.
unfoldable pub session : Oracle → Config → Io (Unit {0})
session os cfg = do h ← setup os cfg; teardown os h

module _ (os : Oracle) where
  ready_timeout-Keeps : Keeps (ready_timeout os)
  unfolding ready_timeout
  ready_timeout-Keeps = search (Keeps-bind, Keeps-env, Keeps-pure)

  ready_timeout-Sure : Sure (ready_timeout os)
  unfolding ready_timeout
  ready_timeout-Sure = Sure-bind _ _ (Sure-env os _) (λ v. Sure-pure _)

  wait_ready-Keeps : (fd : ℕ) (limit : ℤ) → Keeps (wait_ready os fd limit)
  unfolding wait_ready
  wait_ready-Keeps fd limit =
      Keeps-bind (Keeps-attempt (Keeps-perform os (await_byte fd limit) refl))
        (λ r. Keeps-lift (ready_result r))

  write_resolv_conf-Keeps : (rootfs : Str) → Keeps (write_resolv_conf os rootfs)
  unfolding write_resolv_conf
  write_resolv_conf-Keeps rootfs = search (Keeps-bind, Keeps-make_dir_all, Keeps-write_file)

  module _ (from : List Resource) where
    stop-Moves :
        (pid fd : ℕ) → Moves (process pid ∷ descriptor fd ∷ from) (stop os pid fd) (λ _. from)
    unfolding stop
    stop-Moves pid fd = Moves-kept (Keeps-signal os pid "SIGKILL") (
        Moves-ignored _ (Moves-wait os (descriptor fd ∷ from) pid (λ x. refl))
          (Moves-close os from fd (λ x. refl)))

    close_both-Moves :
        (r w : ℕ) → Moves (descriptor r ∷ descriptor w ∷ from) (close_both os r w) (λ _. from)
    unfolding close_both
    close_both-Moves r w =
        Moves-ignored _ (Moves-close os (descriptor w ∷ from) r (λ x. refl))
          (Moves-close os from w (λ x. refl))

    await_setup-Moves :
        (cfg : Config) (pid fd : ℕ)
        → Moves
            (process pid ∷ descriptor fd ∷ from)
            (await_setup os cfg pid fd)
            (either_way (λ h. resources h ++ from) from)
    unfolding await_setup
    await_setup-Moves cfg pid fd =
        Moves-Sure ready_timeout-Sure (Moves-Keeps ready_timeout-Keeps) (λ limit.
          Moves-bind
            (Moves-on_error {to = either_way (λ _. process pid ∷ descriptor fd ∷ from) from}
              (Moves-Keeps (wait_ready-Keeps fd limit)) (λ e. stop-Moves pid fd) (λ a x. refl))
            (λ _.
              Moves-Sure (Sure-when _ (Sure-ignoring _))
                (Moves-Keeps (Keeps-when _ (Keeps-ignoring (write_resolv_conf-Keeps cfg.rootfs))))
                (λ _. Moves-pure _ (λ x. refl)))
            (λ e x. refl))

    -- A set-up that fails holds nothing; one that succeeds holds the process and the read end.
    pub setup-Moves :
        (cfg : Config) → Moves from (setup os cfg) (either_way (λ h. resources h ++ from) from)
    unfolding setup
    setup-Moves cfg =
        Moves-bind (Moves-Keeps (find_program-Keeps os _ _))
          (λ bin.
            Moves-bind (Moves-wrapping "slirp: pipe" (Moves-make_pipe os from))
              (λ p.
                Moves-bind
                  (Moves-on_error
                    {to = either_way (λ pid. process pid ∷ descriptor p.0 ∷ descriptor p.1 ∷ from)
                      from}
                    (Moves-wrapping "slirp: spawn"
                      (Moves-start os (descriptor p.0 ∷ descriptor p.1 ∷ from) _))
                    (λ e. close_both-Moves p.0 p.1) (λ a x. refl))
                  (λ pid.
                    Moves-ignored _
                      (Moves-close os (process pid ∷ descriptor p.0 ∷ from) p.1 (λ x. omega arith))
                      (await_setup-Moves cfg pid p.0))
                  (λ e x. refl))
              (λ e x. refl))
          (λ e x. refl)

    after_wait :
        (h : Handle) (r : Result Bool)
        → Moves
            (after_exit h.pid (descriptor h.ready_end ∷ from) r)
            (when (not (exited_in_time r)) (
                ignoring (perform os (signal h.pid "SIGKILL"))
                >> ignoring (perform os (wait h.pid)))
              >> ignoring (perform os (close h.ready_end)))
            (λ _. from)
    unfolding when
    after_wait h (ok true) =
        Moves-Sure (Sure-pure tt) (Moves-Keeps (Keeps-pure tt))
          (λ _. Moves-close os from h.ready_end (λ x. refl))
    after_wait h (ok false) =
        Moves-Sure (Sure-bind _ _ (Sure-ignoring _) (λ _. Sure-ignoring _))
          (Moves-kept (Keeps-signal os h.pid "SIGKILL")
            (Moves-wait os (descriptor h.ready_end ∷ from) h.pid (λ x. refl)))
          (λ _. Moves-close os from h.ready_end (λ x. refl))
    after_wait h (err e) =
        Moves-Sure (Sure-pure tt) (Moves-Keeps (Keeps-pure tt))
          (λ _. Moves-close os from h.ready_end (λ x. refl))

    pub teardown-Moves : (h : Handle) → Moves (resources h ++ from) (teardown os h) (λ _. from)
    unfolding teardown
    teardown-Moves h =
        Moves-kept (Keeps-signal os h.pid "SIGTERM")
          (Moves-await_exit os h.pid _ (descriptor h.ready_end ∷ from) (λ r. after_wait h r))

    -- Whatever comes of it, a session of slirp4netns leaves nothing behind.
    pub session-Moves : (cfg : Config) → Moves from (session os cfg) (λ _. from)
    unfolding session
    session-Moves cfg = Moves-bind (setup-Moves cfg) (λ h. teardown-Moves h) (λ e x. refl)

  -- Whatever the calls answer, a `Setup` and, if it succeeds, the `Teardown` of what it gave leave as
  -- many pipe ends and processes held as there were before.
  pub session_releases :
      (cfg : Config) (t : Trace) (x : Resource) → held (session os cfg t).1 x ≡ held t x
  session_releases cfg t x =
      let e = (session-Moves [] cfg).moves t (held t) (λ y. omega arith) x in omega (arith, e)
