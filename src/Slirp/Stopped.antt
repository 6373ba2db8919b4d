-- ===== src/Slirp/Stopped.antt =====
-- How `Teardown` of mvp/internal/slirp/slirp_linux.go ends.
use oci_container_runtime_fr.Slirp.{Handle, second, exited_in_time, teardown}
use oci_container_runtime_fr.Sys.{
  Call, signal, wait, close, await_exit, Trace, Oracle, pure, attempt, ◌>>=◌, ◌>>◌, perform,
  ignoring, calls, when,
}
use oci_container_runtime_fr.Base.{
  ◌*◌, ◌≡◌, refl, ◌≢◌, ◌⊎◌, inl, inr, Bool, true, false, not, List, ◌∷◌, Result, ok, err, pos,
}

abbrev pub asked : Handle → List Call → List Call
asked h before = await_exit h.pid (pos (2 * second)) ∷ signal h.pid "SIGTERM" ∷ before

module _ (os : Oracle) (h : Handle) where
  -- What the wait against the timer tells: true for the process's end, false for the timer.
  abbrev pub waited : Trace → Result Bool
  waited t =
      let asked_to_end = (ignoring (perform os (signal h.pid "SIGTERM")) t).1 in
      (perform os (await_exit h.pid (pos (2 * second))) asked_to_end).0

  behind_wait :
      (r : Result Bool) (t : Trace)
      → let m =
          when
            (not (exited_in_time r))
            (ignoring (perform os (signal h.pid "SIGKILL")) >> ignoring (perform os (wait h.pid)))
          >> ignoring (perform os (close h.ready_end)) in
        ((m t).0 ≡ ok tt)
        × (((r ≡ ok false)
              × (calls (m t).1 ≡ close h.ready_end ∷ wait h.pid ∷ signal h.pid "SIGKILL" ∷ calls t))
            ⊎ ((r ≢ ok false) × (calls (m t).1 ≡ close h.ready_end ∷ calls t)))
  unfolding ignoring perform when pure ◌>>=◌
  behind_wait (ok true) t = (refl, inr (cc, refl))
  behind_wait (ok false) t = (refl, inl (refl, refl))
  behind_wait (err e) t = (refl, inr (cc, refl))

  -- `Teardown` always succeeds. It asks the process to end and waits for it, and closes the pipe's end
  -- at last; in between, exactly if the timer of two seconds fires first, it kills the process and
  -- waits for it without a limit.
  pub teardown_stops :
      (t : Trace)
      → ((teardown os h t).0 ≡ ok tt)
        × (((waited t ≡ ok false)
              × (calls (teardown os h t).1
                  ≡ close h.ready_end ∷ wait h.pid ∷ signal h.pid "SIGKILL" ∷ asked h (calls t)))
            ⊎ ((waited t ≢ ok false)
                × (calls (teardown os h t).1 ≡ close h.ready_end ∷ asked h (calls t))))
  unfolding teardown attempt ignoring perform ◌>>=◌
  teardown_stops t = behind_wait (waited t) _
