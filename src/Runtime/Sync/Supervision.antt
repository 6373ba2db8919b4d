-- ===== src/Runtime/Sync/Supervision.antt =====
-- The calls of `Run` of mvp/internal/runtime/runtime_linux.go behind the start of the child, for a
-- container that is not rootless, as a course of the play between the two processes.
use oci_container_runtime_fr.Runtime.Run.{Running, prepare_child, finish_child, supervise}
use oci_container_runtime_fr.Runtime.Config.{Config}
use oci_container_runtime_fr.Runtime.Sync.{since}
use oci_container_runtime_fr.Runtime.Sync.Phases.{IsSparing, Course, release, kill, aside}
use oci_container_runtime_fr.Runtime.Sync.Quiet.{finish_child-IsSparing}
use oci_container_runtime_fr.Runtime.Sync.Bridged.{IsBridged, prepared-IsBridged}
use oci_container_runtime_fr.Runtime.Sync.Guarding.{IsAside, Killed, Outcome, prepare_child-Guards}
use oci_container_runtime_fr.Cgroups.{FloatOps}
use oci_container_runtime_fr.Sys.{
  Call, signal, close, Event, Trace, Oracle, is_ok, Io, finish, on_error, continue, ◌>>=◌, ◌>>◌,
  perform, ignoring, calls, NewCalls,
}
use oci_container_runtime_fr.Base.{
  ℕ, ◌+◌, ◌-◌, ◌≡◌, refl, sym, ap, ◌∙◌, ◌≢◌, Bool, true, false, List, [], ◌∷◌, ◌++◌, reverse,
  reverse-append, reverse-reverse, append-nil, append_assoc, arith, length, length-append,
  take-append, All, Result, ok, err, Str, All-reverse,
}

calls-append : (a b : Trace) → calls (a ++ b) ≡ calls a ++ calls b
calls-append [] b = refl
calls-append (e ∷ a) b = ap (λ l. e.call ∷ l) (calls-append a b)

-- The calls that an action added.
since-append : (new t : Trace) → since t (new ++ t) ≡ reverse (calls new)
since-append new t =
    rw (added (length-append new t)) (ap (λ l. reverse (calls l)) (take-append new t))
  where
    added : length (new ++ t) ≡ length new + length t → length (new ++ t) - length t ≡ length new
    added h = omega (arith, h)

-- The calls before one of them, and those behind it.
pub since-around :
    (new : Trace) (e : Event) (old t : Trace)
    → since t (new ++ (e ∷ (old ++ t))) ≡ reverse (calls old) ++ (e.call ∷ reverse (calls new))
since-around new e old t =
    ap (since t) (sym (append_assoc new (e ∷ old) t))
    ∙ since-append (new ++ (e ∷ old)) t
    ∙ ap reverse (calls-append new (e ∷ old))
    ∙ reverse-append (calls new) (e.call ∷ calls old)
    ∙ ap (λ l. l ++ reverse (calls new)) (reverse-append (e.call ∷ []) (calls old))
    ∙ append_assoc (reverse (calls old)) (e.call ∷ []) (reverse (calls new))

around :
    (t : Trace) {u v : Trace} (new : Trace) (e : Event) (old : Trace)
    → u ≡ old ++ t
    → v ≡ new ++ (e ∷ u)
    → since t v ≡ reverse (calls old) ++ (e.call ∷ reverse (calls new))
around t new e old hu hv =
    ap (since t) (hv ∙ ap (λ l. new ++ (e ∷ l)) hu) ∙ since-around new e old t

module _ (w pid : ℕ) where
  module _ {ready : List Call} {b : Bool} where
    -- Calls with no part in the play come in front.
    through :
        (new : Trace) {done left : List Call}
        → All (λ e. IsAside w pid e.call) new
        → Course w pid ready b (calls new ++ done) left
        → Course w pid ready b done (reverse (calls new) ++ left)
    through [] h course = course
    through (e ∷ new) {done} {left} h course = rw (reverse-append (e.call ∷ []) (calls new)) (
        rw (append_assoc (reverse (calls new)) (e.call ∷ []) left)
          (through new h.1 (aside e.call h.0 course)))

  All-calls :
      (P : Call → Type 0) (new : Trace) → All (λ (e : Event). P e.call) new → All P (calls new)
  All-calls P [] h = tt
  All-calls P (e ∷ new) (h, hs) = (h, All-calls P new hs)

  -- A release behind quiet calls.
  released-Course :
      {t u v : Trace} (answer : Result (Unit {0}))
      → NewCalls (IsAside w pid) t u
      → NewCalls (IsSparing w pid) (record { call = close w; answer = answer } ∷ u) v
      → Course w pid (reverse (since t u)) true [] (since t v)
  released-Course {t} {u} {v} answer k m =
      rw (around t m.new (record { call = close w; answer = answer }) k.new k.parts m.parts)
        (rw quiet_calls (through k.new k.each (rw (append-nil (calls k.new)) (release spared))))
    where
      quiet_calls : reverse (since t u) ≡ calls k.new
      quiet_calls =
          ap reverse (ap (since t) k.parts ∙ since-append k.new t) ∙ reverse-reverse (calls k.new)

      spared : All (IsSparing w pid) (reverse (calls m.new))
      spared =
          All-reverse (IsSparing w pid) (calls m.new) (All-calls (IsSparing w pid) m.new m.each)

  Killed-Course :
      {t u : Trace} {ready : List Call} (e : Event)
      → Killed w pid t u
      → Course w pid ready false [] (since t (e ∷ u))
  Killed-Course {t} {u} e k =
      rw
        (around t (e ∷ k.tidying) (record { call = signal pid "SIGKILL"; answer = k.answer })
          k.quiet refl (ap (λ l. e ∷ l) k.parts))
        (through k.quiet k.each kill)

  module _ (os : Oracle) {F : Type 0} (fl : FloatOps F) (sha1 : Str → Str) (cfg : Config F)
      (rootfs id : Str) (read_end : ℕ) where
    abbrev pub prepare : Io Running
    prepare = prepare_child os fl sha1 cfg rootfs id read_end pid

    abbrev pub oversee : Io (Unit {0})
    oversee = supervise os fl sha1 cfg rootfs id (read_end, w) pid

    -- The calls of the parent lead to the release of the child if the preparation succeeded, and to
    -- its kill if not.
    pub oversee-Course :
        (t : Trace)
        → cfg.rootless.enabled ≡ false
        → read_end ≢ w
        → Course w pid
            (reverse (since t (prepare t).1))
            (is_ok (prepare t).0)
            []
            (since t (oversee t).1)
    unfolding supervise on_error ignoring perform ◌>>=◌
    oversee-Course t h h' =
        go (prepare t).0 (prepare t).1
          (λ c. prepared-IsBridged os sha1 cfg rootfs id fl read_end pid t c h)
          ((prepare_child-Guards w pid os fl sha1 cfg rootfs id read_end h h').guards t)
      where
        after : Result Running → Trace → Trace
        after r u =
            let prepared = finish r (ignoring (perform os (close w))) u in
            (continue prepared.0
              (λ c. do ignoring (perform os (close w)); finish_child os fl sha1 cfg rootfs id c)
              prepared.1).1

        go :
            (r : Result Running) (u : Trace)
            → ((c : Running) → r ≡ ok c → IsBridged c.connection)
            → Outcome w pid t r u
            → Course w pid (reverse (since t u)) (is_ok r) [] (since t (after r u))
        go (ok c) u on_bridge k =
            let (n, e) = on_bridge c refl in
            released-Course (os u (close w)) k (
              (finish_child-IsSparing os w sha1 cfg rootfs id fl pid c n e).made
                (record { call = close w; answer = os u (close w) } ∷ u))
        go (err e) u on_bridge k =
            Killed-Course (record { call = close w; answer = os u (close w) }) k
