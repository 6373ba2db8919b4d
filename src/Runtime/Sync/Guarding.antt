-- ===== src/Runtime/Sync/Guarding.antt =====
-- `Run` of mvp/internal/runtime/runtime_linux.go between the start of the child and its release: either
-- all goes well and nothing has touched the child, or the child was killed.
use oci_container_runtime_fr.Runtime.Run.{
  kill_child, make_group, limit_child, connect_child, prepare_child, bridged,
}
use oci_container_runtime_fr.Runtime.Config.{Config}
use oci_container_runtime_fr.Runtime.Sync.Phases.{is_aside}
use oci_container_runtime_fr.Runtime.Sync.Quiet.{
  IsCall, create-Makes, add_pid-Makes, close_group-Makes, every_call, close_some-Makes,
}
use oci_container_runtime_fr.Cgroups.{FloatOps}
use oci_container_runtime_fr.Network.Setup.Holdings.{IsLocal, setup-Makes}
use oci_container_runtime_fr.Sys.{
  Call, signal, wait, close, Event, Trace, Oracle, Io, pure, finish, on_error, continue, ◌>>=◌,
  ◌>>◌, perform, ignoring, NewCalls, Makes, Makes-perform, Makes-wrapping, Makes-ignoring, no_calls,
  more_calls,
}
use oci_container_runtime_fr.Base.{
  ℕ, ◌≡◌, refl, sym, ap, ◌∙◌, ◌≢◌, Bool, true, false, Option, none, some, [], ◌∷◌, ◌++◌,
  append_assoc, arith, if◌then◌else◌, All, All-append, Result, ok, err, Str,
}

module _ (w pid : ℕ) where
  abbrev pub IsAside : Call → Type 0
  IsAside c = is_aside w pid c ≡ true

  IsAside-local : IsLocal IsAside
  IsAside-local = record { commands = λ n a. refl; files = λ p c. refl; directories = λ p. refl }

  -- A kill of the child, and calls before and behind it.
  pub record Killed (before after : Trace) : Type 0 where
    pub tidying : Trace
    pub quiet : Trace
    pub answer : Result (Unit {0})
    pub each : All (λ e. IsAside e.call) quiet
    pub parts :
        after
        ≡ tidying ++ (record { call = signal pid "SIGKILL"; answer = answer } ∷ (quiet ++ before))

  abbrev pub Outcome : {A : Type 0} → Trace → Result A → Trace → Type 0
  Outcome before (ok a) after = NewCalls IsAside before after
  Outcome before (err e) after = Killed before after

  pub record Guards {A : Type 0} (m : Io A) : Type 0 where
    pub guards : (t : Trace) → Outcome t (m t).0 (m t).1

  abbrev Kills : Io (Unit {0}) → Type 0
  Kills m = (t : Trace) → Killed t (m t).1

  Killed-later : {t u v : Trace} → NewCalls IsAside t u → Killed u v → Killed t v
  Killed-later {t} a k = record {
    tidying = k.tidying;
    quiet = k.quiet ++ a.new;
    answer = k.answer;
    each = All-append (λ (e : Event). IsAside e.call) k.quiet a.new k.each a.each;
    parts =
        k.parts
        ∙ ap (λ l. k.tidying ++ (record { call = signal pid "SIGKILL"; answer = k.answer } ∷ l))
            (ap (λ l. k.quiet ++ l) a.parts ∙ sym (append_assoc k.quiet a.new t));
  }

  Killed-before : {t u v : Trace} → Killed t u → NewCalls IsCall u v → Killed t v
  Killed-before {t} k a = record {
    tidying = a.new ++ k.tidying;
    quiet = k.quiet;
    answer = k.answer;
    each = k.each;
    parts = a.parts ∙ ap (λ l. a.new ++ l) k.parts ∙ sym (append_assoc a.new k.tidying _);
  }

  module _ {A B : Type 0} {m : Io A} where
    Guards-bind : {f : A → Io B} → Guards m → ((a : A) → Guards (f a)) → Guards (m >>= f)
    unfolding ◌>>=◌
    Guards-bind {f} g h = record { guards = λ t. go t (m t).0 (m t).1 (g.guards t) }
      where
        go :
            (t : Trace) (r : Result A) (t' : Trace)
            → Outcome t r t'
            → Outcome t (continue r f t').0 (continue r f t').1
        go t (ok a) t' k = extend t (f a t').0 t' (f a t').1 k ((h a).guards t')
          where
            extend :
                (t : Trace) (r : Result B) (u v : Trace)
                → NewCalls IsAside t u
                → Outcome u r v
                → Outcome t r v
            extend t (ok b) u v k o = more_calls k o
            extend t (err e) u v k o = Killed-later k o
        go t (err e) t' k = k

  module _ {A : Type 0} where
    Guards-pure : (a : A) → Guards (pure a)
    unfolding pure
    Guards-pure a = record { guards = λ t. no_calls t }

    Guards-if : (b : Bool) {m k : Io A} → Guards m → Guards k → Guards (if b then m else k)
    Guards-if true g h = g
    Guards-if false g h = h

    -- A failure kills the child.
    Guards-on_error :
        {m : Io A} (c : Io (Unit {0})) → Makes IsAside m → Kills c → Guards (on_error m c)
    unfolding on_error
    Guards-on_error {m} c k h = record { guards = λ t. go t (m t).0 (m t).1 (k.made t) }
      where
        go :
            (t : Trace) (r : Result A) (t' : Trace)
            → NewCalls IsAside t t'
            → Outcome t (finish r c t').0 (finish r c t').1
        go t (ok a) t' n = n
        go t (err e) t' n = Killed-later n (h t')

    -- An action whose result is not looked at.
    Guards-ignoring :
        {B : Type 0} {m : Io B} {k : Io A}
        → Makes IsAside m
        → Guards k
        → Guards (ignoring m >>= λ _. k)
    unfolding ignoring
    Guards-ignoring {m} k g = Guards-bind (record { guards = λ t. made_ignoring t }) (λ _. g)
      where
        made_ignoring : (t : Trace) → Outcome t (ignoring m t).0 (ignoring m t).1
        made_ignoring t = (Makes-ignoring k).made t

  module _ (os : Oracle) where
    kill_child-Kills : Kills (kill_child os pid)
    unfolding kill_child ignoring perform ◌>>=◌
    kill_child-Kills t = record {
      tidying =
          record {
            call = wait pid;
            answer =
                os
                  (record { call = signal pid "SIGKILL"; answer = os t (signal pid "SIGKILL") } ∷ t)
                  (wait pid);
          }
          ∷ [];
      quiet = [];
      answer = os t (signal pid "SIGKILL");
      each = tt;
      parts = refl;
    }

    killed_then : {k : Io (Unit {0})} → Makes IsCall k → Kills (kill_child os pid >> k)
    unfolding kill_child ◌>>=◌ ignoring perform
    killed_then {k} h t = Killed-before (kill_child-Kills t) (h.made (kill_child os pid t).1)

    module _ {F : Type 0} (fl : FloatOps F) (sha1 : Str → Str) (cfg : Config F)
        (rootfs id : Str) where
      limit_child-Guards : Guards (limit_child os fl cfg pid)
      unfolding limit_child make_group
      limit_child-Guards =
          Guards-if _
            (Guards-bind
              (Guards-on_error _
                (Makes-wrapping
                  (create-Makes os IsAside IsAside-local (λ _. refl) (λ _. (refl, refl)) fl
                    cfg.limits pid)
                  _)
                kill_child-Kills)
              (λ path.
                Guards-bind
                  (Guards-on_error _
                    (Makes-wrapping
                      (add_pid-Makes os IsAside IsAside-local (λ _. refl) (λ _. (refl, refl)) path
                        pid)
                      _)
                    (killed_then (
                      Makes-ignoring
                        (close_group-Makes os IsCall every_call (λ _. tt) (λ _. (tt, tt)) path))))
                  (λ _. Guards-pure (some path))))
            (Guards-pure none)

      connect_child-Guards :
          (path : Option Str)
          → cfg.rootless.enabled ≡ false
          → Guards (connect_child os sha1 cfg rootfs id pid path)
      unfolding connect_child
      connect_child-Guards path h = rw h (
          Guards-bind
            (Guards-on_error _ (Makes-wrapping (setup-Makes os IsAside-local sha1 _) _)
              (killed_then (close_some-Makes os IsCall every_call (λ _. tt) (λ _. (tt, tt)) path)))
            (λ n. Guards-pure (bridged n)))

      pub prepare_child-Guards :
          (read_end : ℕ)
          → cfg.rootless.enabled ≡ false
          → read_end ≢ w
          → Guards (prepare_child os fl sha1 cfg rootfs id read_end pid)
      unfolding prepare_child
      prepare_child-Guards read_end h h' =
          Guards-ignoring (Makes-perform os (close read_end) (other read_end h')) (
            Guards-bind limit_child-Guards
              (λ path. Guards-bind (connect_child-Guards path h) (λ c. Guards-pure _)))
        where
          other : (fd : ℕ) → fd ≢ w → IsAside (close fd)
          other fd n = ground arith
