-- ===== src/Network/Bridge/Unique.antt =====
-- `EnsureBridge` of mvp/internal/network/bridge_linux.go does not stack up rules of the packet filter.
use oci_container_runtime_fr.Network.Bridge.Standing.{
  asked_for, standing, times, Agrees, IsUnstacked, Unstacked, Unstacked-wrapping, Unstacked-attempt,
  Unstacked-bind, Unstacked-when, untouched, appended,
}
use oci_container_runtime_fr.Network.Types.{run}
use oci_container_runtime_fr.Network.Bridge.{
  masquerade_rule, forward_rule, unless, create_bridge, ensure_bridge,
}
use oci_container_runtime_fr.Network.Publish.Table.{Rule, Firewall, edit, effect}
use oci_container_runtime_fr.Sys.{
  write_file, command, Event, Trace, Oracle, is_ok, Io, pure, wrapping, attempt, ◌>>=◌, perform,
  ignoring, when,
}
use mathlib.Core.Path.{subst}
use oci_container_runtime_fr.Base.{
  ℕ, String, ◌≡◌, refl, sym, ap, inl, Bool, true, false, not, some, List, ◌∷◌, arith, ltb,
  if◌then◌else◌, drop, Result, ok, err, wrapped, Str, str, str_eq,
}

module _ {State : Type 0} (fw : Firewall State) (s : State) where
  module _ (os : Oracle) (agree : Agrees fw s os) where
    run-Unstacked :
        (name : String) (args : List Str)
        → ((u : State) → effect fw (command (str name) args) u ≡ u)
        → Unstacked fw s (run os name args)
    unfolding run
    run-Unstacked name args h =
        Unstacked-wrapping fw s (untouched fw s os (command (str name) args) h) _

    -- The arguments that ask for a rule, and those that append it.
    record IsPair (check add : List Str) (r : Rule) : Type 0 where
      asks : asked_for check ≡ some r
      inert : (u : State) → edit fw check u ≡ u
      adds : (u : State) → edit fw add u ≡ fw.append r u

    absent : (n : ℕ) → false ≡ ltb 0 n → n ≡ 0
    absent n h = ground arith

    guarded :
        (check add : List Str) (r : Rule) (m : Io (Unit {0}))
        → IsPair check add r
        → ((t : Trace) → (m t).1 ≡ (run os "iptables" add t).1)
        → Unstacked fw s (unless os (run os "iptables" check) m)
    unfolding unless run attempt wrapping perform ◌>>=◌ when pure standing str str_eq
    guarded check add r m p same = record {
      unstacked =
          λ t x. go t x (os t (command (str "iptables") check)) (agree.agrees t check r p.asks);
    }
      where
        added :
            (t : Trace) (x : Rule) (b : Bool)
            → false ≡ ltb 0 (times fw s t r)
            → IsUnstacked fw s
                (times fw s t x)
                (fw.count (if b then edit fw add (standing fw s t) else standing fw s t) x)
        added t x true h =
            subst (λ u. IsUnstacked fw s (times fw s t x) (fw.count u x))
              (sym (p.adds (standing fw s t)))
              (appended fw s r x (standing fw s t) (absent (times fw s t r) h))
        added t x false h = inl refl

        go :
            (t : Trace) (x : Rule) (a : Result (Unit {0}))
            → is_ok a ≡ ltb 0 (times fw s t r)
            → IsUnstacked fw s (times fw s t x) (
                times fw s
                  (when
                    (not (is_ok (wrapped "run" a)))
                    m
                    (record { call = command (str "iptables") check; answer = a } ∷ t)).1
                  x)
        go t x (ok u) h = inl (ap (λ u. fw.count u x) (p.inert (standing fw s t)))
        go t x (err e) h =
            let refused : Event = record {
              call = command (str "iptables") check;
              answer = err e;
            } in
            subst (λ u. IsUnstacked fw s (times fw s t x) (times fw s u x))
              (sym (same (refused ∷ t)))
              (added t x (is_ok (os (refused ∷ t) (command (str "iptables") add))) h)

    unless-Unstacked :
        {check m : Io (Unit {0})}
        → Unstacked fw s check
        → Unstacked fw s m
        → Unstacked fw s (unless os check m)
    unfolding unless
    unless-Unstacked k h =
        Unstacked-bind fw s (Unstacked-attempt fw s k) (λ found. Unstacked-when fw s _ h)

    create_bridge-Unstacked : Unstacked fw s (create_bridge os)
    unfolding create_bridge str str_eq
    create_bridge-Unstacked =
        Unstacked-bind fw s (Unstacked-wrapping fw s (run-Unstacked "ip" _ (λ u. refl)) _)
          (λ _. Unstacked-wrapping fw s (run-Unstacked "ip" _ (λ u. refl)) _)

    masquerade : Rule
    masquerade = str "nat" ∷ str "POSTROUTING" ∷ drop 4 (masquerade_rule "-A")

    forwarded : String → Rule
    forwarded direction = str "filter" ∷ drop 1 (forward_rule "-A" direction)

    masquerade-Unstacked : Unstacked fw s (
        unless os
          (run os "iptables" (masquerade_rule "-C"))
          (wrapping "install MASQUERADE" (run os "iptables" (masquerade_rule "-A"))))
    unfolding wrapping masquerade str str_eq
    masquerade-Unstacked =
        guarded (masquerade_rule "-C") (masquerade_rule "-A") masquerade
          (wrapping "install MASQUERADE" (run os "iptables" (masquerade_rule "-A")))
          (record { asks = refl; inert = λ u. refl; adds = λ u. refl }) (λ t. refl)

    forward-Unstacked :
        (direction : String)
        → Unstacked fw s (
            unless os
              (run os "iptables" (forward_rule "-C" direction))
              (ignoring (run os "iptables" (forward_rule "-A" direction))))
    unfolding ignoring forwarded str str_eq
    forward-Unstacked direction =
        guarded (forward_rule "-C" direction) (forward_rule "-A" direction) (forwarded direction)
          (ignoring (run os "iptables" (forward_rule "-A" direction)))
          (record { asks = refl; inert = λ u. refl; adds = λ u. refl }) (λ t. refl)

    ensure_bridge-Unstacked : Unstacked fw s (ensure_bridge os)
    unfolding ensure_bridge str str_eq
    ensure_bridge-Unstacked =
        Unstacked-bind fw s
          (unless-Unstacked (run-Unstacked "ip" _ (λ u. refl)) create_bridge-Unstacked)
          (λ _.
            Unstacked-bind fw s (Unstacked-wrapping fw s (run-Unstacked "ip" _ (λ u. refl)) _) (λ _.
              Unstacked-bind fw s
                (Unstacked-wrapping fw s
                  (untouched fw s os (write_file (str "/proc/sys/net/ipv4/ip_forward") (str "1"))
                    (λ u. refl))
                  "enable ip_forward")
                (λ _. Unstacked-bind fw s masquerade-Unstacked (λ _.
                  Unstacked-bind fw s (forward-Unstacked "-i") (λ _. forward-Unstacked "-o")))))

    -- Whatever the calls answer, and wherever EnsureBridge returns, it has changed how often a rule
    -- stands in the packet filter only from none to one, where iptables -C tells which rules stand there.
    -- So a rule is never stacked on itself, however often EnsureBridge is run.
    pub ensure_bridge_once :
        (t : Trace) (x : Rule)
        → IsUnstacked fw s (times fw s t x) (times fw s (ensure_bridge os t).1 x)
    ensure_bridge_once t x = ensure_bridge-Unstacked.unstacked t x
