-- ===== src/Network/Setup/Restored.antt =====
-- What the packet filter holds after `Setup` and `Teardown` of mvp/internal/network/bridge_linux.go.
use oci_container_runtime_fr.Network.Types.{PortMapping, Config, Network, run}
use oci_container_runtime_fr.Network.Publish.{add_publish_rules, del_publish_rules}
use oci_container_runtime_fr.Network.Publish.Symmetry.{
  done_all, GrantsEdits, add_publish_log, del_publish_log, del_publish_calls,
}
use oci_container_runtime_fr.Network.Publish.Table.{
  Rule, Firewall, effect, filter_after, published, append_all, delete_all,
}
use oci_container_runtime_fr.Network.Bridge.Standing.{standing, times}
use oci_container_runtime_fr.Network.Setup.{
  delete_link, or_delete, publish_all, unpublish_all, teardown,
}
use oci_container_runtime_fr.Network.Setup.Teardown.{delete_call}
use oci_container_runtime_fr.Sys.{
  Call, Trace, Oracle, is_ok, pure, lift, wrapping, attempt, ◌>>=◌, perform, ignoring, log, when,
  bind-ok, on_error-ok,
}
use oci_container_runtime_fr.Base.{
  ◌+◌, ◌-◌, ◌≡◌, refl, ap, ◌∙◌, Bool, true, false, List, [], ◌∷◌, arith, if◌then◌else◌, ok, Str,
  str, str_eq, is_empty,
}

module _ (os : Oracle) where
  log-publish_all :
      (veth id ip : Str) (pms : List PortMapping) (t : Trace)
      → (publish_all os veth id ip pms t).0 ≡ ok tt
      → log (publish_all os veth id ip pms t).1 ≡ done_all "-A" id ip pms (log t)
  unfolding publish_all or_delete pure
  log-publish_all veth id ip [] t h = refl
  log-publish_all veth id ip (pm ∷ pms) t h =
      let (_, added, rest, same) =
        bind-ok (or_delete os veth (add_publish_rules os id ip pm)) _ t h in
      let (done, kept) =
        on_error-ok (add_publish_rules os id ip pm) (delete_link os veth) t added in
      rw same (
        log-publish_all veth id ip pms _ rest
        ∙ ap (done_all "-A" id ip pms)
            (ap (λ r. log r.1) kept ∙ add_publish_log os id ip pm t done))

  log-unpublish_all :
      (id ip : Str) (pms : List PortMapping) (t : Trace)
      → GrantsEdits os
      → log (unpublish_all os id ip pms (ok tt) t).1 ≡ done_all "-D" id ip pms (log t)
  unfolding unpublish_all attempt lift ◌>>=◌
  log-unpublish_all id ip [] t grants = refl
  log-unpublish_all id ip (pm ∷ pms) t grants =
      let (fine, _) = del_publish_calls os id ip pm t in
      rw fine (
        log-unpublish_all id ip pms (del_publish_rules os id ip pm t).1 grants
        ∙ ap (done_all "-D" id ip pms) (del_publish_log os id ip pm t grants))

  -- The log of Teardown: the deletions of the rules, and behind them that of the pair.
  log-teardown :
      (n : Network) (cfg : Config) (t : Trace)
      → is_empty n.host_veth ≡ false
      → GrantsEdits os
      → (done : Bool) × (log (teardown os n cfg t).1
          ≡ (delete_call n.host_veth, done)
            ∷ done_all "-D" cfg.container_id n.container_ip n.port_mappings (log t))
  unfolding teardown attempt lift when delete_link ignoring run wrapping perform ◌>>=◌
  log-teardown n cfg t named grants =
      let before = (unpublish_all os cfg.container_id n.container_ip n.port_mappings (ok tt) t).1 in
      let done = is_ok (os before (delete_call n.host_veth)) in
      rw named (
        done,
        ap (◌∷◌ (delete_call n.host_veth, done))
            (log-unpublish_all cfg.container_id n.container_ip n.port_mappings t grants),
      )

module _ {State : Type 0} (fw : Firewall State) (s : State) where
  standing-filter_after : (t : Trace) → standing fw s t ≡ filter_after fw (log t) s
  unfolding standing
  standing-filter_after [] = refl
  standing-filter_after (e ∷ t) =
      ap (λ u. if is_ok e.answer then effect fw e.call u else u) (standing-filter_after t)

  times-log : (t : Trace) (x : Rule) → times fw s t x ≡ fw.count (filter_after fw (log t) s) x
  times-log t x = ap (λ u. fw.count u x) (standing-filter_after t)

  -- Publishing that succeeds adds each rule of each mapping once to the packet filter.
  pub publish_all_adds :
      (os : Oracle) (veth id ip : Str) (pms : List PortMapping) (t : Trace) (x : Rule)
      → (publish_all os veth id ip pms t).0 ≡ ok tt
      → times fw s (publish_all os veth id ip pms t).1 x ≡ published id ip pms x + times fw s t x
  publish_all_adds os veth id ip pms t x h =
      times-log (publish_all os veth id ip pms t).1 x
      ∙ rw (log-publish_all os veth id ip pms t h, times-log t x)
          (append_all fw id ip s x pms (log t))

  -- A command of ip leaves the filter as it is.
  delete_call-filter :
      (veth : Str) (done : Bool) (before : List (Call × Bool))
      → filter_after fw ((delete_call veth, done) ∷ before) s ≡ filter_after fw before s
  unfolding str str_eq
  delete_call-filter veth true before = refl
  delete_call-filter veth false before = refl

  -- Teardown takes each rule of each mapping away once.
  teardown_takes :
      (os : Oracle) (n : Network) (cfg : Config) (t : Trace) (x : Rule)
      → is_empty n.host_veth ≡ false
      → GrantsEdits os
      → times fw s (teardown os n cfg t).1 x
        ≡ times fw s t x - published cfg.container_id n.container_ip n.port_mappings x
  teardown_takes os n cfg t x named grants =
      let id = cfg.container_id in
      let (done, same) = log-teardown os n cfg t named grants in
      times-log (teardown os n cfg t).1 x
      ∙ ap (λ l. fw.count (filter_after fw l s) x) same
      ∙ ap (λ u. fw.count u x)
          (delete_call-filter n.host_veth done
            (done_all "-D" id n.container_ip n.port_mappings (log t)))
      ∙ rw (times-log t x) (delete_all fw id n.container_ip s x n.port_mappings (log t))

  -- After publishing that succeeded, a `Teardown` of that network leaves the packet filter with each
  -- rule as often as it had it before, where iptables refuses none of the commands of `Teardown` and
  -- the rule stood as often when `Teardown` began as when publishing ended. A command that is refused
  -- changes nothing in the filter, and the order of its rules is forgotten.
  pub teardown_restores :
      (os : Oracle) (n : Network) (cfg : Config) (t : Trace) (x : Rule)
      → is_empty n.host_veth ≡ false
      → (publish_all os n.host_veth cfg.container_id n.container_ip n.port_mappings t).0 ≡ ok tt
      → (os' : Oracle) (t' : Trace) → GrantsEdits os'
      → times fw s t' x
        ≡ times fw s
            (publish_all os n.host_veth cfg.container_id n.container_ip n.port_mappings t).1
            x
      → times fw s (teardown os' n cfg t').1 x ≡ times fw s t x
  teardown_restores os n cfg t x named h os' t' grants same =
      let removed = teardown_takes os' n cfg t' x named grants in
      let added =
        publish_all_adds os n.host_veth cfg.container_id n.container_ip n.port_mappings t x h in
      omega (arith, removed, same, added)
