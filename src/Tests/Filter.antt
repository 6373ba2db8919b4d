-- ===== src/Tests/Filter.antt =====
-- The packet filter's theorems at a filter that counts.
use oci_container_runtime_fr.Tests.Concrete.{granting}
use oci_container_runtime_fr.Tests.Network.{web, dns, box}
use oci_container_runtime_fr.Network.Bridge.{ensure_bridge}
use oci_container_runtime_fr.Network.Bridge.Standing.{asked_for, times, Agrees, IsUnstacked}
use oci_container_runtime_fr.Network.Bridge.Unique.{ensure_bridge_once}
use oci_container_runtime_fr.Network.Types.{Network, run}
use oci_container_runtime_fr.Network.Publish.{add_publish_rules}
use oci_container_runtime_fr.Network.Publish.Table.{Rule, rule_eq, one_if, Firewall, nat_rule}
use oci_container_runtime_fr.Network.Setup.{or_delete, publish_all, teardown}
use oci_container_runtime_fr.Network.Setup.Restored.{teardown_restores}
use oci_container_runtime_fr.Sys.{
  command, Trace, Oracle, is_ok, pure, wrapping, on_error, ◌>>=◌, perform,
}
use oci_container_runtime_fr.Base.{
  ℕ, ◌+◌, ◌-◌, ◌≡◌, refl, ap, ◌∙◌, Bool, true, false, Option, none, some, [], ◌∷◌, ltb,
  if◌then◌else◌, message, Result, ok, err, str, is_empty,
}

-- How often it holds each rule.
abbrev counting : Firewall (Rule → ℕ)
counting = record {
  count = λ s x. s x;
  append = λ r s x. one_if (rule_eq r x) + s x;
  delete = λ r s x. s x - one_if (rule_eq r x);
  count-append = λ r x s. refl;
  count-delete = λ r x s. refl;
}

abbrev no_rules : Rule → ℕ
no_rules x = 0

abbrev box_net : Network
box_net = record {
  container_ip = str "10.44.0.2";
  host_veth = str "vm0";
  port_mappings = web ∷ dns ∷ [];
}

abbrev web_rule : Rule
web_rule = nat_rule "PREROUTING" box.container_id box_net.container_ip web

box_named : is_empty box_net.host_veth ≡ false
unfolding str
box_named = refl

abbrev published_trace : Trace
published_trace =
    (publish_all granting box_net.host_veth box.container_id box_net.container_ip
      box_net.port_mappings []).1

box_published :
    (publish_all granting box_net.host_veth box.container_id box_net.container_ip
      box_net.port_mappings []).0
    ≡ ok tt
unfolding publish_all or_delete add_publish_rules run wrapping perform on_error pure ◌>>=◌
box_published = refl

teardown_restores_example :
    times counting no_rules (teardown granting box_net box published_trace).1 web_rule
    ≡ times counting no_rules [] web_rule
teardown_restores_example =
    teardown_restores counting no_rules granting box_net box [] web_rule box_named box_published
      granting published_trace (λ t args. refl) refl

-- iptables -C is answered from the filter, and everything else is granted.
abbrev told : Bool → Result (Unit {0})
told b = if b then ok tt else err (message "Bad rule")

abbrev checked : Trace → Option Rule → Result (Unit {0})
checked t none = ok tt
checked t (some r) = told (ltb 0 (times counting no_rules t r))

abbrev answering : Oracle
answering t (command name args) = checked t (asked_for args)
answering t c = granting t c

told-is_ok : (b : Bool) → is_ok (told b) ≡ b
told-is_ok true = refl
told-is_ok false = refl

answering-Agrees : Agrees counting no_rules answering
answering-Agrees = record {
  agrees = λ t args r e.
      ap (λ o. is_ok (checked t o)) e ∙ told-is_ok (ltb 0 (times counting no_rules t r));
}

ensure_bridge_once_example :
    IsUnstacked counting no_rules
      (times counting no_rules [] web_rule)
      (times counting no_rules (ensure_bridge answering []).1 web_rule)
ensure_bridge_once_example =
    ensure_bridge_once counting no_rules answering answering-Agrees [] web_rule
