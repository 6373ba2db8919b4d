-- ===== src/Network/Publish/Symmetry.antt =====
-- `delPublishRules` asks iptables to delete the very rules that `addPublishRules` appends.
use oci_container_runtime_fr.Network.Types.{PortMapping, run}
use oci_container_runtime_fr.Network.Publish.{
  protocol_or_tcp, comment_of, target_of, add_publish_rules, del_publish_rules,
}
use oci_container_runtime_fr.Sys.{
  Call, command, Trace, Oracle, wrapping, ◌>>=◌, perform, ignoring, calls, log, is_ok,
}
use oci_container_runtime_fr.Base.{
  String, ◌≡◌, refl, ◌⊎◌, List, Bool, true, false, [], ◌∷◌, arith, Error, ok, err, Str, str,
  format_int,
}

abbrev iptables : List Str → Call
iptables = command (str "iptables")

-- The destination rewrite of one mapping in a chain of the nat table.
abbrev dnat_rule : String → String → Str → Str → PortMapping → Call
dnat_rule edit chain id ip pm = iptables (
    str "-t"
    ∷ str "nat"
    ∷ str edit
    ∷ str chain
    ∷ str "-p"
    ∷ protocol_or_tcp pm.protocol
    ∷ str "--dport"
    ∷ format_int pm.host_port
    ∷ str "-m"
    ∷ str "comment"
    ∷ str "--comment"
    ∷ comment_of id
    ∷ str "-j"
    ∷ str "DNAT"
    ∷ str "--to-destination"
    ∷ target_of ip pm
    ∷ [])

abbrev accept_rule : String → Str → Str → PortMapping → Call
accept_rule edit id ip pm = iptables (
    str edit
    ∷ str "FORWARD"
    ∷ str "-p"
    ∷ protocol_or_tcp pm.protocol
    ∷ str "-d"
    ∷ ip
    ∷ str "--dport"
    ∷ format_int pm.container_port
    ∷ str "-m"
    ∷ str "comment"
    ∷ str "--comment"
    ∷ comment_of id
    ∷ str "-j"
    ∷ str "ACCEPT"
    ∷ [])

-- The three edits of one mapping in front of the calls before; `edit` is -A to append, -D to delete.
abbrev pub edit_one : String → Str → Str → PortMapping → List Call → List Call
edit_one edit id ip pm before =
    accept_rule edit id ip pm
    ∷ dnat_rule edit "OUTPUT" id ip pm
    ∷ dnat_rule edit "PREROUTING" id ip pm
    ∷ before

-- The edits of all mappings, in order.
abbrev pub edit_all : String → Str → Str → List PortMapping → List Call → List Call
edit_all edit id ip [] before = before
edit_all edit id ip (pm ∷ pms) before = edit_all edit id ip pms (edit_one edit id ip pm before)

-- The same with their outcomes, where each edit succeeded.
abbrev pub done_one : String → Str → Str → PortMapping → List (Call × Bool) → List (Call × Bool)
done_one edit id ip pm before =
    (accept_rule edit id ip pm, true)
    ∷ (dnat_rule edit "OUTPUT" id ip pm, true)
    ∷ (dnat_rule edit "PREROUTING" id ip pm, true)
    ∷ before

abbrev pub done_all :
    String → Str → Str → List PortMapping → List (Call × Bool) → List (Call × Bool)
done_all edit id ip [] before = before
done_all edit id ip (pm ∷ pms) before = done_all edit id ip pms (done_one edit id ip pm before)

-- The first calls of three, where the last one of them failed and those before it succeeded.
abbrev pub StoppedIn : List Call → List (Call × Bool) → List (Call × Bool) → Type 0
StoppedIn (c ∷ b ∷ a ∷ _) before after =
    (after ≡ (a, false) ∷ before)
    ⊎ ((after ≡ (b, false) ∷ (a, true) ∷ before)
        ⊎ (after ≡ (c, false) ∷ (b, true) ∷ (a, true) ∷ before))
StoppedIn _ before after = ⊥

-- iptables does what it is asked for.
abbrev pub GrantsEdits : Oracle → Type 0
GrantsEdits os = (t : Trace) (args : List Str) → is_ok (os t (command (str "iptables") args)) ≡ true

module _ (os : Oracle) (id ip : Str) (pm : PortMapping) (t : Trace) where
  pub add_publish_calls :
      (add_publish_rules os id ip pm t).0 ≡ ok tt
      → calls (add_publish_rules os id ip pm t).1 ≡ edit_one "-A" id ip pm (calls t)
  unfolding add_publish_rules run wrapping perform ◌>>=◌
  add_publish_calls h = ground arith

  pub add_publish_log :
      (add_publish_rules os id ip pm t).0 ≡ ok tt
      → log (add_publish_rules os id ip pm t).1 ≡ done_one "-A" id ip pm (log t)
  unfolding add_publish_rules run wrapping perform ◌>>=◌
  add_publish_log h = ground arith

  -- A failure stops at the refused rule, with no rule taken back.
  pub add_publish_fails :
      {e : Error}
      → (add_publish_rules os id ip pm t).0 ≡ err e
      → StoppedIn (edit_one "-A" id ip pm []) (log t) (log (add_publish_rules os id ip pm t).1)
  unfolding add_publish_rules run wrapping perform ◌>>=◌
  add_publish_fails h = ground arith

  pub del_publish_calls :
      ((del_publish_rules os id ip pm t).0 ≡ ok tt)
      × (calls (del_publish_rules os id ip pm t).1 ≡ edit_one "-D" id ip pm (calls t))
  unfolding del_publish_rules run wrapping perform ignoring ◌>>=◌
  del_publish_calls = (refl, refl)

  pub del_publish_log :
      GrantsEdits os → log (del_publish_rules os id ip pm t).1 ≡ done_one "-D" id ip pm (log t)
  unfolding del_publish_rules run wrapping perform ignoring ◌>>=◌
  del_publish_log grants = rw (grants _ _, grants _ _, grants _ _) refl
