-- ===== src/Network/Publish/Table.antt =====
-- What the rules of mvp/internal/network/bridge_linux.go promise: a packet filter that holds each rule
-- a number of times. The filter is a parameter; the commands of a trace are read as edits of it.
use oci_container_runtime_fr.Network.Types.{PortMapping}
use oci_container_runtime_fr.Network.Publish.{protocol_or_tcp, comment_of, target_of}
use oci_container_runtime_fr.Network.Publish.Symmetry.{done_one, done_all}
use oci_container_runtime_fr.Sys.{Call, command}
use oci_container_runtime_fr.Base.{
  ℕ, ◌+◌, ◌-◌, ◌≡◌, Bool, true, false, ◌&&◌, List, [], ◌∷◌, arith, if◌then◌else◌, Str, str, str_eq,
  format_int, String,
}

-- The table, the chain, and what a packet must match and what becomes of it.
abbrev pub Rule : Type 0
Rule = List Str

abbrev pub rule_eq : Rule → Rule → Bool
rule_eq [] [] = true
rule_eq (a ∷ r) (b ∷ s) = str_eq a b && rule_eq r s
rule_eq _ _ = false

abbrev pub one_if : Bool → ℕ
one_if b = if b then 1 else 0

-- A packet filter as its documentation describes it: -A puts a rule behind the others, and -D takes
-- one like the given one away, if there is one.
pub record Firewall (State : Type 0) : Type 0 where
  pub count : State → Rule → ℕ
  pub append : Rule → State → State
  pub delete : Rule → State → State
  pub count-append :
      (r x : Rule) (s : State) → count (append r s) x ≡ one_if (rule_eq r x) + count s x
  pub count-delete :
      (r x : Rule) (s : State) → count (delete r s) x ≡ count s x - one_if (rule_eq r x)

module _ {State : Type 0} (fw : Firewall State) where
  abbrev pub edited : Str → Rule → State → State
  edited op r s =
      if str_eq op (str "-A")
      then fw.append r s
      else if str_eq op (str "-D")
      then fw.delete r s
      else s

  -- The edit that the arguments of iptables ask for; without -t it is the filter table's.
  abbrev pub edit : List Str → State → State
  edit (a ∷ b ∷ c ∷ rest) s =
      if str_eq a (str "-t")
      then edited c (b ∷ rest) s
      else edited a (str "filter" ∷ b ∷ c ∷ rest) s
  edit _ s = s

  abbrev pub effect : Call → State → State
  effect (command name args) s = if str_eq name (str "iptables") then edit args s else s
  effect _ s = s

  -- The filter after the calls, the last one first: a call that failed changes nothing.
  abbrev pub filter_after : List (Call × Bool) → State → State
  filter_after [] s = s
  filter_after ((c, done) ∷ before) s =
      if done then effect c (filter_after before s) else filter_after before s

-- The rules that publish one mapping.
abbrev pub nat_rule : String → Str → Str → PortMapping → Rule
nat_rule chain id ip pm =
    str "nat"
    ∷ str chain
    ∷ str "-p"
    ∷ protocol_or_tcp pm.protocol
    ∷ str "--dport"
    ∷ format_int pm.host_port
    ∷ str "-m"
    ∷ str "comment"
    ∷ str "--comment"
    ∷ comment_of id
    ∷ str "-j"
    ∷ str "DNAT"
    ∷ str "--to-destination"
    ∷ target_of ip pm
    ∷ []

abbrev pub forward_rule : Str → Str → PortMapping → Rule
forward_rule id ip pm =
    str "filter"
    ∷ str "FORWARD"
    ∷ str "-p"
    ∷ protocol_or_tcp pm.protocol
    ∷ str "-d"
    ∷ ip
    ∷ str "--dport"
    ∷ format_int pm.container_port
    ∷ str "-m"
    ∷ str "comment"
    ∷ str "--comment"
    ∷ comment_of id
    ∷ str "-j"
    ∷ str "ACCEPT"
    ∷ []

abbrev pub one_published : Str → Str → PortMapping → Rule → ℕ
one_published id ip pm x =
    one_if (rule_eq (nat_rule "PREROUTING" id ip pm) x)
    + one_if (rule_eq (nat_rule "OUTPUT" id ip pm) x)
    + one_if (rule_eq (forward_rule id ip pm) x)

-- How often a rule publishes one of the mappings.
abbrev pub published : Str → Str → List PortMapping → Rule → ℕ
published id ip [] x = 0
published id ip (pm ∷ pms) x = one_published id ip pm x + published id ip pms x

module _ {State : Type 0} (fw : Firewall State) (id ip : Str) (s : State) (x : Rule) where
  three_appended :
      (a b c : Rule) (before : State)
      → fw.count (fw.append c (fw.append b (fw.append a before))) x
        ≡ one_if (rule_eq a x) + one_if (rule_eq b x) + one_if (rule_eq c x) + fw.count before x
  three_appended a b c before = omega (
    arith,
    fw.count-append a x before,
    fw.count-append b x (fw.append a before),
    fw.count-append c x (fw.append b (fw.append a before)),
  )

  three_deleted :
      (a b c : Rule) (before : State)
      → fw.count (fw.delete c (fw.delete b (fw.delete a before))) x
        ≡ fw.count before x - (one_if (rule_eq a x) + one_if (rule_eq b x) + one_if (rule_eq c x))
  three_deleted a b c before = omega (
    arith,
    fw.count-delete a x before,
    fw.count-delete b x (fw.delete a before),
    fw.count-delete c x (fw.delete b (fw.delete a before)),
  )

  append_one :
      (pm : PortMapping) (before : List (Call × Bool))
      → fw.count (filter_after fw (done_one "-A" id ip pm before) s) x
        ≡ one_published id ip pm x + fw.count (filter_after fw before s) x
  unfolding str str_eq
  append_one pm before =
      three_appended (nat_rule "PREROUTING" id ip pm) (nat_rule "OUTPUT" id ip pm)
        (forward_rule id ip pm) (filter_after fw before s)

  delete_one :
      (pm : PortMapping) (before : List (Call × Bool))
      → fw.count (filter_after fw (done_one "-D" id ip pm before) s) x
        ≡ fw.count (filter_after fw before s) x - one_published id ip pm x
  unfolding str str_eq
  delete_one pm before =
      three_deleted (nat_rule "PREROUTING" id ip pm) (nat_rule "OUTPUT" id ip pm)
        (forward_rule id ip pm) (filter_after fw before s)

  pub append_all :
      (pms : List PortMapping) (before : List (Call × Bool))
      → fw.count (filter_after fw (done_all "-A" id ip pms before) s) x
        ≡ published id ip pms x + fw.count (filter_after fw before s) x
  append_all [] before = omega arith
  append_all (pm ∷ pms) before =
      omega (arith, append_all pms (done_one "-A" id ip pm before), append_one pm before)

  pub delete_all :
      (pms : List PortMapping) (before : List (Call × Bool))
      → fw.count (filter_after fw (done_all "-D" id ip pms before) s) x
        ≡ fw.count (filter_after fw before s) x - published id ip pms x
  delete_all [] before = omega arith
  delete_all (pm ∷ pms) before =
      omega (arith, delete_all pms (done_one "-D" id ip pm before), delete_one pm before)
