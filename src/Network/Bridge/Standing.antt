-- ===== src/Network/Bridge/Standing.antt =====
-- The packet filter that `EnsureBridge` of mvp/internal/network/bridge_linux.go asks and edits, and
-- actions that stack no rule on itself.
use oci_container_runtime_fr.Network.Publish.Table.{Rule, rule_eq, Firewall, effect}
use oci_container_runtime_fr.Sys.{
  Call, command, Trace, Oracle, is_ok, Io, pure, wrapping, attempt, continue, ◌>>=◌, perform, when,
}
use oci_container_runtime_fr.Base.{
  ℕ, String, ◌≡◌, refl, sym, ap, ◌∙◌, ◌⊎◌, inl, inr, Bool, true, false, Option, none, some, List,
  [], ◌∷◌, arith, ltb, if◌then◌else◌, Bool-cases, Result, ok, err, Str, str, str_eq, str_eq_iff,
}

rule_eq_sound : (r x : Rule) → rule_eq r x ≡ true → r ≡ x
rule_eq_sound [] [] h = refl
rule_eq_sound (a ∷ r) [] h = absurd cc
rule_eq_sound [] (b ∷ x) h = absurd cc
rule_eq_sound (a ∷ r) (b ∷ x) h =
    let (e, k) : (str_eq a b ≡ true) × (rule_eq r x ≡ true) = ground arith in
    ap (λ y. y ∷ r) ((str_eq_iff a b).0 e) ∙ ap (λ l. b ∷ l) (rule_eq_sound r x k)

-- The rule that the arguments of iptables ask for with -C.
abbrev pub asked_for : List Str → Option Rule
asked_for (a ∷ b ∷ c ∷ rest) =
    if str_eq a (str "-t")
    then (if str_eq c (str "-C") then some (b ∷ rest) else none)
    else if str_eq a (str "-C")
    then some (str "filter" ∷ b ∷ c ∷ rest)
    else none
asked_for _ = none

module _ {State : Type 0} (fw : Firewall State) (s : State) where
  -- The packet filter after the calls of a trace: an edit that was refused changes nothing.
  unfoldable pub standing : Trace → State
  standing [] = s
  standing (e ∷ t) = if is_ok e.answer then effect fw e.call (standing t) else standing t

  -- How often a rule stands in it.
  abbrev pub times : Trace → Rule → ℕ
  times t r = fw.count (standing t) r

  -- iptables -C succeeds exactly if the rule stands in the filter.
  pub record Agrees (os : Oracle) : Type 0 where
    pub agrees :
        (t : Trace) (args : List Str) (r : Rule)
        → asked_for args ≡ some r
        → is_ok (os t (command (str "iptables") args)) ≡ ltb 0 (times t r)

  -- As often as before, or once where it was not there.
  abbrev pub IsUnstacked : ℕ → ℕ → Type 0
  IsUnstacked before after = (after ≡ before) ⊎ ((before ≡ 0) × (after ≡ 1))

  -- What an action does to the filter, from any trace.
  pub record Unstacked {A : Type 0} (m : Io A) : Type 0 where
    pub unstacked : (t : Trace) (x : Rule) → IsUnstacked (times t x) (times (m t).1 x)

  both_runs : (a b c : ℕ) → IsUnstacked a b → IsUnstacked b c → IsUnstacked a c
  both_runs a b c (inl e) (inl k) = inl (k ∙ e)
  both_runs a b c (inl e) (inr (k, l)) = inr (sym e ∙ k, l)
  both_runs a b c (inr (e, k)) (inl l) = inr (e, l ∙ k)
  both_runs a b c (inr (e, k)) (inr (l, n)) = inr (e, n)

  module _ {A : Type 0} where
    pub Unstacked-pure : (a : A) → Unstacked (pure a)
    unfolding pure
    Unstacked-pure a = record { unstacked = λ t x. inl refl }

    module _ {m : Io A} (k : Unstacked m) where
      pub Unstacked-wrapping : (text : String) → Unstacked (wrapping text m)
      unfolding wrapping
      Unstacked-wrapping text = record { unstacked = λ t x. k.unstacked t x }

      pub Unstacked-attempt : Unstacked (attempt m)
      unfolding attempt
      Unstacked-attempt = record { unstacked = λ t x. k.unstacked t x }

      pub Unstacked-bind :
          {B : Type 0} {f : A → Io B} → ((a : A) → Unstacked (f a)) → Unstacked (m >>= f)
      unfolding ◌>>=◌
      Unstacked-bind {B} {f} h = record { unstacked = λ t x. go t x (m t).0 }
        where
          go :
              (t : Trace) (x : Rule) (r : Result A)
              → IsUnstacked (times t x) (times (continue r f (m t).1).1 x)
          go t x (ok a) = both_runs _ _ _ (k.unstacked t x) ((h a).unstacked (m t).1 x)
          go t x (err e) = k.unstacked t x

  pub Unstacked-when : (b : Bool) {m : Io (Unit {0})} → Unstacked m → Unstacked (when b m)
  unfolding when
  Unstacked-when true h = h
  Unstacked-when false h = Unstacked-pure tt

  -- Calls that do not edit the filter.
  pub untouched :
      (os : Oracle) (c : Call) → ((u : State) → effect fw c u ≡ u) → Unstacked (perform os c)
  unfolding perform standing
  untouched os c h = record { unstacked = λ t x. go t x (is_ok (os t c)) }
    where
      go :
          (t : Trace) (x : Rule) (b : Bool)
          → IsUnstacked
              (times t x)
              (fw.count (if b then effect fw c (standing t) else standing t) x)
      go t x true = inl (ap (λ u. fw.count u x) (h (standing t)))
      go t x false = inl refl

  -- One more of a rule that did not stand there.
  pub appended :
      (r x : Rule) (u : State)
      → fw.count u r ≡ 0
      → IsUnstacked (fw.count u x) (fw.count (fw.append r u) x)
  appended r x u h = elim (Bool-cases (rule_eq r x)) [
    | inl same ↦
        let none_yet = ap (fw.count u) (sym (rule_eq_sound r x same)) ∙ h in
        inr (none_yet, fw.count-append r x u ∙ rw (same, none_yet) refl)
    | inr other ↦ inl (fw.count-append r x u ∙ rw other (omega arith))
  ]
