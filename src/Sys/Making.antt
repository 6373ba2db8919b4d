-- ===== src/Sys/Making.antt =====
-- Rules for the calls that an action makes: each one satisfies a predicate, whatever is answered.
use oci_container_runtime_fr.Sys.Calls.{Call, get_env, look_path, Event, Trace, Oracle}
use oci_container_runtime_fr.Sys.Actions.{
  find_program, Io, pure, raise, lift, wrapping, attempt, finish, on_error, deferring, continue,
  ◌>>=◌, perform, ignoring, when, tolerating, env,
}
use oci_container_runtime_fr.Sys.Ledger.{Resource, held, is_neutral, change_neutral, Keeps}
use oci_container_runtime_fr.Base.{
  String, ◌≡◌, refl, sym, ap, ◌∙◌, Bool, true, false, [], ◌∷◌, ◌++◌, append_assoc, All, All-append,
  if◌then◌else◌, Error, Result, ok, err, str,
}

-- The calls behind a trace, the last one first.
pub record NewCalls (P : Call → Type 0) (before after : Trace) : Type 0 where
  pub new : Trace
  pub parts : after ≡ new ++ before
  pub each : All (λ e. P e.call) new

-- Every call of the action, from any trace.
pub record Makes (P : Call → Type 0) {A : Type 0} (m : Io A) : Type 0 where
  pub made : (t : Trace) → NewCalls P t (m t).1

module _ {P : Call → Type 0} where
  pub no_calls : (t : Trace) → NewCalls P t t
  no_calls t = record { new = []; parts = refl; each = tt }

  pub more_calls : {t u v : Trace} → NewCalls P t u → NewCalls P u v → NewCalls P t v
  more_calls {t} a b = record {
    new = b.new ++ a.new;
    parts = b.parts ∙ ap (λ l. b.new ++ l) a.parts ∙ sym (append_assoc b.new a.new t);
    each = All-append (λ (e : Event). P e.call) b.new a.new b.each a.each;
  }

  pub Makes-perform : (os : Oracle) (c : Call) → P c → Makes P (perform os c)
  unfolding perform
  Makes-perform os c h = record {
    made = λ t. record {
      new = record { call = c; answer = os t c } ∷ [];
      parts = refl;
      each = (h, tt);
    };
  }

  pub Makes-env : (os : Oracle) (name : String) → P (get_env name) → Makes P (env os name)
  unfolding env
  Makes-env os name h = record {
    made = λ t. record {
      new = record { call = get_env name; answer = os t (get_env name) } ∷ [];
      parts = refl;
      each = (h, tt);
    };
  }

  module _ {A : Type 0} where
    pub Makes-pure : (a : A) → Makes P (pure a)
    unfolding pure
    Makes-pure a = record { made = λ t. no_calls t }

    pub Makes-raise : (e : Error) → Makes P (raise {A = A} e)
    unfolding raise
    Makes-raise e = record { made = λ t. no_calls t }

    pub Makes-lift : (r : Result A) → Makes P (lift r)
    unfolding lift
    Makes-lift r = record { made = λ t. no_calls t }

    module _ {m : Io A} (k : Makes P m) where
      pub Makes-wrapping : (text : String) → Makes P (wrapping text m)
      unfolding wrapping
      Makes-wrapping text = record { made = λ t. k.made t }

      pub Makes-attempt : Makes P (attempt m)
      unfolding attempt
      Makes-attempt = record { made = λ t. k.made t }

      pub Makes-ignoring : Makes P (ignoring m)
      unfolding ignoring
      Makes-ignoring = record { made = λ t. k.made t }

      pub Makes-on_error : {c : Io (Unit {0})} → Makes P c → Makes P (on_error m c)
      unfolding on_error
      Makes-on_error {c} h = record { made = λ t. go t (m t).0 }
        where
          go : (t : Trace) (r : Result A) → NewCalls P t (finish r c (m t).1).1
          go t (ok a) = k.made t
          go t (err e) = more_calls (k.made t) (h.made (m t).1)

      pub Makes-deferring : {c : Io (Unit {0})} → Makes P c → Makes P (deferring m c)
      unfolding deferring
      Makes-deferring h = record { made = λ t. more_calls (k.made t) (h.made (m t).1) }

      pub Makes-bind : {B : Type 0} {f : A → Io B} → ((a : A) → Makes P (f a)) → Makes P (m >>= f)
      unfolding ◌>>=◌
      Makes-bind {B} {f} h = record { made = λ t. go t (m t).0 }
        where
          go : (t : Trace) (r : Result A) → NewCalls P t (continue r f (m t).1).1
          go t (ok a) = more_calls (k.made t) ((h a).made (m t).1)
          go t (err e) = k.made t

    pub Makes-if : (b : Bool) {m k : Io A} → Makes P m → Makes P k → Makes P (if b then m else k)
    Makes-if true hm hk = hm
    Makes-if false hm hk = hk

  pub Makes-when : (b : Bool) {m : Io (Unit {0})} → Makes P m → Makes P (when b m)
  unfolding when
  Makes-when true h = h
  Makes-when false h = Makes-pure tt

  pub Makes-tolerating :
      (p : Error → Bool) {m : Io (Unit {0})} → Makes P m → Makes P (tolerating p m)
  unfolding tolerating
  Makes-tolerating p h = record { made = λ t. h.made t }

  pub find_program-Makes :
      (os : Oracle) (name text : String)
      → P (look_path (str name))
      → Makes P (find_program os name text)
  unfolding find_program
  find_program-Makes os name text h =
      Makes-bind (Makes-attempt (Makes-perform os (look_path (str name)) h)) (λ r. Makes-lift _)

-- Neutral calls leave what is held as it is.
held-append :
    (new t : Trace) (x : Resource)
    → All (λ e. is_neutral e.call ≡ true) new
    → held (new ++ t) x ≡ held t x
unfolding held
held-append [] t x h = refl
held-append (e ∷ new) t x h =
    change_neutral e.call e.answer (held (new ++ t)) x h.0 ∙ held-append new t x h.1

pub Makes-Keeps : {A : Type 0} {m : Io A} → Makes (λ c. is_neutral c ≡ true) m → Keeps m
Makes-Keeps {A} {m} k = record {
  same = λ t x.
      let calls = k.made t in ap (λ u. held u x) calls.parts ∙ held-append calls.new t x calls.each;
}
