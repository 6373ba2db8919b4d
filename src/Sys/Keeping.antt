-- ===== src/Sys/Keeping.antt =====
-- Actions that leave what is held as it is, and actions that give no error.
use oci_container_runtime_fr.Sys.Calls.{
  Call, make_dir_all, write_file, command, signal, read_file, remove_all, look_path, Trace, Oracle,
}
use oci_container_runtime_fr.Sys.Actions.{
  find_program, Io, pure, raise, lift, wrapping, attempt, finish, on_error, continue, ◌>>=◌,
  perform, ignoring, when, tolerating, env,
}
use oci_container_runtime_fr.Sys.Ledger.{Resource, held, is_neutral, change_neutral, Keeps}
use oci_container_runtime_fr.Base.{
  ℕ, String, ◌≡◌, refl, ◌∙◌, Bool, true, false, List, if◌then◌else◌, Error, Result, ok, err, Str,
  str,
}

pub Keeps-perform : (os : Oracle) (c : Call) → is_neutral c ≡ true → Keeps (perform os c)
unfolding perform held
Keeps-perform os c h = record { same = λ t x. change_neutral c (os t c) (held t) x h }

module _ (os : Oracle) where
  pub Keeps-make_dir_all : (path : Str) → Keeps (perform os (make_dir_all path))
  Keeps-make_dir_all path = Keeps-perform os (make_dir_all path) refl

  pub Keeps-write_file : (path content : Str) → Keeps (perform os (write_file path content))
  Keeps-write_file path content = Keeps-perform os (write_file path content) refl

  pub Keeps-command : (name : Str) (args : List Str) → Keeps (perform os (command name args))
  Keeps-command name args = Keeps-perform os (command name args) refl

  pub Keeps-signal : (pid : ℕ) (name : String) → Keeps (perform os (signal pid name))
  Keeps-signal pid name = Keeps-perform os (signal pid name) refl

  pub Keeps-read_file : (path : Str) → Keeps (perform os (read_file path))
  Keeps-read_file path = Keeps-perform os (read_file path) refl

  pub Keeps-remove_all : (path : Str) → Keeps (perform os (remove_all path))
  Keeps-remove_all path = Keeps-perform os (remove_all path) refl

module _ {A : Type 0} where
  pub Keeps-pure : (a : A) → Keeps (pure a)
  unfolding pure
  Keeps-pure a = record { same = λ t x. refl }

  pub Keeps-raise : (e : Error) → Keeps (raise {A = A} e)
  unfolding raise
  Keeps-raise e = record { same = λ t x. refl }

  pub Keeps-lift : (r : Result A) → Keeps (lift r)
  unfolding lift
  Keeps-lift r = record { same = λ t x. refl }

  pub Keeps-wrapping : (text : String) {m : Io A} → Keeps m → Keeps (wrapping text m)
  unfolding wrapping
  Keeps-wrapping text k = record { same = λ t x. k.same t x }

  pub Keeps-attempt : {m : Io A} → Keeps m → Keeps (attempt m)
  unfolding attempt
  Keeps-attempt k = record { same = λ t x. k.same t x }

  pub Keeps-ignoring : {m : Io A} → Keeps m → Keeps (ignoring m)
  unfolding ignoring
  Keeps-ignoring k = record { same = λ t x. k.same t x }

  pub Keeps-on_error :
      {m : Io A} {cleanup : Io (Unit {0})} → Keeps m → Keeps cleanup → Keeps (on_error m cleanup)
  unfolding on_error
  Keeps-on_error {m = m} {cleanup = cleanup} k c = record {
    same = λ t x. after (m t).0 (m t).1 x ∙ k.same t x;
  }
    where
      after : (r : Result A) (t : Trace) (x : Resource) → held (finish r cleanup t).1 x ≡ held t x
      after (ok a) t x = refl
      after (err e) t x = c.same t x

  pub Keeps-bind :
      {B : Type 0} {m : Io A} {f : A → Io B} → Keeps m → ((a : A) → Keeps (f a)) → Keeps (m >>= f)
  unfolding ◌>>=◌
  Keeps-bind {B = B} {m = m} {f = f} k g = record {
    same = λ t x. after (m t).0 (m t).1 x ∙ k.same t x;
  }
    where
      after : (r : Result A) (t : Trace) (x : Resource) → held (continue r f t).1 x ≡ held t x
      after (ok a) t x = (g a).same t x
      after (err e) t x = refl

pub Keeps-if : {A : Type 0} (b : Bool) {m k : Io A} → Keeps m → Keeps k → Keeps (if b then m else k)
Keeps-if true first second = first
Keeps-if false first second = second

pub Keeps-when : (b : Bool) {m : Io (Unit {0})} → Keeps m → Keeps (when b m)
unfolding when
Keeps-when true k = k
Keeps-when false k = Keeps-pure tt

pub Keeps-tolerating : (p : Error → Bool) {m : Io (Unit {0})} → Keeps m → Keeps (tolerating p m)
unfolding tolerating
Keeps-tolerating p k = record { same = λ t x. k.same t x }

pub Keeps-env : (os : Oracle) (name : String) → Keeps (env os name)
unfolding env held
Keeps-env os name = record { same = λ t x. refl }

-- The action gives no error.
pub record Sure {A : Type 0} (m : Io A) : Type 0 where
  pub value : (t : Trace) → (a : A) × ((m t).0 ≡ ok a)

pub Sure-ignoring : {A : Type 0} (m : Io A) → Sure (ignoring m)
unfolding ignoring
Sure-ignoring m = record { value = λ t. (tt, refl) }

pub Sure-attempt : {A : Type 0} (m : Io A) → Sure (attempt m)
unfolding attempt
Sure-attempt m = record { value = λ t. ((m t).0, refl) }

pub Sure-env : (os : Oracle) (name : String) → Sure (env os name)
unfolding env
Sure-env os name = record { value = λ t. (_, refl) }

pub Sure-pure : {A : Type 0} (a : A) → Sure (pure a)
unfolding pure
Sure-pure a = record { value = λ t. (a, refl) }

pub Sure-when : (b : Bool) {m : Io (Unit {0})} → Sure m → Sure (when b m)
unfolding when
Sure-when true s = s
Sure-when false s = Sure-pure tt

pub Sure-bind :
    {A B : Type 0} (m : Io A) (f : A → Io B) → Sure m → ((a : A) → Sure (f a)) → Sure (m >>= f)
unfolding ◌>>=◌
Sure-bind {B = B} m f s k = record {
  value = λ t. let (a, e) = s.value t in let (b, e') = (k a).value (m t).1 in (b, rw e e');
}

pub find_program-Keeps : (os : Oracle) (name text : String) → Keeps (find_program os name text)
unfolding find_program
find_program-Keeps os name text =
    Keeps-bind (Keeps-attempt (Keeps-perform os (look_path (str name)) refl)) (λ r. Keeps-lift _)
