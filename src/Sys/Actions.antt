-- ===== src/Sys/Actions.antt =====
-- Actions: functions that may fail and make calls on the way. What was done before an error stays
-- done, so the trace comes back beside the error too.
use oci_container_runtime_fr.Sys.Calls.{Call, get_env, look_path, Answer, Trace, Oracle, is_ok}
use oci_container_runtime_fr.Base.{
  String, ◌≡◌, refl, ap, ◌∙◌, ◌⊎◌, inl, inr, Bool, true, false, List, [], ◌∷◌, map, if◌then◌else◌,
  Error, message, Result, ok, err, wrapped, Str, str,
}

abbrev pub Io : Type 0 → Type 0
Io A = Trace → Result A × Trace

module _ {A : Type 0} where
  unfoldable pub pure : A → Io A
  pure a t = (ok a, t)

  unfoldable pub raise : Error → Io A
  raise e t = (err e, t)

  -- A result that was computed without calls.
  unfoldable pub lift : Result A → Io A
  lift r t = (r, t)

  -- `if err != nil { return fmt.Errorf("text: %w", err) }`
  unfoldable pub wrapping : String → Io A → Io A
  wrapping text m t = let (r, t') = m t in (wrapped text r, t')

  -- `_ = f()`, or a result that is tested later.
  unfoldable pub attempt : Io A → Io (Result A)
  attempt m t = let (r, t') = m t in (ok r, t')

  abbrev pub finish : Result A → Io (Unit {0}) → Io A
  finish (ok a) cleanup t = (ok a, t)
  finish (err e) cleanup t = (err e, (cleanup t).1)

  -- `if err := m(); err != nil { cleanup(); return err }`
  unfoldable pub on_error : Io A → Io (Unit {0}) → Io A
  on_error m cleanup t = let (r, t') = m t in finish r cleanup t'

  -- `defer cleanup()` in front of what is left of a function.
  unfoldable pub deferring : Io A → Io (Unit {0}) → Io A
  deferring m cleanup t = let (r, t') = m t in (r, (cleanup t').1)

module _ {A B : Type 0} where
  abbrev pub continue : Result A → (A → Io B) → Io B
  continue (ok a) f t = f a t
  continue (err e) f t = (err e, t)

  infixl 5 ◌>>=◌ ◌>>◌
  unfoldable pub ◌>>=◌ : Io A → (A → Io B) → Io B
  ◌>>=◌ m f t = let (r, t') = m t in continue r f t'

  abbrev pub ◌>>◌ : Io A → Io B → Io B
  m >> k = m >>= λ _. k

-- One call.
unfoldable pub perform : Oracle → (c : Call) → Io (Answer c)
perform os c t = let r = os t c in (r, record { call = c; answer = r } ∷ t)

-- `_ = m()`
unfoldable pub ignoring : {A : Type 0} → Io A → Io (Unit {0})
ignoring m t = (ok tt, (m t).1)

-- The calls of a trace, each with whether it succeeded.
abbrev pub log : Trace → List (Call × Bool)
log = map (λ e. (e.call, is_ok e.answer))

abbrev pub calls : Trace → List Call
calls = map (λ e. e.call)

-- `if b { m() }`
unfoldable pub when : Bool → Io (Unit {0}) → Io (Unit {0})
when true m = m
when false m = pure tt

abbrev pub tolerated : (Error → Bool) → Result (Unit {0}) → Result (Unit {0})
tolerated p (ok u) = ok u
tolerated p (err e) = if p e then ok tt else err e

-- `if err := m(); err != nil && !p(err) { return err }`
unfoldable pub tolerating : (Error → Bool) → Io (Unit {0}) → Io (Unit {0})
tolerating p m t = let (r, t') = m t in (tolerated p r, t')

abbrev pub text_or_empty : Result Str → Str
text_or_empty (ok s) = s
text_or_empty (err e) = []

-- os.Getenv, which does not fail: a variable that is not set reads as the empty text.
unfoldable pub env : Oracle → String → Io Str
env os name t =
    let r = os t (get_env name) in
    (ok (text_or_empty r), record { call = get_env name; answer = r } ∷ t)

abbrev pub or_text : String → Result Str → Result Str
or_text text (ok s) = ok s
or_text text (err e) = err (message text)

-- exec.LookPath, where its own error is replaced.
unfoldable pub find_program : Oracle → String → String → Io Str
find_program os name text = do
  r ← attempt (perform os (look_path (str name)))
  lift (or_text text r)

-- A sequence that succeeds, or fails, taken apart.
module _ {A B : Type 0} (m : Io A) (f : A → Io B) (t : Trace) where
  continue-ok :
      (r : Result A) (t' : Trace) {b : B}
      → (continue r f t').0 ≡ ok b
      → (a : A) × (r ≡ ok a) × ((f a t').0 ≡ ok b) × (continue r f t' ≡ f a t')
  continue-ok (ok a) t' h = (a, refl, h, refl)
  continue-ok (err e) t' h = cc

  pub bind-ok :
      {b : B}
      → ((m >>= f) t).0 ≡ ok b
      → (a : A) × ((m t).0 ≡ ok a) × ((f a (m t).1).0 ≡ ok b) × ((m >>= f) t ≡ f a (m t).1)
  unfolding ◌>>=◌
  bind-ok h = continue-ok (m t).0 (m t).1 h

  continue-err :
      (r : Result A) (t' : Trace) {e : Error}
      → (continue r f t').0 ≡ err e
      → ((r ≡ err e) × ((continue r f t').1 ≡ t'))
        ⊎ ((a : A) × (r ≡ ok a) × ((f a t').0 ≡ err e) × (continue r f t' ≡ f a t'))
  continue-err (ok a) t' h = inr (a, refl, h, refl)
  continue-err (err x) t' h = inl (cc, refl)

  pub bind-err :
      {e : Error}
      → ((m >>= f) t).0 ≡ err e
      → (((m t).0 ≡ err e) × (((m >>= f) t).1 ≡ (m t).1))
        ⊎ ((a : A) × ((m t).0 ≡ ok a) × ((f a (m t).1).0 ≡ err e) × ((m >>= f) t ≡ f a (m t).1))
  unfolding ◌>>=◌
  bind-err h = continue-err (m t).0 (m t).1 h

module _ {A : Type 0} (m : Io A) (cleanup : Io (Unit {0})) (t : Trace) where
  finish-ok :
      (r : Result A) (t' : Trace) {a : A}
      → (finish r cleanup t').0 ≡ ok a
      → (r ≡ ok a) × (finish r cleanup t' ≡ (r, t'))
  finish-ok (ok x) t' h = (h, refl)
  finish-ok (err x) t' h = cc

  pub on_error-ok :
      {a : A} → (on_error m cleanup t).0 ≡ ok a → ((m t).0 ≡ ok a) × (on_error m cleanup t ≡ m t)
  unfolding on_error
  on_error-ok h = finish-ok (m t).0 (m t).1 h

  finish-err :
      (r : Result A) (t' : Trace) {e : Error}
      → (finish r cleanup t').0 ≡ err e
      → (r ≡ err e) × ((finish r cleanup t').1 ≡ (cleanup t').1)
  finish-err (ok x) t' h = cc
  finish-err (err x) t' h = (h, refl)

  pub on_error-err :
      {e : Error}
      → (on_error m cleanup t).0 ≡ err e
      → ((m t).0 ≡ err e) × ((on_error m cleanup t).1 ≡ (cleanup (m t).1).1)
  unfolding on_error
  on_error-err h = finish-err (m t).0 (m t).1 h

pub performed-ok :
    (os : Oracle) (c : Call) (t : Trace) {a : Answer c}
    → (perform os c t).0 ≡ ok a
    → log (perform os c t).1 ≡ (c, true) ∷ log t
unfolding perform
performed-ok os c t h = ap (λ r. (c, is_ok r) ∷ log t) h

-- A call that succeeded, and what the trace shows of it.
pub performed :
    (os : Oracle) (text : String) (c : Call) (t : Trace) {a : Answer c}
    → (wrapping text (perform os c) t).0 ≡ ok a
    → (os t c ≡ ok a)
      × ((wrapping text (perform os c) t).1 ≡ record { call = c; answer = ok a } ∷ t)
unfolding wrapping perform
performed os text c t {a} h = go (os t c) refl h
  where
    go :
        (r : Result (Answer c))
        → os t c ≡ r
        → wrapped text r ≡ ok a
        → (os t c ≡ ok a)
          × (◌≡◌ {A = Trace}
              (record { call = c; answer = os t c } ∷ t)
              (record { call = c; answer = ok a } ∷ t))
    go (ok x) e k = let same = e ∙ k in (same, ap (λ r. record { call = c; answer = r } ∷ t) same)
    go (err x) e k = cc

pub lifted :
    {A : Type 0} (text : String) (r : Result A) (t : Trace) {a : A}
    → (wrapping text (lift r) t).0 ≡ ok a
    → (r ≡ ok a) × ((wrapping text (lift r) t).1 ≡ t)
unfolding wrapping lift
lifted text (ok x) t h = (h, refl)
lifted text (err x) t h = cc

-- A call at the start of a sequence that succeeds.
pub step-ok :
    (os : Oracle) (c : Call) {B : Type 0} (f : Answer c → Io B) (t : Trace) {b : B}
    → ((perform os c >>= f) t).0 ≡ ok b
    → (a : Answer c) × (t' : Trace) × ((f a t').0 ≡ ok b)
      × (log ((perform os c >>= f) t).1 ≡ log (f a t').1)
      × (log t' ≡ (c, true) ∷ log t)
step-ok os c f t h =
    let (a, h1, k1, s1) = bind-ok (perform os c) f t h in
    (a, (perform os c t).1, k1, ap (λ r. log r.1) s1, performed-ok os c t h1)

-- A check at the start of a sequence that succeeds.
pub check-ok :
    {A B : Type 0} (r : Result A) (f : A → Io B) (t : Trace) {b : B}
    → ((lift r >>= f) t).0 ≡ ok b
    → (a : A) × (r ≡ ok a) × ((f a t).0 ≡ ok b) × (log ((lift r >>= f) t).1 ≡ log (f a t).1)
unfolding lift ◌>>=◌
check-ok (ok a) f t h = (a, refl, h, refl)
check-ok (err e) f t h = cc
