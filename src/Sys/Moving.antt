-- ===== src/Sys/Moving.antt =====
-- Rules for actions that get or give back resources.
use oci_container_runtime_fr.Sys.Calls.{Trace}
use oci_container_runtime_fr.Sys.Actions.{
  Io, pure, raise, wrapping, attempt, finish, on_error, deferring, continue, ◌>>=◌, ignoring,
  tolerating,
}
use oci_container_runtime_fr.Sys.Ledger.{Resource, count, held, Moves, Keeps, either_way}
use oci_container_runtime_fr.Base.{
  ℕ, ◌+◌, String, ◌≡◌, refl, ◌∙◌, Bool, true, false, List, [], ◌∷◌, ◌++◌, arith, if◌then◌else◌,
  Error, Result, ok, err, wrapped,
}
use oci_container_runtime_fr.Sys.Keeping.{Sure-ignoring, Keeps-ignoring, Sure}

pub count-append :
    (x : Resource) (xs ys : List Resource) → count x (xs ++ ys) ≡ count x xs + count x ys
count-append x [] ys = omega arith
count-append x (y ∷ xs) ys = let e = count-append x xs ys in omega (arith, e)

module _ {A : Type 0} {from : List Resource} where
  pub Moves-Keeps : {m : Io A} → Keeps m → Moves from m (λ _. from)
  Moves-Keeps k = record { moves = λ t others h x. k.same t x ∙ h x }

  -- What is held last matters only up to order.
  pub Moves-to :
      {m : Io A} {to to' : Result A → List Resource}
      → Moves from m to
      → ((r : Result A) (x : Resource) → count x (to r) ≡ count x (to' r))
      → Moves from m to'
  Moves-to {m = m} k same = record {
    moves = λ t others h x.
        let e = k.moves t others h x in let e' = same (m t).0 x in omega (arith, e, e');
  }

  pub Moves-from :
      {from' : List Resource} {m : Io A} {to : Result A → List Resource}
      → ((x : Resource) → count x from ≡ count x from')
      → Moves from' m to
      → Moves from m to
  Moves-from same k = record {
    moves = λ t others h x.
        k.moves t others (λ y. let e = same y in let e' = h y in omega (arith, e, e')) x;
  }

  pub Moves-wrapping :
      (text : String) {m : Io A} {f : A → List Resource} {xs : List Resource}
      → Moves from m (either_way f xs)
      → Moves from (wrapping text m) (either_way f xs)
  unfolding wrapping
  Moves-wrapping text {m = m} {f = f} {xs = xs} k = record {
    moves = λ t others h x. k.moves t others h x ∙ same (m t).0 x (others x);
  }
    where
      same :
          (r : Result A) (x : Resource) (n : ℕ)
          → count x (either_way f xs r) + n ≡ count x (either_way f xs (wrapped text r)) + n
      same (ok a) x n = refl
      same (err e) x n = refl

  pub Moves-bind :
      {B : Type 0} {m : Io A} {f : A → Io B} {mid : Result A → List Resource}
      {to : Result B → List Resource}
      → Moves from m mid
      → ((a : A) → Moves (mid (ok a)) (f a) to)
      → ((e : Error) (x : Resource) → count x (mid (err e)) ≡ count x (to (err e)))
      → Moves from (m >>= f) to
  unfolding ◌>>=◌
  Moves-bind {B = B} {m = m} {f = f} {mid = mid} {to = to} k g same = record {
    moves = λ t others h x. after (m t).0 (m t).1 others (k.moves t others h) x;
  }
    where
      after :
          (r : Result A) (t : Trace) (others : Resource → ℕ)
          → ((x : Resource) → held t x ≡ count x (mid r) + others x)
          → (x : Resource) → held (continue r f t).1 x ≡ count x (to (continue r f t).0) + others x
      after (ok a) t others h x = (g a).moves t others h x
      after (err e) t others h x = let e1 = h x in let e2 = same e x in omega (arith, e1, e2)

  pub Moves-on_error :
      {m : Io A} {cleanup : Io (Unit {0})} {mid to : Result A → List Resource}
      → Moves from m mid
      → ((e : Error) → Moves (mid (err e)) cleanup (λ _. to (err e)))
      → ((a : A) (x : Resource) → count x (mid (ok a)) ≡ count x (to (ok a)))
      → Moves from (on_error m cleanup) to
  unfolding on_error
  Moves-on_error {m = m} {cleanup = cleanup} {mid = mid} {to = to} k c same = record {
    moves = λ t others h x. after (m t).0 (m t).1 others (k.moves t others h) x;
  }
    where
      after :
          (r : Result A) (t : Trace) (others : Resource → ℕ)
          → ((x : Resource) → held t x ≡ count x (mid r) + others x)
          → (x : Resource)
          → held (finish r cleanup t).1 x ≡ count x (to (finish r cleanup t).0) + others x
      after (ok a) t others h x = let e1 = h x in let e2 = same a x in omega (arith, e1, e2)
      after (err e) t others h x = (c e).moves t others h x

  pub Moves-deferring :
      {m : Io A} {cleanup : Io (Unit {0})} {mid to : Result A → List Resource}
      → Moves from m mid
      → ((r : Result A) → Moves (mid r) cleanup (λ _. to r))
      → Moves from (deferring m cleanup) to
  unfolding deferring
  Moves-deferring {m = m} k c = record {
    moves = λ t others h x. (c (m t).0).moves (m t).1 others (k.moves t others h) x;
  }

  pub Moves-ignoring :
      {m : Io A} {to : List Resource} → Moves from m (λ _. to) → Moves from (ignoring m) (λ _. to)
  unfolding ignoring
  Moves-ignoring k = record { moves = λ t others h x. k.moves t others h x }

  pub Moves-attempt :
      {m : Io A} {to : List Resource} → Moves from m (λ _. to) → Moves from (attempt m) (λ _. to)
  unfolding attempt
  Moves-attempt k = record { moves = λ t others h x. k.moves t others h x }

module _ {A B : Type 0} {from mid : List Resource} {m : Io A} {f : A → Io B}
    {to : Result B → List Resource} where
  -- An action without errors goes on.
  pub Moves-Sure :
      Sure m → Moves from m (λ _. mid) → ((a : A) → Moves mid (f a) to) → Moves from (m >>= f) to
  unfolding ◌>>=◌
  Moves-Sure s first second = record {
    moves = λ t others h x.
        let (a, e) = s.value t in rw e ((second a).moves (m t).1 others (first.moves t others h) x);
  }

module _ {A B : Type 0} {from : List Resource} {k : Io B} {to : Result B → List Resource} where
  pub Moves-ignored :
      {mid : List Resource} (m : Io A)
      → Moves from (ignoring m) (λ _. mid)
      → Moves mid k to
      → Moves from (ignoring m >>= λ _. k) to
  Moves-ignored m first second = Moves-Sure (Sure-ignoring m) first (λ _. second)

  pub Moves-kept : {m : Io A} → Keeps m → Moves from k to → Moves from (ignoring m >>= λ _. k) to
  Moves-kept {m = m} first = Moves-ignored m (Moves-Keeps (Keeps-ignoring first))

pub Moves-pure :
    {A : Type 0} {from : List Resource} (a : A) {to : Result A → List Resource}
    → ((x : Resource) → count x from ≡ count x (to (ok a)))
    → Moves from (pure a) to
unfolding pure
Moves-pure a same = record {
  moves = λ t others h x. let e = h x in let e' = same x in omega (arith, e, e');
}

-- An action whose result is looked at goes on either way.
pub Moves-attempted :
    {A B : Type 0} {from : List Resource} {m : Io A} {f : Result A → Io B}
    {mid : Result A → List Resource} {to : Result B → List Resource}
    → Moves from m mid
    → ((r : Result A) → Moves (mid r) (f r) to)
    → Moves from (attempt m >>= f) to
unfolding attempt ◌>>=◌
Moves-attempted {m = m} first next = record {
  moves = λ t others h x. (next (m t).0).moves (m t).1 others (first.moves t others h) x;
}

pub Moves-raise :
    {A : Type 0} {from : List Resource} (e : Error) {to : Result A → List Resource}
    → ((x : Resource) → count x from ≡ count x (to (err e)))
    → Moves from (raise {A = A} e) to
unfolding raise
Moves-raise e same = record {
  moves = λ t others h x. let q = h x in let q' = same x in omega (arith, q, q');
}

pub Moves-if :
    {A : Type 0} {from : List Resource} (b : Bool) {m k : Io A} {to : Result A → List Resource}
    → Moves from m to
    → Moves from k to
    → Moves from (if b then m else k) to
Moves-if true first second = first
Moves-if false first second = second

module _ {from to : List Resource} {m : Io (Unit {0})} where
  pub Moves-tolerating :
      (p : Error → Bool) → Moves from m (λ _. to) → Moves from (tolerating p m) (λ _. to)
  unfolding tolerating
  Moves-tolerating p k = record { moves = λ t others h x. k.moves t others h x }

  pub Moves-wrapping_all :
      (text : String) → Moves from m (λ _. to) → Moves from (wrapping text m) (λ _. to)
  unfolding wrapping
  Moves-wrapping_all text k = record { moves = λ t others h x. k.moves t others h x }
