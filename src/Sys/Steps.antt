-- ===== src/Sys/Steps.antt =====
-- The calls that get a resource, and those that give one back.
use oci_container_runtime_fr.Sys.Calls.{
  make_pipe, start, Spawn, mount, make_dir, close, wait, await_exit, unmount, remove, Trace, Oracle,
}
use oci_container_runtime_fr.Sys.Actions.{
  tolerated, Io, wrapping, attempt, ◌>>=◌, perform, ignoring, tolerating, tolerated,
}
use oci_container_runtime_fr.Sys.Ledger.{
  Resource, descriptor, process, mounted, group, count, change, held, Moves, either_way,
}
use oci_container_runtime_fr.Base.{
  ℕ, ◌+◌, String, ◌≡◌, inl, inr, Bool, true, false, List, ◌∷◌, arith, Bool-cases, is_exist, Result,
  ok, err, wrapped, Str, ℤ,
}
use oci_container_runtime_fr.Sys.Moving.{Moves-ignoring}

-- What is left of a process and the rest after a wait against a timer: only a timer that fires first
-- leaves the process.
abbrev pub after_exit : ℕ → List Resource → Result Bool → List Resource
after_exit pid rest (ok true) = rest
after_exit pid rest (ok false) = process pid ∷ rest
after_exit pid rest (err e) = rest

pub Moves-await_exit :
    (os : Oracle) (pid : ℕ) (limit : ℤ) (rest : List Resource) {B : Type 0} {k : Result Bool → Io B}
    {to : Result B → List Resource}
    → ((r : Result Bool) → Moves (after_exit pid rest r) (k r) to)
    → Moves (process pid ∷ rest) (attempt (perform os (await_exit pid limit)) >>= k) to
unfolding attempt perform held ◌>>=◌
Moves-await_exit os pid limit rest next = record {
  moves = λ t others h x.
      (next (os t (await_exit pid limit))).moves _ others
        (λ y. after (os t (await_exit pid limit)) t others y (h y)) x;
}
  where
    after :
        (r : Result Bool) (t : Trace) (others : Resource → ℕ) (x : Resource)
        → held t x ≡ count x (process pid ∷ rest) + others x
        → change (await_exit pid limit) r (held t) x ≡ count x (after_exit pid rest r) + others x
    after (ok true) t others x e = omega (arith, e)
    after (ok false) t others x e = e
    after (err _) t others x e = omega (arith, e)

-- The calls that get something.
module _ (os : Oracle) (from : List Resource) where
  pub Moves-make_pipe :
      Moves from
        (perform os make_pipe)
        (either_way (λ p. descriptor p.0 ∷ descriptor p.1 ∷ from) from)
  unfolding perform held
  Moves-make_pipe = record { moves = λ t others h x. after (os t make_pipe) t others x (h x) }
    where
      after :
          (r : Result (ℕ × ℕ)) (t : Trace) (others : Resource → ℕ) (x : Resource)
          → held t x ≡ count x from + others x
          → change make_pipe r (held t) x
            ≡ count x (either_way (λ p. descriptor p.0 ∷ descriptor p.1 ∷ from) from r) + others x
      after (ok p) t others x e = omega (arith, e)
      after (err _) t others x e = e

  pub Moves-start :
      (s : Spawn) → Moves from (perform os (start s)) (either_way (λ pid. process pid ∷ from) from)
  unfolding perform held
  Moves-start s = record { moves = λ t others h x. after (os t (start s)) t others x (h x) }
    where
      after :
          (r : Result ℕ) (t : Trace) (others : Resource → ℕ) (x : Resource)
          → held t x ≡ count x from + others x
          → change (start s) r (held t) x
            ≡ count x (either_way (λ pid. process pid ∷ from) from r) + others x
      after (ok p) t others x e = omega (arith, e)
      after (err _) t others x e = e

  pub Moves-mount :
      (source target kind : Str) (flags : List String) (options : Str)
      → Moves from
          (perform os (mount source target kind flags options))
          (either_way (λ done. mounted target ∷ from) from)
  unfolding perform held
  Moves-mount source target kind flags options = record {
    moves = λ t others h x. after (os t (mount source target kind flags options)) t others x (h x);
  }
    where
      after :
          (r : Result (Unit {0})) (t : Trace) (others : Resource → ℕ) (x : Resource)
          → held t x ≡ count x from + others x
          → change (mount source target kind flags options) r (held t) x
            ≡ count x (either_way (λ done. mounted target ∷ from) from r) + others x
      after (ok p) t others x e = omega (arith, e)
      after (err _) t others x e = e

-- A directory of its own, or one that was there.
pub Moves-make_dir :
    (os : Oracle) (from : List Resource) (text : String) (path : Str)
    → Moves from
        (wrapping text (tolerating is_exist (perform os (make_dir path))))
        (either_way (λ done. group path ∷ from) from)
unfolding wrapping tolerating perform held
Moves-make_dir os from text path = record {
  moves = λ t others h x. after (os t (make_dir path)) t others x (h x);
}
  where
    after :
        (r : Result (Unit {0})) (t : Trace) (others : Resource → ℕ) (x : Resource)
        → held t x ≡ count x from + others x
        → change (make_dir path) r (held t) x
          ≡ count x
              (either_way (λ done. group path ∷ from) from (wrapped text (tolerated is_exist r)))
            + others x
    after (ok p) t others x e = omega (arith, e)
    after (err b) t others x e = elim (Bool-cases (is_exist b)) [
      | inl y ↦ rw y (omega (arith, e))
      | inr n ↦ rw n e
    ]

-- The calls that give something back: what is left is the rest.
module _ (os : Oracle) {from : List Resource} (rest : List Resource) where
  pub Moves-close :
      (fd : ℕ)
      → ((x : Resource) → count x from ≡ count x (descriptor fd ∷ rest))
      → Moves from (ignoring (perform os (close fd))) (λ _. rest)
  unfolding ignoring perform held
  Moves-close fd same = record {
    moves = λ t others h x. let e = h x in let e' = same x in omega (arith, e, e');
  }

  pub Moves-wait_all :
      (pid : ℕ)
      → ((x : Resource) → count x from ≡ count x (process pid ∷ rest))
      → Moves from (perform os (wait pid)) (λ _. rest)
  unfolding perform held
  Moves-wait_all pid same = record {
    moves = λ t others h x. let e = h x in let e' = same x in omega (arith, e, e');
  }

  pub Moves-wait :
      (pid : ℕ)
      → ((x : Resource) → count x from ≡ count x (process pid ∷ rest))
      → Moves from (ignoring (perform os (wait pid))) (λ _. rest)
  Moves-wait pid same = Moves-ignoring (Moves-wait_all pid same)

  pub Moves-unmount :
      (target : Str) (flags : List String)
      → ((x : Resource) → count x from ≡ count x (mounted target ∷ rest))
      → Moves from (perform os (unmount target flags)) (λ _. rest)
  unfolding perform held
  Moves-unmount target flags same = record {
    moves = λ t others h x. let e = h x in let e' = same x in omega (arith, e, e');
  }

  pub Moves-remove :
      (path : Str)
      → ((x : Resource) → count x from ≡ count x (group path ∷ rest))
      → Moves from (perform os (remove path)) (λ _. rest)
  unfolding perform held
  Moves-remove path same = record {
    moves = λ t others h x. let e = h x in let e' = same x in omega (arith, e, e');
  }
