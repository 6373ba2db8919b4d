-- ===== src/Runtime/Sync/Ending.antt =====
-- Two processes that share a pipe come to their ends: neither `Run` nor `Child` of
-- mvp/internal/runtime/runtime_linux.go waits for ever.
use oci_container_runtime_fr.Runtime.Sync.{
  Procs, has_ended, was_released, parent_may, child_may, unless_killed, Step, parent_goes,
  child_goes, Steps, here, next, calls_left, is_over,
}
use oci_container_runtime_fr.Runtime.Sync.Phases.{
  is_aside, Course, Phase, waiting, released, killed, release, kill, aside, Step-Phase,
}
use mathlib.Core.Path.{subst}
use oci_container_runtime_fr.Sys.{Call, signal, read_byte, close}
use oci_container_runtime_fr.Base.{
  ℕ, zero, suc, ◌+◌, ◌≤◌, ◌<◌, ◌≡◌, refl, sym, ap, ◌∙◌, ◌≢◌, inl, inr, Bool, true, false, ◌&&◌,
  List, [], ◌∷◌, ◌++◌, reverse, reverse-reverse, append-nil, arith, if◌then◌else◌, Bool-cases,
}

module _ (w pid : ℕ) where
  abbrev Next : Procs → Type 0
  Next s = (t : Procs) × Step w pid s t

  parent_free : (c : Call) (l : List Call) → is_aside w pid c ≡ true → parent_may w pid c l ≡ true
  unfolding parent_may
  parent_free c l h = ground arith

  opened : (more ready : List Call) → was_released w pid (more ++ close w ∷ ready) ≡ true
  unfolding was_released
  opened [] ready = ground arith
  opened (c ∷ more) ready = let e = opened more ready in ground arith

  child_free : (c : Call) (d : List Call) → was_released w pid d ≡ true → child_may w pid c d ≡ true
  unfolding child_may
  child_free c d h = ground arith

  -- The child can go on, or has ended and the parent can.
  either_goes :
      (d l d' l' : List Call)
      → ((c : Call) → child_may w pid c d ≡ true)
      → (has_ended l && has_ended l') ≡ false
      → Next record { parent_done = d; parent_left = l; child_done = d'; child_left = l' }
  unfolding parent_may
  either_goes d l d' (c ∷ l') free more = (_, child_goes c (free c))
  either_goes d (c ∷ l) d' [] free more = (_, parent_goes c (ground arith))
  either_goes d [] d' [] free more = absurd cc

  killed_goes :
      (d l d' l' : List Call)
      → l' ≡ []
      → (has_ended l && has_ended l') ≡ false
      → Next record { parent_done = d; parent_left = l; child_done = d'; child_left = l' }
  unfolding parent_may
  killed_goes d (c ∷ l) d' [] e more = (_, parent_goes c (ground arith))
  killed_goes d [] d' [] e more = absurd cc
  killed_goes d l d' (c ∷ l') e more = absurd cc

  module _ {ready : List Call} where
    waiting_goes :
        {b : Bool} (d l d' l' : List Call)
        → Course w pid ready b d l
        → Next record { parent_done = d; parent_left = l; child_done = d'; child_left = l' }
    unfolding parent_may
    waiting_goes d l d' l' (release spared) = (_, parent_goes (close w) refl)
    waiting_goes d l d' l' kill = (_, parent_goes (signal pid "SIGKILL") refl)
    waiting_goes d l d' l' (aside c h course) = (_, parent_goes c (parent_free c l' h))

  module _ {ready all : List Call} where
    goes : {b : Bool} (s : Procs) → Phase w pid ready all b s → is_over s ≡ false → Next s
    goes s (waiting e locked rest gate whole course) more = waiting_goes _ _ _ _ course
    goes s (released h new e whole spared) more =
        either_goes _ _ _ _ (λ c. child_free c _ (ap (was_released w pid) e ∙ opened new ready))
          more
    goes s (killed h e e') more = killed_goes _ _ _ _ e' more

  empty : (l : List Call) → has_ended l ≡ true → l ≡ []
  empty [] h = refl
  empty (c ∷ l) h = absurd cc

  both_empty : (l l' : List Call) → (has_ended l && has_ended l') ≡ true → (l ≡ []) × (l' ≡ [])
  both_empty [] l' h = (refl, empty l' h)
  both_empty (c ∷ l) l' h = absurd cc

  unfinished : {ready d : List Call} {b : Bool} (l : List Call) → Course w pid ready b d l → l ≢ []
  unfinished l (release spared) e = cc
  unfinished l kill e = cc
  unfinished l (aside c h course) e = cc

  -- At the end the child has made all its calls, or none.
  pub at_end :
      {ready all : List Call} {b : Bool} (s : Procs)
      → Phase w pid ready all b s
      → is_over s ≡ true
      → s.child_done ≡ (if b then reverse all else [])
  at_end s (waiting e locked rest gate whole course) over =
      absurd (unfinished s.parent_left course (both_empty _ _ over).0)
  at_end s (released h new e whole spared) over =
      let left = (both_empty s.parent_left s.child_left over).1 in
      let done =
        sym (append-nil (reverse s.child_done))
        ∙ ap (λ l. reverse s.child_done ++ l) (sym left)
        ∙ whole in
      rw h (sym (reverse-reverse s.child_done) ∙ ap reverse done)
  at_end s (killed h e e') over = rw h e

  lower : {s t : Procs} → Step w pid s t → calls_left t < calls_left s
  unfolding unless_killed
  lower (parent_goes c may) = ground arith
  lower (child_goes c may) = omega arith

  -- Each step makes a call.
  pub Steps-bound :
      {s : Procs} {n : ℕ} {t : Procs} → Steps w pid s n t → n + calls_left t ≤ calls_left s
  Steps-bound here = omega arith
  Steps-bound (next path st) = omega (arith, Steps-bound path, lower st)

  pub first_then :
      {s t : Procs} {n : ℕ} {u : Procs}
      → Step w pid s t
      → Steps w pid t n u
      → Steps w pid s (suc n) u
  first_then st here = next here st
  first_then st (next path st') = next (first_then st path) st'

  module _ {ready all : List Call} {b : Bool} where
    pub ends_within :
        (fuel : ℕ) (s : Procs)
        → Phase w pid ready all b s
        → calls_left s ≤ fuel
        → (n : ℕ) × (t : Procs) × Steps w pid s n t × (is_over t ≡ true)
    ends_within zero s p h = elim (Bool-cases (is_over s)) [
      | inl over ↦ (0, s, here, over)
      | inr more ↦ let (t, st) = goes s p more in absurd (omega (arith, h, lower st))
    ]
    ends_within (suc fuel) s p h = elim (Bool-cases (is_over s)) [
      | inl over ↦ (0, s, here, over)
      | inr more ↦
          let (t, st) = goes s p more in
          let (n, u, path, over) =
            ends_within fuel t (Step-Phase w pid st p) (omega (arith, h, lower st)) in
          (suc n, u, first_then st path, over)
    ]

  spared : (c : Call) (l : List Call) → is_aside w pid c ≡ true → unless_killed w pid c l ≡ l
  unfolding unless_killed
  spared c l h = ground arith

  -- A course to the release lets the child make its read.
  pub lets_in :
      {ready : List Call} {d l : List Call} (rest : List Call)
      → Course w pid ready true d l
      → (n : ℕ) × (t : Procs) × Steps w pid
          record {
            parent_done = d;
            parent_left = l;
            child_done = [];
            child_left = read_byte 3 ∷ rest;
          }
          n
          t
        × (t.child_done ≡ read_byte 3 ∷ [])
  unfolding parent_may child_may was_released unless_killed
  lets_in {ready} rest (release spared) = (
    2,
    _,
    next (next here (parent_goes (close w) refl)) (child_goes (read_byte 3) (ground arith)),
    refl,
  )
  lets_in {ready} {d} {l} rest (aside c {left = left} h course) =
      let (n, t, path, e) = lets_in rest course in
      let gone : Step w pid
          record {
            parent_done = d;
            parent_left = c ∷ left;
            child_done = [];
            child_left = read_byte 3 ∷ rest;
          }
          record {
            parent_done = c ∷ d;
            parent_left = left;
            child_done = [];
            child_left = read_byte 3 ∷ rest;
          } =
        subst
          (λ k.
            Step w pid
              record {
                parent_done = d;
                parent_left = c ∷ left;
                child_done = [];
                child_left = read_byte 3 ∷ rest;
              }
              record { parent_done = c ∷ d; parent_left = left; child_done = []; child_left = k })
          (spared c (read_byte 3 ∷ rest) h)
          (parent_goes c (parent_free c (read_byte 3 ∷ rest) h)) in
      (suc n, t, first_then gone path, e)
