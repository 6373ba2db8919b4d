-- ===== src/Runtime/Sync/Phases.antt =====
-- What two processes that share a pipe, the parent with its write end and the child with its read end,
-- can come to: the phases of `Run` and `Child` of mvp/internal/runtime/runtime_linux.go.
use oci_container_runtime_fr.Runtime.Sync.{
  Procs, is_release, is_wait, is_kill, was_released, parent_may, child_may, unless_killed, Step,
  parent_goes, child_goes, Steps, here, next,
}
use oci_container_runtime_fr.Sys.{Call, signal, read_byte, close}
use oci_container_runtime_fr.Base.{
  ℕ, ◌≡◌, refl, sym, ap, ◌∙◌, ◌≢◌, Bool, true, false, not, ◌||◌, List, [], ◌∷◌, ◌++◌, reverse,
  reverse-append, append_assoc, arith, All, str, str_eq,
}

module _ (w pid : ℕ) where
  -- A call with no part in the play between the two.
  abbrev pub is_aside : Call → Bool
  is_aside c = not (is_release w pid c || is_wait w pid c || is_kill w pid c)

  -- A call that does not kill the child.
  abbrev pub IsSparing : Call → Type 0
  IsSparing c = is_kill w pid c ≡ false

  -- The parent's calls up to the release of the child, which comes behind `ready` and before
  -- calls that spare it, or up to its kill.
  pub data Course (ready : List Call) : Bool → List Call → List Call → Type 0 where
    release : {left : List Call} → All IsSparing left → Course ready true ready (close w ∷ left)
    kill : {done left : List Call} → Course ready false done (signal pid "SIGKILL" ∷ left)
    aside :
        (c : Call) {b : Bool} {done left : List Call}
        → is_aside c ≡ true
        → Course ready b (c ∷ done) left
        → Course ready b done (c ∷ left)

  -- Where the two stand, when the child has `all` to do.
  pub data Phase (ready all : List Call) (b : Bool) (s : Procs) : Type 0 where
    waiting :
        s.child_done ≡ []
        → was_released w pid s.parent_done ≡ false
        → (rest : List Call) → s.child_left ≡ read_byte 3 ∷ rest
        → s.child_left ≡ all
        → Course ready b s.parent_done s.parent_left
        → Phase ready all b s
    released :
        b ≡ true
        → (more : List Call) → s.parent_done ≡ more ++ close w ∷ ready
        → reverse s.child_done ++ s.child_left ≡ all
        → All IsSparing s.parent_left
        → Phase ready all b s
    killed : b ≡ false → s.child_done ≡ [] → s.child_left ≡ [] → Phase ready all b s

  gated :
      (c : Call) (d : List Call)
      → c ≡ read_byte 3
      → was_released w pid d ≡ false
      → child_may w pid c d ≢ true
  unfolding child_may
  gated c d e locked may = let m = ap (λ k. child_may w pid k d) (sym e) ∙ may in ground arith

  module _ {ready all : List Call} where
    parent-Phase :
        (c : Call) {b : Bool} {d l d' l' : List Call}
        → parent_may w pid c l' ≡ true
        → Phase ready all b
            record { parent_done = d; parent_left = c ∷ l; child_done = d'; child_left = l' }
        → Phase ready all b record {
          parent_done = c ∷ d;
          parent_left = l;
          child_done = d';
          child_left = unless_killed w pid c l';
        }
    unfolding unless_killed was_released str str_eq
    parent-Phase c may (waiting e locked rest gate whole (release spared)) =
        released refl [] refl (rw e whole) spared
    parent-Phase c may (waiting e locked rest gate whole kill) = killed refl e (ground arith)
    parent-Phase c may (waiting e locked rest gate whole (aside _ h course)) =
        waiting e (ground arith) rest (ground arith) (ground arith) course
    parent-Phase c may (released h more e whole (spares, spared)) =
        released h (c ∷ more) (ap (λ l. c ∷ l) e) (rw spares whole) spared
    parent-Phase c may (killed h e e') = killed h e (ground arith)

    child-Phase :
        (c : Call) {b : Bool} {d l d' l' : List Call}
        → child_may w pid c d ≡ true
        → Phase ready all b
            record { parent_done = d; parent_left = l; child_done = d'; child_left = c ∷ l' }
        → Phase ready all b
            record { parent_done = d; parent_left = l; child_done = c ∷ d'; child_left = l' }
    child-Phase c may (waiting e locked rest gate whole course) = absurd (gated c _ (cc) locked may)
    child-Phase c {d' = d'} {l' = l'} may (released h more e whole spared) =
        released h more e
          (rw (reverse-append (c ∷ []) d') (append_assoc (reverse d') (c ∷ []) l' ∙ whole)) spared
    child-Phase c may (killed h e e') = absurd cc

    pub Step-Phase :
        {b : Bool} {s t : Procs} → Step w pid s t → Phase ready all b s → Phase ready all b t
    Step-Phase (parent_goes c may) p = parent-Phase c may p
    Step-Phase (child_goes c may) p = child-Phase c may p

    pub Steps-Phase :
        {b : Bool} {s : Procs} {n : ℕ} {t : Procs}
        → Steps w pid s n t
        → Phase ready all b s
        → Phase ready all b t
    Steps-Phase here p = p
    Steps-Phase (next path st) p = Step-Phase st (Steps-Phase path p)
