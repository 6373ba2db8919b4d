-- ===== src/Base/Split.antt =====
-- The parts of a text between the places of one byte, and how they go with strings.Join.
use Prim.Native.Nat.{ℕ}
use mathlib.Core.List.{List, [], ◌∷◌, ◌++◌, append_assoc}
use mathlib.Core.Logic.{◌≢◌, inl, inr}
use mathlib.Core.Path.{◌≡◌, refl, ◌∙◌}
use native.Mathlib.Omega.{arith}
use oci_container_runtime_fr.Base.Tests.{◌==◌, if◌then◌else◌, Bool-cases, ==_iff}
use oci_container_runtime_fr.Base.Lists.{All}
use oci_container_runtime_fr.Base.Text.{Str, join, Lacks}

-- A byte in front of the first part.
abbrev pub push_byte : ℕ → List Str → List Str
push_byte c [] = (c ∷ []) ∷ []
push_byte c (s ∷ rest) = (c ∷ s) ∷ rest

unfoldable pub split_on : ℕ → Str → List Str
split_on c [] = [] ∷ []
split_on c (x ∷ s) = let parts = split_on c s in if x == c then [] ∷ parts else push_byte x parts

module _ (c : ℕ) where
  push_byte-append :
      (x : ℕ) (parts more : List Str)
      → parts ≢ []
      → push_byte x parts ++ more ≡ push_byte x (parts ++ more)
  push_byte-append x [] more h = absurd (h refl)
  push_byte-append x (s ∷ parts) more h = refl

  split_on-ne : (s : Str) → split_on c s ≢ []
  unfolding split_on
  split_on-ne [] h = cc
  split_on-ne (x ∷ s) h = ground (arith, split_on-ne s)

  pub split_on-append : (a b : Str) → split_on c (a ++ c ∷ b) ≡ split_on c a ++ split_on c b
  unfolding split_on
  split_on-append [] b = ground arith
  split_on-append (x ∷ a) b =
      ground (
        arith,
        split_on-append a b,
        push_byte-append x (split_on c a) (split_on c b) (split_on-ne a),
      )

  pub split_on-Lacks : (a : Str) → Lacks c a → split_on c a ≡ a ∷ []
  unfolding split_on
  split_on-Lacks [] h = refl
  split_on-Lacks (x ∷ a) (hx, h) = rw (split_on-Lacks a h) (ground arith)

  join_cons :
      (d e : Str) (dirs : List Str)
      → join (d ∷ e ∷ dirs) (c ∷ []) ≡ d ++ c ∷ join (e ∷ dirs) (c ∷ [])
  unfolding join
  join_cons d e dirs = ground (arith, append_assoc d (c ∷ []) (join (e ∷ dirs) (c ∷ [])))

  pub split_on-join :
      (d : Str) (dirs : List Str)
      → All (Lacks c) (d ∷ dirs)
      → split_on c (join (d ∷ dirs) (c ∷ [])) ≡ d ∷ dirs
  unfolding join
  split_on-join d [] (h, _) = split_on-Lacks d h
  split_on-join d (e ∷ dirs) (h, hs) = rw (join_cons d e dirs) (
      split_on-append d (join (e ∷ dirs) (c ∷ []))
      ∙ rw (split_on-Lacks d h, split_on-join e dirs hs) refl)

  push_byte-Lacks :
      (x : ℕ) (parts : List Str) → x ≢ c → All (Lacks c) parts → All (Lacks c) (push_byte x parts)
  push_byte-Lacks x [] h k = ((h, tt), tt)
  push_byte-Lacks x (s ∷ parts) h (ks, k) = ((h, ks), k)

  -- No part has the byte.
  pub All-split_on : (s : Str) → All (Lacks c) (split_on c s)
  unfolding split_on
  All-split_on [] = (tt, tt)
  All-split_on (x ∷ s) = elim (Bool-cases (x == c)) [
    | inl same ↦ rw same (tt, All-split_on s)
    | inr other ↦
        rw other (push_byte-Lacks x (split_on c s) (ground (arith, ==_iff x c)) (All-split_on s))
  ]
