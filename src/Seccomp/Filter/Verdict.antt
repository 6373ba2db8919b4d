-- ===== src/Seccomp/Filter/Verdict.antt =====
-- The action of the built filter on every system call.
use oci_container_runtime_fr.Seccomp.Filter.{
  SockFilter, ret_allow, ret_kill_process, jumps, epilogue, build_filter, sub32,
}
use oci_container_runtime_fr.Seccomp.Machine.{Machine, SeccompData}
use oci_container_runtime_fr.Base.{
  ℕ, zero, suc, ◌+◌, ◌%◌, ◌^◌, ◌≤◌, ◌<◌, ◌≡◌, refl, ap, ◌∙◌, inl, inr, Bool, true, false, ◌&&◌,
  ◌||◌, List, [], ◌∷◌, ◌++◌, arith, ◌==◌, if◌then◌else◌, Bool-cases, length, drop, drop-append_suc,
}

abbrev pub elem : ℕ → List ℕ → Bool
elem a [] = false
elem a (x ∷ xs) = a == x || elem a xs

length-jumps : (n i : ℕ) (xs : List ℕ) → length (jumps n i xs) ≡ length xs
unfolding jumps
length-jumps n i [] = refl
length-jumps n i (x ∷ xs) = ap suc (length-jumps n (i + 1) xs)

drop-jumps :
    (n i : ℕ) (xs : List ℕ) (a b : SockFilter)
    → drop (suc (length xs)) (jumps n i xs ++ a ∷ b ∷ []) ≡ b ∷ []
drop-jumps n i xs a b = rw (← length-jumps n i xs) (drop-append_suc (jumps n i xs) a (b ∷ []))

module _ (vm : Machine) (d : SeccompData) where
  -- A jump with a small offset reaches the allowing end.
  exec-jumps :
      (n i a : ℕ) (xs : List ℕ)
      → n ≡ i + length xs
      → n < 2 ^ 32
      → length xs ≤ 255
      → vm.exec (jumps n i xs ++ epilogue) a d ≡ (if elem a xs then ret_allow else ret_kill_process)
  unfolding jumps
  exec-jumps n i a [] e w h = vm.exec-ret a ret_kill_process d _
  exec-jumps n i a (x ∷ xs) e w h =
      vm.exec-jeq a x (sub32 n i % 2 ^ 8) 0 d (jumps n (i + 1) xs ++ epilogue)
      ∙ (elim (Bool-cases (a == x)) [
        | inl t ↦ rw t (rw (offset, drop-jumps n (i + 1) xs _ _) (vm.exec-ret a ret_allow d []))
        | inr t ↦ rw t (exec-jumps n (i + 1) a xs (omega (arith, e)) w (omega arith))
      ])
    where
      offset : sub32 n i % 2 ^ 8 ≡ suc (length xs)
      offset = omega arith

  -- The preamble: the architecture is tested before anything else.
  exec-build_filter :
      (arch : ℕ) (allowed : List ℕ) (v : ℕ)
      → vm.exec (jumps (length allowed % 2 ^ 32) 0 allowed ++ epilogue) d.nr d ≡ v
      → vm.exec (build_filter arch allowed) 0 d ≡ (if d.arch == arch then v else ret_kill_process)
  unfolding build_filter
  exec-build_filter arch allowed v h =
      vm.exec-ld_arch 0 d _
      ∙ vm.exec-jeq d.arch arch 1 0 d _
      ∙ (elim (Bool-cases (d.arch == arch)) [
        | inl t ↦ rw t (vm.exec-ld_nr d.arch d _ ∙ h)
        | inr t ↦ rw t (vm.exec-ret d.arch ret_kill_process d _)
      ])

-- A filter for at most 255 calls allows exactly the listed calls of its own architecture, and kills
-- the process at every other call.
pub filter_verdict :
    (vm : Machine) (arch : ℕ) (allowed : List ℕ) (d : SeccompData)
    → length allowed ≤ 255
    → vm.exec (build_filter arch allowed) 0 d
      ≡ (if d.arch == arch && elem d.nr allowed then ret_allow else ret_kill_process)
filter_verdict vm arch allowed d h =
    exec-build_filter vm d arch allowed _
      (exec-jumps vm d (length allowed % 2 ^ 32) 0 d.nr allowed (omega arith) (omega arith) h)
    ∙ ground arith

-- With 256 listed calls the first jump offset wraps around to 0, so the first call of the list is
-- killed, if it is not listed again.
pub filter_wraps :
    (vm : Machine) (arch nr : ℕ) (rest : List ℕ)
    → length rest ≡ 255
    → elem nr rest ≡ false
    → vm.exec (build_filter arch (nr ∷ rest)) 0 (record { nr = nr; arch = arch }) ≡ ret_kill_process
unfolding jumps
filter_wraps vm arch nr rest h k =
    exec-build_filter vm d arch (nr ∷ rest) ret_kill_process (
      vm.exec-jeq nr nr (sub32 n 0 % 2 ^ 8) 0 d (jumps n 1 rest ++ epilogue)
      ∙ rw offset (exec_rest ∙ (rw k)))
    ∙ ground arith
  where
    d : SeccompData
    d = record { nr = nr; arch = arch }

    n : ℕ
    n = length (nr ∷ rest) % 2 ^ 32

    offset : sub32 n 0 % 2 ^ 8 ≡ 0
    offset = omega arith

    exec_rest :
        vm.exec (drop (if nr == nr then 0 else 0) (jumps n 1 rest ++ epilogue)) nr d
        ≡ (if elem nr rest then ret_allow else ret_kill_process)
    exec_rest =
        rw (same (nr == nr)) (exec-jumps vm d n 1 nr rest (omega arith) (omega arith) (omega arith))
      where
        same : (b : Bool) → (if b then 0 else 0) ≡ zero
        same true = refl
        same false = refl
