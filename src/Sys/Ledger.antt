-- ===== src/Sys/Ledger.antt =====
-- What a process holds after the calls it made: the pipe ends, child processes, mounts and control
-- groups that it got, and has not yet tried to give back.
use oci_container_runtime_fr.Sys.Calls.{
  Call, make_pipe, start, mount, make_dir, close, wait, await_exit, unmount, remove, Answer, Trace,
}
use oci_container_runtime_fr.Sys.Actions.{Io}
use oci_container_runtime_fr.Base.{
  ℕ, ◌+◌, ◌-◌, ◌≡◌, Bool, true, false, List, [], ◌∷◌, arith, ◌==◌, if◌then◌else◌, is_exist, Result,
  ok, err, Str, str_eq,
}

pub data Resource : Type 0 where
  descriptor process : ℕ → Resource
  mounted group : Str → Resource

abbrev pub same_resource : Resource → Resource → Bool
same_resource (descriptor m) (descriptor n) = m == n
same_resource (process m) (process n) = m == n
same_resource (mounted a) (mounted b) = str_eq a b
same_resource (group a) (group b) = str_eq a b
same_resource _ _ = false

-- Whether two resources are the same, as a number.
unfoldable pub weight : Resource → Resource → ℕ
weight r x = if same_resource r x then 1 else 0

-- How often a resource stands in a list.
abbrev pub count : Resource → List Resource → ℕ
count r [] = 0
count r (x ∷ xs) = weight r x + count r xs

-- How often each resource is held after a call. A try to give a resource back counts, whatever the
-- answer. A directory that was there already is taken over.
abbrev pub change : (c : Call) → Result (Answer c) → (Resource → ℕ) → Resource → ℕ
change make_pipe (ok (r, w)) before x = weight x (descriptor r) + weight x (descriptor w) + before x
change (start spawn) (ok pid) before x = weight x (process pid) + before x
change (mount source target kind flags options) (ok done) before x =
    weight x (mounted target) + before x
change (make_dir path) (ok done) before x = weight x (group path) + before x
change (make_dir path) (err e) before x =
    if is_exist e then weight x (group path) + before x else before x
change (close fd) answer before x = before x - weight x (descriptor fd)
change (wait pid) answer before x = before x - weight x (process pid)
change (await_exit pid limit) (ok false) before x = before x
change (await_exit pid limit) answer before x = before x - weight x (process pid)
change (unmount target flags) answer before x = before x - weight x (mounted target)
change (remove path) answer before x = before x - weight x (group path)
change _ answer before x = before x

unfoldable pub held : Trace → Resource → ℕ
held [] x = 0
held (e ∷ t) x = change e.call e.answer (held t) x

-- Calls that neither get nor give back.
abbrev pub is_neutral : Call → Bool
is_neutral make_pipe = false
is_neutral (start spawn) = false
is_neutral (mount source target kind flags options) = false
is_neutral (make_dir path) = false
is_neutral (close fd) = false
is_neutral (wait pid) = false
is_neutral (await_exit pid limit) = false
is_neutral (unmount target flags) = false
is_neutral (remove path) = false
is_neutral _ = true

pub change_neutral :
    (c : Call) (r : Result (Answer c)) (before : Resource → ℕ) (x : Resource)
    → is_neutral c ≡ true
    → change c r before x ≡ before x
change_neutral c r before x h = ground arith

-- An action that starts with the resources `from` on top of others ends with those of `to`, which
-- looks at its result, on top of the same others.
pub record Moves {A : Type 0} (from : List Resource) (m : Io A) (to : Result A → List Resource)
    : Type 0 where
  pub moves :
      (t : Trace) (others : Resource → ℕ)
      → ((x : Resource) → held t x ≡ count x from + others x)
      → (x : Resource) → held (m t).1 x ≡ count x (to (m t).0) + others x

-- The resources after a success, which gave a value, and those after an error.
abbrev pub either_way :
    {A : Type 0} → (A → List Resource) → List Resource → Result A → List Resource
either_way f xs (ok a) = f a
either_way f xs (err e) = xs

-- The action holds as much after as before, whatever comes of it.
pub record Keeps {A : Type 0} (m : Io A) : Type 0 where
  pub same : (t : Trace) (x : Resource) → held (m t).1 x ≡ held t x
