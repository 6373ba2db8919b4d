-- ===== src/Cgroups/Writes.antt =====
-- Which files `Create` writes, and what it leaves behind when it fails.
use oci_container_runtime_fr.Cgroups.{
  FloatOps, Limits, root_or_default, floor_quota, cpu_value, root, write, close_group, prepare,
  write_or_close, write_limits, create,
}
use oci_container_runtime_fr.Sys.{
  Call, get_env, remove, write_file, Trace, Oracle, Io, pure, wrapping, on_error, ◌>>=◌, ◌>>◌,
  perform, ignoring, log, when, tolerating, env, text_or_empty, bind-ok, bind-err,
}
use oci_container_runtime_fr.Base.{
  ℕ, ◌≤◌, String, ◌≡◌, refl, ap, ◌∙◌, ◌⊎◌, inl, inr, Bool, true, false, List, [], ◌∷◌, ◌++◌, arith,
  append_assoc, leb, ltb, Bool-cases, if◌then◌else◌, Error, ok, err, Str, str, ℤ, pos, negsuc,
  is_positive, decimal, format_int, NonEmpty, join_path-NonEmpty, join_path,
}

abbrev limit_entry : Bool → Str → String → Str → List (Call × Bool) → List (Call × Bool)
limit_entry set path name content before =
    if set then (write_file (join_path (path ∷ str name ∷ [])) content, true) ∷ before else before

-- The text of a quota: so many microseconds of each 100000, and at least 1000 of them.
abbrev pub quota_text : ℤ → Str
quota_text (pos n) = (if leb 1000 n then decimal n else str "1000") ++ str " 100000"
quota_text (negsuc n) = str "1000" ++ str " 100000"

each_period : str " " ++ decimal 100000 ≡ str " 100000"
unfolding str decimal
each_period = refl

least : decimal 1000 ++ str " " ++ decimal 100000 ≡ str "1000" ++ str " 100000"
unfolding str decimal
least = refl

cpu_value-quota_text : (q : ℤ) → cpu_value q ≡ quota_text q
unfolding cpu_value floor_quota format_int
cpu_value-quota_text (pos n) = elim (Bool-cases (ltb n 1000)) [
  | inl below ↦ rw (below, above n below) least
  | inr other ↦
      rw (other, enough n other)
        (append_assoc (decimal n) (str " ") (decimal 100000) ∙ ap (◌++◌ (decimal n)) each_period)
]
  where
    above : (n : ℕ) → ltb n 1000 ≡ true → leb 1000 n ≡ false
    above n h = ground arith

    enough : (n : ℕ) → ltb n 1000 ≡ false → leb 1000 n ≡ true
    enough n h = ground arith
cpu_value-quota_text (negsuc n) = least

module _ {F : Type 0} (fl : FloatOps F) (lim : Limits F) (path : Str) where
  abbrev memory_entry : List (Call × Bool) → List (Call × Bool)
  memory_entry =
      limit_entry (is_positive lim.memory_bytes) path "memory.max" (format_int lim.memory_bytes)

  abbrev cpu_entry : List (Call × Bool) → List (Call × Bool)
  cpu_entry =
      limit_entry (fl.above_zero lim.cpu_quota) path "cpu.max"
        (quota_text (fl.micros lim.cpu_quota))

  abbrev pids_entry : List (Call × Bool) → List (Call × Bool)
  pids_entry = limit_entry (is_positive lim.pids_max) path "pids.max" (format_int lim.pids_max)

  -- The writes of the requested limits in front of what was done before, the last one first.
  abbrev pub limit_log : List (Call × Bool) → List (Call × Bool)
  limit_log before = pids_entry (cpu_entry (memory_entry before))

-- The last call tried to remove the directory.
abbrev pub EndsInRemove : Str → List (Call × Bool) → Type 0
EndsInRemove path [] = ⊥
EndsInRemove path ((c, b) ∷ before) = c ≡ remove path

module _ (os : Oracle) (path : Str) (real : NonEmpty path) where
  close_group_ends : (t : Trace) → EndsInRemove path (log (ignoring (close_group os path) t).1)
  unfolding close_group ignoring wrapping tolerating perform
  close_group_ends t = rw real refl

  abbrev step : Bool → String → Str → Io (Unit {0})
  step set name content = when set (write_or_close os path name content)

  step_ok :
      (set : Bool) (name : String) (content : Str) (t : Trace)
      → (step set name content t).0 ≡ ok tt
      → log (step set name content t).1 ≡ limit_entry set path name content (log t)
  unfolding when write_or_close write wrapping on_error perform pure
  step_ok false name content t h = refl
  step_ok true name content t h = ground arith

  step_err :
      (set : Bool) (name : String) (content : Str) (t : Trace) (e : Error)
      → (step set name content t).0 ≡ err e
      → EndsInRemove path (log (step set name content t).1)
  unfolding when write_or_close write wrapping on_error perform pure
  step_err false name content t e h = cc
  step_err true name content t e h = grind (arith, close_group_ends)

  two_ok :
      (m k : Io (Unit {0})) (f g : List (Call × Bool) → List (Call × Bool)) (t : Trace)
      → ((t : Trace) → (m t).0 ≡ ok tt → log (m t).1 ≡ f (log t))
      → ((t : Trace) → (k t).0 ≡ ok tt → log (k t).1 ≡ g (log t))
      → ((m >> k) t).0 ≡ ok tt
      → log ((m >> k) t).1 ≡ g (f (log t))
  two_ok m k f g t hm hk h =
      let (u, first, second, same) = bind-ok m (λ _. k) t h in
      rw same (hk (m t).1 second ∙ ap g (hm t first))

  two_err :
      (m k : Io (Unit {0})) (t : Trace) {e : Error}
      → ((t : Trace) (e : Error) → (m t).0 ≡ err e → EndsInRemove path (log (m t).1))
      → ((t : Trace) (e : Error) → (k t).0 ≡ err e → EndsInRemove path (log (k t).1))
      → ((m >> k) t).0 ≡ err e
      → EndsInRemove path (log ((m >> k) t).1)
  two_err m k t hm hk h = elim (bind-err m (λ _. k) t h) [
    | inl (failed, same) ↦ rw same (hm t _ failed)
    | inr (u, first, second, same) ↦ rw same (hk (m t).1 _ second)
  ]

  module _ {F : Type 0} (fl : FloatOps F) (lim : Limits F) where
    cpu_step :
        (t : Trace)
        → (step (fl.above_zero lim.cpu_quota) "cpu.max" (cpu_value (fl.micros lim.cpu_quota)) t).0
          ≡ ok tt
        → log
            (step (fl.above_zero lim.cpu_quota) "cpu.max" (cpu_value (fl.micros lim.cpu_quota)) t).1
          ≡ cpu_entry fl lim path (log t)
    cpu_step t h =
        step_ok _ _ _ t h
        ∙ ap (λ c. limit_entry (fl.above_zero lim.cpu_quota) path "cpu.max" c (log t))
            (cpu_value-quota_text (fl.micros lim.cpu_quota))

    write_limits_ok :
        (t : Trace)
        → (write_limits os fl lim path t).0 ≡ ok tt
        → log (write_limits os fl lim path t).1 ≡ limit_log fl lim path (log t)
    unfolding write_limits
    write_limits_ok t h =
        two_ok _ _ (memory_entry fl lim path)
          (λ l. pids_entry fl lim path (cpu_entry fl lim path l)) t (step_ok _ _ _)
          (λ t.
            two_ok _ _ (cpu_entry fl lim path) (pids_entry fl lim path) t cpu_step (step_ok _ _ _))
          h

    write_limits_err :
        (t : Trace) {e : Error}
        → (write_limits os fl lim path t).0 ≡ err e
        → EndsInRemove path (log (write_limits os fl lim path t).1)
    unfolding write_limits
    write_limits_err t h =
        two_err _ _ t (step_err _ _ _) (λ t e. two_err _ _ t (step_err _ _ _) (step_err _ _ _)) h

-- A CPU quota is at least 1000 microseconds in each period of 100000.
pub floor_quota_min : (q : ℤ) (n : ℕ) → floor_quota q ≡ pos n → 1000 ≤ n
unfolding floor_quota
floor_quota_min (pos m) n h = ground arith
floor_quota_min (negsuc m) n h = ground arith

pub group_name-NonEmpty : (pid : ℕ) → NonEmpty (str "myrun-" ++ decimal pid)
unfolding str
group_name-NonEmpty pid = refl

prepare-NonEmpty :
    (os : Oracle) (pid : ℕ) (t : Trace) {path : Str}
    → (prepare os pid t).0 ≡ ok path
    → NonEmpty path
unfolding prepare root env ignoring wrapping tolerating perform pure ◌>>=◌
prepare-NonEmpty os pid t h = ground (
  arith,
  join_path-NonEmpty (root_or_default (text_or_empty (os t (get_env "MYRUN_CGROUP_ROOT"))))
      (str "myrun-" ++ decimal pid) (group_name-NonEmpty pid),
)

module _ (os : Oracle) {F : Type 0} (fl : FloatOps F) (lim : Limits F) (pid : ℕ) (t : Trace) where
  -- After a success every requested limit was written to its file of the group, and no other limit
  -- was: in this order, memory.max with the bytes, cpu.max with the microseconds in each 100000, of
  -- which there are at least 1000, and pids.max with the number. Nothing else happened once the group
  -- was there.
  pub create_ok :
      {path : Str}
      → (create os fl lim pid t).0 ≡ ok path
      → ((prepare os pid t).0 ≡ ok path)
        × (log (create os fl lim pid t).1 ≡ limit_log fl lim path (log (prepare os pid t).1))
  unfolding create pure
  create_ok {path = path'} h =
      let (path, made, wrote, same) = bind-ok (prepare os pid) _ t h in
      let (u, written, done, same') = bind-ok (write_limits os fl lim path) _ _ wrote in
      let equal : path ≡ path' = cc in
      rw same (
        rw same' (
          made ∙ ap ok equal,
          write_limits_ok os path (prepare-NonEmpty os pid t made) fl lim (prepare os pid t).1
                written
              ∙ ap (λ p. limit_log fl lim p (log (prepare os pid t).1)) equal,
        ))

  limits_fail :
      (path : Str) (t' : Trace) {e : Error}
      → NonEmpty path
      → ((write_limits os fl lim path >> pure path) t').0 ≡ err e
      → EndsInRemove path (log ((write_limits os fl lim path >> pure path) t').1)
  unfolding pure
  limits_fail path t' real h = elim (bind-err (write_limits os fl lim path) _ t' h) [
    | inl (failed, same) ↦ rw same (write_limits_err os path real fl lim t' failed)
    | inr (u, first, second, same) ↦ cc
  ]

  -- A failure that comes after the group was made ends in an attempt to remove it.
  pub create_err :
      {e : Error}
      → (create os fl lim pid t).0 ≡ err e
      → ((prepare os pid t).0 ≡ err e)
        ⊎ ((path : Str) × ((prepare os pid t).0 ≡ ok path)
            × EndsInRemove path (log (create os fl lim pid t).1))
  unfolding create
  create_err h = elim (bind-err (prepare os pid) _ t h) [
    | inl (failed, same) ↦ inl failed
    | inr (path, made, wrote, same) ↦
        inr (path, made, rw same (limits_fail path _ (prepare-NonEmpty os pid t made) wrote))
  ]
