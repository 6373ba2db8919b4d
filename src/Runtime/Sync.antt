-- ===== src/Runtime/Sync.antt =====
-- How `Run` and `Child` of mvp/internal/runtime/runtime_linux.go, two processes, take turns. Each has
-- the calls of one of its runs; a step makes the next call of either. What makes one of them wait is
-- the kernel's: a read on the pipe returns when the write end, which only the parent has, is closed;
-- a wait for a process returns when that process has ended; and a killed process makes no call. The
-- user's command, which follows the child's last call, makes none here.
pub mod Phases
pub mod Ending
pub mod Quiet
pub mod Guarding
pub mod Bridged
pub mod Supervision
pub mod Gate
pub mod Order
use oci_container_runtime_fr.Sys.{
  Spawn, Call, get_env, get_uid, get_gid, get_euid, stat, read_file, remove, remove_all, make_dir,
  make_dir_all, write_file, rename, command, look_path, start, signal, wait, make_pipe, read_byte,
  close, mount, unmount, pivot_root, change_root, change_dir, set_hostname, no_new_privs,
  set_filter, exec, random_bytes, Response, EntryKind, directory, regular, symbolic_link, hard_link,
  other_kind, Entry, Archive, symlink, link, create_file, copy_into, close_file, open_file,
  read_archive, http_get, await_exit, await_byte, Answer, Event, Trace, Oracle, is_ok, Io, pure,
  raise, lift, wrapping, attempt, finish, on_error, deferring, continue, ◌>>=◌, ◌>>◌, perform,
  ignoring, log, calls, when, tolerated, tolerating, env, text_or_empty, bind-ok, bind-err,
  on_error-ok, on_error-err, performed, performed-ok, step-ok, check-ok, lifted, Resource,
  descriptor, process, mounted, group, weight, count, change, held, is_neutral, either_way, Moves,
  Keeps, Keeps-perform, Keeps-pure, Keeps-raise, Keeps-lift, Keeps-wrapping, Keeps-attempt,
  Keeps-ignoring, Keeps-on_error, Keeps-bind, Keeps-when, Keeps-tolerating, Keeps-env,
  Keeps-make_dir_all, Keeps-write_file, Keeps-command, Keeps-signal, Keeps-read_file,
  Keeps-remove_all, find_program-Keeps, Sure, Sure-ignoring, Sure-attempt, Sure-env, Sure-pure,
  Sure-when, Sure-bind, Moves-Sure, Moves-ignored, Moves-kept, Moves-tolerating, Moves-wrapping_all,
  Moves-pure, Moves-raise, Moves-wait_all, Moves-attempted, count-append, Moves-if, Keeps-if,
  after_exit, Moves-await_exit, Moves-Keeps, Moves-to, Moves-from, Moves-wrapping, Moves-bind,
  Moves-on_error, Moves-deferring, Moves-ignoring, Moves-attempt, Moves-make_pipe, Moves-start,
  Moves-mount, Moves-make_dir, Moves-close, Moves-wait, Moves-unmount, Moves-remove, find_program,
  NewCalls, Makes, Makes-perform, Makes-env, Makes-pure, Makes-raise, Makes-lift, Makes-wrapping,
  Makes-attempt, Makes-ignoring, Makes-on_error, Makes-deferring, Makes-bind, Makes-Keeps, Makes-if,
  Makes-when, Makes-tolerating, find_program-Makes,
}
use oci_container_runtime_fr.Base.{
  ℕ, zero, suc, ◌+◌, ◌-◌, ◌*◌, ◌/◌, ◌%◌, ◌^◌, ◌≤◌, ◌<◌, min, String, ◌≡◌, refl, sym, ap, ◌∙◌, ◌≢◌,
  ◌↔◌, ◌⊎◌, inl, inr, Bool, true, false, not, ◌&&◌, ◌||◌, Option, none, some, List, [], ◌∷◌, ◌++◌,
  map, reverse, reverse-append, reverse-reverse, foldl, foldl-append, append-nil, append_assoc,
  arith, ltb, leb, ◌==◌, if◌then◌else◌, ==_iff, Bool-cases, Option-cases, length, take, drop,
  length-append, length-take, take-append, drop-append, drop-append_suc, All, All-append, Error,
  message, wrap, os_error, Errno, already_exists, does_not_exist, other_error, is_exist,
  is_not_exist, Result, ok, err, wrapped, of_option, Result-cases, Str, str, str_eq, str_eq_iff,
  str_eq_refl, index_byte, last_index, contains_byte, has_prefix, trim_prefix, contains_text, hex,
  join, to_lower, trim_space, Lacks, index_byte-append, index_byte-none, last_index-none,
  last_index-append, last_index_split, contains_byte-append, contains_byte-none, ℤ, pos, negsuc,
  is_positive, is_zero, decimal, format_int, digits_value, parse_int, int64_bound, IsDigit,
  decimal-IsDigit, IsDigit-Lacks, parse_int-decimal, split_on, split_on-append, split_on-Lacks,
  split_on-join, All-split_on, components, is_abs, clean, clean_components, clean_step,
  clean_parent, render_path, is_empty, NonEmpty, clean-NonEmpty, join_path-NonEmpty, All-reverse,
  join_path, split_last_slash, dir_name, base_name, trim_by, is_space, concat-ne-nil, ok≢err,
}

-- The calls made, the last one first, and those still to make, the next one first.
pub record Procs : Type 0 where
  pub parent_done : List Call
  pub parent_left : List Call
  pub child_done : List Call
  pub child_left : List Call

abbrev pub has_ended : List Call → Bool
has_ended [] = true
has_ended (c ∷ rest) = false

module _ (w pid : ℕ) where
  -- The close of the write end.
  abbrev pub is_release : Call → Bool
  is_release (close fd) = fd == w
  is_release _ = false

  abbrev pub is_wait : Call → Bool
  is_wait (wait p) = p == pid
  is_wait _ = false

  abbrev pub is_kill : Call → Bool
  is_kill (signal p name) = p == pid && str_eq (str name) (str "SIGKILL")
  is_kill _ = false

  unfoldable pub was_released : List Call → Bool
  was_released [] = false
  was_released (c ∷ done) = is_release c || was_released done

  -- `Wait` returns when the child has nothing left to do.
  unfoldable pub parent_may : Call → List Call → Bool
  parent_may c child_left = not (is_wait c) || has_ended child_left

  -- The pipe is the child's descriptor 3.
  unfoldable pub child_may : Call → List Call → Bool
  child_may (read_byte fd) parent_done = not (fd == 3) || was_released parent_done
  child_may _ parent_done = true

  unfoldable pub unless_killed : Call → List Call → List Call
  unless_killed c child_left = if is_kill c then [] else child_left

  pub data Step : Procs → Procs → Type 0 where
    parent_goes :
        (c : Call) {d l d' l' : List Call}
        → parent_may c l' ≡ true
        → Step
            record { parent_done = d; parent_left = c ∷ l; child_done = d'; child_left = l' }
            record {
              parent_done = c ∷ d;
              parent_left = l;
              child_done = d';
              child_left = unless_killed c l';
            }
    child_goes :
        (c : Call) {d l d' l' : List Call}
        → child_may c d ≡ true
        → Step
            record { parent_done = d; parent_left = l; child_done = d'; child_left = c ∷ l' }
            record { parent_done = d; parent_left = l; child_done = c ∷ d'; child_left = l' }

  -- So many steps.
  pub data Steps (s : Procs) : ℕ → Procs → Type 0 where
    here : Steps s 0 s
    next : {n : ℕ} {t u : Procs} → Steps s n t → Step t u → Steps s (suc n) u

-- The calls between two traces, the first one first.
abbrev pub since : Trace → Trace → List Call
since before after = reverse (calls (take (length after - length before) after))

-- Both processes behind the start of the child, when the parent has the trace `t`. What it called
-- before is left out.
abbrev pub paused : {A B : Type 0} → Io A → Trace → Io B → Procs
paused parent t child = record {
  parent_done = [];
  parent_left = since t (parent t).1;
  child_done = [];
  child_left = since [] (child []).1;
}

abbrev pub calls_left : Procs → ℕ
calls_left s = length s.parent_left + length s.child_left

abbrev pub is_over : Procs → Bool
is_over s = has_ended s.parent_left && has_ended s.child_left
