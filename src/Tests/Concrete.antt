-- ===== src/Tests/Concrete.antt =====
-- Concrete functions for the code outside the repository: a kernel that grants or refuses calls, a
-- filter machine, a hash and a float type.
use oci_container_runtime_fr.Seccomp.Filter.{SockFilter, ld_abs, ret_k, nr_offset}
use oci_container_runtime_fr.Seccomp.Machine.{Machine, SeccompData}
use oci_container_runtime_fr.Cgroups.{FloatOps}
use oci_container_runtime_fr.Sys.{
  Call, get_env, get_uid, get_gid, get_euid, stat, read_file, remove, remove_all, make_dir,
  make_dir_all, write_file, rename, command, look_path, start, signal, wait, make_pipe, read_byte,
  close, mount, unmount, pivot_root, change_root, change_dir, set_hostname, no_new_privs,
  set_filter, exec, random_bytes, symlink, link, create_file, copy_into, close_file, open_file,
  read_archive, http_get, await_exit, await_byte, Oracle,
}
use oci_container_runtime_fr.Base.{
  ℕ, zero, suc, ◌*◌, ◌/◌, ◌≡◌, refl, Bool, true, some, List, [], ◌∷◌, ◌++◌, ltb, ◌==◌,
  if◌then◌else◌, take, drop, message, ok, err, Str, str, pos, negsuc,
}

-- Every call succeeds.
abbrev pub granting : Oracle
granting t (get_env name) = ok []
granting t get_uid = ok (pos 1000)
granting t get_gid = ok (pos 1000)
granting t get_euid = ok (pos 1000)
granting t (stat path) = ok true
granting t (read_file path) = ok (str "1")
granting t (remove path) = ok tt
granting t (remove_all path) = ok tt
granting t (make_dir path) = ok tt
granting t (make_dir_all path) = ok tt
granting t (write_file path content) = ok tt
granting t (rename old new) = ok tt
granting t (symlink target path) = ok tt
granting t (link target path) = ok tt
granting t (create_file path) = ok tt
granting t (copy_into path content) = ok tt
granting t (close_file path) = ok tt
granting t (open_file path) = ok tt
granting t (read_archive path) = ok (record { entries = []; ending = ok tt })
granting t (http_get url headers) = ok (record { status = 200; content_type = []; body = ok [] })
granting t (command name args) = ok tt
granting t (look_path name) = ok (str "/bin/" ++ name)
granting t (start spawn) = ok 42
granting t (signal pid name) = ok tt
granting t (wait pid) = ok tt
granting t (await_exit pid limit) = ok true
granting t (await_byte fd limit) = ok (some 1)
granting t make_pipe = ok (3, 4)
granting t (read_byte fd) = err (message "EOF")
granting t (close fd) = ok tt
granting t (mount source target kind flags options) = ok tt
granting t (unmount target flags) = ok tt
granting t (pivot_root new old) = ok tt
granting t (change_root path) = ok tt
granting t (change_dir path) = ok tt
granting t (set_hostname name) = ok tt
granting t no_new_privs = ok tt
granting t (set_filter n prog) = ok tt
granting t (exec program argv environment) = ok tt
granting t (random_bytes n) = ok []

-- The calls of one kind are refused.
abbrev pub refusing : (Call → Bool) → Oracle
refusing p t c = if p c then err (message "refused") else granting t c

-- The interpreter: `skip` instructions are left out first.
pub run : ℕ → List SockFilter → ℕ → SeccompData → ℕ
run skip [] a d = 0
run (suc skip) (i ∷ rest) a d = run skip rest a d
run zero (i ∷ rest) a d =
    if i.code == ret_k
    then i.k
    else if i.code == ld_abs
    then run 0 rest (if i.k == nr_offset then d.nr else d.arch) d
    else run (if a == i.k then i.jt else i.jf) rest a d

pub run-drop :
    (n : ℕ) (prog : List SockFilter) (a : ℕ) (d : SeccompData)
    → run n prog a d ≡ run 0 (drop n prog) a d
unfolding run
run-drop zero prog a d = refl
run-drop (suc n) [] a d = refl
run-drop (suc n) (i ∷ rest) a d = run-drop n rest a d

abbrev pub interpreter : Machine
unfolding run
interpreter = record {
  exec = run 0;
  exec-ret = λ a k d rest. refl;
  exec-ld_nr = λ a d rest. refl;
  exec-ld_arch = λ a d rest. refl;
  exec-jeq = λ a k jt jf d rest. run-drop (if a == k then jt else jf) rest a d;
}

-- A hash with four bytes.
abbrev pub first_bytes : Str → Str
first_bytes id = take 4 (id ++ (0 ∷ 0 ∷ 0 ∷ 0 ∷ []))

-- Quarters of a processor for the floats.
abbrev pub quarters : FloatOps ℕ
quarters = record {
  zero_float = 0;
  above_zero = λ q. ltb 0 q;
  equals_zero = λ q. q == 0;
  micros = λ q. pos (q * 25000);
  ratio = λ quota period. elim quota [ pos q ↦ q * 4 / period | negsuc q ↦ 0 ];
}
