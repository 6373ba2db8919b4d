-- ===== src/Sys/Calls.antt =====
-- The calls that myrun makes of the kernel, of the file system and of other programs, and the type
-- of what each gives back. What they do is not code of this repository: an `Oracle` answers, and may
-- look at all calls made before.
use oci_container_runtime_fr.Base.{
  ℕ, String, Bool, true, false, Option, List, Result, ok, err, Str, ℤ,
}

-- What `exec.Cmd` is set up with before Start, as far as myrun uses it.
pub record Spawn : Type 0 where
  pub program : Str
  pub args : List Str
  pub extra_file : ℕ
  pub clone_flags : List String
  pub uid_map : Option (ℤ × ℤ)
  pub gid_map : Option (ℤ × ℤ)
  pub new_process_group : Bool

-- What net/http gives back: the status, the content type, and the body, whose reading may break off.
pub record Response : Type 0 where
  pub status : ℕ
  pub content_type : Str
  pub body : Result Str

-- hdr.Typeflag, as far as it is told apart.
pub data EntryKind : Type 0 where
  directory regular symbolic_link hard_link other_kind : EntryKind

-- A header of an archive, and the content behind it, whose reading may break off.
pub record Entry : Type 0 where
  pub name : Str
  pub kind : EntryKind
  pub link_name : Str
  pub content : Result Str

-- What archive/tar reads: the entries, and io.EOF or an error behind them.
pub record Archive : Type 0 where
  pub entries : List Entry
  pub ending : Result (Unit {0})

pub data Call : Type 0 where
  -- os.Getenv, and the process's own ids
  get_env : String → Call
  get_uid get_gid get_euid : Call
  -- files
  stat read_file remove remove_all make_dir make_dir_all : Str → Call
  write_file : Str → Str → Call
  rename : Str → Str → Call
  symlink link : Str → Str → Call
  -- os.Create and os.OpenFile for writing, io.Copy into such a file, and its Close
  create_file : Str → Call
  copy_into : Str → Str → Call
  close_file : Str → Call
  -- os.Open, and gzip.NewReader with tar.NewReader on the open file
  open_file read_archive : Str → Call
  -- a GET with its headers
  http_get : Str → List (Str × Str) → Call
  -- exec.Command(name, args...).Run() and exec.LookPath
  command : Str → List Str → Call
  look_path : Str → Call
  -- processes; signals by name
  start : Spawn → Call
  signal : ℕ → String → Call
  wait : ℕ → Call
  -- a wait for a process, and a read of one byte, each against a timer of so many nanoseconds
  await_exit await_byte : ℕ → ℤ → Call
  -- pipes by descriptor
  make_pipe : Call
  read_byte : ℕ → Call
  close : ℕ → Call
  -- mounts: source, target, type, flags by name, data
  mount : Str → Str → Str → List String → Str → Call
  unmount : Str → List String → Call
  pivot_root : Str → Str → Call
  change_root change_dir : Str → Call
  set_hostname : Str → Call
  -- prctl(PR_SET_NO_NEW_PRIVS), and seccomp(SECCOMP_SET_MODE_FILTER) with its program's length and
  -- instructions, each as code, jt, jf and k
  no_new_privs : Call
  set_filter : ℕ → List (ℕ × ℕ × ℕ × ℕ) → Call
  -- syscall.Exec: program, argv, environment
  exec : Str → List Str → List Str → Call
  random_bytes : ℕ → Call

abbrev pub Answer : Call → Type 0
Answer (get_env name) = Str
Answer get_uid = ℤ
Answer get_gid = ℤ
Answer get_euid = ℤ
Answer (stat path) = Bool
Answer (read_file path) = Str
Answer (read_archive path) = Archive
Answer (http_get url headers) = Response
Answer (look_path name) = Str
Answer (start spawn) = ℕ
Answer (await_exit pid limit) = Bool
Answer make_pipe = ℕ × ℕ
Answer (await_byte fd limit) = Option ℕ
Answer (read_byte fd) = ℕ
Answer (random_bytes n) = Str
Answer _ = Unit

-- A call that was made, and its answer.
pub record Event : Type 0 where
  pub call : Call
  pub answer : Result (Answer call)

-- The calls made so far, the last one first.
abbrev pub Trace : Type 0
Trace = List Event

abbrev pub Oracle : Type 0
Oracle = Trace → (c : Call) → Result (Answer c)

abbrev pub is_ok {ℓ} : {A : Type ℓ} → Result A → Bool
is_ok (ok a) = true
is_ok (err e) = false
