-- ===== src/Userns/Preflight.antt =====
-- Which runs `Preflight` of mvp/internal/userns/userns_linux.go refuses.
use oci_container_runtime_fr.Userns.{Config, read_int_file, check_sysctls, preflight}
use oci_container_runtime_fr.Sys.{
  Call, read_file, Trace, Oracle, pure, raise, lift, attempt, ◌>>=◌, perform,
}
use oci_container_runtime_fr.Base.{
  ◌≡◌, Bool, false, ◌&&◌, Option, none, some, ◌∷◌, arith, if◌then◌else◌, message, Result, ok, err,
  Str, str, trim_space, ℤ, is_zero, parse_int,
}

-- The file was read, and holds a number that is zero.
abbrev pub is_off_number : Option ℤ → Bool
is_off_number none = false
is_off_number (some n) = is_zero n

abbrev pub is_off : Result Str → Bool
is_off (ok b) = is_off_number (parse_int (trim_space b))
is_off (err e) = false

abbrev pub clone_switch : Call
clone_switch = read_file (str "/proc/sys/kernel/unprivileged_userns_clone")

abbrev pub namespace_count : Call
namespace_count = read_file (str "/proc/sys/user/max_user_namespaces")

module _ (os : Oracle) (c : Config) (t : Trace) where
  -- What the two files hold at the time of the check.
  abbrev pub clone_answer : Result Str
  clone_answer = os t clone_switch

  abbrev pub count_answer : Result Str
  count_answer = os (record { call = clone_switch; answer = clone_answer } ∷ t) namespace_count

  -- `Preflight` refuses a rootless run exactly if one of the two kernel settings can be read and is
  -- zero. It lets every other run pass, also where a file is missing or holds no number.
  pub preflight_lem : (preflight os c t).0 ≡ (
      if c.enabled && is_off clone_answer
      then err (message "rootless requires unprivileged user namespaces")
      else if c.enabled && is_off count_answer
      then err (message "rootless requires user namespaces")
      else ok tt)
  unfolding preflight check_sysctls read_int_file attempt perform lift raise pure ◌>>=◌
  preflight_lem = ground arith
