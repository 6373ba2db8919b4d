-- ===== src/Cli/Publish.antt =====
-- `publishFlag` and `parsePublish` of mvp/cmd/myrun/main.go.
pub mod RoundTrip
use oci_container_runtime_fr.Network.Types.{PortMapping}
use oci_container_runtime_fr.Base.{
  ℕ, zero, suc, ◌+◌, ◌-◌, ◌*◌, ◌/◌, ◌%◌, ◌^◌, ◌≤◌, ◌<◌, min, String, ◌≡◌, refl, sym, ap, ◌∙◌, ◌≢◌,
  ◌↔◌, ◌⊎◌, inl, inr, Bool, true, false, not, ◌&&◌, ◌||◌, Option, none, some, List, [], ◌∷◌, ◌++◌,
  map, reverse, append-nil, append_assoc, arith, ltb, leb, ◌==◌, if◌then◌else◌, ==_iff, Bool-cases,
  Option-cases, length, take, drop, length-append, length-take, take-append, drop-append,
  drop-append_suc, All, All-append, Error, message, wrap, os_error, Result, ok, err, ◌>>=◌, wrapped,
  of_option, Result-cases, Str, str, str_eq, str_eq_iff, str_eq_refl, index_byte, last_index,
  contains_byte, has_prefix, trim_prefix, join, to_lower, trim_space, Lacks, index_byte-append,
  index_byte-none, last_index-none, last_index-append, last_index_split, contains_byte-append,
  contains_byte-none, ℤ, pos, negsuc, is_positive, is_zero, decimal, format_int, digits_value,
  parse_int, int64_bound, IsDigit, decimal-IsDigit, IsDigit-Lacks, parse_int-decimal,
}

-- `host:container/proto` as `publishFlag.String` prints one entry.
unfoldable pub render : PortMapping → Str
render pm =
    format_int pm.host_port ++ (b':' ∷ (format_int pm.container_port ++ (b'/' ∷ pm.protocol)))

-- `publishFlag.String`
unfoldable pub render_all : List PortMapping → Str
unfolding render
render_all pms = join (map render pms) (str ",")

-- The specification before the slash, and the protocol behind it; tcp with no slash.
unfoldable pub split_protocol : Str → Str × Str
split_protocol s = elim (index_byte b'/' s) [
  | none ↦ (s, str "tcp")
  | some i ↦ (take i s, to_lower (drop (suc i) s))
]

-- strings.SplitN(spec, ":", 2), where it has two parts.
unfoldable pub split_ports : Str → Option (Str × Str)
split_ports s = elim (index_byte b':' s) [ none ↦ none | some i ↦ some (take i s, drop (suc i) s) ]

-- No error, above 0 and at most 65535.
unfoldable pub valid_port : Option ℤ → Bool
valid_port none = false
valid_port (some (negsuc n)) = false
valid_port (some (pos n)) = ltb 0 n && leb n 65535

abbrev pub port_value : Option ℤ → ℤ
port_value none = pos 0
port_value (some n) = n

unfoldable pub mapping_of : Str → Option (Str × Str) → Result PortMapping
unfolding valid_port
mapping_of proto none = err (message "publish: expected host:container[/proto]")
mapping_of proto (some (host_text, container_text)) =
    let host = parse_int host_text in
    let container = parse_int container_text in
    if valid_port host && valid_port container
    then ok (record {
      host_port = port_value host;
      container_port = port_value container;
      protocol = proto;
    })
    else err (message "publish: invalid port numbers")

unfoldable pub parse_publish : Str → Result PortMapping
parse_publish s =
    let (spec, proto) = split_protocol s in
    if not (str_eq proto (str "tcp")) && not (str_eq proto (str "udp"))
    then err (message "publish: protocol must be tcp or udp")
    else mapping_of proto (split_ports spec)

-- `publishFlag.Set`
unfoldable pub set : Str → List PortMapping → Result (List PortMapping)
set v pms = do pm ← parse_publish v; ok (pms ++ pm ∷ [])

-- The flag package calls `Set` for each `--publish` on the command line, and stops at an error.
unfoldable pub set_all : List Str → List PortMapping → Result (List PortMapping)
set_all [] pms = ok pms
set_all (v ∷ vs) pms = do pms' ← set v pms; set_all vs pms'
