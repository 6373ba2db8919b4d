-- ===== src/Cli/Publish/RoundTrip.antt =====
-- What `parsePublish` accepts, and that it reads back what `publishFlag.String` prints.
use oci_container_runtime_fr.Network.Types.{PortMapping}
use oci_container_runtime_fr.Cli.Publish.{
  render, split_protocol, split_ports, mapping_of, parse_publish, set, set_all,
}
use oci_container_runtime_fr.Base.{
  ℕ, ◌≤◌, ◌<◌, ◌≡◌, refl, ◌≢◌, ◌⊎◌, inl, inr, false, not, ◌&&◌, Option, none, some, List, [], ◌∷◌,
  ◌++◌, map, append-nil, append_assoc, arith, Bool-cases, take-append, drop-append_suc, All,
  All-append, ok, Str, str, str_eq, str_eq_iff, str_eq_refl, to_lower, Lacks, index_byte-append, ℤ,
  pos, negsuc, decimal, format_int, decimal-IsDigit, IsDigit-Lacks, parse_int-decimal,
}

abbrev pub IsPort : ℤ → Type 0
IsPort (pos n) = (0 < n) × (n ≤ 65535)
IsPort (negsuc n) = ⊥

abbrev pub IsProtocol : Str → Type 0
IsProtocol p = (p ≡ str "tcp") ⊎ (p ≡ str "udp")

-- Both ports lie in 1 to 65535, and the protocol is one of the two.
pub record IsPublishable (pm : PortMapping) : Type 0 where
  pub host : IsPort pm.host_port
  pub container : IsPort pm.container_port
  pub known : IsProtocol pm.protocol

mapping_of-IsPublishable :
    (proto : Str) (parts : Option (Str × Str)) {pm : PortMapping}
    → IsProtocol proto
    → mapping_of proto parts ≡ ok pm
    → IsPublishable pm
unfolding mapping_of
mapping_of-IsPublishable proto none p h = cc
mapping_of-IsPublishable proto (some (a, b)) p h = ground arith

IsProtocol-cases :
    (p : Str) → (not (str_eq p (str "tcp")) && not (str_eq p (str "udp"))) ≡ false → IsProtocol p
IsProtocol-cases p h = elim (Bool-cases (str_eq p (str "tcp"))) [
  | inl t ↦ inl ((str_eq_iff p (str "tcp")).0 t)
  | inr t ↦ inr ((str_eq_iff p (str "udp")).0 (ground arith))
]

protocol_passes :
    (p : Str) → IsProtocol p → (not (str_eq p (str "tcp")) && not (str_eq p (str "udp"))) ≡ false
protocol_passes p (inl e) = rw (e, str_eq_refl) refl
protocol_passes p (inr e) = rw (e, str_eq_refl) (ground arith)

-- An accepted entry has both ports in 1 to 65535, and the protocol tcp or udp.
pub parse_publish-IsPublishable :
    (s : Str) {pm : PortMapping} → parse_publish s ≡ ok pm → IsPublishable pm
unfolding parse_publish
parse_publish-IsPublishable s h =
    mapping_of-IsPublishable (split_protocol s).1 (split_ports (split_protocol s).0)
      (IsProtocol-cases (split_protocol s).1 (ground arith)) (ground arith)

to_lower-IsProtocol : (p : Str) → IsProtocol p → to_lower p ≡ p
unfolding to_lower str
to_lower-IsProtocol p (inl e) = rw e
to_lower-IsProtocol p (inr e) = rw e

split_protocol-append :
    (spec p : Str) → Lacks b'/' spec → IsProtocol p → split_protocol (spec ++ b'/' ∷ p) ≡ (spec, p)
unfolding split_protocol
split_protocol-append spec p h k =
    rw (index_byte-append b'/' spec p h, split_protocol)
      (rw (take-append spec, drop-append_suc spec, to_lower-IsProtocol p k))

split_ports-append : (a b : Str) → Lacks b':' a → split_ports (a ++ b':' ∷ b) ≡ some (a, b)
unfolding split_ports
split_ports-append a b h =
    rw (index_byte-append b':' a b h, split_ports) (rw (take-append a, drop-append_suc a))

mapping_of-decimal :
    (h c : ℕ) (p : Str)
    → IsPort (pos h)
    → IsPort (pos c)
    → mapping_of p (some (decimal h, decimal c))
      ≡ ok (record { host_port = pos h; container_port = pos c; protocol = p })
unfolding mapping_of
mapping_of-decimal h c p hh hc =
    rw (parse_int-decimal h (omega arith), parse_int-decimal c (omega arith)) (ground arith)

Lacks-slash : (h c : ℕ) → Lacks b'/' (decimal h ++ b':' ∷ decimal c)
Lacks-slash h c =
    All-append (λ x. x ≢ b'/') (decimal h) (b':' ∷ decimal c) (lacks h) (omega arith, lacks c)
  where
    lacks : (n : ℕ) → Lacks b'/' (decimal n)
    lacks n = IsDigit-Lacks b'/' (decimal n) (inl (omega arith)) (decimal-IsDigit n)

parse_publish_entry :
    (h c : ℕ) (p : Str)
    → IsPort (pos h)
    → IsPort (pos c)
    → IsProtocol p
    → parse_publish (decimal h ++ b':' ∷ (decimal c ++ b'/' ∷ p))
      ≡ ok (record { host_port = pos h; container_port = pos c; protocol = p })
unfolding parse_publish
parse_publish_entry h c p hh hc k =
    rw
      (
        ← append_assoc (decimal h) (b':' ∷ decimal c) (b'/' ∷ p),
        split_protocol-append (decimal h ++ b':' ∷ decimal c) p (Lacks-slash h c) k,
        protocol_passes p k,
        split_ports-append (decimal h) (decimal c)
            (IsDigit-Lacks b':' (decimal h) (inr (omega arith)) (decimal-IsDigit h)),
      )
      (mapping_of-decimal h c p hh hc)

render_lem :
    (h c : ℤ) (p : Str)
    → IsPort h
    → IsPort c
    → IsProtocol p
    → parse_publish (render (record { host_port = h; container_port = c; protocol = p }))
      ≡ ok (record { host_port = h; container_port = c; protocol = p })
unfolding render format_int
render_lem (pos h) (pos c) p hh hc k = parse_publish_entry h c p hh hc k
render_lem (pos h) (negsuc c) p hh hc k = absurd hc
render_lem (negsuc h) c p hh hc k = absurd hh

-- A valid entry is read back from its print.
pub parse_publish-render : (pm : PortMapping) → IsPublishable pm → parse_publish (render pm) ≡ ok pm
parse_publish-render pm v =
    render_lem pm.host_port pm.container_port pm.protocol v.host v.container v.known

-- Repeated flags, each the print of a valid mapping, collect the mappings in the order of the command
-- line, behind those before.
pub set_all-render :
    (pms before : List PortMapping)
    → All IsPublishable pms
    → set_all (map render pms) before ≡ ok (before ++ pms)
unfolding set_all set
set_all-render [] before v = rw append-nil
set_all-render (pm ∷ pms) before (h, v) =
    rw (parse_publish-render pm h) (rw (set_all-render pms (before ++ pm ∷ []) v) (rw append_assoc))
