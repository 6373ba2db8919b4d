-- ===== src/Network/Names.antt =====
-- The interface names and the address that `Setup` and `ipFromID` of
-- mvp/internal/network/bridge_linux.go derive from a container id.
use oci_container_runtime_fr.Base.{
  ℕ, ◌+◌, ◌*◌, ◌%◌, ◌^◌, ◌≤◌, ◌≡◌, ◌≢◌, inl, inr, ◌∷◌, ◌++◌, arith, ltb, if◌then◌else◌, Bool-cases,
  length, take, length-take, Str, str, decimal,
}

-- At most ten bytes of the id.
unfoldable pub short_id : Str → Str
short_id id = if ltb 10 (length id) then take 10 id else id

unfoldable pub host_veth : Str → Str
unfolding short_id
host_veth id = str "vm" ++ short_id id

unfoldable pub peer_veth : Str → Str
unfolding short_id
peer_veth id = str "vc" ++ short_id id

-- binary.BigEndian.Uint32 of the first four bytes.
unfoldable pub big_endian32 : Str → ℕ
big_endian32 (a ∷ b ∷ c ∷ d ∷ rest) = a * 2 ^ 24 + b * 2 ^ 16 + c * 2 ^ 8 + d
big_endian32 _ = 0

module _ (sha1 : Str → Str) where
  unfoldable pub ip_from_id : Str → ℕ
  ip_from_id id = big_endian32 (sha1 id) % 253 + 2

  unfoldable pub container_ip : Str → Str
  unfolding ip_from_id
  container_ip id = str "10.44.0." ++ decimal (ip_from_id id)

  -- The host number is never that of the network, the gateway or the broadcast address.
  pub ip_from_id_bounds : (id : Str) → (2 ≤ ip_from_id id) × (ip_from_id id ≤ 254)
  unfolding ip_from_id
  ip_from_id_bounds id = omega arith

length-short_id : (id : Str) → length (short_id id) ≤ 10
unfolding short_id
length-short_id id = elim (Bool-cases (ltb 10 (length id))) [
  | inl t ↦ rw t (omega (arith, length-take 10 id))
  | inr t ↦ rw t (ground arith)
]

-- Both interface names fit into IFNAMSIZ - 1 = 15 bytes, whatever the id, and they differ.
pub veth_names :
    (id : Str)
    → (length (host_veth id) ≤ 15) × (length (peer_veth id) ≤ 15) × (host_veth id ≢ peer_veth id)
unfolding host_veth peer_veth str
veth_names id =
    (omega (arith, length-short_id id), omega (arith, length-short_id id), λ e. heads_differ e)
  where
    heads_differ : {a b : Str} → ◌≡◌ {A = Str} (b'v' ∷ b'm' ∷ a) (b'v' ∷ b'c' ∷ b) → ⊥
    heads_differ e = ground arith
