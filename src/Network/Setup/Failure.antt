-- ===== src/Network/Setup/Failure.antt =====
-- What a `Setup` that fails leaves behind.
use mathlib.Core.Path.{subst}
use oci_container_runtime_fr.Network.Types.{PortMapping, Config, Network, run, write_resolv_conf}
use oci_container_runtime_fr.Network.Names.{host_veth, peer_veth, container_ip}
use oci_container_runtime_fr.Network.Bridge.{ensure_bridge}
use oci_container_runtime_fr.Network.Publish.{add_publish_rules}
use oci_container_runtime_fr.Network.Publish.Symmetry.{
  StoppedIn, edit_one, done_all, add_publish_log, add_publish_fails,
}
use oci_container_runtime_fr.Network.Setup.{
  delete_link, or_delete, configure_peer, publish_all, connect, peer_steps, setup,
}
use oci_container_runtime_fr.Network.Setup.Teardown.{delete_call}
use oci_container_runtime_fr.Sys.{
  Call, command, Trace, Oracle, Io, pure, wrapping, ◌>>◌, perform, ignoring, log, when, is_ok,
  bind-err, on_error-ok, on_error-err,
}
use oci_container_runtime_fr.Base.{
  String, ◌≡◌, refl, sym, ap, ◌∙◌, ◌≢◌, ◌⊎◌, inl, inr, Bool, true, false, not, List, [], ◌∷◌, ◌++◌,
  arith, Error, ok, err, Str, str, decimal, is_empty, ok≢err,
}

abbrev pub create_call : Str → Str → Call
create_call host peer =
    command (str "ip") (
      str "link" ∷ str "add" ∷ host ∷ str "type" ∷ str "veth" ∷ str "peer" ∷ str "name" ∷ peer ∷ [])

-- The last call was `c`, with this outcome.
abbrev pub LastIs : Call → Bool → List (Call × Bool) → Type 0
LastIs c b [] = ⊥
LastIs c b (x ∷ l) = x ≡ (c, b)

-- The last call deleted the pair, or tried to.
abbrev pub Deleted : Str → List (Call × Bool) → Type 0
Deleted host [] = ⊥
Deleted host ((c, b) ∷ l) = c ≡ delete_call host

-- Either the pair was never made, since its creation was the last call and failed, or the last call
-- deleted it.
abbrev pub NoPair : Str → Str → List (Call × Bool) → Type 0
NoPair host peer l = LastIs (create_call host peer) false l ⊎ Deleted host l

module _ (os : Oracle) where
  or_delete_fails :
      (host : Str) (m : Io (Unit {0})) (t : Trace) {e : Error}
      → (or_delete os host m t).0 ≡ err e
      → Deleted host (log (or_delete os host m t).1)
  unfolding or_delete delete_link run wrapping perform ignoring
  or_delete_fails host m t h =
      let (failed, same) = on_error-err m (delete_link os host) t h in rw same refl

  then_fails :
      (host : Str) (m k : Io (Unit {0})) (t : Trace) {e : Error}
      → ((e : Error)
          → (k (or_delete os host m t).1).0 ≡ err e
          → Deleted host (log (k (or_delete os host m t).1).1))
      → ((or_delete os host m >> k) t).0 ≡ err e
      → Deleted host (log ((or_delete os host m >> k) t).1)
  then_fails host m k t later h = elim (bind-err (or_delete os host m) (λ _. k) t h) [
    | inl (failed, same) ↦ rw same (or_delete_fails host m t failed)
    | inr (_, first, second, same) ↦ rw same (later _ second)
  ]

  configure_peer_fails :
      (host : Str) (steps : List (List Str)) (t : Trace) (e : Error)
      → (configure_peer os host steps t).0 ≡ err e
      → Deleted host (log (configure_peer os host steps t).1)
  unfolding configure_peer pure
  configure_peer_fails host [] t e h = cc
  configure_peer_fails host (s ∷ steps) t e h =
      then_fails host _ _ t (λ e. configure_peer_fails host steps _ e) h

  run_fails :
      (text name : String) (args : List Str) (t : Trace) {e : Error}
      → (wrapping text (run os name args) t).0 ≡ err e
      → LastIs (command (str name) args) false (log (wrapping text (run os name args) t).1)
  unfolding wrapping run perform
  run_fails text name args t h = ground arith

  delete_link_succeeds : (host : Str) (t : Trace) → (delete_link os host t).0 ≡ ok tt
  unfolding delete_link ignoring
  delete_link_succeeds host t = refl

  connect_fails :
      (host peer pid cidr : Str) (t : Trace) {e : Error}
      → (connect os host peer pid cidr t).0 ≡ err e
      → NoPair host peer (log (connect os host peer pid cidr t).1)
  unfolding connect
  connect_fails host peer pid cidr t h = elim (bind-err (delete_link os host) _ t h) [
    | inl (failed, same) ↦ absurd (ok≢err (sym (delete_link_succeeds host t) ∙ failed))
    | inr (_, _, h1, s1) ↦ elim (bind-err (wrapping "create veth" _) _ _ h1) [
      | inl (failed, s2) ↦ rw (s1, s2) (inl (run_fails "create veth" "ip" _ _ failed))
      | inr (_, _, h2, s2) ↦
          rw (s1, s2)
            (inr (
              then_fails host _ _ _
                (λ _. then_fails host _ _ _ (λ _.
                  then_fails host _ _ _ (configure_peer_fails host (peer_steps pid peer cidr) _)))
                h2))
    ]
  ]

  -- When publishing fails, then the rules of the mappings before some mapping were all appended, none,
  -- one or two of that mapping's three were, and the next one was refused. None is taken back: the only
  -- further call asks ip to delete the pair.
  pub publish_all_fails :
      (host id ip : Str) (pms : List PortMapping) (t : Trace) {e : Error}
      → (publish_all os host id ip pms t).0 ≡ err e
      → (done : List PortMapping) × (pm : PortMapping) × (rest : List PortMapping) × (after : List
          (Call × Bool))
        × (deleted : Bool) × (pms ≡ done ++ pm ∷ rest)
        × StoppedIn (edit_one "-A" id ip pm []) (done_all "-A" id ip done (log t)) after
        × (log (publish_all os host id ip pms t).1 ≡ (delete_call host, deleted) ∷ after)
  unfolding publish_all or_delete delete_link run wrapping perform ignoring
  publish_all_fails host id ip [] t h = unfold pure in cc
  publish_all_fails host id ip (pm ∷ pms) t h =
      elim (bind-err (or_delete os host (add_publish_rules os id ip pm)) _ t h) [
        | inl (failed, same) ↦
            let (stopped, cleaned) = on_error-err _ (delete_link os host) t failed in
            (
              [],
              pm,
              pms,
              log (add_publish_rules os id ip pm t).1,
              is_ok (os (add_publish_rules os id ip pm t).1 (delete_call host)),
              refl,
              add_publish_fails os id ip pm t stopped,
              rw (same, cleaned) refl,
            )
        | inr (_, added, h1, same) ↦
            let (fine, kept) = on_error-ok _ (delete_link os host) t added in
            let (done, pm', rest, after, deleted, splits, part, ends) =
              publish_all_fails host id ip pms _ h1 in
            (
              pm ∷ done,
              pm',
              rest,
              after,
              deleted,
              ap (◌∷◌ pm) splits,
              subst (λ l. StoppedIn (edit_one "-A" id ip pm' []) (done_all "-A" id ip done l) after)
                  (ap (λ r. log r.1) kept ∙ add_publish_log os id ip pm t fine) part,
              rw same ends,
            )
      ]

  publish_all_deletes :
      (host id ip : Str) (pms : List PortMapping) (t : Trace) (e : Error)
      → (publish_all os host id ip pms t).0 ≡ err e
      → Deleted host (log (publish_all os host id ip pms t).1)
  unfolding publish_all pure
  publish_all_deletes host id ip [] t e h = cc
  publish_all_deletes host id ip (pm ∷ pms) t e h =
      then_fails host _ _ t (λ e. publish_all_deletes host id ip pms _ e) h

  warning_succeeds :
      (b : Bool) (m : Io (Unit {0})) (t : Trace) {e : Error} → (when b (ignoring m) t).0 ≢ err e
  unfolding when ignoring pure
  warning_succeeds true m t h = cc
  warning_succeeds false m t h = cc

  abbrev after_bridge_code : (Str → Str) → Config → Io Network
  after_bridge_code sha1 cfg = do
    let host = host_veth cfg.container_id
    let ip = container_ip sha1 cfg.container_id
    connect os host (peer_veth cfg.container_id) (decimal cfg.child_pid) (ip ++ str "/24")
    when (not (is_empty cfg.rootfs)) (ignoring (write_resolv_conf os cfg.rootfs))
    publish_all os host cfg.container_id ip cfg.port_mappings
    pure (record { container_ip = ip; host_veth = host; port_mappings = cfg.port_mappings })

  after_bridge :
      (sha1 : Str → Str) (cfg : Config) (t : Trace) {e : Error}
      → (after_bridge_code sha1 cfg t).0 ≡ err e
      → NoPair
          (host_veth cfg.container_id)
          (peer_veth cfg.container_id)
          (log (after_bridge_code sha1 cfg t).1)
  unfolding pure
  after_bridge sha1 cfg t h = elim (bind-err (connect os _ _ _ _) _ t h) [
    | inl (failed, same) ↦ rw same (connect_fails _ _ _ _ t failed)
    | inr (_, _, h1, s1) ↦ elim (bind-err (when _ _) _ _ h1) [
      | inl (failed, _) ↦ absurd (warning_succeeds _ _ _ failed)
      | inr (_, _, h2, s2) ↦ elim (bind-err (publish_all os _ _ _ _) _ _ h2) [
        | inl (failed, s3) ↦ rw (s1, s2, s3) (inr (publish_all_deletes _ _ _ _ _ _ failed))
        | inr (_, _, h3, _) ↦ absurd (ok≢err h3)
      ]
    ]
  ]

  -- When `Setup` fails, then either the bridge could not be set up and nothing was done for the
  -- container, or the pair was not made, or the last call was one that deletes the pair.
  pub setup_fails :
      (sha1 : Str → Str) (cfg : Config) (t : Trace) {e : Error}
      → (setup os sha1 cfg t).0 ≡ err e
      → (((ensure_bridge os t).0 ≡ err e) × ((setup os sha1 cfg t).1 ≡ (ensure_bridge os t).1))
        ⊎ NoPair
            (host_veth cfg.container_id)
            (peer_veth cfg.container_id)
            (log (setup os sha1 cfg t).1)
  unfolding setup pure
  setup_fails sha1 cfg t h = elim (bind-err (ensure_bridge os) _ t h) [
    | inl bridge ↦ inl bridge
    | inr (_, _, h1, s1) ↦ inr (rw s1 (after_bridge sha1 cfg _ h1))
  ]
