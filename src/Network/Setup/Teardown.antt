-- ===== src/Network/Setup/Teardown.antt =====
-- What `Teardown` undoes of `Setup`.
use oci_container_runtime_fr.Network.Types.{PortMapping, Config, Network, run}
use oci_container_runtime_fr.Network.Names.{host_veth, container_ip}
use oci_container_runtime_fr.Network.Publish.{add_publish_rules, del_publish_rules}
use oci_container_runtime_fr.Network.Publish.Symmetry.{
  edit_one, edit_all, add_publish_calls, del_publish_calls,
}
use oci_container_runtime_fr.Network.Setup.{
  delete_link, or_delete, publish_all, unpublish_all, teardown,
}
use oci_container_runtime_fr.Sys.{
  Call, command, Trace, Oracle, pure, lift, wrapping, attempt, ◌>>=◌, perform, ignoring, calls,
  when, bind-ok, on_error-ok,
}
use oci_container_runtime_fr.Base.{◌≡◌, refl, ap, ◌∙◌, false, List, [], ◌∷◌, ok, Str, str, is_empty}

abbrev pub delete_call : Str → Call
delete_call veth = command (str "ip") (str "link" ∷ str "del" ∷ veth ∷ [])

module _ (os : Oracle) where
  pub calls-publish_all :
      (veth id ip : Str) (pms : List PortMapping) (t : Trace)
      → (publish_all os veth id ip pms t).0 ≡ ok tt
      → calls (publish_all os veth id ip pms t).1 ≡ edit_all "-A" id ip pms (calls t)
  unfolding publish_all or_delete pure
  calls-publish_all veth id ip [] t h = refl
  calls-publish_all veth id ip (pm ∷ pms) t h =
      let (u, added, rest, same) =
        bind-ok (or_delete os veth (add_publish_rules os id ip pm)) _ t h in
      rw same (calls-publish_all veth id ip pms _ rest ∙ ap (edit_all "-A" id ip pms) (one u added))
    where
      one :
          (u : Unit {0})
          → (or_delete os veth (add_publish_rules os id ip pm) t).0 ≡ ok u
          → calls (or_delete os veth (add_publish_rules os id ip pm) t).1
            ≡ edit_one "-A" id ip pm (calls t)
      one u added =
          let (done, same) =
            on_error-ok (add_publish_rules os id ip pm) (delete_link os veth) t added in
          rw same (add_publish_calls os id ip pm t done)

  calls-unpublish_all :
      (id ip : Str) (pms : List PortMapping) (t : Trace)
      → ((unpublish_all os id ip pms (ok tt) t).0 ≡ ok tt)
        × (calls (unpublish_all os id ip pms (ok tt) t).1 ≡ edit_all "-D" id ip pms (calls t))
  unfolding unpublish_all attempt lift ◌>>=◌
  calls-unpublish_all id ip [] t = (refl, refl)
  calls-unpublish_all id ip (pm ∷ pms) t =
      let (fine, edited) = del_publish_calls os id ip pm t in
      let (result, rest) = calls-unpublish_all id ip pms (del_publish_rules os id ip pm t).1 in
      rw fine (result, rest ∙ ap (edit_all "-D" id ip pms) edited)

  pub calls-teardown :
      (n : Network) (cfg : Config) (t : Trace)
      → is_empty n.host_veth ≡ false
      → ((teardown os n cfg t).0 ≡ ok tt)
        × (calls (teardown os n cfg t).1
            ≡ delete_call n.host_veth
              ∷ edit_all "-D" cfg.container_id n.container_ip n.port_mappings (calls t))
  unfolding teardown attempt lift when delete_link ignoring run wrapping perform ◌>>=◌
  calls-teardown n cfg t h =
      let (result, edits) = calls-unpublish_all cfg.container_id n.container_ip n.port_mappings t in
      rw (h, result) (refl, ap (◌∷◌ (delete_call n.host_veth)) edits)

abbrev pub network_of : (Str → Str) → Config → Network
network_of sha1 cfg = record {
  container_ip = container_ip sha1 cfg.container_id;
  host_veth = host_veth cfg.container_id;
  port_mappings = cfg.port_mappings;
}
