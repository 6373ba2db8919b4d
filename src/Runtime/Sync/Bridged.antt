-- ===== src/Runtime/Sync/Bridged.antt =====
-- A child that `Run` of mvp/internal/runtime/runtime_linux.go has prepared, and that is not rootless, is
-- on the bridge.
use oci_container_runtime_fr.Runtime.Run.{
  Running, Connection, bridged, connect_child, prepare_child,
}
use oci_container_runtime_fr.Runtime.Config.{Config}
use oci_container_runtime_fr.Network.Types.{Network}
use oci_container_runtime_fr.Cgroups.{FloatOps}
use oci_container_runtime_fr.Sys.{Trace, Oracle, Io, pure, ◌>>=◌, bind-ok}
use mathlib.Core.Path.{subst}
use oci_container_runtime_fr.Base.{ℕ, ◌≡◌, refl, false, Option, ok, Str}

-- Every value that an action gives.
record Yields {A : Type 0} (P : A → Type 0) (m : Io A) : Type 0 where
  yields : (t : Trace) (a : A) → (m t).0 ≡ ok a → P a

module _ {A : Type 0} {P : A → Type 0} where
  Yields-pure : (a : A) → P a → Yields P (pure a)
  unfolding pure
  Yields-pure a h = record { yields = λ t b e. go a b h e }
    where
      go : (a b : A) → P a → ok a ≡ ok b → P b
      go a b h e = let same : a ≡ b = cc in subst P same h

  Yields-bind :
      {B : Type 0} (m : Io B) {f : B → Io A} (Q : B → Type 0)
      → Yields Q m
      → ((b : B) → Q b → Yields P (f b))
      → Yields P (m >>= f)
  Yields-bind m {f} Q k h = record {
    yields = λ t a e.
        let (b, first, rest, _) = bind-ok m f t e in
        (h b (k.yields t b first)).yields (m t).1 a rest;
  }

Yields-any : {A : Type 0} (m : Io A) → Yields (λ a. Unit {0}) m
Yields-any m = record { yields = λ t a e. tt }

abbrev pub IsBridged : Connection → Type 0
IsBridged c = (n : Network) × (c ≡ bridged n)

module _ (os : Oracle) {F : Type 0} (sha1 : Str → Str) (cfg : Config F) (rootfs id : Str) where
  connect_child-IsBridged :
      (pid : ℕ) (path : Option Str)
      → cfg.rootless.enabled ≡ false
      → Yields IsBridged (connect_child os sha1 cfg rootfs id pid path)
  unfolding connect_child
  connect_child-IsBridged pid path h =
      rw h (Yields-bind _ (λ n. Unit {0}) (Yields-any _) (λ n _. Yields-pure (bridged n) (n, refl)))

  prepare_child-Yields :
      (fl : FloatOps F) (read_end pid : ℕ)
      → cfg.rootless.enabled ≡ false
      → Yields (λ c. IsBridged c.connection) (prepare_child os fl sha1 cfg rootfs id read_end pid)
  unfolding prepare_child
  prepare_child-Yields fl read_end pid h =
      Yields-bind _ (λ _. Unit {0}) (Yields-any _)
        (λ _ _.
          Yields-bind _ (λ _. Unit {0}) (Yields-any _)
            (λ path _.
              Yields-bind _ IsBridged (connect_child-IsBridged pid path h)
                (λ c k. Yields-pure _ k)))

  pub prepared-IsBridged :
      (fl : FloatOps F) (read_end pid : ℕ) (t : Trace) (c : Running)
      → cfg.rootless.enabled ≡ false
      → (prepare_child os fl sha1 cfg rootfs id read_end pid t).0 ≡ ok c
      → IsBridged c.connection
  prepared-IsBridged fl read_end pid t c h e = (prepare_child-Yields fl read_end pid h).yields t c e
