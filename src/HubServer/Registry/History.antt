-- ===== src/HubServer/Registry/History.antt =====
-- packages/hub-server/src/registry.ts: its methods as calls, and sequences of them.
use kumiai.Shared.{ℕ, List, [], ◌∷◌}
use kumiai.HubServer.Registry.{
  release_receive_writer, bind_receive_writer, unregister_if_idle, HubClientRegistry, unregister,
  register,
}

pub data RegistryCall : Type 0 where
  registers unregisters unregisters_if_idle : ℕ → RegistryCall
  binds : ℕ → ℕ → ℕ → RegistryCall
  releases : ℕ → ℕ → RegistryCall

unfoldable pub registry_step : HubClientRegistry → RegistryCall → HubClientRegistry
unfolding register unregister unregister_if_idle bind_receive_writer release_receive_writer
registry_step r (registers did) = (register did r).1
registry_step r (unregisters did) = unregister did r
registry_step r (unregisters_if_idle did) = unregister_if_idle did r
registry_step r (binds did writer end_receive) = (bind_receive_writer did writer end_receive r).1
registry_step r (releases did token) = release_receive_writer did token r

unfoldable pub registry_run : HubClientRegistry → List RegistryCall → HubClientRegistry
unfolding registry_step
registry_run r [] = r
registry_run r (c ∷ cs) = registry_run (registry_step r c) cs
