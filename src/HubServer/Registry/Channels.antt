-- ===== src/HubServer/Registry/Channels.antt =====
-- packages/hub-server/src/registry.ts: a channel releases only its own binding.
use kumiai.HubServer.Registry.Tokens.{empty_registry-AreMinted, run-AreMinted}
use kumiai.HubServer.Registry.History.{
  releases, binds, unregisters_if_idle, unregisters, registers, RegistryCall, registry_run,
  registry_step,
}
use kumiai.Shared.{
  subst, ℕ, ◌<◌, ◌≡◌, refl, inl, inr, Bool, true, false, ◌&&◌, some, List, [], ◌∷◌, ◌==◌, arith,
  All, Bool-cases, Option-cases,
}
use kumiai.Shared.Map
use kumiai.Shared.Map.{Map, get-set, get-delete, get-empty}
use kumiai.HubServer.Registry.{
  Binding, empty_registry, is_token, idle_client, is_online, release_receive_writer,
  bind_receive_writer, unregister_if_idle, ClientEntry, HubClientRegistry, unregister, register,
}

-- The DID's current channel is the one with this token.
abbrev pub HasChannel : ℕ → ℕ → ℕ → HubClientRegistry → Type 0
HasChannel did writer token r =
    (e : ClientEntry) × (Map.get did r.clients ≡ some e)
    × (e.send_message ≡ some writer)
    × (e.token ≡ some token)

-- The call takes a DID's channel away on purpose: it binds another one, unregisters the DID, or
-- releases with the channel's own token.
abbrev pub ends : ℕ → ℕ → RegistryCall → Bool
ends did token (registers d) = false
ends did token (unregisters d) = d == did
ends did token (unregisters_if_idle d) = false
ends did token (binds d writer end_receive) = d == did
ends did token (releases d t) = (d == did) && (t == token)

step-HasChannel :
    (did writer token : ℕ) (r : HubClientRegistry) (c : RegistryCall)
    → ends did token c ≡ false
    → HasChannel did writer token r
    → HasChannel did writer token (registry_step r c)
unfolding registry_step register unregister unregister_if_idle bind_receive_writer
    release_receive_writer
step-HasChannel did writer token r (registers d) n (e, g, w, t) =
    elim (Option-cases (Map.get d r.clients)) [
      | inl a ↦ (
        e,
        rw (registry_step, register, a) ground
            (arith, a, g, get-set did d (idle_client d) r.clients),
        w,
        t,
      )
      | inr (x, a) ↦ (e, rw (registry_step, register, a) g, w, t)
    ]
step-HasChannel did writer token r (unregisters d) n (e, g, w, t) =
    (e, ground (arith, n, g, get-delete did d r.clients), w, t)
step-HasChannel did writer token r (unregisters_if_idle d) n (e, g, w, t) =
    elim (Option-cases (Map.get d r.clients)) [
      | inl a ↦ (e, rw (registry_step, unregister_if_idle, a) g, w, t)
      | inr (x, a) ↦ elim (Option-cases x.send_message) [
        | inl b ↦ (
          e,
          rw (registry_step, unregister_if_idle, a, b)
              unfold unregister in ground (arith, a, b, g, w, get-delete did d r.clients),
          w,
          t,
        )
        | inr (y, b) ↦ (e, rw (registry_step, unregister_if_idle, a, b) g, w, t)
      ]
    ]
step-HasChannel did writer token r (binds d v end) n (e, g, w, t) =
    elim (Option-cases (Map.get d r.clients)) [
      | inl a ↦ (e, rw (registry_step, bind_receive_writer, a) g, w, t)
      | inr (x, a) ↦ (
        e,
        rw (registry_step, bind_receive_writer, a) ground
            (
              arith,
              n,
              g,
              get-set did d
                  (record {
                    did = x.did;
                    send_message = some v;
                    end_receive = some end;
                    token = some r.minted;
                  })
                  r.clients,
            ),
        w,
        t,
      )
    ]
step-HasChannel did writer token r (releases d k) n (e, g, w, t) =
    elim (Option-cases (Map.get d r.clients)) [
      | inl a ↦ (e, rw (registry_step, release_receive_writer, a) g, w, t)
      | inr (x, a) ↦ elim (Bool-cases (is_token k x.token)) [
        | inl b ↦ (
          e,
          rw (registry_step, release_receive_writer, a, b) ground
              (arith, n, a, b, g, t, get-set did d (idle_client x.did) r.clients),
          w,
          t,
        )
        | inr b ↦ (e, rw (registry_step, release_receive_writer, a, b) g, w, t)
      ]
    ]

run-HasChannel :
    (did writer token : ℕ) (r : HubClientRegistry) (cs : List RegistryCall)
    → All (λ c. ends did token c ≡ false) cs
    → HasChannel did writer token r
    → HasChannel did writer token (registry_run r cs)
unfolding registry_run
run-HasChannel did writer token r [] n h = h
run-HasChannel did writer token r (c ∷ cs) (m, n) h =
    run-HasChannel did writer token (registry_step r c) cs n
      (step-HasChannel did writer token r c m h)

bound-HasChannel :
    (did writer end_receive : ℕ) (r : HubClientRegistry) (e : ClientEntry)
    → Map.get did r.clients ≡ some e
    → let (b, r') = bind_receive_writer did writer end_receive r in
      (b ≡ record { bound_token = r.minted; evicted = e.end_receive })
      × HasChannel did writer r.minted r'
unfolding bind_receive_writer
bound-HasChannel did writer end_receive r e g = (
  rw (bind_receive_writer, g) refl,
  (
    record {
      did = e.did;
      send_message = some writer;
      end_receive = some end_receive;
      token = some r.minted;
    },
    rw (bind_receive_writer, g) ground
        (
          arith,
          get-set did did
              (record {
                did = e.did;
                send_message = some writer;
                end_receive = some end_receive;
                token = some r.minted;
              })
              r.clients,
        ),
    refl,
    refl,
  ),
)

HasChannel-is_online :
    (did writer token : ℕ) (r : HubClientRegistry)
    → HasChannel did writer token r
    → is_online did r ≡ true
unfolding is_online
HasChannel-is_online did writer token r (e, g, w, t) = rw (is_online, g, w) refl

-- From a new registry and after any calls: a registered DID that binds a writer is handed the
-- callback that ends the channel bound before, with a token above that channel's. It is online
-- with the new writer, and stays so through any calls but its own next binding, its
-- unregistration, and a release with the new token: the release by the evicted channel is among
-- those that change nothing for it.
pub bound_writer_stays :
    (before after : List RegistryCall) (did writer end_receive : ℕ) (e : ClientEntry)
    → let r = registry_run empty_registry before in
      let (b, r') = bind_receive_writer did writer end_receive r in
      Map.get did r.clients ≡ some e
      → All (λ c. ends did b.bound_token c ≡ false) after
      → (b.evicted ≡ e.end_receive)
        × ((t : ℕ) → e.token ≡ some t → t < b.bound_token)
        × HasChannel did writer b.bound_token (registry_run r' after)
        × (is_online did (registry_run r' after) ≡ true)
bound_writer_stays before after did writer end_receive e g n =
    let r = registry_run empty_registry before in
    let (b, own) = bound-HasChannel did writer end_receive r e g in
    let stays =
      run-HasChannel did writer r.minted (bind_receive_writer did writer end_receive r).1 after
        (subst (λ (q : Binding). All (λ c. ends did q.bound_token c ≡ false) after) b n) own in
    rw b (
      refl,
      (λ t k. run-AreMinted empty_registry before empty_registry-AreMinted did e t g k),
      stays,
      HasChannel-is_online did writer r.minted _ stays,
    )
