-- ===== src/HubServer/Registry/Tokens.antt =====
-- packages/hub-server/src/registry.ts: the tokens of the channels come from the count of symbols.
use kumiai.HubServer.Registry.History.{
  releases, binds, unregisters_if_idle, unregisters, registers, RegistryCall, registry_run,
  registry_step,
}
use kumiai.Shared.{
  ℕ, ◌+◌, ◌≤◌, ◌<◌, ◌≡◌, inl, inr, some, List, [], ◌∷◌, ◌==◌, arith, Bool-cases, Option-cases,
}
use kumiai.Shared.Map
use kumiai.Shared.Map.{Map, get-set, get-delete, get-empty}
use kumiai.HubServer.Registry.{
  empty_registry, is_token, idle_client, release_receive_writer, bind_receive_writer,
  unregister_if_idle, ClientEntry, HubClientRegistry, unregister, register,
}

-- Every token of the registry was minted before.
abbrev pub AreMinted : HubClientRegistry → Type 0
AreMinted r =
    (did : ℕ) (e : ClientEntry) (t : ℕ)
    → Map.get did r.clients ≡ some e
    → e.token ≡ some t
    → t < r.minted

-- An entry that is put in the map, whose token is below the count.
set-AreMinted :
    (d count : ℕ) (x : ClientEntry) (r : HubClientRegistry)
    → ((t : ℕ) → x.token ≡ some t → t < count)
    → r.minted ≤ count
    → AreMinted r
    → AreMinted (record { clients = Map.set d x r.clients; minted = count })
set-AreMinted d count x r own le h did e t g k = elim (Bool-cases (d == did)) [
  | inl a ↦ own t (ground (arith, a, g, k, get-set did d x r.clients))
  | inr a ↦ let old = h did e t (ground (arith, a, g, get-set did d x r.clients)) k in omega arith
]

delete-AreMinted : (d : ℕ) (r : HubClientRegistry) → AreMinted r → AreMinted (unregister d r)
unfolding unregister
delete-AreMinted d r h did e t g k = h did e t (ground (arith, g, get-delete did d r.clients)) k

step-AreMinted :
    (r : HubClientRegistry) (c : RegistryCall) → AreMinted r → AreMinted (registry_step r c)
unfolding registry_step register unregister unregister_if_idle bind_receive_writer
    release_receive_writer
step-AreMinted r (registers d) h = elim (Option-cases (Map.get d r.clients)) [
  | inl a ↦
      rw (registry_step, register, a)
        (set-AreMinted d r.minted (idle_client d) r (λ t e. absurd (cc e)) (omega arith) h)
  | inr (x, a) ↦ rw (registry_step, register, a) h
]
step-AreMinted r (unregisters d) h = delete-AreMinted d r h
step-AreMinted r (unregisters_if_idle d) h = elim (Option-cases (Map.get d r.clients)) [
  | inl a ↦ rw (registry_step, unregister_if_idle, a) h
  | inr (x, a) ↦ elim (Option-cases x.send_message) [
    | inl b ↦ rw (registry_step, unregister_if_idle, a, b) (delete-AreMinted d r h)
    | inr (y, b) ↦ rw (registry_step, unregister_if_idle, a, b) h
  ]
]
step-AreMinted r (binds d v end) h = elim (Option-cases (Map.get d r.clients)) [
  | inl a ↦
      rw (registry_step, bind_receive_writer, a)
        (λ did e t g k. let old = h did e t g k in omega arith)
  | inr (x, a) ↦
      rw (registry_step, bind_receive_writer, a)
        (set-AreMinted d (r.minted + 1)
          (record {
            did = x.did;
            send_message = some v;
            end_receive = some end;
            token = some r.minted;
          })
          r (λ t e. ground (arith, e)) (omega arith) h)
]
step-AreMinted r (releases d k) h = elim (Option-cases (Map.get d r.clients)) [
  | inl a ↦ rw (registry_step, release_receive_writer, a) h
  | inr (x, a) ↦ elim (Bool-cases (is_token k x.token)) [
    | inl b ↦
        rw (registry_step, release_receive_writer, a, b)
          (set-AreMinted d r.minted (idle_client x.did) r (λ t e. absurd (cc e)) (omega arith) h)
    | inr b ↦ rw (registry_step, release_receive_writer, a, b) h
  ]
]

pub run-AreMinted :
    (r : HubClientRegistry) (cs : List RegistryCall) → AreMinted r → AreMinted (registry_run r cs)
unfolding registry_run
run-AreMinted r [] h = h
run-AreMinted r (c ∷ cs) h = run-AreMinted (registry_step r c) cs (step-AreMinted r c h)

pub empty_registry-AreMinted : AreMinted empty_registry
unfolding empty_registry Map.get
empty_registry-AreMinted did e t g k = absurd (cc g)
