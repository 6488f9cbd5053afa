-- ===== src/HubServer/Registry.antt =====
-- packages/hub-server/src/registry.ts: the online clients and their receive channels. A writer and
-- the callback that ends a channel are numbers that name them; a token is the number of the
-- `Symbol` that was minted for it, so `minted` is the registry's count of symbols.
pub mod History
pub mod Tokens
pub mod Channels
use kumiai.Shared.{
  ℕ, zero, suc, ◌+◌, ◌-◌, ◌*◌, ◌≤◌, ◌<◌, ◌≡◌, ◌≢◌, refl, sym, ap, ◌⊎◌, ◌↔◌, inl, inr, Bool, true,
  false, not, ◌&&◌, ◌||◌, Option, none, some, List, [], ◌∷◌, ◌++◌, ◌==◌, ltb, leb, if◌then◌else◌,
  or_default, is_some, arith, All, length, Bool-cases, Option-cases, ==_iff, ==_refl, ==_ne, min,
  max, map, has, add, erase,
}
use kumiai.Shared.Map
use kumiai.Shared.Map.{Map, get-set, get-delete, get-empty}

pub record ClientEntry : Type 0 where
  pub did : ℕ
  pub send_message : Option ℕ
  pub end_receive : Option ℕ
  pub token : Option ℕ

pub record HubClientRegistry : Type 0 where
  pub clients : Map ClientEntry
  pub minted : ℕ

unfoldable pub empty_registry : HubClientRegistry
empty_registry = record { clients = []; minted = 0 }

abbrev pub idle_client : ℕ → ClientEntry
idle_client did = record { did = did; send_message = none; end_receive = none; token = none }

unfoldable pub register : ℕ → HubClientRegistry → ClientEntry × HubClientRegistry
register did r = elim (Map.get did r.clients) [
  | some entry ↦ (entry, r)
  | none ↦ (
    idle_client did,
    record { clients = Map.set did (idle_client did) r.clients; minted = r.minted },
  )
]

unfoldable pub unregister : ℕ → HubClientRegistry → HubClientRegistry
unregister did r = record { clients = Map.delete did r.clients; minted = r.minted }

unfoldable pub unregister_if_idle : ℕ → HubClientRegistry → HubClientRegistry
unfolding unregister
unregister_if_idle did r = elim (Map.get did r.clients) [
  | none ↦ r
  | some entry ↦ if is_some entry.send_message then r else unregister did r
]

pub record Binding : Type 0 where
  pub bound_token : ℕ
  pub evicted : Option ℕ

unfoldable pub bind_receive_writer : ℕ → ℕ → ℕ → HubClientRegistry → Binding × HubClientRegistry
bind_receive_writer did writer end_receive r =
    let token = r.minted in
    elim (Map.get did r.clients) [
      | none ↦ (
        record { bound_token = token; evicted = none },
        record { clients = r.clients; minted = token + 1 },
      )
      | some entry ↦ (
        record { bound_token = token; evicted = entry.end_receive },
        record {
          clients =
              Map.set did
                (record {
                  did = entry.did;
                  send_message = some writer;
                  end_receive = some end_receive;
                  token = some token;
                })
                r.clients;
          minted = token + 1;
        },
      )
    ]

-- `entry.token !== token`, for an entry that may have no token.
abbrev pub is_token : ℕ → Option ℕ → Bool
is_token token none = false
is_token token (some t) = t == token

unfoldable pub release_receive_writer : ℕ → ℕ → HubClientRegistry → HubClientRegistry
release_receive_writer did token r = elim (Map.get did r.clients) [
  | none ↦ r
  | some entry ↦
      if is_token token entry.token
      then record { clients = Map.set did (idle_client entry.did) r.clients; minted = r.minted }
      else r
]

unfoldable pub get_client : ℕ → HubClientRegistry → Option ClientEntry
get_client did r = Map.get did r.clients

unfoldable pub is_online : ℕ → HubClientRegistry → Bool
is_online did r = elim (Map.get did r.clients) [
  | none ↦ false
  | some entry ↦ is_some entry.send_message
]
