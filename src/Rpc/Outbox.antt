-- ===== src/Rpc/Outbox.antt =====
-- packages/rpc/src/app-outbox.ts: the acceptance of application sends. An `await` splits a call, so
-- `accept` is two steps: it reserves a sequence number and starts the durable write, and it
-- settles when the write does. The two waits for `ready` are the caller's retry of `begin_accept`.
pub mod Fence
use kumiai.Shared.{
  without, ℕ, zero, suc, ◌+◌, ◌-◌, ◌*◌, ◌≤◌, ◌<◌, ◌≡◌, ◌≢◌, refl, sym, ap, ◌⊎◌, ◌↔◌, inl, inr, Bool,
  true, false, not, ◌&&◌, ◌||◌, Option, none, some, List, [], ◌∷◌, ◌++◌, ◌==◌, ltb, leb,
  if◌then◌else◌, or_default, is_some, arith, All, length, Bool-cases, Option-cases, ==_iff, ==_refl,
  ==_ne, min, max, map, has, add, erase,
}
use kumiai.Shared.Map
use kumiai.Shared.Map.{Map, get-set, get-delete, get-empty}

abbrev pub max_app_entry_bytes : ℕ
max_app_entry_bytes = 524288

pub record Attempt : Type 0 where
  pub epoch : ℕ
  pub floor : Option ℕ
  pub attempts : ℕ

pub record AppOutboxEntry : Type 0 where
  pub seq : ℕ
  pub protocol : ℕ
  pub prc : ℕ
  pub bytes : List ℕ
  pub last_attempt : Option Attempt

pub record AppInput : Type 0 where
  pub protocol : ℕ
  pub prc : ℕ
  pub bytes : List ℕ

-- `reservations` is a `Set`, in insertion order.
pub record Acceptance : Type 0 where
  pub limit : ℕ
  pub accepted : Map AppOutboxEntry
  pub reservations : List ℕ
  pub next_seq : ℕ
  pub listed : Bool
  pub stopped : Bool
  pub closed : Bool

unfoldable pub create_app_outbox_acceptance : ℕ → Acceptance
create_app_outbox_acceptance limit = record {
  limit = limit;
  accepted = [];
  reservations = [];
  next_seq = 0;
  listed = false;
  stopped = false;
  closed = false;
}

pub data AcceptError : Type 0 where
  peer_disposed peer_removed send_not_admissible app_entry_too_large app_outbox_full : AcceptError

-- The call waits for the inventory, is refused, or has reserved and is writing an entry.
pub data Begun : Type 0 where
  waits : Begun
  refused : AcceptError → Begun
  writes : AppOutboxEntry → Begun

unfoldable pub load_entries : List AppOutboxEntry → Acceptance → Acceptance
load_entries [] a = a
load_entries (e ∷ es) a =
    load_entries es
      (record a { accepted = Map.set e.seq e a.accepted; next_seq = max a.next_seq (e.seq + 1) })

-- `load`, where the outbox lists its entries.
unfoldable pub load : List AppOutboxEntry → Acceptance → Acceptance
unfolding load_entries
load entries a = if a.closed then a else record (load_entries entries a) { listed = true }

abbrev pub entry_of : ℕ → AppInput → AppOutboxEntry
entry_of seq input = record {
  seq = seq;
  protocol = input.protocol;
  prc = input.prc;
  bytes = input.bytes;
  last_attempt = none;
}

-- `close` settles `ready` too, so a closed acceptance does not wait.
unfoldable pub begin_accept : AppInput → Bool → Acceptance → Begun × Acceptance
begin_accept input admissible a =
    if not a.listed && not a.closed
    then (waits, a)
    else if a.closed
    then (refused peer_disposed, a)
    else if a.stopped
    then (refused peer_removed, a)
    else if not admissible
    then (refused send_not_admissible, a)
    else if ltb max_app_entry_bytes (length input.bytes)
    then (refused app_entry_too_large, a)
    else if leb a.limit (Map.size a.accepted + length a.reservations)
    then (refused app_outbox_full, a)
    else (
      writes (entry_of a.next_seq input),
      record a { next_seq = a.next_seq + 1; reservations = add a.next_seq a.reservations },
    )

-- The durable write of the entry succeeds or is rejected.
unfoldable pub end_accept : AppOutboxEntry → Bool → Acceptance → Acceptance
end_accept e written a = record a {
  accepted = if written then Map.set e.seq e a.accepted else a.accepted;
  reservations = without e.seq a.reservations;
}

-- `reservations.values().next()`.
abbrev pub first_reserved : List ℕ → Option ℕ
first_reserved [] = none
first_reserved (seq ∷ rest) = some seq

unfoldable pub lowest_unresolved_seq : Acceptance → Option ℕ
lowest_unresolved_seq a = first_reserved a.reservations

unfoldable pub replace : AppOutboxEntry → Acceptance → Acceptance
replace e a = record a { accepted = Map.set e.seq e a.accepted }

unfoldable pub remove : ℕ → Acceptance → Acceptance
remove seq a = record a { accepted = Map.delete seq a.accepted }

unfoldable pub clear : Acceptance → Acceptance
clear a = record a { accepted = [] }

unfoldable pub stop : Acceptance → Acceptance
stop a = record a { stopped = true }

unfoldable pub close : Acceptance → Acceptance
close a = record a { closed = true }
