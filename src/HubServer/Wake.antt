-- ===== src/HubServer/Wake.antt =====
-- packages/hub-server/src/wake.ts: the coalescing of wake pings. `pings` has the calls of `send`,
-- newest first; what the sender and the registration store do with a ping is not followed. A
-- window's timer firing is the operation `fire`.
pub mod Coalescing
use kumiai.Shared.{
  ℕ, zero, suc, ◌+◌, ◌-◌, ◌*◌, ◌≤◌, ◌<◌, ◌≡◌, ◌≢◌, refl, sym, ap, ◌⊎◌, ◌↔◌, inl, inr, Bool, true,
  false, not, ◌&&◌, ◌||◌, Option, none, some, List, [], ◌∷◌, ◌++◌, ◌==◌, ltb, leb, if◌then◌else◌,
  or_default, is_some, arith, All, length, Bool-cases, Option-cases, ==_iff, ==_refl, ==_ne, min,
  max, map, has, add, erase,
}
use kumiai.Shared.Map
use kumiai.Shared.Map.{Map, get-set, get-delete, get-empty}

pub record FrameRef : Type 0 where
  pub topic_id : ℕ
  pub sequence_id : ℕ

pub record Pending : Type 0 where
  pub latest : Option FrameRef
  pub count : ℕ

pub record WakePing : Type 0 where
  pub did : ℕ
  pub frame : FrameRef
  pub count : ℕ

pub record WakeDispatcher : Type 0 where
  pub pending : Map Pending
  pub pings : List WakePing
  pub disposed : Bool

unfoldable pub create_wake_dispatcher : WakeDispatcher
create_wake_dispatcher = record { pending = []; pings = []; disposed = false }

abbrev pub open_window : Pending
open_window = record { latest = none; count = 0 }

abbrev pub send : ℕ → FrameRef → ℕ → List WakePing → List WakePing
send did frame count pings = record { did = did; frame = frame; count = count } ∷ pings

-- The leading edge pings at once; in an open window the frame is counted.
unfoldable pub notify : ℕ → FrameRef → WakeDispatcher → WakeDispatcher
notify did frame w = if w.disposed then w else elim (Map.get did w.pending) [
  | none ↦ record {
    pending = Map.set did open_window w.pending;
    pings = send did frame 1 w.pings;
    disposed = w.disposed;
  }
  | some entry ↦ record {
    pending = Map.set did (record { latest = some frame; count = entry.count + 1 }) w.pending;
    pings = w.pings;
    disposed = w.disposed;
  }
]

-- The closed window's summary, behind which a fresh window opens; none where no frame came.
abbrev pub summarize : ℕ → Pending → Option FrameRef → WakeDispatcher → WakeDispatcher
summarize did entry none w = record {
  pending = Map.delete did w.pending;
  pings = w.pings;
  disposed = w.disposed;
}
summarize did entry (some frame) w = record {
  pending = Map.set did open_window (Map.delete did w.pending);
  pings = send did frame entry.count w.pings;
  disposed = w.disposed;
}

unfoldable pub fire : ℕ → WakeDispatcher → WakeDispatcher
fire did w = elim (Map.get did w.pending) [
  | none ↦ w
  | some entry ↦ summarize did entry entry.latest w
]

unfoldable pub online : ℕ → WakeDispatcher → WakeDispatcher
online did w = record { pending = Map.delete did w.pending; pings = w.pings; disposed = w.disposed }

unfoldable pub dispose : WakeDispatcher → WakeDispatcher
dispose w = record { pending = []; pings = w.pings; disposed = true }
