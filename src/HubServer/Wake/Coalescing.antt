-- ===== src/HubServer/Wake/Coalescing.antt =====
-- packages/hub-server/src/wake.ts: coalescing loses no frame.
use kumiai.Shared.{
  ℕ, ◌+◌, ◌≡◌, refl, inl, inr, Bool, true, false, not, Option, none, some, List, [], ◌∷◌, ◌==◌,
  if◌then◌else◌, arith, All, Bool-cases, Option-cases,
}
use kumiai.Shared.Map
use kumiai.Shared.Map.{Map, get-set, get-delete, get-empty}
use kumiai.HubServer.Wake.{
  create_wake_dispatcher, dispose, online, open_window, Pending, WakePing, FrameRef, fire,
  WakeDispatcher, notify,
}

pub data WakeCall : Type 0 where
  notifies : ℕ → FrameRef → WakeCall
  fires goes_online : ℕ → WakeCall
  disposes : WakeCall

unfoldable pub wake_step : WakeDispatcher → WakeCall → WakeDispatcher
unfolding notify fire online dispose
wake_step w (notifies did frame) = notify did frame w
wake_step w (fires did) = fire did w
wake_step w (goes_online did) = online did w
wake_step w disposes = dispose w

unfoldable pub wake_run : WakeDispatcher → List WakeCall → WakeDispatcher
unfolding wake_step
wake_run w [] = w
wake_run w (c ∷ cs) = wake_run (wake_step w c) cs

-- The frames that the pings to a DID stand for.
abbrev pub pinged : ℕ → List WakePing → ℕ
pinged did [] = 0
pinged did (p ∷ ps) = (if p.did == did then p.count else 0) + pinged did ps

abbrev pub count_of : Option Pending → ℕ
count_of none = 0
count_of (some entry) = entry.count

-- The frames that wait in a DID's window.
abbrev pub waiting : ℕ → WakeDispatcher → ℕ
waiting did w = count_of (Map.get did w.pending)

abbrev pub notified : ℕ → List WakeCall → ℕ
notified did [] = 0
notified did (notifies d frame ∷ cs) = (if d == did then 1 else 0) + notified did cs
notified did (_ ∷ cs) = notified did cs

abbrev pub keeps_window : ℕ → WakeCall → Bool
keeps_window did (goes_online d) = not (d == did)
keeps_window did disposes = false
keeps_window did _ = true

-- A window with no latest frame has counted none.
record IsLive (w : WakeDispatcher) : Type 0 where
  live : w.disposed ≡ false
  counted : (did : ℕ) (e : Pending) → Map.get did w.pending ≡ some e → e.latest ≡ none → e.count ≡ 0

set-counted :
    (d : ℕ) (x : Pending) (m : Map Pending)
    → (x.latest ≡ none → x.count ≡ 0)
    → ((did : ℕ) (e : Pending) → Map.get did m ≡ some e → e.latest ≡ none → e.count ≡ 0)
    → (did : ℕ) (e : Pending) → Map.get did (Map.set d x m) ≡ some e
    → e.latest ≡ none
    → e.count ≡ 0
set-counted d x m own h did e g l = elim (Bool-cases (d == did)) [
  | inl a ↦ ground (arith, a, g, l, own, get-set did d x m)
  | inr a ↦ h did e (ground (arith, a, g, get-set did d x m)) l
]

delete-counted :
    (d : ℕ) (m : Map Pending)
    → ((did : ℕ) (e : Pending) → Map.get did m ≡ some e → e.latest ≡ none → e.count ≡ 0)
    → (did : ℕ) (e : Pending) → Map.get did (Map.delete d m) ≡ some e
    → e.latest ≡ none
    → e.count ≡ 0
delete-counted d m h did e g l = h did e (ground (arith, g, get-delete did d m)) l

notify-IsLive : (d : ℕ) (f : FrameRef) (w : WakeDispatcher) → IsLive w → IsLive (notify d f w)
unfolding notify
notify-IsLive d f w h = elim (Option-cases (Map.get d w.pending)) [
  | inl a ↦
      rw (notify, h.live, a)
        (record {
          live = h.live;
          counted = set-counted d open_window w.pending (λ l. refl) h.counted;
        })
  | inr (x, a) ↦
      rw (notify, h.live, a)
        (record {
          live = h.live;
          counted =
              set-counted d (record { latest = some f; count = x.count + 1 }) w.pending
                (λ l. absurd (cc l)) h.counted;
        })
]

fire-IsLive : (d : ℕ) (w : WakeDispatcher) → IsLive w → IsLive (fire d w)
unfolding fire
fire-IsLive d w h = elim (Option-cases (Map.get d w.pending)) [
  | inl a ↦ rw (fire, a) h
  | inr (x, a) ↦ elim (Option-cases x.latest) [
    | inl b ↦
        rw (fire, a, b) (record { live = h.live; counted = delete-counted d w.pending h.counted })
    | inr (f, b) ↦
        rw (fire, a, b)
          (record {
            live = h.live;
            counted =
                set-counted d open_window (Map.delete d w.pending) (λ l. refl)
                  (delete-counted d w.pending h.counted);
          })
  ]
]

notify-total :
    (did d : ℕ) (f : FrameRef) (w : WakeDispatcher)
    → w.disposed ≡ false
    → pinged did (notify d f w).pings + waiting did (notify d f w)
      ≡ (if d == did then 1 else 0) + (pinged did w.pings + waiting did w)
unfolding notify
notify-total did d f w live = elim (Option-cases (Map.get d w.pending)) [
  | inl a ↦ rw (notify, live, a) ground (arith, a, get-set did d open_window w.pending)
  | inr (x, a) ↦
      rw (notify, live, a) ground
        (arith, a, get-set did d (record { latest = some f; count = x.count + 1 }) w.pending)
]

fire-total :
    (did d : ℕ) (w : WakeDispatcher)
    → IsLive w
    → pinged did (fire d w).pings + waiting did (fire d w) ≡ pinged did w.pings + waiting did w
unfolding fire
fire-total did d w h = elim (Option-cases (Map.get d w.pending)) [
  | inl a ↦ rw (fire, a) refl
  | inr (x, a) ↦ elim (Option-cases x.latest) [
    | inl b ↦ rw (fire, a, b) ground (arith, a, b, h.counted d x a b, get-delete did d w.pending)
    | inr (f, b) ↦
        rw (fire, a, b) ground
          (
            arith,
            a,
            b,
            get-set did d open_window (Map.delete d w.pending),
            get-delete did d w.pending,
          )
  ]
]

online-IsLive : (d : ℕ) (w : WakeDispatcher) → IsLive w → IsLive (online d w)
unfolding online
online-IsLive d w h = record { live = h.live; counted = delete-counted d w.pending h.counted }

online-total :
    (did d : ℕ) (w : WakeDispatcher)
    → not (d == did) ≡ true
    → pinged did (online d w).pings + waiting did (online d w) ≡ pinged did w.pings + waiting did w
unfolding online
online-total did d w other = ground (arith, other, get-delete did d w.pending)

run-total :
    (did : ℕ) (w : WakeDispatcher) (cs : List WakeCall)
    → IsLive w
    → All (λ c. keeps_window did c ≡ true) cs
    → pinged did (wake_run w cs).pings + waiting did (wake_run w cs)
      ≡ notified did cs + (pinged did w.pings + waiting did w)
unfolding wake_run wake_step
run-total did w [] h k = omega arith
run-total did w (notifies d f ∷ cs) h (a, k) = omega (
  arith,
  run-total did (notify d f w) cs (notify-IsLive d f w h) k,
  notify-total did d f w h.live,
)
run-total did w (fires d ∷ cs) h (a, k) =
    omega (arith, run-total did (fire d w) cs (fire-IsLive d w h) k, fire-total did d w h)
run-total did w (goes_online d ∷ cs) h (a, k) =
    omega (arith, run-total did (online d w) cs (online-IsLive d w h) k, online-total did d w a)
run-total did w (disposes ∷ cs) h (a, k) = absurd (cc a)

create-IsLive : IsLive create_wake_dispatcher
unfolding create_wake_dispatcher Map.get
create-IsLive = record { live = refl; counted = λ did e g l. absurd (cc g) }

create-total :
    (did : ℕ) → pinged did create_wake_dispatcher.pings + waiting did create_wake_dispatcher ≡ 0
unfolding create_wake_dispatcher Map.get
create-total did = refl

-- Coalescing loses no frame. From a new dispatcher and through any calls, as long as the DID does
-- not come online and the dispatcher is not disposed: the counts of the pings to the DID, with
-- the frames that wait in its window, add up to the frames it was notified of.
pub every_frame_counted :
    (did : ℕ) (cs : List WakeCall)
    → All (λ c. keeps_window did c ≡ true) cs
    → let w = wake_run create_wake_dispatcher cs in
      pinged did w.pings + waiting did w ≡ notified did cs
every_frame_counted did cs k =
    omega (arith, run-total did create_wake_dispatcher cs create-IsLive k, create-total did)
