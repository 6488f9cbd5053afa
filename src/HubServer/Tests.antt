-- ===== src/HubServer/Tests.antt =====
-- Runs of packages/hub-server/src/registry.ts on concrete channels.
use kumiai.HubServer.Registry.Channels.{bound_writer_stays, HasChannel}
use kumiai.HubServer.Registry.History.{
  unregisters_if_idle, releases, binds, registers, registry_step, RegistryCall, registry_run,
}
use kumiai.HubServer.SequenceId.{format_sequence_id-precedes, format_sequence_id}
use kumiai.Shared.Text.{precedes}
use kumiai.Shared.{ℕ, ◌+◌, ◌<◌, ◌≡◌, refl, true, some, List, [], ◌∷◌, ltb, arith}
use kumiai.Shared.Map
use kumiai.Shared.Map.{Map, get-set, get-delete, get-empty}
use kumiai.HubServer.Wake.Coalescing.{
  every_frame_counted, notified, waiting, goes_online, pinged, fires, notifies, WakeCall, wake_run,
}
use kumiai.HubServer.Wake.{create_wake_dispatcher, FrameRef}
use kumiai.HubServer.Registry.{
  is_online, empty_registry, bind_receive_writer, register, ClientEntry,
}

abbrev two_channels : List RegistryCall
two_channels = registers 4 ∷ binds 4 10 20 ∷ []

abbrev old_channel : ClientEntry
old_channel = record { did = 4; send_message = some 10; end_receive = some 20; token = some 0 }

-- The evicted channel releases with its token 0.
bound_writer_stays_example :
    let r = registry_run empty_registry two_channels in
    let (b, r') = bind_receive_writer 4 11 21 r in
    (b.evicted ≡ old_channel.end_receive)
    × ((t : ℕ) → old_channel.token ≡ some t → t < b.bound_token)
    × HasChannel 4 11 b.bound_token (registry_run r' (releases 4 0 ∷ unregisters_if_idle 4 ∷ []))
    × (is_online 4 (registry_run r' (releases 4 0 ∷ unregisters_if_idle 4 ∷ [])) ≡ true)
unfolding registry_run registry_step register bind_receive_writer empty_registry Map.get Map.set
bound_writer_stays_example =
    bound_writer_stays two_channels (releases 4 0 ∷ unregisters_if_idle 4 ∷ []) 4 11 21 old_channel
      refl (refl, (refl, tt))

abbrev frame : ℕ → FrameRef
frame sequence = record { topic_id = 7; sequence_id = sequence }

abbrev traffic : List WakeCall
traffic =
    notifies 4 (frame 1)
    ∷ notifies 4 (frame 2)
    ∷ notifies 5 (frame 2)
    ∷ notifies 4 (frame 3)
    ∷ fires 4
    ∷ goes_online 5
    ∷ notifies 4 (frame 4)
    ∷ []

every_frame_counted_example :
    let w = wake_run create_wake_dispatcher traffic in
    pinged 4 w.pings + waiting 4 w ≡ notified 4 traffic
every_frame_counted_example =
    every_frame_counted 4 traffic (refl, (refl, (refl, (refl, (refl, (refl, (refl, tt)))))))

format_sequence_id-precedes_example :
    precedes (format_sequence_id 9) (format_sequence_id 10) ≡ ltb 9 10
format_sequence_id-precedes_example = format_sequence_id-precedes 9 10 (omega arith) (omega arith)
