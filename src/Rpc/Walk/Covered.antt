-- ===== src/Rpc/Walk/Covered.antt =====
-- packages/rpc/src/peer.ts, `walkCommits`: a floor that is still covered has missed no frame.
use kumiai.Shared.Map
use kumiai.Shared.Map.{Map, get-set, get-delete, get-empty}
