-- ===== src/Rpc/FrameTests.antt =====
-- Runs of packages/rpc/src/commit-frame.ts, handshake.ts, and the reading of a message in peer.ts.
use kumiai.Rpc.LaneMessage.Exact.{lane_content-encode_handshake_frame}
use kumiai.Rpc.LaneMessage.{unknown_version, dropped, carries, lane_content}
use kumiai.Rpc.CommitFrame.Framing.{
  IsBytes, truncated_frame, decode_commit_frame-encode_commit_frame,
}
use kumiai.Rpc.CommitFrame.{
  unsupported_version, truncated, failed, decoded, encode_commit_frame, CommitFrame,
  decode_commit_frame,
}
use kumiai.Rpc.Handshake.{encode_handshake_frame, commit as commit_kind}
use kumiai.Shared.{some, take, ℕ, ◌<◌, ◌≡◌, refl, ◌↔◌, List, [], ◌∷◌, arith, length}

abbrev frame : CommitFrame
frame = record { commit = 7 ∷ 8 ∷ []; sealed_entries = 9 ∷ [] }

abbrev frame_bytes : List ℕ
frame_bytes = 1 ∷ 2 ∷ 0 ∷ 0 ∷ 0 ∷ 7 ∷ 8 ∷ 9 ∷ []

frame_bytes-IsBytes : IsBytes frame_bytes
frame_bytes-IsBytes = (
  omega arith,
  (
    omega arith,
    (omega arith, (omega arith, (omega arith, (omega arith, (omega arith, (omega arith, tt)))))),
  ),
)

from_the_future : decode_commit_frame (2 ∷ 0 ∷ 0 ∷ 0 ∷ 0 ∷ []) ≡ failed (unsupported_version 2)
unfolding decode_commit_frame
from_the_future = refl

decode_commit_frame-encode_commit_frame_example :
    (decode_commit_frame frame_bytes ≡ decoded frame)
    ↔ ((frame_bytes ≡ encode_commit_frame frame) × (length frame.commit < 4294967296))
decode_commit_frame-encode_commit_frame_example =
    decode_commit_frame-encode_commit_frame frame_bytes frame frame_bytes-IsBytes

truncated_frame_example :
    decode_commit_frame (take 6 (encode_commit_frame frame)) ≡ failed truncated
truncated_frame_example = truncated_frame 6 frame (omega arith)

abbrev message_bytes : List ℕ
message_bytes = 69 ∷ 75 ∷ 1 ∷ 0 ∷ frame_bytes

message_bytes-IsBytes : IsBytes message_bytes
message_bytes-IsBytes =
    (omega arith, (omega arith, (omega arith, (omega arith, frame_bytes-IsBytes))))

lane_content-encode_handshake_frame_example : (lane_content message_bytes ≡ carries frame) ↔ (
    (encode_handshake_frame commit_kind (encode_commit_frame frame) ≡ some message_bytes)
    × (length frame.commit < 4294967296))
lane_content-encode_handshake_frame_example =
    lane_content-encode_handshake_frame message_bytes frame message_bytes-IsBytes

-- A recovery reply on the commit lane is dropped, a frame of the next version is not.
other_messages :
    (lane_content (69 ∷ 75 ∷ 1 ∷ 2 ∷ []) ≡ dropped)
    × (lane_content (69 ∷ 75 ∷ 2 ∷ 200 ∷ []) ≡ unknown_version)
unfolding lane_content
other_messages = (refl, refl)
