-- ===== src/Rpc/LaneMessage.antt =====
-- packages/rpc/src/peer.ts, `walkCommits`: what the commit lane makes of a message's bytes before it
-- classifies the frame. The MLS port's `readCommitHeader`, the digest of the commit's bytes and the
-- port's answer to an applicable commit are parameters.
pub mod Exact
use kumiai.HubServer.MemoryStore.{StoredMessage}
use kumiai.Rpc.Classify.{
  unknown_frame_version, header, not_a_commit, CommitFrameEvidence, CommitHeader,
}
use kumiai.Rpc.Classify.Lane.{LaneFrame, ApplyOutcome, refused}
use kumiai.Rpc.CommitFrame.{
  CommitFrame, Decoded, decoded, failed, unsupported_version, too_short, truncated,
  decode_commit_frame,
}
use kumiai.Shared.{
  ◌/◌, ◌%◌, subst, ◌∙◌, ℕ, zero, suc, ◌+◌, ◌-◌, ◌*◌, ◌≤◌, ◌<◌, ◌≡◌, ◌≢◌, refl, sym, ap, ◌⊎◌, ◌↔◌,
  inl, inr, Bool, true, false, not, ◌&&◌, ◌||◌, Option, none, some, List, [], ◌∷◌, ◌++◌, ◌==◌, ltb,
  leb, if◌then◌else◌, or_default, is_some, arith, All, length, Bool-cases, Option-cases, ==_iff,
  ==_refl, ==_ne, min, max, map, has, erase,
}
use kumiai.Shared.Map
use kumiai.Shared.Map.{Map, get-set, get-delete, get-empty}
use kumiai.Rpc.Handshake.{
  kind_byte, handshake_version, read, unreadable, decode_handshake_frame, HandshakeRead,
  commit as commit_kind,
}
use kumiai.HubServer.SequenceId.{format_sequence_id}

-- What the walk finds behind the header: a commit's frame, or what the frame is evidence of.
pub data LaneContent : Type 0 where
  carries : CommitFrame → LaneContent
  dropped unknown_version : LaneContent

abbrev pub commit_content : Decoded → LaneContent
commit_content (decoded f) = carries f
commit_content (failed (unsupported_version version)) = unknown_version
commit_content (failed too_short) = dropped
commit_content (failed truncated) = dropped

abbrev pub handshake_content : HandshakeRead → LaneContent
handshake_content (unreadable why) = dropped
handshake_content (read frame) =
    if not (frame.version == handshake_version)
    then unknown_version
    else if not (frame.kind == kind_byte commit_kind)
    then dropped
    else commit_content (decode_commit_frame frame.payload)

unfoldable pub lane_content : List ℕ → LaneContent
unfolding decode_handshake_frame decode_commit_frame
lane_content payload = handshake_content (decode_handshake_frame payload)

module _ (read_commit_header : List ℕ → Option CommitHeader) (digest_of : List ℕ → ℕ)
    (process_commit : CommitFrame → ApplyOutcome) where
  abbrev pub header_evidence : Option CommitHeader → CommitFrameEvidence
  header_evidence none = not_a_commit
  header_evidence (some h) = header h

  abbrev pub content_evidence : LaneContent → CommitFrameEvidence
  content_evidence (carries f) = header_evidence (read_commit_header f.commit)
  content_evidence dropped = not_a_commit
  content_evidence unknown_version = unknown_frame_version

  -- The digest and the outcome are read of a commit only.
  abbrev pub content_digest : LaneContent → ℕ
  content_digest (carries f) = digest_of f.commit
  content_digest _ = 0

  abbrev pub content_outcome : LaneContent → ApplyOutcome
  content_outcome (carries f) = process_commit f
  content_outcome _ = refused

  unfoldable pub lane_frame : StoredMessage → LaneFrame
  unfolding lane_content format_sequence_id
  lane_frame m =
      let content = lane_content m.payload in
      record {
        frame_header = content_evidence content;
        position = format_sequence_id m.sequence_id;
        digest = content_digest content;
        outcome = content_outcome content;
      }
