-- ===== src/Rpc/Handshake.antt =====
-- packages/rpc/src/handshake.ts and frame-size.ts: the header of the frames on the raw MLS lanes.
use kumiai.Shared.{
  ◌/◌, ℕ, ◌+◌, ◌*◌, Bool, true, false, not, ◌&&◌, ◌||◌, Option, none, some, List, ◌∷◌, ◌==◌, leb,
  if◌then◌else◌, length,
}

-- HANDSHAKE_MAGIC
abbrev pub magic_first : ℕ
magic_first = 69

abbrev pub magic_second : ℕ
magic_second = 75

abbrev pub handshake_version : ℕ
handshake_version = 1

pub data HandshakeKind : Type 0 where
  commit recovery_request recovery_reply ledger_request ledger_reply : HandshakeKind
  recovery_confirm_request recovery_verdict : HandshakeKind

abbrev pub kind_byte : HandshakeKind → ℕ
kind_byte commit = 0
kind_byte recovery_request = 1
kind_byte recovery_reply = 2
kind_byte ledger_request = 3
kind_byte ledger_reply = 4
kind_byte recovery_confirm_request = 5
kind_byte recovery_verdict = 6

-- `KINDS.has(value)`
abbrev pub is_handshake_kind : ℕ → Bool
is_handshake_kind value = leb value 6

-- `assertFrameFits` passes: 4 characters of base64 for every 3 bytes begun.
abbrev pub frame_fits : List ℕ → Bool
frame_fits frame = leb (4 * ((length frame + 2) / 3)) 1048576

abbrev pub is_bounded_kind : HandshakeKind → Bool
is_bounded_kind recovery_confirm_request = true
is_bounded_kind recovery_verdict = true
is_bounded_kind _ = false

-- `none` where the frame is refused as too large.
unfoldable pub encode_handshake_frame : HandshakeKind → List ℕ → Option (List ℕ)
encode_handshake_frame kind payload =
    let frame = magic_first ∷ magic_second ∷ handshake_version ∷ kind_byte kind ∷ payload in
    if is_bounded_kind kind && not (frame_fits frame) then none else some frame

-- The kind is a byte until it is compared.
pub record HandshakeFrame : Type 0 where
  pub version : ℕ
  pub kind : ℕ
  pub payload : List ℕ

pub data HandshakeError : Type 0 where
  too_short bad_magic unknown_kind : HandshakeError

pub data HandshakeRead : Type 0 where
  read : HandshakeFrame → HandshakeRead
  unreadable : HandshakeError → HandshakeRead

unfoldable pub decode_handshake_frame : List ℕ → HandshakeRead
decode_handshake_frame (a ∷ b ∷ version ∷ kind ∷ payload) =
    if not (a == magic_first) || not (b == magic_second)
    then unreadable bad_magic
    else if not (version == handshake_version)
    then read (record { version = version; kind = kind; payload = payload })
    else if not (is_handshake_kind kind)
    then unreadable unknown_kind
    else read (record { version = version; kind = kind; payload = payload })
decode_handshake_frame _ = unreadable too_short
