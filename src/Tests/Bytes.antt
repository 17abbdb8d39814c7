-- ===== src/Tests/Bytes.antt =====
-- Frames, buffers and blocking sockets.
use highp_mmorpg.Prelude.{ℕ, ◌≡◌, ◌≢◌, refl, List, [], ◌∷◌, ◌++◌, none, some, arith}
use highp_mmorpg.NetworkError.{ok}
use highp_mmorpg.Frame.{FrameBuffer, htonl, encode_header}
use highp_mmorpg.Frame.Contents.{IsValid}
use highp_mmorpg.Stream.{build_frame, recv_frame, send_all}
use highp_mmorpg.Stream.Sending.{Sends, send_all-Sends}
use highp_mmorpg.Stream.Receiving.{recv_frame_total, recv_frame-build_frame}
use highp_mmorpg.Tests.Data.{trickle, trickle_delivers, trickle_arrives}

-- Five bytes of room, two of them pending.
abbrev buffer : FrameBuffer
buffer = record { buf = 1 ∷ 2 ∷ 0 ∷ 0 ∷ 0 ∷ []; len = 2 }

buffer-IsValid : IsValid buffer
buffer-IsValid = record { within = omega arith; small = omega arith }

send_all-Sends_example :
    Sends trickle trickle_delivers 4
      (1 ∷ 2 ∷ 3 ∷ 4 ∷ 5 ∷ [])
      []
      (send_all trickle (some 4) (1 ∷ 2 ∷ 3 ∷ 4 ∷ 5 ∷ []) [])
send_all-Sends_example = send_all-Sends trickle trickle_delivers 4 (1 ∷ 2 ∷ 3 ∷ 4 ∷ 5 ∷ []) []

recv_frame_total_example : recv_frame trickle (some 4) 10 (0 ∷ 0 ∷ 0 ∷ 1 ∷ []) ≢ none
recv_frame_total_example = recv_frame_total trickle (some 4) 10 (0 ∷ 0 ∷ 0 ∷ 1 ∷ [])

framed_lem : 0 ∷ 0 ∷ 0 ∷ 2 ∷ 8 ∷ 9 ∷ 5 ∷ [] ≡ build_frame (8 ∷ 9 ∷ []) ++ 5 ∷ []
unfolding build_frame htonl encode_header
framed_lem = refl

recv_frame-build_frame_example :
    (s' : List ℕ) × (recv_frame trickle (some 4) 10 (0 ∷ 0 ∷ 0 ∷ 2 ∷ 8 ∷ 9 ∷ 5 ∷ [])
      ≡ some (ok (2, 8 ∷ 9 ∷ []), s'))
    × (s' ≡ 5 ∷ [])
recv_frame-build_frame_example =
    recv_frame-build_frame trickle trickle_arrives 4 10 (8 ∷ 9 ∷ []) (5 ∷ [])
      (0 ∷ 0 ∷ 0 ∷ 2 ∷ 8 ∷ 9 ∷ 5 ∷ []) (omega arith) (omega arith) (omega arith) framed_lem

header_lem : 0 ∷ 0 ∷ 0 ∷ 11 ∷ 5 ∷ [] ≡ encode_header 11 ++ 5 ∷ []
unfolding encode_header
header_lem = refl
