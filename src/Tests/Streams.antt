-- ===== src/Tests/Streams.antt =====
-- Two cameras, three frames, and the byte streams that carry them.
use instachron.StreamProto.Header.{length-header}
use instachron.Base.{length-append}
use instachron.Base.{
  ℕ, ◌+◌, ◌*◌, ◌^◌, ◌≤◌, ◌<◌, ◌≡◌, arith, some, List, [], ◌∷◌, ◌++◌, length, take, All, err,
  nat_instance,
}
use instachron.Wire.Stream.{eof, sound_writer}
use instachron.Wire.Messages.{handle_all}
use instachron.StreamProto.{unix_epoch, read_frame, io, header, default_max_frame_size}
use instachron.StreamProto.Header.{IsSendable}
use instachron.StreamProto.Transport.{connect, serve, in_time, connect-serve}
use instachron.StreamProto.Truncated.{read_frame_cut, cut_frame_error}
use instachron.StreamProto.Server.{
  TcpServer, new_server, accept, accepts, Reach, here, next, reachable_bounded,
}
use instachron.FrameIpc.{kind_frame, kind_offline}
use instachron.FrameIpc.Client.{dispatch, serve_consumer, connect-serve_consumer}
use instachron.FrameIpc.RoundTrip.{encoding, read_message_takes, read_message-encoding}
use instachron.Streamer.Cache.{new_cache, handler, latest, last_word, latest-handle_all}
use instachron.StreamProto
use instachron.FrameIpc
use instachron.FrameIpc.Client
use instachron.FrameIpc.RoundTrip

abbrev jpeg : List ℕ
jpeg = 0xff ∷ 0xd8 ∷ 0xff ∷ 0xd9 ∷ []

abbrev frame_of : ℕ → ℕ → StreamProto.Frame
frame_of id n = record {
  timestamp = unix_epoch + 1_700_000_000 * 1_000_000_000 + n;
  sequence = n;
  camera_id = id;
  payload = jpeg;
}

abbrev two_frames : List StreamProto.Frame
two_frames = frame_of 1 0 ∷ frame_of 2 5 ∷ []

frame_of-IsSendable : (id n : ℕ) → id < 2 ^ 32 → n < 2 ^ 32 → IsSendable (frame_of id n)
frame_of-IsSendable id n hid hn = record {
  time_from = omega arith;
  time_to = omega arith;
  sequence_fits = omega arith;
  camera_id_fits = hid;
  payload_some = omega arith;
  payload_fits = omega arith;
}

two_frames-IsSendable : All IsSendable two_frames
two_frames-IsSendable = (
  frame_of-IsSendable 1 0 (omega arith) (omega arith),
  (frame_of-IsSendable 2 5 (omega arith) (omega arith), tt),
)

connect-serve_example :
    connect 3
      (record { bytes = (serve (in_time two_frames) (sound_writer [])).written; ending = eof })
    ≡ some (two_frames, io eof)
connect-serve_example = connect-serve two_frames 3 eof two_frames-IsSendable (omega arith)

read_frame_cut_example :
    read_frame (record { bytes = take 33 (header (frame_of 1 0) ++ jpeg); ending = eof })
    ≡ err (io (cut_frame_error 33))
read_frame_cut_example =
    read_frame_cut (frame_of 1 0) 33 (frame_of-IsSendable 1 0 (omega arith) (omega arith))
      (omega (arith, length-append (header (frame_of 1 0)) jpeg, length-header (frame_of 1 0)))

abbrev busy_server : TcpServer
busy_server = accept (accept (new_server 1) 10) 11

busy_server-Reach : Reach (new_server 1) busy_server
busy_server-Reach =
    next (next here (accepts (new_server 1) 10)) (accepts (accept (new_server 1) 10) 11)

reachable_bounded_example :
    (busy_server.clients ≡ length busy_server.serving) × (length busy_server.serving ≤ 1)
reachable_bounded_example = reachable_bounded 1 busy_server (omega arith) busy_server-Reach

abbrev ipc_frame : ℕ → FrameIpc.Frame
ipc_frame id = record { kind = kind_frame; camera_id = id; payload = jpeg }

abbrev ipc_offline : ℕ → FrameIpc.Frame
ipc_offline id = record { kind = kind_offline; camera_id = id; payload = [] }

abbrev three_messages : List FrameIpc.Frame
three_messages = ipc_frame 1 ∷ ipc_frame 2 ∷ ipc_offline 1 ∷ []

ipc_frame-IsSendable : (id : ℕ) → id < 2 ^ 32 → FrameIpc.RoundTrip.IsSendable (ipc_frame id)
ipc_frame-IsSendable id h = record {
  kind_fits = omega arith;
  camera_id_fits = h;
  payload_fits = omega arith;
}

three_messages-IsSendable : All FrameIpc.RoundTrip.IsSendable three_messages
three_messages-IsSendable = (
  ipc_frame-IsSendable 1 (omega arith),
  (
    ipc_frame-IsSendable 2 (omega arith),
    (
      record { kind_fits = omega arith; camera_id_fits = omega arith; payload_fits = omega arith },
      tt,
    ),
  ),
)

connect-serve_consumer_example :
    FrameIpc.Client.connect handler 4
      (record { bytes = (serve_consumer three_messages (sound_writer [])).written; ending = eof })
      new_cache
    ≡ some (handle_all (dispatch handler) three_messages new_cache, FrameIpc.io eof)
connect-serve_consumer_example =
    connect-serve_consumer handler three_messages 4 eof new_cache three_messages-IsSendable
      (omega arith)

latest-handle_all_example :
    latest 1 (handle_all (dispatch handler) three_messages new_cache)
    ≡ last_word 1 three_messages (latest 1 new_cache)
latest-handle_all_example = latest-handle_all 1 three_messages new_cache
