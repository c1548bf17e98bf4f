-- ===== src/Boxd/Stream.antt =====
-- The stream of a process to a client: streamConnectProcessWithOutput and connectStreamWriter of
-- internal/boxd/server/process.go.
pub mod Sent
use novita_box.Common.{
  ℕ, ◌+◌, Bool, true, false, Option, none, some, List, [], ◌∷◌, ◌++◌, if◌then◌else◌,
}
use novita_box.Boxd.Wire.{Bytes}
use novita_box.Boxd.Base64.{is_empty}
use novita_box.Boxd.Body.{ConnectCodec, codec_json, codec_proto, connect_envelope}
use novita_box.Boxd.Messages.{
  ConnectProcessEvent, ConnectStreamResponse, ConnectStartEvent, ConnectKeepaliveEvent,
  ProcessOutput, ProcessExit,
}
use novita_box.Boxd.Messages.Responses.{
  marshal_stream_response, data_event_for_output, end_from_process_exit,
}

-- What the loop waits for, in the order in which it comes.
pub data Stimulus : Type 0 where
  got : ProcessOutput → Stimulus
  channel_closed keepalive_tick request_done : Stimulus

-- What is written: a message, or the frame that ends the stream.
pub data StreamFrame : Type 0 where
  message : ConnectStreamResponse → StreamFrame
  end_frame : StreamFrame

abbrev pub no_event : ConnectProcessEvent
no_event = record { start = none; data_event = none; end_event = none; keepalive = none }

abbrev pub start_message : ℕ → StreamFrame
start_message pid =
    message (record { event = record no_event { start = some (record { pid = pid }) } })

abbrev pub data_message : ProcessOutput → StreamFrame
data_message output =
    message
      (record { event = record no_event { data_event = some (data_event_for_output output) } })

abbrev pub end_message : Option ProcessExit → StreamFrame
end_message exit =
    message (record { event = record no_event { end_event = some (end_from_process_exit exit) } })

abbrev pub keepalive_message : StreamFrame
keepalive_message = message (record { event = record no_event { keepalive = some (record {}) } })

-- The bytes of a frame; `marshal_json` stands for json.Marshal. "{}" is the end of a JSON stream.
unfoldable pub frame_bytes : (ConnectStreamResponse → Bytes) → ConnectCodec → StreamFrame → Bytes
frame_bytes marshal_json codec_json (message response) = connect_envelope 0 (marshal_json response)
frame_bytes marshal_json codec_proto (message response) =
    connect_envelope 0 (marshal_stream_response response)
frame_bytes marshal_json codec_json end_frame = connect_envelope 2 (123 ∷ 125 ∷ [])
frame_bytes marshal_json codec_proto end_frame = connect_envelope 2 []

-- `accepts n` says whether the write number n succeeds; a write that fails ends the stream. The
-- frames are those whose writing was begun. Of the last two, the loop does not ask.
module _ (accepts : ℕ → Bool) (exit : Option ProcessExit) where
  unfoldable pub stream_loop : ℕ → List Stimulus → List StreamFrame
  stream_loop n [] = []
  stream_loop n (got output ∷ rest) =
      let next = stream_loop n rest in
      let after = stream_loop (n + 1) rest in
      if is_empty output.content
      then next
      else data_message output ∷ (if accepts n then after else [])
  stream_loop n (channel_closed ∷ rest) = end_message exit ∷ end_frame ∷ []
  stream_loop n (keepalive_tick ∷ rest) =
      let after = stream_loop (n + 1) rest in keepalive_message ∷ (if accepts n then after else [])
  stream_loop n (request_done ∷ rest) = []

  unfoldable pub stream_connect_process : ℕ → List Stimulus → List StreamFrame
  stream_connect_process pid stimuli =
      let frames = stream_loop 1 stimuli in start_message pid ∷ (if accepts 0 then frames else [])
