-- ===== src/Boxd/Stream/Sent.antt =====
-- A stream is written frame by frame up to the first write that fails.
use novita_box.Common.{
  ℕ, ◌+◌, ◌≡◌, refl, ap, Bool, true, false, ◌||◌, Option, none, some, List, [], ◌∷◌, if◌then◌else◌,
}
use novita_box.Boxd.Base64.{is_empty}
use novita_box.Boxd.Messages.{ConnectEndEvent, ProcessOutput, ProcessExit}
use novita_box.Boxd.Stream.{
  Stimulus, got, channel_closed, keepalive_tick, request_done, StreamFrame, message, end_frame,
  start_message, data_message, end_message, keepalive_message, stream_loop, stream_connect_process,
}

-- The frames that a client sees while every write succeeds.
abbrev pub events : Option ProcessExit → List Stimulus → List StreamFrame
events exit [] = []
events exit (got output ∷ rest) =
    let more = events exit rest in
    if is_empty output.content then more else data_message output ∷ more
events exit (channel_closed ∷ rest) = end_message exit ∷ end_frame ∷ []
events exit (keepalive_tick ∷ rest) = keepalive_message ∷ events exit rest
events exit (request_done ∷ rest) = []

-- The message of the exit and the frame behind it are written together.
abbrev is_exit : Option ConnectEndEvent → Bool
is_exit none = false
is_exit (some e) = true

abbrev is_final : StreamFrame → Bool
is_final (message response) = is_exit response.event.end_event
is_final end_frame = true

-- What is written of a list of frames when write number n is the first of it.
abbrev pub sent : (ℕ → Bool) → ℕ → List StreamFrame → List StreamFrame
sent accepts n [] = []
sent accepts n (x ∷ xs) =
    let rest = sent accepts (n + 1) xs in x ∷ (if is_final x || accepts n then rest else [])

module _ (accepts : ℕ → Bool) (exit : Option ProcessExit) where
  -- An output that is empty is not written.
  by_content :
      (b : Bool) (n : ℕ) (output : ProcessOutput) (next after ys : List StreamFrame)
      → next ≡ sent accepts n ys
      → after ≡ sent accepts (n + 1) ys
      → (if b then next else data_message output ∷ (if accepts n then after else []))
        ≡ sent accepts n (if b then ys else data_message output ∷ ys)
  by_content true n output next after ys skipped written = skipped
  by_content false n output next after ys skipped written =
      ap (λ (l : List StreamFrame). data_message output ∷ (if accepts n then l else [])) written

  stream_loop-sent :
      (n : ℕ) (stimuli : List Stimulus)
      → stream_loop accepts exit n stimuli ≡ sent accepts n (events exit stimuli)
  unfolding stream_loop
  stream_loop-sent n [] = refl
  stream_loop-sent n (got output ∷ rest) =
      by_content (is_empty output.content) n output _ _ (events exit rest) (stream_loop-sent n rest)
        (stream_loop-sent (n + 1) rest)
  stream_loop-sent n (channel_closed ∷ rest) = refl
  stream_loop-sent n (keepalive_tick ∷ rest) =
      ap (λ (l : List StreamFrame). keepalive_message ∷ (if accepts n then l else []))
        (stream_loop-sent (n + 1) rest)
  stream_loop-sent n (request_done ∷ rest) = refl

  -- What is written to the client is the start message, every output that is not empty and every
  -- keepalive in their order, and behind a closed channel the exit of the process with the frame
  -- that ends the stream: all of it while the writes succeed, and otherwise exactly the frames up
  -- to the first write that fails. Only the frame that ends the stream is written whatever
  -- becomes of the write before it.
  pub stream_connect_process-sent :
      (pid : ℕ) (stimuli : List Stimulus)
      → stream_connect_process accepts exit pid stimuli
        ≡ sent accepts 0 (start_message pid ∷ events exit stimuli)
  unfolding stream_connect_process
  stream_connect_process-sent pid stimuli =
      ap (λ (l : List StreamFrame). start_message pid ∷ (if accepts 0 then l else []))
        (stream_loop-sent 1 stimuli)
