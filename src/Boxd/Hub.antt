-- ===== src/Boxd/Hub.antt =====
-- outputHub of internal/boxd/server/process.go: the output of a process on its way to subscribers.
-- The lock of the hub makes each operation one step. A channel is known by its number.
pub mod Order
pub mod Runs
pub mod Backlog
use novita_box.Common.{
  ℕ, zero, suc, ◌+◌, ◌-◌, Bool, true, false, not, ◌&&◌, Option, none, some, List, [], ◌∷◌, ◌++◌,
  map, any, length, ltb, ◌==◌, if◌then◌else◌,
}
use novita_box.Boxd.Messages.{ProcessOutput}

abbrev pub process_output_buffer : ℕ
process_output_buffer = 64

-- A Go channel with a buffer: what stands in it, and what its reader has taken from it so far.
pub record Channel : Type 0 where
  pub number : ℕ
  pub buffer_size : ℕ
  pub queue : List ProcessOutput
  pub is_closed : Bool
  pub received : List ProcessOutput

-- `channels` holds every channel that was made, `subs` the numbers of the subscribed ones.
pub record OutputHub : Type 0 where
  pub closed : Bool
  pub pending : List ProcessOutput
  pub subs : List ℕ
  pub channels : List Channel

unfoldable pub new_output_hub : OutputHub
new_output_hub = record { closed = false; pending = []; subs = []; channels = [] }

-- `xs[n:]`, for n at most the length.
abbrev pub skip : ℕ → List ProcessOutput → List ProcessOutput
skip n [] = []
skip zero (x ∷ xs) = x ∷ xs
skip (suc n) (x ∷ xs) = skip n xs

-- A select with a default: the output is dropped when the buffer is full.
unfoldable pub offer : ProcessOutput → Channel → Channel
offer output c =
    if ltb (length c.queue) c.buffer_size then record c { queue = c.queue ++ (output ∷ []) } else c

abbrev pub is_sub : List ℕ → Channel → Bool
is_sub subs c = any (λ n. n == c.number) subs

unfoldable pub keep_pending : List ProcessOutput → List ProcessOutput
keep_pending pending =
    if ltb process_output_buffer (length pending)
    then skip (length pending - process_output_buffer) pending
    else pending

-- Without a subscriber an output is kept, and with subscribers it is offered to each.
unfoldable pub deliver : List ℕ → ProcessOutput → OutputHub → OutputHub
deliver [] output h = record h { pending = keep_pending (h.pending ++ (output ∷ [])) }
deliver (n ∷ ns) output h = record h {
  channels = map (λ c. if is_sub (n ∷ ns) c then offer output c else c) h.channels;
}

unfoldable pub publish : ProcessOutput → OutputHub → OutputHub
publish output h = if h.closed then h else deliver h.subs output h

-- The new channel holds what was pending; on a closed hub it is closed at once.
unfoldable pub subscribe : OutputHub → ℕ × OutputHub
subscribe h = (
  length h.channels,
  record {
    closed = h.closed;
    pending = [];
    subs = if h.closed then h.subs else length h.channels ∷ h.subs;
    channels =
        record {
          number = length h.channels;
          buffer_size =
              if ltb process_output_buffer (length h.pending)
              then length h.pending
              else process_output_buffer;
          queue = h.pending;
          is_closed = h.closed;
          received = [];
        }
        ∷ h.channels;
  },
)

abbrev remove_sub : ℕ → List ℕ → List ℕ
remove_sub n [] = []
remove_sub n (m ∷ subs) = let rest = remove_sub n subs in if m == n then rest else m ∷ rest

unfoldable pub close_channel : Channel → Channel
close_channel c = record c { is_closed = true }

-- The function that `subscribe` returns: on a closed hub it does nothing.
unfoldable pub cancel : ℕ → OutputHub → OutputHub
cancel n h =
    if any (λ m. m == n) h.subs
    then record h {
      subs = remove_sub n h.subs;
      channels = map (λ c. if c.number == n then close_channel c else c) h.channels;
    }
    else h

unfoldable pub close : OutputHub → OutputHub
close h = if h.closed then h else record h {
  closed = true;
  subs = [];
  channels = map (λ c. if is_sub h.subs c then close_channel c else c) h.channels;
}

-- The reader of a channel takes what stands first in it.
unfoldable pub take_first : Channel → Channel
take_first c = elim c.queue [
  | [] ↦ c
  | output ∷ rest ↦ record c { queue = rest; received = c.received ++ (output ∷ []) }
]

unfoldable pub receive : ℕ → OutputHub → OutputHub
receive n h = record h {
  channels = map (λ c. if c.number == n then take_first c else c) h.channels;
}

-- What happens to a hub, in the order of its lock and of the channels.
pub data HubEvent : Type 0 where
  published : ProcessOutput → HubEvent
  subscribed closed_hub : HubEvent
  cancelled received_from : ℕ → HubEvent

abbrev pub hub_step : HubEvent → OutputHub → OutputHub
hub_step (published output) h = publish output h
hub_step subscribed h = (subscribe h).1
hub_step closed_hub h = close h
hub_step (cancelled n) h = cancel n h
hub_step (received_from n) h = receive n h

abbrev pub run_hub : List HubEvent → OutputHub → OutputHub
run_hub [] h = h
run_hub (e ∷ es) h = run_hub es (hub_step e h)
