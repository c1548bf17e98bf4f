-- ===== src/Boxd/Messages.antt =====
-- The messages of the Connect API of internal/boxd/server/process.go. A Go pointer to a value is
-- an `Option`, and a map is a list of its entries, in the order of one iteration over it.
pub mod Requests
pub mod Responses
pub mod RoundTrip
pub mod Client
pub mod Events
use novita_box.Common.{ℕ, Bool, Option, List}
use novita_box.Common.Int.{ℤ}
use novita_box.Boxd.Wire.{Bytes}

pub record ConnectProcessConfig : Type 0 where
  pub cmd : Bytes
  pub args : List Bytes
  pub envs : List (Bytes × Bytes)
  pub cwd : Option Bytes

pub record ConnectPtySize : Type 0 where
  pub cols : ℕ
  pub rows : ℕ

pub record ConnectPty : Type 0 where
  pub size : Option ConnectPtySize

pub record ConnectProcessSelector : Type 0 where
  pub pid : ℕ
  pub tag : Bytes

-- The two texts are in base64.
pub record ConnectProcessInput : Type 0 where
  pub stdin : Bytes
  pub pty : Bytes

pub record ConnectStartRequest : Type 0 where
  pub process : Option ConnectProcessConfig
  pub pty : Option ConnectPty
  pub tag : Option Bytes
  pub stdin : Option Bool

pub record ConnectConnectRequest : Type 0 where
  pub process : Option ConnectProcessSelector

pub record ConnectUpdateRequest : Type 0 where
  pub process : Option ConnectProcessSelector
  pub pty : Option ConnectPty

pub record ConnectSendInputRequest : Type 0 where
  pub process : Option ConnectProcessSelector
  pub input : Option ConnectProcessInput

pub record ConnectSendSignalRequest : Type 0 where
  pub process : Option ConnectProcessSelector
  pub signal : ℕ

pub record ConnectProcessInfo : Type 0 where
  pub config : ConnectProcessConfig
  pub pid : ℕ
  pub tag : Bytes

pub record ConnectListResponse : Type 0 where
  pub processes : List ConnectProcessInfo

pub record ConnectStartEvent : Type 0 where
  pub pid : ℕ

-- The three texts are in base64.
pub record ConnectDataEvent : Type 0 where
  pub stdout : Bytes
  pub stderr : Bytes
  pub pty : Bytes

-- The exit code is the 32 bits of an int32.
pub record ConnectEndEvent : Type 0 where
  pub exit_code : ℕ
  pub exited : Bool
  pub status : Bytes
  pub error : Option Bytes

pub record ConnectKeepaliveEvent : Type 0 where

pub record ConnectProcessEvent : Type 0 where
  pub start : Option ConnectStartEvent
  pub data_event : Option ConnectDataEvent
  pub end_event : Option ConnectEndEvent
  pub keepalive : Option ConnectKeepaliveEvent

pub record ConnectStreamResponse : Type 0 where
  pub event : ConnectProcessEvent

pub data ProcessOutputStream : Type 0 where
  output_pty output_stdout output_stderr : ProcessOutputStream

pub record ProcessOutput : Type 0 where
  pub stream : ProcessOutputStream
  pub content : Bytes

pub record ProcessExit : Type 0 where
  pub exit_code : ℤ
  pub exited : Bool
  pub status : Bytes
  pub error : Bytes
