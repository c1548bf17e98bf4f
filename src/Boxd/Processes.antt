-- ===== src/Boxd/Processes.antt =====
-- The table of processes and their handlers in internal/boxd/server/process.go.
pub mod Selecting
use novita_box.Common.{
  ℕ, ◌+◌, ◌%◌, ◌^◌, Bool, true, false, not, Option, none, some, List, [], ◌∷◌, ◌++◌, map, length,
  ltb, ◌==◌, if◌then◌else◌,
}
use novita_box.Boxd.Wire.{Bytes}
use novita_box.Boxd.Base64.{is_empty}
use novita_box.Boxd.Messages.{
  ConnectProcessConfig, ConnectProcessInfo, ConnectProcessSelector, ConnectPty, ConnectPtySize,
  ProcessExit,
}
use novita_box.Boxd.Messages.Requests.{eq_bytes}
use novita_box.Boxd.Hub.{OutputHub}

-- `os_pid` is none before the process was started. The terminal and stdin are handles of the
-- operating system, of which the agent asks whether they are there.
pub record ManagedProcess : Type 0 where
  pub id : Bytes
  pub tag : Bytes
  pub cmd : List Bytes
  pub cwd : Bytes
  pub tty : Bool
  pub started_at : Bytes
  pub os_pid : Option ℕ
  pub has_terminal : Bool
  pub has_stdin : Bool
  pub exit : Option ProcessExit
  pub output : OutputHub

pub data ProcessState : Type 0 where
  running exited : ProcessState

pub record ProcessInfo : Type 0 where
  pub id : Bytes
  pub tag : Bytes
  pub pid : ℕ
  pub cmd : List Bytes
  pub cwd : Bytes
  pub tty : Bool
  pub state : ProcessState
  pub started_at : Bytes
  pub exit : Option ProcessExit

-- A map from identifiers, in the order of one iteration over it.
abbrev pub ProcessManager : Type 0
ProcessManager = List ManagedProcess

-- The conversion to uint32; a number that is not positive gives 0 both ways.
unfoldable pub pid : ManagedProcess → ℕ
pid p = elim p.os_pid [ none ↦ 0 | some n ↦ n % 2 ^ 32 ]

unfoldable pub info : ManagedProcess → ProcessInfo
info p = record {
  id = p.id;
  tag = p.tag;
  pid = elim p.os_pid [ none ↦ 0 | some n ↦ n ];
  cmd = p.cmd;
  cwd = p.cwd;
  tty = p.tty;
  state = elim p.exit [ none ↦ running | some e ↦ exited ];
  started_at = p.started_at;
  exit = p.exit;
}

unfoldable pub remove : Bytes → ProcessManager → ProcessManager
remove id [] = []
remove id (p ∷ ps) = let rest = remove id ps in if eq_bytes p.id id then rest else p ∷ rest

-- `m[proc.ID] = proc`
unfoldable pub add : ManagedProcess → ProcessManager → ProcessManager
add proc ps = proc ∷ remove proc.id ps

abbrev pub find : (ManagedProcess → Bool) → ProcessManager → Option ManagedProcess
find test [] = none
find test (p ∷ ps) = let rest = find test ps in if test p then some p else rest

unfoldable pub get : Bytes → ProcessManager → Option ManagedProcess
get id = find (λ p. eq_bytes p.id id)

unfoldable pub get_by_pid : ℕ → ProcessManager → Option ManagedProcess
get_by_pid n = find (λ p. pid p == n)

unfoldable pub get_by_tag : Bytes → ProcessManager → Option ManagedProcess
get_by_tag tag = find (λ p. eq_bytes p.tag tag)

unfoldable pub list : ProcessManager → List ProcessInfo
list = map info

unfoldable pub process_from_selector :
    Option ConnectProcessSelector → ProcessManager → Option ManagedProcess
process_from_selector none ps = none
process_from_selector (some s) ps =
    if ltb 0 s.pid
    then get_by_pid s.pid ps
    else if is_empty s.tag
    then none
    else get_by_tag s.tag ps

-- The numbers of SIGHUP, SIGINT, SIGKILL and SIGTERM.
unfoldable pub signal_from_number : ℕ → ℕ
signal_from_number n = if n == 9 then 9 else if n == 2 then 2 else if n == 1 then 1 else 15

-- "/processes/"
abbrev pub processes_prefix : Bytes
processes_prefix = 47 ∷ 112 ∷ 114 ∷ 111 ∷ 99 ∷ 101 ∷ 115 ∷ 115 ∷ 101 ∷ 115 ∷ 47 ∷ []

abbrev pub strip_prefix : Bytes → Bytes → Option Bytes
strip_prefix [] text = some text
strip_prefix (a ∷ part) [] = none
strip_prefix (a ∷ part) (b ∷ text) = if a == b then strip_prefix part text else none

-- The text before the first slash and the text behind it.
unfoldable pub split_at_slash : Bytes → Option (Bytes × Bytes)
split_at_slash [] = none
split_at_slash (c ∷ cs) =
    let rest = split_at_slash cs in
    if c == 47 then some ([], cs) else elim rest [ none ↦ none | some r ↦ some (c ∷ r.0, r.1) ]

-- An identifier and an action that are both not empty.
unfoldable pub parse_process_path : Bytes → Option (Bytes × Bytes)
parse_process_path path = elim (strip_prefix processes_prefix path) [
  | none ↦ none
  | some rest ↦ elim (split_at_slash rest) [
    | none ↦ none
    | some r ↦ if is_empty r.0 then none else if is_empty r.1 then none else some r
  ]
]

-- Rows and columns; 0 stands for the fallback, also when it is what is left of a larger number.
unfoldable pub connect_pty_size_value : Option ConnectPty → ℕ → ℕ → ℕ × ℕ
connect_pty_size_value none fallback_rows fallback_cols = (fallback_rows, fallback_cols)
connect_pty_size_value (some pty) fallback_rows fallback_cols = sized pty.size
  where
    or_fallback : ℕ → ℕ → ℕ
    or_fallback n fallback = if n % 2 ^ 16 == 0 then fallback else n % 2 ^ 16

    sized : Option ConnectPtySize → ℕ × ℕ
    sized none = (fallback_rows, fallback_cols)
    sized (some size) = (or_fallback size.rows fallback_rows, or_fallback size.cols fallback_cols)

unfoldable pub connect_string : Option Bytes → Bytes
connect_string none = []
connect_string (some value) = value

-- The entries as "key=value"; 61 is the sign "=".
unfoldable pub connect_env : List (Bytes × Bytes) → List Bytes
connect_env = map (λ entry. entry.0 ++ (61 ∷ entry.1))

unfoldable pub connect_process_info_from_process_info : ProcessInfo → ConnectProcessInfo
connect_process_info_from_process_info proc = record {
  config = record {
    cmd = elim proc.cmd [ [] ↦ [] | c ∷ args ↦ c ];
    args = elim proc.cmd [ [] ↦ [] | c ∷ args ↦ args ];
    envs = [];
    cwd = if is_empty proc.cwd then none else some proc.cwd;
  };
  pid = proc.pid % 2 ^ 32;
  tag = proc.tag;
}
