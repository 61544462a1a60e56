-- ===== src/Util/Logger.antt =====
-- Logger of src/Util/logger.h and logger.cpp: the channels, and which logs they are given.
-- AsyncLogWriter is Writer. How a log is printed is not modelled.
mod Tests
pub mod Repeats
pub mod Writer
pub mod FileChannel
pub mod Names
use ffzkit.Base.{
  Bytes, same_bytes, bytes_lt, ℕ, zero, suc, ◌+◌, ◌-◌, ◌*◌, ◌/◌, Bool, true, false, ◌&&◌, List, [],
  ◌∷◌, ◌++◌, Option, none, some, ltb, ◌==◌, if◌then◌else◌,
}

-- What two logs are compared by.
pub record Message : Type 0 where
  pub file : Bytes
  pub line : ℕ
  pub text : Bytes
  pub thread_name : Bytes

-- LogContext; the time is in whole seconds and the microseconds behind them.
pub record Context : Type 0 where
  pub message : Message
  pub level : ℕ
  pub sec : ℕ
  pub usec : ℕ
  pub repeat : ℕ

-- A LogChannel in the map is its name and its level; the map is in the order of the names.
pub record Logger : Type 0 where
  pub channels : List (Bytes × ℕ)
  pub default_level : ℕ
  pub last_log : Context
  -- The logs that writeChannels_l was given, each with the channels that printed it.
  pub printed : List (Context × List Bytes)

-- `_channels[name] = channel`, `erase` and `find`.
pub erase_channel : Bytes → List (Bytes × ℕ) → List (Bytes × ℕ)
unfolding same_bytes
erase_channel name [] = []
erase_channel name ((n, level) ∷ chs) =
    let rest = erase_channel name chs in if same_bytes n name then chs else (n, level) ∷ rest

pub find_channel : Bytes → List (Bytes × ℕ) → Option ℕ
unfolding same_bytes
find_channel name [] = none
find_channel name ((n, level) ∷ chs) =
    let rest = find_channel name chs in if same_bytes n name then some level else rest

pub set_levels : ℕ → List (Bytes × ℕ) → List (Bytes × ℕ)
set_levels level [] = []
set_levels level ((n, _) ∷ chs) = (n, level) ∷ set_levels level chs

pub add_channel : Bytes → ℕ → List (Bytes × ℕ) → List (Bytes × ℕ)
unfolding same_bytes bytes_lt
add_channel name level [] = (name, level) ∷ []
add_channel name level ((n, l) ∷ chs) =
    let rest = add_channel name level chs in
    if same_bytes n name
    then (name, level) ∷ chs
    else if bytes_lt name n
    then (name, level) ∷ (n, l) ∷ chs
    else (n, l) ∷ rest

pub add : Bytes → ℕ → Logger → Logger
unfolding add_channel
add name level s = record s { channels = add_channel name level s.channels }

pub del : Bytes → Logger → Logger
unfolding erase_channel
del name s = record s { channels = erase_channel name s.channels }

pub set_level : ℕ → Logger → Logger
unfolding set_levels
set_level level s = record s { channels = set_levels level s.channels }

-- The channels whose level lets the log through.
pub printers : List (Bytes × ℕ) → ℕ → List Bytes
printers [] level = []
printers ((n, l) ∷ chs) level =
    let rest = printers chs level in if ltb level l then rest else n ∷ rest

abbrev pub default_name : Bytes
default_name = b'd' ∷ b'e' ∷ b'f' ∷ b'a' ∷ b'u' ∷ b'l' ∷ b't' ∷ []

pub shown_by : Logger → Context → List Bytes
unfolding printers
shown_by s ctx = elim (s.channels) [
  | [] ↦ printers ((default_name, s.default_level) ∷ []) ctx.level
  | ch ∷ chs ↦ printers (ch ∷ chs) ctx.level
]

pub write_channels_l : Context → Logger → Logger
unfolding shown_by
write_channels_l ctx s = record s {
  printed = s.printed ++ (ctx, shown_by s ctx) ∷ [];
  last_log = record ctx { repeat = 0 };
}

-- `timevalDiff(last, now) > 500`: the difference in milliseconds, with what stands below 0 on the
-- other side. The division of a negative number is towards 0.
abbrev pub is_late : Context → Context → Bool
is_late last now =
    ltb
      (1000 * last.sec
        + (if ltb now.usec last.usec then (last.usec - now.usec) / 1000 else 0)
        + 500)
      (1000 * now.sec + (if ltb now.usec last.usec then 0 else (now.usec - last.usec) / 1000))

pub same_message : Message → Message → Bool
unfolding same_bytes
same_message a b =
    a.line == b.line
    && same_bytes a.file b.file
    && same_bytes a.text b.text
    && same_bytes a.thread_name b.thread_name

abbrev pub counted : Logger → Logger
counted s = record s { last_log = record (s.last_log) { repeat = s.last_log.repeat + 1 } }

pub write_channels : Context → Logger → Logger
unfolding same_message write_channels_l
write_channels ctx s =
    if same_message ctx.message s.last_log.message
    then if is_late s.last_log ctx
      then write_channels_l (record ctx { repeat = s.last_log.repeat + 1 }) (counted s)
      else counted s
    else write_channels_l ctx (if s.last_log.repeat == 0 then s else write_channels_l s.last_log s)
