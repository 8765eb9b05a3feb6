-- ===== src/Wal/LogBuffer.antt =====
-- wal/LogBuffer.h and LogBuffer.cpp. The sink of `flush` is an argument: a file's write, whose status is
-- all that the buffer sees.
pub mod Bounds
use quartz_database_c.Prelude.{ℕ, ◌+◌, ◌-◌, ◌*◌, Bool, List, [], length, ltb, ◌==◌, if◌then◌else◌}
use quartz_database_c.Status.{Status, err, out_of_memory, success, is_ok}
use quartz_database_c.Serialization.Buffer
use quartz_database_c.Serialization.Buffer.{Buffer, empty_buffer}

pub record LogBuffer : Type 0 where
  pub buffer : Buffer
  pub capacity : ℕ

pub create : ℕ → LogBuffer
create capacity =
    let chosen = if ltb 0 capacity then capacity else 64 * 1024 in
    record { buffer = Buffer.reserve empty_buffer chosen; capacity = chosen }

pub append : LogBuffer → List ℕ → LogBuffer × Status
append l bytes =
    if ltb l.capacity (length l.buffer.bytes + length bytes)
    then (l, err out_of_memory)
    else (record l { buffer = Buffer.append l.buffer bytes }, success)

pub reserve : LogBuffer → ℕ → LogBuffer × Status
reserve l additional =
    if ltb l.capacity (length l.buffer.bytes + additional) then (l, err out_of_memory) else (
      record l { buffer = Buffer.reserve l.buffer (length l.buffer.bytes + additional) },
      success,
    )

-- The bytes are dropped only when the sink has taken them.
pub flush : (List ℕ → Status) → LogBuffer → LogBuffer × Status
flush sink l =
    let status = sink l.buffer.bytes in
    if length l.buffer.bytes == 0
    then (l, success)
    else if is_ok status
    then (record l { buffer = Buffer.clear l.buffer }, success)
    else (l, status)

unfoldable pub clear : LogBuffer → LogBuffer
clear l = record l { buffer = Buffer.clear l.buffer }

pub remaining_capacity : LogBuffer → ℕ
remaining_capacity l =
    if ltb (length l.buffer.bytes) l.capacity then l.capacity - length l.buffer.bytes else 0

unfoldable pub is_empty : LogBuffer → Bool
is_empty l = length l.buffer.bytes == 0
