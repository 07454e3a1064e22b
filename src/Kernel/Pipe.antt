-- ===== src/Kernel/Pipe.antt =====
-- kernel/src/fs/pipe.rs: the ring buffer behind a pipe, and the passes of the read and write loops.
-- A pass is one turn of the `loop` of `File::read` or `File::write`, between two suspensions.
use lemon_core.Base.{
  ℕ, zero, suc, ◌+◌, ◌-◌, ◌%◌, ◌==◌, ltb, Option, none, some, Bool, true, false, not, List, [], ◌∷◌,
  ◌++◌, if◌then◌else◌, ◌>>=◌, ◌>>◌, assert, index, store, replicate, length,
}
pub mod Ring
pub mod Rounds
pub mod Passes
pub mod Session
mod Tests

abbrev pub ring_buffer_size : ℕ
ring_buffer_size = 32

pub data RingBufferStatus : Type 0 where
  full empty normal : RingBufferStatus

-- `write_end` is a weak reference to the write end: the number of the pipe object.
pub record PipeRingBuffer : Type 0 where
  pub arr : List ℕ
  pub head : ℕ
  pub tail : ℕ
  pub status : RingBufferStatus
  pub write_end : Option ℕ

pub new : PipeRingBuffer
new = record {
  arr = replicate ring_buffer_size 0;
  head = 0;
  tail = 0;
  status = empty;
  write_end = none;
}

pub set_write_end : PipeRingBuffer → ℕ → PipeRingBuffer
set_write_end r pipe = record r { write_end = some pipe }

-- The status that a write leaves, and the one that a read leaves.
abbrev status_after_write : ℕ → ℕ → RingBufferStatus
status_after_write tail head = if tail == head then full else normal

abbrev status_after_read : ℕ → ℕ → RingBufferStatus
status_after_read head tail = if head == tail then empty else normal

pub write_byte : PipeRingBuffer → ℕ → Option PipeRingBuffer
write_byte r byte = do
  arr' ← store r.arr r.tail byte
  let tail' = (r.tail + 1) % ring_buffer_size
  some (record r { arr = arr'; tail = tail'; status = status_after_write tail' r.head })

pub read_byte : PipeRingBuffer → Option (ℕ × PipeRingBuffer)
read_byte r = do
  c ← index r.arr r.head
  let head' = (r.head + 1) % ring_buffer_size
  some (c, record r { head = head'; status = status_after_read head' r.tail })

abbrev readable_span : RingBufferStatus → ℕ → ℕ → ℕ
readable_span empty head tail = 0
readable_span _ head tail = if ltb head tail then tail - head else tail + ring_buffer_size - head

pub available_to_read : PipeRingBuffer → ℕ
available_to_read r = readable_span r.status r.head r.tail

abbrev writable_span : RingBufferStatus → ℕ → ℕ
writable_span full n = 0
writable_span _ n = ring_buffer_size - n

pub available_to_write : PipeRingBuffer → ℕ
unfolding available_to_read
available_to_write r = writable_span r.status (available_to_read r)

-- `upgrade` of the weak reference succeeds while a strong one is `alive`.
pub all_write_ends_closed : (ℕ → Bool) → PipeRingBuffer → Option Bool
all_write_ends_closed alive r = do pipe ← r.write_end; some (not (alive pipe))

-- One end of a pipe; `buffer` is the number of the ring buffer that both ends share.
pub record Pipe : Type 0 where
  pub readable : Bool
  pub writable : Bool
  pub buffer : ℕ

pub read_end_with_buffer : ℕ → Pipe
read_end_with_buffer buffer = record { readable = true; writable = false; buffer = buffer }

pub write_end_with_buffer : ℕ → Pipe
write_end_with_buffer buffer = record { readable = false; writable = true; buffer = buffer }

-- `make`, given the number of the new buffer and that of the new write end.
pub make : ℕ → ℕ → Pipe × Pipe × PipeRingBuffer
unfolding new set_write_end read_end_with_buffer write_end_with_buffer
make buffer write_end =
    (read_end_with_buffer buffer, write_end_with_buffer buffer, set_write_end new write_end)

-- How a pass ends: the call returns its count; the loop goes on; or the task is suspended, after
-- which the loop goes on. `S` is what the loop keeps.
pub data Pass (S : Type 0) : Type 0 where
  returned : ℕ → S → Pass S
  again : S → Pass S
  suspended : S → Pass S

-- The state of a `read` call: the ring, the bytes stored through the iterator so far (as many as
-- `already_read`), the slots that the iterator has left, and the count asked for.
pub record Reading : Type 0 where
  pub ring : PipeRingBuffer
  pub stored : List ℕ
  pub already_read : ℕ
  pub slots : ℕ
  pub want_to_read : ℕ

pub start_read : PipeRingBuffer → ℕ → Reading
start_read r n = record { ring = r; stored = []; already_read = 0; slots = n; want_to_read = n }

abbrev store_byte : Reading → ℕ → PipeRingBuffer → ℕ → Reading
store_byte s c r left = record s {
  ring = r;
  stored = s.stored ++ (c ∷ []);
  already_read = s.already_read + 1;
  slots = left;
}

-- `for _ in 0..available_to_read`, on the rounds left and the slots left.
pub read_rounds : ℕ → ℕ → Reading → Option (Pass Reading)
read_rounds zero left s = some (again s)
read_rounds (suc k) zero s = some (returned s.already_read s)
read_rounds (suc k) (suc left) s = do
  (c, r) ← read_byte s.ring
  let s' = store_byte s c r left
  let rest = read_rounds k left s'
  if s'.already_read == s.want_to_read then some (returned s'.already_read s') else rest

-- The body of the loop of `read`; `end` is the pipe on which it is called.
pub read_pass : (ℕ → Bool) → Pipe → Reading → Option (Pass Reading)
unfolding read_rounds available_to_read all_write_ends_closed
read_pass alive end s = do
  assert end.readable
  let available = available_to_read s.ring
  if available == 0
      then (do
        closed ← all_write_ends_closed alive s.ring
        some (if closed then returned s.already_read s else suspended s))
      else read_rounds available s.slots s

-- The state of a `write` call: the bytes that the iterator has left.
pub record Writing : Type 0 where
  pub ring : PipeRingBuffer
  pub source : List ℕ
  pub already_write : ℕ
  pub want_to_write : ℕ

pub start_write : PipeRingBuffer → List ℕ → Writing
start_write r src = record { ring = r; source = src; already_write = 0; want_to_write = length src }

abbrev taken : Writing → PipeRingBuffer → List ℕ → Writing
taken s r rest = record s { ring = r; source = rest; already_write = s.already_write + 1 }

pub write_rounds : ℕ → List ℕ → Writing → Option (Pass Writing)
write_rounds zero src s = some (again s)
write_rounds (suc k) [] s = some (returned s.already_write s)
write_rounds (suc k) (byte ∷ src) s = do
  r ← write_byte s.ring byte
  let s' = taken s r src
  let rest = write_rounds k src s'
  if s'.already_write == s.want_to_write then some (returned s'.already_write s') else rest

-- The body of the loop of `write`.
pub write_pass : Pipe → Writing → Option (Pass Writing)
unfolding write_rounds available_to_write
write_pass end s = do
  assert end.writable
  let available = available_to_write s.ring
  if available == 0 then some (suspended s) else write_rounds available s.source s
