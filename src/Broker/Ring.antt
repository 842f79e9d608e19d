-- ===== src/Broker/Ring.antt =====
-- `RingBuffer` of keepty/src/broker.rs: the output history that a new client is sent.
pub mod History
mod Tests
use keepty.Base.{
  ℕ, zero, suc, ◌+◌, ◌%◌, ◌^◌, List, [], ◌∷◌, length, get_or, set, replicate, add64, leb, ◌==◌,
  if◌then◌else◌, min,
}

pub record RingBuffer : Type 0 where
  pub buf : List ℕ
  pub write_pos : ℕ
  pub total_written : ℕ
  pub capacity : ℕ

-- `RingBuffer::new`
unfoldable pub new : ℕ → RingBuffer
new capacity = record {
  buf = replicate capacity 0;
  write_pos = 0;
  total_written = 0;
  capacity = capacity;
}

-- The loop of `push`. A write out of range is a panic in the source; here it changes nothing.
unfoldable pub push_bytes : List ℕ → RingBuffer → RingBuffer
push_bytes [] r = r
push_bytes (byte ∷ data') r =
    push_bytes data'
      (record r { buf = set r.buf r.write_pos byte; write_pos = (r.write_pos + 1) % r.capacity })

-- `RingBuffer::push`; `total_written` is a `u64`.
unfoldable pub push : List ℕ → RingBuffer → RingBuffer
unfolding push_bytes
push bytes r =
    let r' = push_bytes bytes r in
    record r' { total_written = add64 r'.total_written (length bytes) }

-- The loop of `recent`: `n` bytes from the `i`-th behind `start`, going round at the capacity.
unfoldable pub collect : RingBuffer → ℕ → ℕ → ℕ → List ℕ
collect r start i zero = []
collect r start i (suc n) = get_or r.buf ((start + i) % r.capacity) 0 ∷ collect r start (i + 1) n

-- `RingBuffer::recent`
unfoldable pub recent : RingBuffer → List ℕ
unfolding collect
recent r =
    let available = min r.total_written r.capacity in
    let start : ℕ = (if leb r.total_written r.capacity then 0 else r.write_pos) in
    if available == 0 then [] else collect r start 0 available
