-- ===== src/Broker/Queue.antt =====
-- `ClientQueue` and `Pending` of keepty/src/broker.rs: the ordered, byte-bounded queue of one
-- client. Its mutex makes each operation one step on the record. Queued frames are encoded bytes,
-- oldest first. Time is a number of milliseconds.
pub mod View
pub mod Coalesce
pub mod Send
pub mod Recv
pub mod Fifo
mod Tests
use keepty.Base.{
  ℕ, ◌+◌, ◌*◌, ◌%◌, ◌^◌, Bool, true, false, not, ◌&&◌, ◌||◌, List, [], ◌∷◌, ◌++◌, Option, none,
  some, length, get_or, take, drop, add64, sub64, be32, leb, ltb, ◌==◌, if◌then◌else◌, min,
}
use keepty.Wire.{MsgKind, kind_byte, encode, max_payload_size}

abbrev pub client_queue_bytes : ℕ
client_queue_bytes = 16 * 1024 * 1024

abbrev pub control_slack : ℕ
control_slack = 64 * 1024

pub record Pending : Type 0 where
  pub frames : List (List ℕ)
  pub bytes : ℕ
  pub closed : Bool
  pub finished : Bool
  pub exit_queued : Bool
  pub shutdown_deadline : Option ℕ

-- `Pending::default()`, as `ClientQueue::new` takes it.
abbrev pub new : Pending
new = record {
  frames = [];
  bytes = 0;
  closed = false;
  finished = false;
  exit_queued = false;
  shutdown_deadline = none;
}

-- `encoded[5] == kind as u8`; every encoded frame has six bytes at least.
abbrev pub has_kind : MsgKind → List ℕ → Bool
has_kind kind encoded = get_or encoded 5 0 == kind_byte kind

-- `VecDeque::back`, with what stands before it.
abbrev pub back {ℓ} : {A : Type ℓ} → List A → Option (List A × A)
back [] = none
back (x ∷ xs) = elim (back xs) [ none ↦ some ([], x) | some (ys, y) ↦ some (x ∷ ys, y) ]

-- The room left in a tail frame: `MAX_PAYLOAD_SIZE + 6 - tail.len()`.
abbrev pub room : List ℕ → ℕ
room tail = sub64 (max_payload_size + 6) (length tail)

pub fully_merged : List ℕ → Option (List (List ℕ) × List ℕ) → Bool
fully_merged encoded none = false
fully_merged encoded (some (init, tail)) =
    has_kind MsgKind.output tail && leb (sub64 (length encoded) 6) (room tail)

-- `pending.bytes.checked_add(delta).is_none_or(|n| n > limit)`
abbrev pub over : ℕ → ℕ → ℕ → Bool
over bytes delta limit = leb (2 ^ 64) (bytes + delta) || ltb limit (bytes + delta)

-- What `send` adds to `bytes` if it accepts the frame, and the bound that it holds it to.
pub delta : List ℕ → Pending → ℕ
unfolding fully_merged
delta encoded p =
    sub64 (length encoded)
      (if has_kind MsgKind.output encoded && fully_merged encoded (back p.frames) then 6 else 0)

pub limit : List ℕ → ℕ
limit encoded =
    client_queue_bytes
    + (if has_kind MsgKind.pong encoded || has_kind MsgKind.resize_ack encoded
        then control_slack
        else 0)

pub refuses : List ℕ → Pending → Bool
unfolding delta limit
refuses encoded p =
    let is_exit = has_kind MsgKind.exit encoded in
    p.closed
    || (is_exit && p.exit_queued)
    || (not is_exit && over p.bytes (delta encoded p) (limit encoded))

-- The tail with more payload and its length field written again.
pub extend_tail : List ℕ → List ℕ → List ℕ
extend_tail tail more =
    let grown = tail ++ more in be32 (sub64 (length grown) 4 % 2 ^ 32) ++ drop 4 grown

-- The end of `send`: the frame itself, or a new Output frame for what the tail did not take.
pub push_rest : List ℕ → List ℕ → Pending → Pending
push_rest encoded payload p =
    if length payload == sub64 (length encoded) 6
    then record p { frames = p.frames ++ encoded ∷ [] }
    else record p {
      frames = p.frames ++ encode (record { kind = MsgKind.output; payload = payload }) ∷ [];
    }

pub merged : List ℕ → List ℕ → Pending → Pending
unfolding push_rest
merged encoded [] p = record p { bytes = sub64 p.bytes 6 }
merged encoded (b ∷ rest) p = push_rest encoded (b ∷ rest) p

-- Output joins an Output frame at the back, as far as that has room.
pub coalesce : List ℕ → Option (List (List ℕ) × List ℕ) → Pending → Pending
unfolding push_rest merged extend_tail
coalesce encoded none p = push_rest encoded (drop 6 encoded) p
coalesce encoded (some (init, tail)) p =
    let payload = drop 6 encoded in
    let count = min (length payload) (room tail) in
    if has_kind MsgKind.output tail
    then merged encoded (drop count payload)
        (record p { frames = init ++ extend_tail tail (take count payload) ∷ [] })
    else push_rest encoded payload p

-- The frame counted before it is placed.
abbrev pub counted_in : List ℕ → Pending → Pending
counted_in encoded p = record p {
  exit_queued = p.exit_queued || has_kind MsgKind.exit encoded;
  bytes = add64 p.bytes (length encoded);
}

pub accept : List ℕ → Pending → Pending
unfolding coalesce
accept encoded p =
    if has_kind MsgKind.output encoded
    then coalesce encoded (back p.frames) (counted_in encoded p)
    else push_rest encoded (drop 6 encoded) (counted_in encoded p)

-- `ClientQueue::send`; `none` is `Err(())`, which leaves the queue as it is.
unfoldable pub send : List ℕ → Pending → Option Pending
unfolding refuses accept
send encoded p = if refuses encoded p then none else some (accept encoded p)

-- One round of the loop in `ClientQueue::recv`.
pub data Received : Type 0 where
  frame : List ℕ → Pending → Received
  ended : Pending → Received
  waits : Pending → Received

-- `Vec::retain` of the Exit frames, and the sum of the lengths.
pub exits : List (List ℕ) → List (List ℕ)
exits [] = []
exits (f ∷ fs) = if has_kind MsgKind.exit f then f ∷ exits fs else exits fs

abbrev pub total : List (List ℕ) → ℕ
total [] = 0
total (f ∷ fs) = length f + total fs

abbrev expired : ℕ → Option ℕ → Bool
expired now none = false
expired now (some deadline) = leb deadline now

pub expire : ℕ → Pending → Pending
unfolding exits
expire now p =
    if expired now p.shutdown_deadline
    then record p { frames = exits p.frames; bytes = total (exits p.frames) }
    else p

pub pop : List (List ℕ) → Pending → Received
pop [] p = if p.closed then ended p else waits p
pop (f ∷ fs) p = frame f (record p { frames = fs; bytes = sub64 p.bytes (length f) })

-- `ClientQueue::recv` at time `now`: a frame, the end, or a wait for `ready`.
unfoldable pub recv : ℕ → Pending → Received
unfolding expire pop
recv now p = let p' = expire now p in pop p'.frames p'

-- `ClientQueue::close`
abbrev pub close : Pending → Pending
close p = record p { closed = true }
