-- ===== src/Broker/Ring/History.antt =====
-- What the ring buffer of keepty/src/broker.rs holds: the end of all that was pushed.
use keepty.Base.{
  ℕ, zero, suc, ◌+◌, ◌-◌, ◌%◌, ◌^◌, ◌≤◌, ◌<◌, ◌≡◌, refl, ap, ap₂, sym, ◌∙◌, ◌≢◌, List, [], ◌∷◌,
  ◌++◌, arith, length, get_or, set, drop, length-append, length-set, length-replicate,
  get_or-set_self, get_or-set_ne, get_or-append_left, get_or-append_self, append-nil, append_assoc,
  flatten, min, leb, ◌==◌, Bool-cases, inl, inr, leb→le, leb→lt, ==→eq, ne→==, drop-all,
}
use native.Mathlib.Nat.{mod-eq_of_lt, mod-eq-sub-mod, mod-add-mod}
use native.Mathlib.Decide.{dec_lt}
use keepty.Broker.Ring.{RingBuffer, new, push_bytes, push, collect, recent}

-- The last `n` bytes of a list.
abbrev pub last_bytes : ℕ → List ℕ → List ℕ
last_bytes n xs = drop (length xs - n) xs

-- The buffer holds history `h`: byte `j` of it is in slot `j % capacity`, while not overwritten.
pub record Holds (r : RingBuffer) (h : List ℕ) : Type 0 where
  pub room : 0 < r.capacity
  pub storage : length r.buf ≡ r.capacity
  pub position : r.write_pos ≡ length h % r.capacity
  pub slots :
      (j : ℕ)
      → j < length h
      → length h ≤ j + r.capacity
      → get_or r.buf (j % r.capacity) 0 ≡ get_or h j 0

-- Two positions less than a capacity apart have different slots.
slot-ne : (cap j n : ℕ) → 0 < cap → j < n → n < j + cap → n % cap ≢ j % cap
slot-ne cap j n pos lt near e = elim (dec_lt (j % cap + (n - j)) cap) [
  | yes p ↦ absurd (omega (arith, around, mod-eq_of_lt p))
  | no p ↦ absurd (
      omega (
        arith,
        around,
        mod-eq-sub-mod {n = j % cap + (n - j)} {m = cap} (omega arith),
        mod-eq_of_lt {n = j % cap + (n - j) - cap} {m = cap} (omega arith),
      ))
]
  where
    around : n % cap ≡ (j % cap + (n - j)) % cap
    around = rw mod-add-mod (ap (λ k. k % cap) (omega arith))

module _ (r : RingBuffer) (h : List ℕ) (b : ℕ) (v : Holds r h) where
  pushed_slot :
      (j : ℕ)
      → j < length (h ++ b ∷ [])
      → length (h ++ b ∷ []) ≤ j + r.capacity
      → get_or (set r.buf r.write_pos b) (j % r.capacity) 0 ≡ get_or (h ++ b ∷ []) j 0
  pushed_slot j lt near = elim (dec_lt j (length h)) [
    | yes p ↦
        get_or-set_ne r.buf r.write_pos (j % r.capacity) b 0 (λ e.
          slot-ne r.capacity j (length h) v.room p (omega (arith, length-append h (b ∷ [])))
            (sym v.position ∙ e))
        ∙ v.slots j p (omega (arith, length-append h (b ∷ [])))
        ∙ sym (get_or-append_left h (b ∷ []) j 0 p)
    | no p ↦
        let last : j ≡ length h = omega (arith, length-append h (b ∷ [])) in
        rw (last, ← v.position, get_or-append_self h [] b 0)
          (get_or-set_self r.buf r.write_pos b 0 (omega (arith, v.storage, v.position, v.room)))
  ]

  push_byte-Holds :
      Holds
        (record r { buf = set r.buf r.write_pos b; write_pos = (r.write_pos + 1) % r.capacity })
        (h ++ b ∷ [])
  push_byte-Holds = record {
    room = v.room;
    storage = length-set r.buf r.write_pos b ∙ v.storage;
    position = rw (v.position, mod-add-mod, length-append h (b ∷ []));
    slots = pushed_slot;
  }

push_bytes-Holds :
    (bs : List ℕ) (r : RingBuffer) (h : List ℕ)
    → Holds r h
    → Holds (push_bytes bs r) (h ++ bs)
      × ((push_bytes bs r).capacity ≡ r.capacity)
      × ((push_bytes bs r).total_written ≡ r.total_written)
unfolding push_bytes
push_bytes-Holds [] r h v = (rw append-nil v, refl, refl)
push_bytes-Holds (b ∷ bs) r h v = rw (append_assoc h (b ∷ []) bs) at (
    push_bytes-Holds bs
      (record r { buf = set r.buf r.write_pos b; write_pos = (r.write_pos + 1) % r.capacity })
      (h ++ b ∷ []) (push_byte-Holds r h b v))

drop-step : (k : ℕ) (h : List ℕ) → k < length h → drop k h ≡ get_or h k 0 ∷ drop (suc k) h
drop-step k [] lt = absurd (omega arith)
drop-step zero (x ∷ h) lt = refl
drop-step (suc k) (x ∷ h) lt = drop-step k h (omega arith)

-- The loop reads off the end of the history, if each slot that it reads holds its byte.
collect-drop :
    (r : RingBuffer) (h : List ℕ) (start base i n : ℕ)
    → base + i + n ≡ length h
    → ((k : ℕ) → k < i + n → get_or r.buf ((start + k) % r.capacity) 0 ≡ get_or h (base + k) 0)
    → collect r start i n ≡ drop (base + i) h
unfolding collect
collect-drop r h start base i zero e same = sym (drop-all (base + i) h (omega arith))
collect-drop r h start base i (suc n) e same =
    let next : suc (base + i) ≡ base + (i + 1) = omega arith in
    ap₂ ◌∷◌ (same i (omega arith))
      (collect-drop r h start base (i + 1) n (omega arith) (λ k lt. same k (omega arith)))
    ∙ sym (drop-step (base + i) h (omega arith) ∙ ap (λ k. get_or h (base + i) 0 ∷ drop k h) next)

-- The buffer holds the end of `h`, and has counted it.
pub record Tracks (r : RingBuffer) (h : List ℕ) : Type 0 where
  pub holds : Holds r h
  pub counted : r.total_written ≡ length h
  pub fits : length h < 2 ^ 64

-- While nothing was overwritten the slots are read from the first on.
whole_window :
    (r : RingBuffer) (h : List ℕ) → Holds r h → length h ≤ r.capacity → collect r 0 0 (length h) ≡ h
whole_window r h v le = collect-drop r h 0 0 0 (length h) (omega arith) λ k lt.
    let z : 0 + k ≡ k = omega arith in
    rw (z, mod-eq_of_lt {n = k} {m = r.capacity} (omega arith))
      (rw (mod-eq_of_lt {n = k} {m = r.capacity} (omega arith)) at
        (v.slots k (omega arith) (omega arith)))

-- Behind `write_pos` stands the oldest byte that is left.
full_window :
    (r : RingBuffer) (h : List ℕ)
    → Holds r h
    → r.capacity < length h
    → collect r r.write_pos 0 r.capacity ≡ last_bytes r.capacity h
full_window r h v lt =
    collect-drop r h r.write_pos (length h - r.capacity) 0 r.capacity (omega arith)
      (λ k small. rw (around k) (v.slots (length h - r.capacity + k) (omega arith) (omega arith)))
    ∙ ap (λ k. drop k h) (omega arith)
  where
    around : (k : ℕ) → (r.write_pos + k) % r.capacity ≡ (length h - r.capacity + k) % r.capacity
    around k =
        rw (v.position, mod-add-mod)
          (mod-eq-sub-mod {n = length h + k} {m = r.capacity} (omega arith)
            ∙ ap (λ n. n % r.capacity) (omega arith))

pub recent-Tracks : (r : RingBuffer) (h : List ℕ) → Tracks r h → recent r ≡ last_bytes r.capacity h
unfolding recent
recent-Tracks r h t = elim (Bool-cases (leb r.total_written r.capacity)) [
  | inl small ↦
      let le = leb→le r.total_written r.capacity small in
      let n : min r.total_written r.capacity ≡ length h = omega (arith, t.counted) in
      let z : length h - r.capacity ≡ 0 = omega (arith, t.counted) in
      let whole : last_bytes r.capacity h ≡ h = ap (λ k. drop k h) z in
      rw (small, n, whole)
        (elim (Bool-cases (length h == 0)) [
          | inl empty ↦ rw empty (sym (drop-all 0 h (omega (arith, ==→eq (length h) 0 empty))))
          | inr more ↦ rw more (whole_window r h t.holds (omega (arith, t.counted)))
        ])
  | inr big ↦
      let lt = leb→lt r.total_written r.capacity big in
      let n : min r.total_written r.capacity ≡ r.capacity = omega arith in
      rw (big, n, ne→== r.capacity 0 (omega (arith, t.holds.room)))
        (full_window r h t.holds (omega (arith, t.counted)))
]

push-Tracks :
    (r : RingBuffer) (h bs : List ℕ)
    → length (h ++ bs) < 2 ^ 64
    → Tracks r h
    → Tracks (push bs r) (h ++ bs)
unfolding push
push-Tracks r h bs small t =
    let (v, _, same) = push_bytes-Holds bs r h t.holds in
    record {
      holds = record { room = v.room; storage = v.storage; position = v.position; slots = v.slots };
      counted = omega (arith, same, t.counted, length-append h bs);
      fits = small;
    }

-- Every chunk, in order.
abbrev pub push_all : List (List ℕ) → RingBuffer → RingBuffer
push_all [] r = r
push_all (c ∷ cs) r = push_all cs (push c r)

capacity-push :
    (bs : List ℕ) (r : RingBuffer) {h : List ℕ} → Holds r h → (push bs r).capacity ≡ r.capacity
unfolding push
capacity-push bs r {h} v = (push_bytes-Holds bs r h v).1

push_all-Tracks :
    (cs : List (List ℕ)) (r : RingBuffer) (h : List ℕ)
    → length (h ++ flatten cs) < 2 ^ 64
    → Tracks r h
    → Tracks (push_all cs r) (h ++ flatten cs) × ((push_all cs r).capacity ≡ r.capacity)
push_all-Tracks [] r h small t = (rw append-nil t, refl)
push_all-Tracks (c ∷ cs) r h small t =
    let (tracked, same) =
      push_all-Tracks cs (push c r) (h ++ c) (rw (append_assoc h c (flatten cs)) small) (
        push-Tracks r h c
          (omega
            (arith, length-append (h ++ c) (flatten cs), ap length (append_assoc h c (flatten cs))))
          t) in
    (rw (append_assoc h c (flatten cs)) at tracked, same ∙ capacity-push c r t.holds)

-- A new buffer tracks the empty history.
new-Tracks : (capacity : ℕ) → 0 < capacity → Tracks (new capacity) []
unfolding new
new-Tracks capacity pos = record {
  holds = record {
    room = pos;
    storage = length-replicate capacity 0;
    position = sym (mod-eq_of_lt {n = 0} {m = capacity} pos);
    slots = λ j lt near. absurd (omega arith);
  };
  counted = refl;
  fits = omega arith;
}

pub pushed_Tracks :
    (capacity : ℕ) (cs : List (List ℕ))
    → 0 < capacity
    → length (flatten cs) < 2 ^ 64
    → Tracks (push_all cs (new capacity)) (flatten cs)
      × ((push_all cs (new capacity)).capacity ≡ capacity)
unfolding new
pushed_Tracks capacity cs pos small =
    push_all-Tracks cs (new capacity) [] small (new-Tracks capacity pos)

-- After any pushes into a new buffer, `recent` is the end of all that was pushed, in order and no
-- longer than the capacity, as long as the count of bytes fits its 64 bits.
pub recent-push_all :
    (capacity : ℕ) (cs : List (List ℕ))
    → 0 < capacity
    → length (flatten cs) < 2 ^ 64
    → recent (push_all cs (new capacity)) ≡ last_bytes capacity (flatten cs)
recent-push_all capacity cs pos small =
    let (tracked, same) = pushed_Tracks capacity cs pos small in
    recent-Tracks (push_all cs (new capacity)) (flatten cs) tracked
    ∙ ap (λ n. last_bytes n (flatten cs)) same
