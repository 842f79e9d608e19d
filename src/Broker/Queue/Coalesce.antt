-- ===== src/Broker/Queue/Coalesce.antt =====
-- The ways in which `ClientQueue::send` of keepty/src/broker.rs places a frame: at the back, or joined
-- to the Output frame at the back as far as that has room.
use keepty.Base.{
  ℕ, zero, suc, ◌+◌, ◌-◌, ◌^◌, ◌≤◌, ◌<◌, ◌≡◌, refl, ap, sym, ◌∙◌, true, List, [], ◌∷◌, ◌++◌, map,
  append_assoc, arith, length, take, drop, All, All-append, All-append_left, All-append_right,
  sub64, be32, length-append, length-take, length-drop, take-append-drop, take-all, drop-all, eq→==,
  ne→==, ==→eq,
}
use mathlib.Core.List.{map-append}
use keepty.Wire.{Frame, MsgKind, kind_byte, encode, max_payload_size}
use keepty.Wire.Codec.{IsSmall, length-encode}
use keepty.Wire.Kinds.{kind_byte_injective}
use keepty.Broker.Queue.{Pending, total, room, extend_tail, push_rest, merged}
use keepty.Broker.Queue.View.{tokens, stream, is, stream-one, total-append, Holds, byte}

-- What an accepted frame leaves behind: frames whose stream is the old one and then `f`.
pub record Appends (p : Pending) (fs : List Frame) (f : Frame) (cut : ℕ) (p' : Pending)
    : Type 0 where
  pub after : List Frame
  pub holds : Holds p' after
  pub extended : stream after ≡ stream fs ++ tokens f
  pub grown : p'.bytes + cut ≡ p.bytes + length f.payload + 6

-- The tail takes more payload, up to the limit.
extend_tail-encode :
    (g : Frame) (more : List ℕ)
    → length g.payload + length more ≤ max_payload_size
    → extend_tail (encode g) more ≡ encode (record g { payload = g.payload ++ more })
unfolding extend_tail encode
extend_tail-encode g more h =
    ap (λ n. be32 n ++ drop 4 (encode g) ++ more) (omega (arith, length-append g.payload more))

pub room-encode : (g : Frame) → IsSmall g → room (encode g) ≡ max_payload_size - length g.payload
room-encode g h = rw (length-encode g) (omega arith)

queued_append :
    (ys : List (List ℕ)) (fs : List Frame) (f : Frame)
    → ys ≡ map encode fs
    → ys ++ encode f ∷ [] ≡ map encode (fs ++ f ∷ [])
queued_append ys fs f e = rw (e, map-append encode fs (f ∷ []))

total_append :
    (ys : List (List ℕ)) (f : Frame) → total (ys ++ encode f ∷ []) ≡ total ys + length f.payload + 6
total_append ys f = omega (arith, total-append ys (encode f ∷ []), length-encode f)

-- A frame at the back, where `bytes` counts it already.
pub push_frame :
    (p q : Pending) (fs : List Frame) (f : Frame)
    → IsSmall f
    → Holds p fs
    → q.frames ≡ p.frames
    → q.bytes ≡ p.bytes + length f.payload + 6
    → Appends p fs f 0 (push_rest (encode f) (drop 6 (encode f)) q)
unfolding push_rest encode
push_frame p q fs f small v same bytes =
    rw
      (
        eq→== (length f.payload) (sub64 (length (encode f)) 6) (omega (arith, length-encode f)),
        push_rest,
      )
      (record {
        after = fs ++ f ∷ [];
        holds = record {
          queued = queued_append q.frames fs f (same ∙ v.queued);
          small = All-append IsSmall fs (f ∷ []) v.small (small, tt);
          counted = omega (arith, bytes, v.counted, total_append q.frames f, ap total same);
        };
        extended = stream-one fs f;
        grown = omega (arith, bytes);
      })

-- An Output frame is its payload.
output_eq :
    (f : Frame)
    → is MsgKind.output f ≡ true
    → f ≡ record { kind = MsgKind.output; payload = f.payload }
output_eq f h =
    let k = kind_byte_injective f.kind MsgKind.output (==→eq (kind_byte f.kind) 4 h) in
    λ i. record { kind = k i; payload = f.payload }

-- What is left of an Output frame behind `c` bytes goes to the back as an Output frame.
push_rest-drop :
    (f : Frame) (c : ℕ) (q : Pending)
    → is MsgKind.output f ≡ true
    → IsSmall f
    → c < length f.payload
    → push_rest (encode f) (drop c f.payload) q ≡ record q {
      frames =
          q.frames ++ encode (record { kind = MsgKind.output; payload = drop c f.payload }) ∷ [];
    }
unfolding push_rest
push_rest-drop f zero q out small lt =
    rw
      (
        eq→== (length f.payload) (sub64 (length (encode f)) 6) (omega (arith, length-encode f)),
        push_rest,
      )
      (ap (λ g. record q { frames = q.frames ++ encode g ∷ [] }) (output_eq f out))
push_rest-drop f (suc c) q out small lt = rw (
  ne→== (length (drop (suc c) f.payload)) (sub64 (length (encode f)) 6)
      (λ e. absurd (omega (arith, length-encode f, length-drop (suc c) f.payload))),
  push_rest,
)

pub merged_more :
    (encoded rest : List ℕ) (q : Pending)
    → 0 < length rest
    → merged encoded rest q ≡ push_rest encoded rest q
unfolding merged
merged_more encoded [] q h = absurd (omega arith)
merged_more encoded (b ∷ rest) q h = refl

module _ (gs : List Frame) (g f : Frame) (out_g : is MsgKind.output g ≡ true)
    (out_f : is MsgKind.output f ≡ true) (small_f : IsSmall f) where
  -- The tail frame with `c` more bytes.
  abbrev pub longer : ℕ → Frame
  longer c = record g { payload = g.payload ++ take c f.payload }

  longer-stream :
      (c : ℕ) → stream (gs ++ longer c ∷ []) ≡ stream (gs ++ g ∷ []) ++ map byte (take c f.payload)
  longer-stream c =
      stream-one gs (longer c)
      ∙ rw (out_g, stream-one gs g, out_g, map-append byte g.payload (take c f.payload))
          (sym (append_assoc (stream gs) (map byte g.payload) (map byte (take c f.payload))))

  tail_frames :
      (c : ℕ)
      → All IsSmall (gs ++ g ∷ [])
      → c ≤ max_payload_size - length g.payload
      → map encode gs ++ extend_tail (encode g) (take c f.payload) ∷ []
        ≡ map encode (gs ++ longer c ∷ [])
  tail_frames c small le =
      rw
        (extend_tail-encode g (take c f.payload)
          (omega (arith, length-take c f.payload, (All-append_right IsSmall gs (g ∷ []) small).0)))
        (queued_append (map encode gs) gs (longer c) refl)

  longer-IsSmall :
      (c : ℕ)
      → All IsSmall (gs ++ g ∷ [])
      → c ≤ max_payload_size - length g.payload
      → All IsSmall (gs ++ longer c ∷ [])
  longer-IsSmall c small le =
      All-append IsSmall gs (longer c ∷ []) (All-append_left IsSmall gs (g ∷ []) small) (
        omega (
          arith,
          length-append g.payload (take c f.payload),
          length-take c f.payload,
          (All-append_right IsSmall gs (g ∷ []) small).0,
        ),
        tt,
      )

  module _ (p q : Pending) (v : Holds p (gs ++ g ∷ []))
      (counted : q.bytes ≡ p.bytes + length f.payload + 6) (fits : q.bytes < 2 ^ 64) where
    -- The queue after the tail took `c` bytes.
    abbrev pub taken : ℕ → Pending
    taken c = record q { frames = map encode gs ++ extend_tail (encode g) (take c f.payload) ∷ [] }

    tail_total :
        (c : ℕ)
        → c ≤ max_payload_size - length g.payload
        → c ≤ length f.payload
        → total (taken c).frames ≡ p.bytes + c
    tail_total c le within = omega (
      arith,
      ap total (tail_frames c v.small le),
      ap total (queued_append (map encode gs) gs (longer c) refl),
      total_append (map encode gs) (longer c),
      ap total v.queued,
      ap total (queued_append (map encode gs) gs g refl),
      total_append (map encode gs) g,
      v.counted,
      length-append g.payload (take c f.payload),
      length-take c f.payload,
    )

    pub take_whole :
        length f.payload ≤ max_payload_size - length g.payload
        → (c : ℕ) → c ≡ length f.payload
        → Appends p (gs ++ g ∷ []) f 6 (merged (encode f) (drop c f.payload) (taken c))
    unfolding merged
    take_whole le c e =
        rw (drop-all c f.payload (omega arith), merged)
          (record {
            after = gs ++ longer c ∷ [];
            holds = record {
              queued = tail_frames c v.small (omega arith);
              small = longer-IsSmall c v.small (omega arith);
              counted = omega (arith, tail_total c (omega arith) (omega arith), counted);
            };
            extended = rw (out_f) (longer-stream c ∙ rw (take-all c f.payload (omega arith)));
            grown = omega (arith, counted);
          })

    pub take_part :
        (c : ℕ)
        → c ≡ max_payload_size - length g.payload
        → c < length f.payload
        → Appends p (gs ++ g ∷ []) f 0 (merged (encode f) (drop c f.payload) (taken c))
    unfolding merged
    take_part c e lt =
        rw
          (
            merged_more (encode f) (drop c f.payload) (taken c)
                (omega (arith, length-drop c f.payload)),
            push_rest-drop f c (taken c) out_f small_f lt,
          )
          (record {
            after = (gs ++ longer c ∷ []) ++ rest ∷ [];
            holds = record {
              queued =
                  queued_append (taken c).frames (gs ++ longer c ∷ []) rest
                    (tail_frames c v.small (omega arith));
              small =
                  All-append IsSmall (gs ++ longer c ∷ []) (rest ∷ [])
                    (longer-IsSmall c v.small (omega arith))
                    (omega (arith, length-drop c f.payload), tt);
              counted = omega (
                arith,
                total_append (taken c).frames rest,
                tail_total c (omega arith) (omega arith),
                length-drop c f.payload,
                counted,
              );
            };
            extended = rw out_f (
                stream-one (gs ++ longer c ∷ []) rest
                ∙ rw (longer-stream c) (
                    append_assoc (stream (gs ++ g ∷ [])) (map byte (take c f.payload))
                      (map byte rest.payload)
                    ∙ ap (◌++◌ (stream (gs ++ g ∷ []))) whole));
            grown = omega (arith, counted);
          })
      where
        rest : Frame
        rest = record { kind = MsgKind.output; payload = drop c f.payload }

        whole : map byte (take c f.payload) ++ map byte (drop c f.payload) ≡ map byte f.payload
        whole =
            sym (map-append byte (take c f.payload) (drop c f.payload))
            ∙ ap (map byte) (take-append-drop c f.payload)
