-- ===== src/Cli/Agent/Typed.antt =====
-- What `keepty keys` and `keepty send` of keepty/src/main.rs type: nothing of it is lost, doubled or out of
-- order, whatever the broker sends meanwhile.
use keepty.Base.{
  ℕ, ◌≡◌, refl, ap, sym, ◌∙◌, subst, inl, inr, Bool, true, List, [], ◌∷◌, ◌++◌, Option, none, some,
  if◌then◌else◌, append-nil, Option-cases, if-satisfies, ◌==◌,
}
use keepty.Base.Results.{Result, ok, err}
use keepty.Wire.{IoError, MsgKind, Frame, Role}
use keepty.Wire.Inputs.{input_of, inputs, inputs-append}
use keepty.Wire.Messages.{decode_resize_ack}
use keepty.Broker.Args.{Text}
use keepty.Cli.Keys.{named_key}
use keepty.Screen.{
  Parser, ReadEvent, ScreenReader, Returns, empty_frame, handle, reply, write, apply_resize_ack,
}
use keepty.Screen.Poll.{Returning, Handles, Closed, poll-Returning}
use keepty.Screen.Sync.{sync, sync_loop, after_ping}

-- The bytes of named keys, with application cursor keys or without.
abbrev pub typed : Bool → List Text → List (List ℕ)
typed application [] = []
typed application (name ∷ names) = elim (named_key name application) [
  | none ↦ typed application names
  | some key ↦ key ∷ typed application names
]

-- A writer has typed `xs`.
abbrev pub HasTyped : {S : Type 0} → List (List ℕ) → ScreenReader S → Type 0
HasTyped xs r = (inputs r.sent ≡ xs) × (r.role ≡ Role.writer)

-- The reader behind a call that did not fail has the property.
abbrev pub On : {S A : Type 0} → (ScreenReader S → Type 0) → Returns S A → Type 0
On P (ok a, r) = P r
On P (err e, r) = Unit

module _ {S : Type 0} (p : Parser S) (xs : List (List ℕ)) where
  write-HasTyped :
      (f : Frame) (r : ScreenReader S) → input_of f ≡ [] → HasTyped xs r → HasTyped xs (write f r).1
  unfolding write
  write-HasTyped f r quiet (same, role) = elim (Option-cases r.broken) [
    | inl whole ↦ rw whole (
      inputs-append r.sent f
          ∙ ap (λ ys. inputs r.sent ++ ys) quiet
          ∙ append-nil (inputs r.sent)
          ∙ same,
      role,
    )
    | inr (e, broken) ↦ rw broken (same, role)
  ]

  reply-HasTyped : (w : Returns S Unit) → HasTyped xs w.1 → Handles (HasTyped xs) (reply w)
  unfolding reply
  reply-HasTyped (ok u, r) h = h
  reply-HasTyped (err e, r) h = h

  resized-HasTyped :
      (r : ScreenReader S) (payload : List ℕ)
      → HasTyped xs r
      → Handles (HasTyped xs) (apply_resize_ack p payload r)
  unfolding apply_resize_ack
  resized-HasTyped r payload h = elim (Option-cases (decode_resize_ack payload)) [
    | inl same ↦ rw (Handles, same) h
    | inr (size, same) ↦ rw (Handles, same) h
  ]

  kind-HasTyped :
      (kind : MsgKind) (payload : List ℕ) (r : ScreenReader S)
      → HasTyped xs r
      → Handles (HasTyped xs) (handle p (record { kind = kind; payload = payload }) r)
  unfolding handle
  kind-HasTyped MsgKind.resize_ack payload r h = resized-HasTyped r payload h
  kind-HasTyped MsgKind.ping payload r h =
      reply-HasTyped _ (write-HasTyped (empty_frame MsgKind.pong) r refl h)
  kind-HasTyped _ payload r h = h

  pub HasTyped-Closed : Closed p (HasTyped xs)
  HasTyped-Closed = record {
    buffered = λ r buffer h. h;
    left = λ r h. h;
    handled = λ f r h. kind-HasTyped f.kind f.payload r h;
  }

  -- `sync` returns, and types nothing.
  sync_loop-HasTyped :
      (before : ℕ) (rounds : List (List ReadEvent)) (r : ScreenReader S)
      → HasTyped xs r
      → Returning (λ (w : Returns S Unit). HasTyped xs w.1) (sync_loop p before rounds r)
  unfolding sync_loop
  sync_loop-HasTyped before [] r h = (_, refl, h)
  sync_loop-HasTyped before (events ∷ rounds) r h =
      let (q, ended, h') = poll-Returning p (HasTyped xs) HasTyped-Closed true events r h in
      subst
        (λ o.
          Returning (λ (w : Returns S Unit). HasTyped xs w.1)
            (elim o [
              | none ↦ none
              | some q ↦
                  if q.reader.pongs == before
                  then (elim q.result [
                    | err e ↦ some (err e, q.reader)
                    | ok n ↦ sync_loop p before rounds q.reader
                  ])
                  else some (ok tt, q.reader)
            ]))
        (sym ended)
        (if-satisfies (Returning (λ (w : Returns S Unit). HasTyped xs w.1))
          (q.reader.pongs == before) _ _
          (go_on q.reader q.result h' (sync_loop-HasTyped before rounds q.reader h')) (_, refl, h'))
    where
      go_on :
          (r : ScreenReader S) (res : Result IoError ℕ)
          → HasTyped xs r
          → Returning (λ (w : Returns S Unit). HasTyped xs w.1) (sync_loop p before rounds r)
          → Returning
              (λ (w : Returns S Unit). HasTyped xs w.1)
              (elim res as (λ x. Option (Returns S Unit)) [
                | err e ↦ some (err e, r)
                | ok n ↦ sync_loop p before rounds r
              ])
      go_on r (err e) h more = (_, refl, h)
      go_on r (ok n) h more = more

  pub sync-HasTyped :
      (rounds : List (List ReadEvent)) (r : ScreenReader S)
      → HasTyped xs r
      → Returning (λ (w : Returns S Unit). HasTyped xs w.1) (sync p rounds r)
  unfolding sync
  sync-HasTyped rounds r h =
      pinged (write (empty_frame MsgKind.ping) r)
        (write-HasTyped (empty_frame MsgKind.ping) r refl h)
    where
      pinged :
          (w : Returns S Unit)
          → HasTyped xs w.1
          → Returning (λ (w : Returns S Unit). HasTyped xs w.1) (after_ping p r.pongs rounds w)
      pinged (err e, r') h = (_, refl, h)
      pinged (ok u, r') h = sync_loop-HasTyped r.pongs rounds r' h
