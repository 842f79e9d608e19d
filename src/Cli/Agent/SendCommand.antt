-- ===== src/Cli/Agent/SendCommand.antt =====
-- `keepty send` of keepty/src/main.rs from its arguments to what has been typed.
use keepty.Base.{
  ℕ, ◌≡◌, refl, sym, ◌∙◌, subst, Bool, true, false, List, [], ◌∷◌, ◌++◌, Option, none, some,
  if◌then◌else◌, append-nil,
}
use keepty.Base.Results.{Result, ok, err}
use keepty.Wire.{IoError, Role}
use keepty.Broker.Args.{Text}
use keepty.Cli.Agent.{Agent}
use keepty.Cli.Agent.Send.{
  ScreenModes, and_then, wait_polls, submit, paste, send_text, send_text, send_command,
}
use keepty.Screen.{Parser, ReadEvent, ScreenReader, Returns, send_keys}
use keepty.Screen.Poll.{Returning, poll-Returning}
use keepty.Screen.Sync.{sync}
use keepty.Cli.Agent.{Command}
use keepty.Cli.Agent.Checked.{Valid}
use keepty.Wire.Inputs.{inputs}
use keepty.Cli.Agent.Typed.{HasTyped, On, HasTyped-Closed, sync-HasTyped}
use keepty.Cli.Agent.Calls.{send_keys-HasTyped, and_then-On, with_exit_code-On, all-On, first_of}

-- What `--submit` adds.
abbrev pub returned : Bool → List (List ℕ)
returned true = (b'\r' ∷ []) ∷ []
returned false = []

module _ {S : Type 0} where
  wait_polls-HasTyped :
      (p : Parser S) (xs : List (List ℕ)) (rounds : List (Bool × List ReadEvent))
      (r : ScreenReader S)
      → HasTyped xs r
      → Returning (On (HasTyped xs)) (wait_polls p rounds r)
  unfolding wait_polls
  wait_polls-HasTyped p xs [] r h = (_, refl, h)
  wait_polls-HasTyped p xs ((has_time, events) ∷ rounds) r h =
      let (q, ended, h') =
        poll-Returning p (HasTyped xs) (HasTyped-Closed p xs) has_time events r h in
      subst
        (λ o. Returning (On (HasTyped xs)) (elim o [
          | none ↦ none
          | some q ↦ elim q.result [
            | err e ↦ some (err e, q.reader)
            | ok n ↦ wait_polls p rounds q.reader
          ]
        ]))
        (sym ended) (go_on q.reader q.result (wait_polls-HasTyped p xs rounds q.reader h'))
    where
      go_on :
          (r : ScreenReader S) (res : Result IoError ℕ)
          → Returning (On (HasTyped xs)) (wait_polls p rounds r)
          → Returning (On (HasTyped xs)) (elim res as (λ x. Option (Returns S Unit)) [
            | err e ↦ some (err e, r)
            | ok n ↦ wait_polls p rounds r
          ])
      go_on r (err e) more = (_, refl, tt)
      go_on r (ok n) more = more

  submit-HasTyped :
      (p : Parser S) (a : Agent) (xs : List (List ℕ)) (delay : List (Bool × List ReadEvent))
      (r : ScreenReader S)
      → HasTyped xs r
      → Returning (On (HasTyped (xs ++ returned a.submit))) (submit p a delay r)
  unfolding submit
  submit-HasTyped p a xs delay r h = by_flag a.submit
    where
      by_flag :
          (b : Bool)
          → Returning (On (HasTyped (xs ++ returned b))) (
              if b
              then and_then (wait_polls p delay r) (λ r'. some (send_keys (b'\r' ∷ []) r'))
              else some (ok tt, r))
      by_flag true =
          and_then-On (HasTyped xs) (HasTyped (xs ++ returned true)) (wait_polls p delay r) _
            (wait_polls-HasTyped p xs delay r h)
            (λ r' _ h'. (
              _,
              refl,
              first_of (HasTyped (xs ++ returned true)) (λ r''. r''.parser ≡ r'.parser)
                  (send_keys (b'\r' ∷ []) r') (send_keys-HasTyped xs (b'\r' ∷ []) r' h'),
            ))
      by_flag false = (_, refl, (h.0 ∙ sym (append-nil xs), h.1))

  -- What `keepty send` has typed: behind the `sync` that was acknowledged, the text, as a paste if the
  -- screen then asked for it, and with `--submit` a carriage return.
  pub record TypesText (p : Parser S) (m : ScreenModes S) (a : Agent)
      (first : List (List ReadEvent)) (r r' : ScreenReader S) : Type 0 where
    pub text : Text
    pub given : a.text ≡ some text
    pub synced : ScreenReader S
    pub acknowledged : sync p first r ≡ some (ok tt, synced)
    pub in_order :
        inputs r'.sent
        ≡ inputs r.sent ++ (paste (m.bracketed_paste synced.parser) text ∷ []) ++ returned a.submit

  send_text-TypesText :
      (p : Parser S) (m : ScreenModes S) (a : Agent) (first : List (List ReadEvent))
      (delay : List (Bool × List ReadEvent)) (last : List (List ReadEvent)) (r : ScreenReader S)
      (text : Text)
      → a.text ≡ some text
      → r.role ≡ Role.writer
      → Returning (On (TypesText p m a first r)) (send_text p m a first delay last r text)
  unfolding send_text
  send_text-TypesText p m a first delay last r text given role =
      let before = inputs r.sent in
      and_then-On (HasTyped before) (TypesText p m a first r) (sync p first r) _
        (all-On (HasTyped before) (sync p first r) (sync-HasTyped p before first r (refl, role)))
        (λ r1 acknowledged h1.
          let pasted = paste (m.bracketed_paste r1.parser) text in
          let typed_text = before ++ pasted ∷ [] in
          and_then-On (HasTyped typed_text) (TypesText p m a first r) (some (send_keys pasted r1)) _
            (
              _,
              refl,
              first_of (HasTyped typed_text) (λ r'. r'.parser ≡ r1.parser) (send_keys pasted r1)
                  (send_keys-HasTyped before pasted r1 h1),
            )
            (λ r2 _ h2.
              and_then-On (HasTyped (typed_text ++ returned a.submit)) (TypesText p m a first r)
                (submit p a delay r2) _ (submit-HasTyped p a typed_text delay r2 h2)
                (λ r3 _ h3. with_exit_code-On (TypesText p m a first r) (sync p last r3) (
                  told acknowledged
                    (sync-HasTyped p (typed_text ++ returned a.submit) last r3 h3)))))
    where
      told :
          {r1 : ScreenReader S} {o : Option (Returns S Unit)}
          → sync p first r ≡ some (ok tt, r1)
          → Returning
              (λ (w : Returns S Unit).
                HasTyped
                  (inputs r.sent
                    ++ (paste (m.bracketed_paste r1.parser) text ∷ [])
                    ++ returned a.submit)
                  w.1)
              o
          → Returning (λ (w : Returns S Unit). TypesText p m a first r w.1) o
      told {r1} acknowledged (w, same, h) = (
        w,
        same,
        record {
          text = text;
          given = given;
          synced = r1;
          acknowledged = acknowledged;
          in_order = h.0;
        },
      )

  -- `keepty send` on arguments that were not refused, as a Writer, returns without a panic, and when it
  -- returns an exit code, the text has been typed once, between the marks of a paste exactly if the
  -- screen had asked for them behind the first `sync`, then with `--submit` a carriage return in an
  -- Input frame of its own, and nothing else has.
  pub send_command-TypesText :
      (p : Parser S) (m : ScreenModes S) (a : Agent) (first : List (List ReadEvent))
      (delay : List (Bool × List ReadEvent)) (last : List (List ReadEvent)) (r : ScreenReader S)
      → Valid Command.send a
      → r.role ≡ Role.writer
      → Returning (On (TypesText p m a first r)) (send_command p m a first delay last r)
  unfolding send_command
  send_command-TypesText p m a first delay last r v role =
      let (text, given) = v.purpose in
      subst
        (λ o.
          Returning (On (TypesText p m a first r))
            (elim o [ none ↦ none | some text ↦ send_text p m a first delay last r text ]))
        (sym given) (send_text-TypesText p m a first delay last r text given role)
