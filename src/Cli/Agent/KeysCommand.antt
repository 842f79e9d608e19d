-- ===== src/Cli/Agent/KeysCommand.antt =====
-- `keepty keys` of keepty/src/main.rs from its arguments to what has been typed.
use keepty.Base.{
  ℕ, ◌≡◌, refl, ap, sym, ◌∙◌, subst, Bool, true, false, List, [], ◌∷◌, ◌++◌, Option, none, some,
  if◌then◌else◌, append_assoc, append-nil,
}
use keepty.Base.Results.{ok}
use keepty.Wire.{Role}
use keepty.Broker.Args.{Text}
use keepty.Cli.Keys.{named_key}
use keepty.Cli.Agent.{Agent}
use keepty.Cli.Agent.Checked.{Named}
use keepty.Cli.Agent.Send.{ScreenModes, and_then, send_named, keys_command}
use keepty.Screen.{Parser, ReadEvent, ScreenReader, Returns, send_keys}
use keepty.Screen.Poll.{Returning}
use keepty.Screen.Sync.{sync}
use keepty.Cli.Agent.{Command}
use keepty.Cli.Agent.Checked.{Valid}
use keepty.Wire.Inputs.{inputs}
use keepty.Cli.Agent.Typed.{typed, HasTyped, On, sync-HasTyped}
use keepty.Cli.Agent.Calls.{send_keys-HasTyped, and_then-On, with_exit_code-On, all-On}

module _ {S : Type 0} where
  module _ (m : ScreenModes S) where
    key_in_mode-typed :
        (b : Bool) (name : Text) (names : List Text) (key : List ℕ)
        → named_key name false ≡ some key
        → (application : List ℕ) × (named_key name true ≡ some application)
        → (bytes : List ℕ) × ((if b then named_key name true else some key) ≡ some bytes)
          × (typed b (name ∷ names) ≡ bytes ∷ typed b names)
    key_in_mode-typed true name names key e (application, e') =
        (application, e', rw (e', typed) refl)
    key_in_mode-typed false name names key e (application, e') = (key, refl, rw (e, typed) refl)

    send_named-typed :
        (xs : List (List ℕ)) (names : List Text) (keys : List (List ℕ)) (r : ScreenReader S)
        → Named names keys
        → HasTyped xs r
        → Returning
            (On (HasTyped (xs ++ typed (m.application_cursor r.parser) names)))
            (send_named m names keys r)
    unfolding send_named
    send_named-typed xs [] keys r named (same, role) = (_, refl, (same ∙ sym (append-nil xs), role))
    send_named-typed xs (name ∷ names) [] r named h = elim named [ ]
    send_named-typed xs (name ∷ names) (key ∷ keys) r (e, e', named) h =
        let mode = m.application_cursor r.parser in
        let (bytes, found, same) = key_in_mode-typed mode name names key e e' in
        subst
          (λ o. Returning (On (HasTyped (xs ++ typed mode (name ∷ names)))) (elim o [
            | none ↦ none
            | some bytes ↦ and_then (some (send_keys bytes r)) (send_named m names keys)
          ]))
          (sym found)
          (and_then-On (λ r'. HasTyped (xs ++ bytes ∷ []) r' × (r'.parser ≡ r.parser))
            (HasTyped (xs ++ typed mode (name ∷ names))) (some (send_keys bytes r))
            (send_named m names keys) (_, refl, send_keys-HasTyped xs bytes r h)
            (λ r' _ (h', screen).
              subst (λ ys. Returning (On (HasTyped ys)) (send_named m names keys r'))
                (append_assoc xs (bytes ∷ []) (typed (m.application_cursor r'.parser) names)
                  ∙ ap (λ s. xs ++ bytes ∷ typed (m.application_cursor s) names) screen
                  ∙ ap (λ ys. xs ++ ys) (sym same))
                (send_named-typed (xs ++ bytes ∷ []) names keys r' named h')))

  -- What `keepty keys` has typed: behind the `sync` that was acknowledged, every key once and in order,
  -- all of them in the mode that the screen was in then.
  pub record TypesKeys (p : Parser S) (m : ScreenModes S) (a : Agent)
      (first : List (List ReadEvent)) (r r' : ScreenReader S) : Type 0 where
    pub synced : ScreenReader S
    pub acknowledged : sync p first r ≡ some (ok tt, synced)
    pub in_order :
        inputs r'.sent ≡ inputs r.sent ++ typed (m.application_cursor synced.parser) a.names

  -- `keepty keys` on arguments that were not refused, as a Writer, returns without a panic, and when it
  -- returns an exit code, every named key has been typed once and in order, in the bytes of the mode
  -- that the screen was in behind the first `sync`, and nothing else has.
  pub keys_command-TypesKeys :
      (p : Parser S) (m : ScreenModes S) (a : Agent) (first last : List (List ReadEvent))
      (r : ScreenReader S)
      → Valid Command.keys a
      → r.role ≡ Role.writer
      → Returning (On (TypesKeys p m a first r)) (keys_command p m a first last r)
  unfolding keys_command
  keys_command-TypesKeys p m a first last r v role =
      let before = inputs r.sent in
      and_then-On (HasTyped before) (TypesKeys p m a first r) (sync p first r) _
        (all-On (HasTyped before) (sync p first r) (sync-HasTyped p before first r (refl, role)))
        (λ r' acknowledged h.
          let now = before ++ typed (m.application_cursor r'.parser) a.names in
          and_then-On (HasTyped now) (TypesKeys p m a first r) (send_named m a.names a.keys r') _
            (send_named-typed m before a.names a.keys r' v.purpose.0 h)
            (λ r'' _ h'.
              with_exit_code-On (TypesKeys p m a first r) (sync p last r'')
                (told acknowledged (sync-HasTyped p now last r'' h'))))
    where
      told :
          {r' : ScreenReader S} {o : Option (Returns S Unit)}
          → sync p first r ≡ some (ok tt, r')
          → Returning
              (λ (w : Returns S Unit).
                HasTyped (inputs r.sent ++ typed (m.application_cursor r'.parser) a.names) w.1)
              o
          → Returning (λ (w : Returns S Unit). TypesKeys p m a first r w.1) o
      told {r'} acknowledged (w, same, h) =
          (w, same, record { synced = r'; acknowledged = acknowledged; in_order = h.0 })
