-- ===== src/Cli/Agent/Calls.antt =====
-- The calls that `keepty keys` and `keepty send` of keepty/src/main.rs make, one after another: what each
-- types.
use keepty.Base.{
  ℕ, ◌≡◌, refl, ap, sym, ◌∙◌, subst, inl, inr, List, [], ◌∷◌, ◌++◌, Option, none, some,
  if◌then◌else◌, Option-cases, ◌==◌,
}
use mathlib.Core.Option.{some-injective, none-ne-some}
use keepty.Base.Results.{Result, ok, err}
use keepty.Wire.{IoError, ErrorKind, MsgKind, Frame, Role, role_byte}
use keepty.Cli.Agent.Send.{exit_code, and_then, with_exit_code}
use keepty.Screen.{error_of, ScreenReader, Returns, write, as_writer, send_keys}
use keepty.Screen.Poll.{Returning}
use keepty.Wire.Inputs.{inputs-append}
use keepty.Cli.Agent.Typed.{HasTyped, On}

abbrev input_frame : List ℕ → Frame
input_frame keys = record { kind = MsgKind.input; payload = keys }

module _ {S : Type 0} where
  write-whole :
      (f : Frame) (r : ScreenReader S)
      → r.broken ≡ none
      → write f r ≡ (ok tt, record r { sent = r.sent ++ f ∷ [] })
  unfolding write
  write-whole f r whole =
      ap
        (λ (b : Option IoError). elim b as (λ x. Returns S Unit) [
          | some e ↦ (err e, r)
          | none ↦ (ok tt, record r { sent = r.sent ++ f ∷ [] })
        ])
        whole

  write-broken :
      (f : Frame) (r : ScreenReader S) (e : IoError) → r.broken ≡ some e → write f r ≡ (err e, r)
  unfolding write
  write-broken f r e broken =
      ap
        (λ (b : Option IoError). elim b as (λ x. Returns S Unit) [
          | some e ↦ (err e, r)
          | none ↦ (ok tt, record r { sent = r.sent ++ f ∷ [] })
        ])
        broken

  pub writer_writes :
      (keys : List ℕ) (r : ScreenReader S)
      → r.role ≡ Role.writer
      → send_keys keys r ≡ write (input_frame keys) r
  unfolding send_keys as_writer
  writer_writes keys r role =
      ap
        (λ (ρ : Role).
          if role_byte ρ == role_byte Role.writer
          then write (input_frame keys) r
          else (err (error_of ErrorKind.permission_denied), r))
        role

  -- Input appends what it types, and leaves the screen.
  pub send_keys-HasTyped :
      (xs : List (List ℕ)) (keys : List ℕ) (r : ScreenReader S)
      → HasTyped xs r
      → On (λ r'. HasTyped (xs ++ keys ∷ []) r' × (r'.parser ≡ r.parser)) (send_keys keys r)
  send_keys-HasTyped xs keys r (same, role) =
      subst (On _) (sym (writer_writes keys r role)) (elim (Option-cases r.broken) [
        | inl whole ↦ subst (On _) (sym (write-whole (input_frame keys) r whole)) (
          (inputs-append r.sent (input_frame keys) ∙ ap (λ ys. ys ++ keys ∷ []) same, role),
          refl,
        )
        | inr (e, broken) ↦ subst (On _) (sym (write-broken (input_frame keys) r e broken)) tt
      ])

  pub and_then-On :
      {B : Type 0} (P Q : ScreenReader S → Type 0) (o : Option (Returns S Unit))
      (next : ScreenReader S → Option (Returns S B))
      → Returning (On P) o
      → ((r : ScreenReader S) → o ≡ some (ok tt, r) → P r → Returning (On Q) (next r))
      → Returning (On Q) (and_then o next)
  and_then-On P Q none next (a, same, h) more = absurd (none-ne-some a same)
  and_then-On P Q (some (err e, r)) next h more = (_, refl, tt)
  and_then-On P Q (some (ok u, r)) next (a, same, h) more =
      more r refl (subst (On P) (sym (some-injective (ok u, r) a same)) h)

  -- The exit code of the last `sync`, whether it failed or not, behind what was typed.
  pub with_exit_code-On :
      (P : ScreenReader S → Type 0) (o : Option (Returns S Unit))
      → Returning (λ (w : Returns S Unit). P w.1) o
      → Returning (On P) (with_exit_code o)
  with_exit_code-On P none (a, same, h) = absurd (none-ne-some a same)
  with_exit_code-On P (some (res, r)) (a, same, h) = (
    _,
    refl,
    coded (exit_code res)
        (subst (λ (w : Returns S Unit). P w.1) (sym (some-injective (res, r) a same)) h),
  )
    where
      coded : (res : Result IoError ℕ) → P r → On P (res, r)
      coded (ok n) h = h
      coded (err e) h = tt

  pub all-On :
      (P : ScreenReader S → Type 0) (o : Option (Returns S Unit))
      → Returning (λ (w : Returns S Unit). P w.1) o
      → Returning (On P) o
  all-On P o (a, same, h) = (a, same, on a h)
    where
      on : (w : Returns S Unit) → P w.1 → On P w
      on (ok u, r) h = h
      on (err e, r) h = tt

  pub first_of :
      (P Q : ScreenReader S → Type 0) (w : Returns S Unit) → On (λ r. P r × Q r) w → On P w
  first_of P Q (ok u, r) (h, _) = h
  first_of P Q (err e, r) h = tt
