-- ===== src/Broker/Process/Decides.antt =====
-- The exit code of the broker in keepty/src/broker.rs: which round of the main loop decides it, and how.
use keepty.Base.{
  ℕ, ◌^◌, ◌<◌, ◌≡◌, ◌≢◌, refl, ap, sym, ◌∙◌, Bool, true, false, not, List, [], ◌∷◌, ◌++◌, Option,
  none, some, All, ◌==◌, if◌then◌else◌, if-cases, ==→eq, ==→ne, subst, arith, All-append_right,
}
use mathlib.Core.Option.{some-injective, some-ne-none}
use keepty.Base.Int.{ℤ, pos, IsI32, of_u32, of_u32-IsI32}
use keepty.Broker.Process.{
  ChildStatus, not_spawned, still_running, wait_fails, exited, Tick, on_signal, tick, wait_child,
  sighup,
}

-- No child, or one that runs.
pub data Alive : ChildStatus → Type 0 where
  unborn : Alive not_spawned
  living : Alive still_running

-- How a round decides the exit code.
pub data Decides (t : Tick) : ℤ → Type 0 where
  by_child : (code : ℕ) → t.child ≡ exited code → Decides t (of_u32 code)
  by_error : t.child ≡ wait_fails → Decides t (pos 1)
  by_flag : Alive t.child → t.running ≡ false → Decides t (pos 143)
  by_signal :
      (sig : ℕ)
      → Alive t.child
      → t.running ≡ true
      → t.signal ≡ some sig
      → sig ≢ sighup
      → Decides t (pos 143)

-- Nothing has happened but a SIGHUP.
pub record Idle (t : Tick) : Type 0 where
  pub alive : Alive t.child
  pub running : t.running ≡ true
  pub hung_up : (sig : ℕ) → t.signal ≡ some sig → sig ≡ sighup

-- A round by the code that it ends with, if it does.
abbrev pub Judged : Tick → Option ℤ → Type 0
Judged t none = Idle t
Judged t (some code) = Decides t code

on_signal-Judged : (t : Tick) → Alive t.child → Judged t (on_signal t)
on_signal-Judged t alive = by_shared t.running refl
  where
    by_byte :
        (sig : ℕ)
        → t.running ≡ true
        → t.signal ≡ some sig
        → Judged t (if sig == sighup then none else some (pos 143))
    by_byte sig running e =
        if-cases (Judged t) (sig == sighup) _ _
          (λ hup. record {
            alive = alive;
            running = running;
            hung_up = λ sig' e'. some-injective sig' sig (sym e' ∙ e) ∙ ==→eq sig sighup hup;
          })
          (λ other. by_signal sig alive running e (==→ne sig sighup other))

    by_pipe :
        (o : Option ℕ)
        → t.running ≡ true
        → t.signal ≡ o
        → Judged t
            (elim o [ none ↦ none | some sig ↦ if sig == sighup then none else some (pos 143) ])
    by_pipe none running e = record {
      alive = alive;
      running = running;
      hung_up = λ sig e'. absurd (some-ne-none sig (sym e' ∙ e));
    }
    by_pipe (some sig) running e = by_byte sig running e

    by_shared :
        (b : Bool)
        → t.running ≡ b
        → Judged t (
            if not b then some (pos 143) else elim t.signal [
              | none ↦ none
              | some sig ↦ if sig == sighup then none else some (pos 143)
            ])
    by_shared false e = by_flag alive e
    by_shared true e = by_pipe t.signal e refl

tick-Judged : (t : Tick) → Judged t (tick t)
unfolding tick
tick-Judged t = by_status t.child refl
  where
    by_status :
        (c : ChildStatus)
        → t.child ≡ c
        → Judged t (elim c [
          | exited code ↦ some (of_u32 code)
          | wait_fails ↦ some (pos 1)
          | not_spawned ↦ on_signal t
          | still_running ↦ on_signal t
        ])
    by_status not_spawned e = on_signal-Judged t (subst Alive (sym e) unborn)
    by_status still_running e = on_signal-Judged t (subst Alive (sym e) living)
    by_status wait_fails e = by_error e
    by_status (exited code) e = by_child code e

-- The loop goes on through idle rounds, to the first that decides.
pub data Decided (ts : List Tick) (code : ℤ) : Type 0 where
  decided :
      (before : List Tick) (t : Tick) (after : List Tick)
      → ts ≡ before ++ t ∷ after
      → All Idle before
      → Decides t code
      → Decided ts code

abbrev pub Waited : List Tick → Option ℤ → Type 0
Waited ts none = All Idle ts
Waited ts (some code) = Decided ts code

pub wait_child-Waited : (ts : List Tick) → Waited ts (wait_child ts)
unfolding wait_child
wait_child-Waited [] = tt
wait_child-Waited (t ∷ ts) = first (tick t) (tick-Judged t) (wait_child ts) (wait_child-Waited ts)
  where
    later : (o : Option ℤ) → Idle t → Waited ts o → Waited (t ∷ ts) o
    later none idle rest = (idle, rest)
    later (some code) idle (decided before u after same quiet decides) =
        decided (t ∷ before) u after (ap (◌∷◌ t) same) (idle, quiet) decides

    first :
        (o : Option ℤ)
        → Judged t o
        → (rest : Option ℤ) → Waited ts rest
        → Waited (t ∷ ts) (elim o [ some code ↦ some code | none ↦ rest ])
    first none idle rest w = later rest idle w
    first (some code) decides rest w = decided [] t ts refl tt decides

-- An exit status is a `u32`.
abbrev pub IsU32 : ChildStatus → Type 0
IsU32 (exited status) = status < 2 ^ 32
IsU32 not_spawned = Unit
IsU32 still_running = Unit
IsU32 wait_fails = Unit

abbrev pub HasStatus : Tick → Type 0
HasStatus t = IsU32 t.child

Decides-IsI32 : (t : Tick) (code : ℤ) → HasStatus t → Decides t code → IsI32 code
Decides-IsI32 t code small (by_child status e) = of_u32-IsI32 status (subst IsU32 e small)
Decides-IsI32 t code small (by_error e) = omega arith
Decides-IsI32 t code small (by_flag alive e) = omega arith
Decides-IsI32 t code small (by_signal sig alive running e ne) = omega arith

pub Decided-IsI32 : (ts : List Tick) (code : ℤ) → All HasStatus ts → Decided ts code → IsI32 code
Decided-IsI32 ts code small (decided before t after same quiet decides) =
    Decides-IsI32 t code
      (All-append_right HasStatus before (t ∷ after) (subst (All HasStatus) same small)).0 decides
