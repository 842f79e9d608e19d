-- ===== src/Cli/Agent/Loop.antt =====
-- The loop over the arguments in `run_agent` of keepty/src/main.rs keeps numbers in bounds, and texts and
-- times of quiet apart.
use keepty.Base.{
  ℕ, ◌≤◌, ◌≡◌, refl, Bool, true, ◌&&◌, List, [], ◌∷◌, Option, none, some, ◌==◌, if◌then◌else◌,
  arith, if-cases, if-satisfies, ==→ne,
}
use mathlib.Core.Option.{some-injective, none-ne-some}
use keepty.Base.Text.{codes, same_bytes, parse, parse_le}
use keepty.Broker.Args.{Text, max_u16}
use keepty.Cli.Agent.{Command, Agent, max_u64, is_none, flag, put, positive, set_value, agent_loop}

-- A value that is there has the property.
pub data Kept {ℓ κ} {A : Type ℓ} (P : A → Type κ) : Option A → Type (ℓ ⊔ κ) where
  missing : Kept P none
  kept : (a : A) → P a → Kept P (some a)

-- `send` has its text, and `wait` has not both a text and a time of quiet.
abbrev pub TextFits : Command → Option Text → Option ℕ → Type 0
TextFits Command.send none quiet = ⊥
TextFits Command.wait (some t) (some n) = ⊥
TextFits _ _ _ = Unit

pub record Fits (id : Text) (c : Command) (a : Agent) : Type 0 where
  pub same : a.id ≡ id
  pub cols : (1 ≤ a.cols) × (a.cols ≤ max_u16)
  pub rows : (1 ≤ a.rows) × (a.rows ≤ max_u16)
  pub text : TextFits c a.text a.quiet

put-Kept :
    (P : Agent → Type 0) (o : Option ℕ) (set : ℕ → Agent)
    → ((n : ℕ) → o ≡ some n → P (set n))
    → Kept P (put o set)
put-Kept P none set h = missing
put-Kept P (some n) set h = kept (set n) (h n refl)

positive-bounds :
    (max : ℕ) (value : Text) (n : ℕ) → positive (parse max value) ≡ some n → (1 ≤ n) × (n ≤ max)
positive-bounds max value n e = of_parse (parse max value) e (parse_le max value)
  where
    of_parse :
        (o : Option ℕ)
        → positive o ≡ some n
        → ((m : ℕ) → o ≡ some m → m ≤ max)
        → (1 ≤ n) × (n ≤ max)
    of_parse none e h = absurd (none-ne-some n e)
    of_parse (some m) e h =
        if-cases (λ o. o ≡ some n → (1 ≤ n) × (n ≤ max)) (m == 0) none (some m)
          (λ _ e'. absurd (none-ne-some n e'))
          (λ pos e'. (
            omega (arith, some-injective m n e', ==→ne m 0 pos),
            omega (arith, some-injective m n e', h m refl),
          ))
          e

text_alone :
    (c : Bool) (value : Text) (t : Option Text) (q : Option ℕ)
    → (c && (is_none t && is_none q)) ≡ true
    → TextFits Command.wait (some value) q
text_alone c value t none e = tt
text_alone c value t (some n) e = absurd (ground (arith, e))

quiet_alone :
    (c : Bool) (n : ℕ) (t : Option Text) (q : Option ℕ)
    → (c && (is_none t && is_none q)) ≡ true
    → TextFits Command.wait t (some n)
quiet_alone c n none q e = tt
quiet_alone c n (some t) q e = absurd (ground (arith, e))

flag-Fits :
    (id : Text) (c : Command) (option : Text) (a : Agent)
    → Fits id c a
    → Kept (Fits id c) (flag c option a)
unfolding flag
flag-Fits id Command.screen option a v =
    if-satisfies (Kept (Fits id Command.screen)) _ _ _
      (kept (record a { history = some 1000 })
        (record { same = v.same; cols = v.cols; rows = v.rows; text = v.text }))
      missing
flag-Fits id Command.send option a v =
    if-satisfies (Kept (Fits id Command.send)) _ _ _
      (kept (record a { submit = true })
        (record { same = v.same; cols = v.cols; rows = v.rows; text = v.text }))
      missing
flag-Fits id Command.keys option a v = missing
flag-Fits id Command.wait option a v =
    if-satisfies (Kept (Fits id Command.wait)) _ _ _
      (kept (record a { new_text = true })
        (record { same = v.same; cols = v.cols; rows = v.rows; text = v.text }))
      missing

set_value-Fits :
    (id : Text) (c : Command) (option value : Text) (a : Agent)
    → Fits id c a
    → Kept (Fits id c) (set_value c option value a)
unfolding set_value
set_value-Fits id Command.screen option value a v =
    if-satisfies (Kept (Fits id Command.screen)) _ _ _
      (put-Kept (Fits id Command.screen) (positive (parse max_u16 value))
        (λ n. record a { cols = n })
        (λ n e. record {
          same = v.same;
          cols = positive-bounds max_u16 value n e;
          rows = v.rows;
          text = v.text;
        }))
      (if-satisfies (Kept (Fits id Command.screen)) _ _ _
        (put-Kept (Fits id Command.screen) (positive (parse max_u16 value))
          (λ n. record a { rows = n })
          (λ n e. record {
            same = v.same;
            cols = v.cols;
            rows = positive-bounds max_u16 value n e;
            text = v.text;
          }))
        missing)
set_value-Fits id Command.send option value a v =
    if-satisfies (Kept (Fits id Command.send)) _ _ _
      (put-Kept (Fits id Command.send) (parse max_u64 value) (λ n. record a { delay = n })
        (λ n e. record { same = v.same; cols = v.cols; rows = v.rows; text = v.text }))
      missing
set_value-Fits id Command.keys option value a v = missing
set_value-Fits id Command.wait option value a v =
    if-satisfies (Kept (Fits id Command.wait)) (same_bytes option (codes "--timeout")) _ _
      (put-Kept (Fits id Command.wait) (parse max_u64 value) (λ n. record a { timeout = n })
        (λ n e. record { same = v.same; cols = v.cols; rows = v.rows; text = v.text }))
      (if-cases (Kept (Fits id Command.wait))
        (same_bytes option (codes "--text") && (is_none a.text && is_none a.quiet)) _
        (if same_bytes option (codes "--quiet") && (is_none a.text && is_none a.quiet)
          then put (parse max_u64 value) (λ n. record a { quiet = some n })
          else none)
        (λ e.
          kept (record a { text = some value })
            (record {
              same = v.same;
              cols = v.cols;
              rows = v.rows;
              text = text_alone (same_bytes option (codes "--text")) value a.text a.quiet e;
            }))
        (λ other.
          if-cases (Kept (Fits id Command.wait))
            (same_bytes option (codes "--quiet") && (is_none a.text && is_none a.quiet)) _ _
            (λ e.
              put-Kept (Fits id Command.wait) (parse max_u64 value)
                (λ n. record a { quiet = some n })
                (λ n e'. record {
                  same = v.same;
                  cols = v.cols;
                  rows = v.rows;
                  text = quiet_alone (same_bytes option (codes "--quiet")) n a.text a.quiet e;
                }))
            (λ e. missing)))

pub agent_loop-Fits :
    (id : Text) (c : Command) (args : List Text) (a : Agent)
    → Fits id c a
    → Kept (Fits id c) (agent_loop c args a)
unfolding agent_loop
agent_loop-Fits id c [] a v = kept a v
agent_loop-Fits id c (option ∷ []) a v = flag-Fits id c option a v
agent_loop-Fits id c (option ∷ value ∷ rest) a v =
    if-satisfies (Kept (Fits id c)) _ _ _
      (counted (parse max_u64 value) (λ n.
        agent_loop-Fits id c rest (record a { history = some n })
          (record { same = v.same; cols = v.cols; rows = v.rows; text = v.text })))
      (flagged _ (flag c option a) (flag-Fits id c option a v) (agent_loop-Fits id c (value ∷ rest))
        (with_value (set_value c option value a) (set_value-Fits id c option value a v)
          (agent_loop-Fits id c rest)))
  where
    counted :
        (o : Option ℕ)
        → ((n : ℕ) → Kept (Fits id c) (agent_loop c rest (record a { history = some n })))
        → Kept (Fits id c) (elim o as (λ x. Option Agent) [
          | none ↦ none
          | some n ↦ agent_loop c rest (record a { history = some n })
        ])
    counted none h = missing
    counted (some n) h = h n

    with_value :
        (o : Option Agent)
        → Kept (Fits id c) o
        → ((a' : Agent) → Fits id c a' → Kept (Fits id c) (agent_loop c rest a'))
        → Kept
            (Fits id c)
            (elim o as (λ x. Option Agent) [ some a' ↦ agent_loop c rest a' | none ↦ none ])
    with_value none h more = missing
    with_value (some a') (kept _ h) more = more a' h

    flagged :
        (r o : Option Agent)
        → Kept (Fits id c) o
        → ((a' : Agent) → Fits id c a' → Kept (Fits id c) (agent_loop c (value ∷ rest) a'))
        → Kept (Fits id c) r
        → Kept
            (Fits id c)
            (elim o as (λ x. Option Agent) [ some a' ↦ agent_loop c (value ∷ rest) a' | none ↦ r ])
    flagged r none h more other = other
    flagged r (some a') (kept _ h) more other = more a' h
