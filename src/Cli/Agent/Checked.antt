-- ===== src/Cli/Agent/Checked.antt =====
-- What `run_agent` of keepty/src/main.rs can rely on behind its argument checks.
use keepty.Base.{
  ℕ, ◌≤◌, ◌≡◌, refl, ap, ◌∙◌, subst, ◌⊎◌, inl, inr, Bool, true, false, ◌&&◌, ◌||◌, List, [], ◌∷◌,
  Option, none, some, ltb, ◌==◌, arith, if-cases, ltb→le, ==→ne,
}
use keepty.Base.Results.{Result, ok, err, ◌>>=◌}
use keepty.Base.Text.{codes, starts_with}
use keepty.Broker.Args.{Text, max_u16, is_empty}
use keepty.Cli.Keys.{named_key, named_key-Modes, Modes, alike, cursor}
use keepty.Cli.Agent.{
  Command, Agent, AgentError, invalid, unknown_key, defaults, key_bytes, is_none, agent_loop,
  read_options, is_wait, is_some_empty, is_some_zero, checked, agent_args,
}
use keepty.Cli.Agent.Loop.{Kept, missing, kept, TextFits, Fits, agent_loop-Fits}

-- A result that is there has the property.
data Valued {ℓ κ μ} {A : Type ℓ} {E : Type μ} (P : A → Type κ) : Result E A → Type (ℓ ⊔ κ ⊔ μ) where
  refused : (e : E) → Valued P (err e)
  valued : (a : A) → P a → Valued P (ok a)

-- The names are keys in both cursor modes, with the bytes that were found for them.
abbrev pub Named : List Text → List (List ℕ) → Type 0
Named [] [] = Unit
Named [] (key ∷ keys) = ⊥
Named (name ∷ names) [] = ⊥
Named (name ∷ names) (key ∷ keys) =
    (named_key name false ≡ some key)
    × ((application : List ℕ) × (named_key name true ≡ some application))
    × Named names keys

paired_key :
    {r s : Option (List ℕ)} (key : List ℕ)
    → Modes r s
    → s ≡ some key
    → (application : List ℕ) × (r ≡ some application)
paired_key key alike e = (key, e)
paired_key key (cursor c) e = (_, refl)

key_bytes-Named : (names : List Text) → Valued (Named names) (key_bytes names)
unfolding key_bytes
key_bytes-Named [] = valued [] tt
key_bytes-Named (name ∷ names) =
    with_key (named_key name false) refl (key_bytes names) (key_bytes-Named names)
  where
    with_key :
        (key : Option (List ℕ))
        → named_key name false ≡ key
        → (rest : Result AgentError (List (List ℕ))) → Valued (Named names) rest
        → Valued (Named (name ∷ names)) (elim key as (λ x. Result AgentError (List (List ℕ))) [
          | none ↦ err (unknown_key name)
          | some bytes ↦ rest >>= λ keys. ok (bytes ∷ keys)
        ])
    with_key none e rest h = refused (unknown_key name)
    with_key (some bytes) e _ (refused x) = refused x
    with_key (some bytes) e _ (valued keys h) =
        valued (bytes ∷ keys) (e, paired_key bytes (named_key-Modes name).0 e, h)

-- What each command needs: a text to send; keys that have bytes in both cursor modes; and to wait
-- for, either a text that is not empty or a time of quiet that is not 0, in which case `--new` is not
-- given.
abbrev pub Purpose : Command → Agent → Type 0
Purpose Command.screen a = Unit
Purpose Command.send a = (t : Text) × (a.text ≡ some t)
Purpose Command.keys a = Named a.names a.keys × (is_empty a.names ≡ false)
Purpose Command.wait a =
    ((t : Text) × (a.text ≡ some t) × (is_empty t ≡ false) × (a.quiet ≡ none))
    ⊎ ((n : ℕ) × (a.quiet ≡ some n) × (1 ≤ n) × (a.text ≡ none) × (a.new_text ≡ false))

-- What the arguments of a command come to when they are not refused.
pub record Valid (c : Command) (a : Agent) : Type 0 where
  pub id : starts_with (codes "-") a.id ≡ false
  pub cols : (1 ≤ a.cols) × (a.cols ≤ max_u16)
  pub rows : (1 ≤ a.rows) × (a.rows ≤ max_u16)
  pub delay : 50 ≤ a.delay
  pub purpose : Purpose c a

abbrev KeysFit : Command → Agent → Type 0
KeysFit Command.keys a = Named a.names a.keys × (is_empty a.names ≡ false)
KeysFit _ a = Unit

abbrev Read : Text → Command → Agent → Type 0
Read id c a = Fits id c a × KeysFit c a

loop_Read :
    (id : Text) (c : Command) (args : List Text) (a : Agent)
    → Fits id c a
    → ((b : Agent) → KeysFit c b)
    → Valued (Read id c) (elim (agent_loop c args a) as (λ x. Result AgentError Agent) [
      | none ↦ err invalid
      | some b ↦ ok b
    ])
loop_Read id c args a v free = of_kept (agent_loop c args a) (agent_loop-Fits id c args a v)
  where
    of_kept :
        (o : Option Agent)
        → Kept (Fits id c) o
        → Valued
            (Read id c)
            (elim o as (λ x. Result AgentError Agent) [ none ↦ err invalid | some b ↦ ok b ])
    of_kept _ missing = refused invalid
    of_kept _ (kept b h) = valued b (h, free b)

read_options-Read :
    (c : Command) (id : Text) (args : List Text) → Valued (Read id c) (read_options c id args)
unfolding read_options
read_options-Read Command.keys id [] = refused invalid
read_options-Read Command.keys id (name ∷ names) =
    named (key_bytes (name ∷ names)) (key_bytes-Named (name ∷ names))
  where
    named :
        (r : Result AgentError (List (List ℕ)))
        → Valued (Named (name ∷ names)) r
        → Valued
            (Read id Command.keys)
            (r >>= λ keys. ok (record (defaults id) { names = name ∷ names; keys = keys }))
    named _ (refused e) = refused e
    named _ (valued keys h) =
        valued (record (defaults id) { names = name ∷ names; keys = keys })
          (
            record {
              same = refl;
              cols = (omega arith, omega arith);
              rows = (omega arith, omega arith);
              text = tt;
            },
            (h, refl),
          )
read_options-Read Command.send id [] = refused invalid
read_options-Read Command.send id (text ∷ rest) =
    loop_Read id Command.send rest (record (defaults id) { text = some text })
      (record {
        same = refl;
        cols = (omega arith, omega arith);
        rows = (omega arith, omega arith);
        text = tt;
      })
      (λ b. tt)
read_options-Read Command.screen id args =
    loop_Read id Command.screen args (defaults id)
      (record {
        same = refl;
        cols = (omega arith, omega arith);
        rows = (omega arith, omega arith);
        text = tt;
      })
      (λ b. tt)
read_options-Read Command.wait id args =
    loop_Read id Command.wait args (defaults id)
      (record {
        same = refl;
        cols = (omega arith, omega arith);
        rows = (omega arith, omega arith);
        text = tt;
      })
      (λ b. tt)

waited :
    (t : Option Text) (q : Option ℕ) (new short : Bool)
    → TextFits Command.wait t q
    → ((is_none t && is_none q) || (new && is_none t)) ≡ false
    → (short || (is_some_zero q || is_some_empty t)) ≡ false
    → ((u : Text) × (t ≡ some u) × (is_empty u ≡ false) × (q ≡ none))
      ⊎ ((n : ℕ) × (q ≡ some n) × (1 ≤ n) × (t ≡ none) × (new ≡ false))
waited none none new short fits given e = absurd (ground (arith, given))
waited none (some n) new short fits given e =
    inr (n, refl, positive_number (n == 0) refl, refl, ground (arith, given))
  where
    positive_number : (z : Bool) → (n == 0) ≡ z → 1 ≤ n
    positive_number true same = absurd (ground (arith, e, same))
    positive_number false same = omega (arith, ==→ne n 0 same)
waited (some u) none new short fits given e = inl (u, refl, ground (arith, e), refl)
waited (some u) (some n) new short fits given e = elim fits [ ]

purposed :
    (c : Command) (a : Agent)
    → TextFits c a.text a.quiet
    → KeysFit c a
    → (is_wait c && ((is_none a.text && is_none a.quiet) || (a.new_text && is_none a.text))) ≡ false
    → (ltb a.delay 50 || (is_some_zero a.quiet || (is_wait c && is_some_empty a.text))) ≡ false
    → Purpose c a
purposed Command.screen a fits keys given e = tt
purposed Command.send a fits keys given e = sent a.text fits
  where
    sent : (t : Option Text) → TextFits Command.send t a.quiet → (u : Text) × (t ≡ some u)
    sent none fits = elim fits [ ]
    sent (some u) fits = (u, refl)
purposed Command.keys a fits keys given e = keys
purposed Command.wait a fits keys given e =
    waited a.text a.quiet a.new_text (ltb a.delay 50) fits given e

checked-Valid :
    (c : Command) (id : Text) (r : Result AgentError Agent)
    → starts_with (codes "-") id ≡ false
    → Valued (Read id c) r
    → Valued (Valid c) (r >>= checked c)
unfolding checked
checked-Valid c id _ plain (refused e) = refused e
checked-Valid c id _ plain (valued a (v, keys)) =
    if-cases (Valued (Valid c))
      (is_wait c && ((is_none a.text && is_none a.quiet) || (a.new_text && is_none a.text)))
      (err invalid) _ (λ _. refused invalid)
      (λ given.
        if-cases (Valued (Valid c))
          (ltb a.delay 50 || (is_some_zero a.quiet || (is_wait c && is_some_empty a.text)))
          (err invalid) (ok a) (λ _. refused invalid)
          (λ e. valued a (record {
            id = ap (starts_with (codes "-")) v.same ∙ plain;
            cols = v.cols;
            rows = v.rows;
            delay = ltb→le a.delay 50 (ground (arith, e));
            purpose = purposed c a v.text keys given e;
          })))

-- Whenever the arguments of `keepty screen`, `send`, `keys` or `wait` are not refused: the id does not
-- begin with a dash; the columns and rows are positive 16-bit numbers; the delay is 50 ms at least;
-- `send` has a text; `keys` has names, the bytes found are theirs in order, and each of them has
-- bytes with application cursor keys too; `wait` has either a text that is not empty or a positive
-- time of quiet, not both, and with the latter no `--new`.
pub agent_args-Valid :
    (c : Command) (args : List Text) (a : Agent) → agent_args c args ≡ ok a → Valid c a
unfolding agent_args
agent_args-Valid c args a e = of_valued (agent_args c args) (all args) e
  where
    all : (args : List Text) → Valued (Valid c) (agent_args c args)
    all [] = refused invalid
    all (id ∷ rest) =
        if-cases (Valued (Valid c)) (starts_with (codes "-") id) (err invalid)
          (read_options c id rest >>= checked c) (λ _. refused invalid)
          (λ plain. checked-Valid c id (read_options c id rest) plain (read_options-Read c id rest))

    of_valued : (r : Result AgentError Agent) → Valued (Valid c) r → r ≡ ok a → Valid c a
    of_valued _ (refused x) same = absurd cc
    of_valued _ (valued b v) same = let value : b ≡ a = cc in subst (Valid c) value v
