-- ===== src/Broker/Session/Delivery.antt =====
-- Who gets a broadcast of keepty/src/broker.rs: every client whose queue takes it, and the others
-- are removed.
use keepty.Base.{
  ℕ, ◌≡◌, refl, ap, sym, ◌∙◌, ◌⊎◌, inl, inr, false, List, [], ◌∷◌, Option, none, some, arith, ◌==◌,
  if◌then◌else◌, subst, if-cases, Bool-cases, Option-cases, ==→eq, ==→ne,
}
use mathlib.Core.Option.{none-ne-some, some-ne-none, some-injective}
use keepty.Broker.Queue.{Pending, send}
use keepty.Broker.Session.{
  BrokerState, Client, find, remove, send_all, drop_found, drop_client, evict, broadcast,
}

-- `id` is in the list.
abbrev Listed : ℕ → List ℕ → Type 0
Listed id [] = ⊥
Listed id (j ∷ js) = (j ≡ id) ⊎ Listed id js

find-remove {ℓ} :
    {A : Type ℓ} (k j : ℕ) (m : List (ℕ × A))
    → find k (remove j m) ≡ (if j == k then none else find k m)
unfolding find remove
find-remove k j [] = ground arith
find-remove k j ((i, a) ∷ m) = ground (arith, find-remove k j m)

send_all-refused :
    (encoded : List ℕ) (j : ℕ) (d : Client) (cs : List (ℕ × Client))
    → send encoded d.tx ≡ none
    → send_all encoded ((j, d) ∷ cs)
      ≡ ((j, d) ∷ (send_all encoded cs).0, j ∷ (send_all encoded cs).1)
unfolding send_all
send_all-refused encoded j d cs e =
    let (cs', dead) = send_all encoded cs in
    ap
      (λ (o : Option Pending). elim o [
        | some q ↦ ((j, record d { tx = q }) ∷ cs', dead)
        | none ↦ ((j, d) ∷ cs', j ∷ dead)
      ])
      e

send_all-taken :
    (encoded : List ℕ) (j : ℕ) (d : Client) (cs : List (ℕ × Client)) (q : Pending)
    → send encoded d.tx ≡ some q
    → send_all encoded ((j, d) ∷ cs)
      ≡ ((j, record d { tx = q }) ∷ (send_all encoded cs).0, (send_all encoded cs).1)
unfolding send_all
send_all-taken encoded j d cs q e =
    let (cs', dead) = send_all encoded cs in
    ap
      (λ (o : Option Pending). elim o [
        | some q ↦ ((j, record d { tx = q }) ∷ cs', dead)
        | none ↦ ((j, d) ∷ cs', j ∷ dead)
      ])
      e

-- A broadcast reaches the client of an id, or lists it as dead.
abbrev Reaches : List ℕ → ℕ → Client → List (ℕ × Client) × List ℕ → Type 0
Reaches encoded id c r =
    ((q : Pending) × (send encoded c.tx ≡ some q) × (find id r.0 ≡ some (record c { tx = q })))
    ⊎ Listed id r.1

skips :
    (encoded : List ℕ) (id j : ℕ) (c d : Client) (r : List (ℕ × Client) × List ℕ)
    → (j == id) ≡ false
    → Reaches encoded id c r
    → Reaches encoded id c ((j, d) ∷ r.0, r.1)
unfolding find
skips encoded id j c d r other (inl (q, sent, found)) =
    inl (q, sent, ap (λ b. if b then some d else find id r.0) other ∙ found)
skips encoded id j c d r other (inr l) = inr l

dies :
    (encoded : List ℕ) (id j : ℕ) (c : Client) (r : List (ℕ × Client) × List ℕ)
    → Reaches encoded id c r
    → Reaches encoded id c (r.0, j ∷ r.1)
dies encoded id j c r (inl x) = inl x
dies encoded id j c r (inr l) = inr (inr l)

find-send_all :
    (encoded : List ℕ) (id : ℕ) (cs : List (ℕ × Client)) (c : Client)
    → find id cs ≡ some c
    → Reaches encoded id c (send_all encoded cs)
unfolding find
find-send_all encoded id [] c e = absurd (none-ne-some _ e)
find-send_all encoded id ((j, d) ∷ cs) c e = elim (Bool-cases (j == id)) [
  | inl same ↦
      let found : d ≡ c =
        some-injective _ _ (sym (ap (λ b. if b then some d else find id cs) same) ∙ e) in
      elim (Option-cases (send encoded d.tx)) [
        | inl full ↦
            subst (Reaches encoded id c) (sym (send_all-refused encoded j d cs full))
              (inr (inl (==→eq j id same)))
        | inr (q, sent) ↦
            subst (Reaches encoded id c) (sym (send_all-taken encoded j d cs q sent)) (
              inl (
                q,
                ap (λ (x : Client). send encoded x.tx) (sym found) ∙ sent,
                ap (λ b. if b then some (record d { tx = q }) else find id (send_all encoded cs).0)
                      same
                    ∙ ap (λ (x : Client). some (record x { tx = q })) found,
              ))
      ]
  | inr other ↦
      let found : find id cs ≡ some c =
        sym (ap (λ b. if b then some d else find id cs) other) ∙ e in
      let rest = find-send_all encoded id cs c found in
      elim (Option-cases (send encoded d.tx)) [
        | inl full ↦ subst (Reaches encoded id c) (sym (send_all-refused encoded j d cs full)) (
            dies encoded id j c ((j, d) ∷ (send_all encoded cs).0, (send_all encoded cs).1)
              (skips encoded id j c d (send_all encoded cs) other rest))
        | inr (q, sent) ↦
            subst (Reaches encoded id c) (sym (send_all-taken encoded j d cs q sent))
              (skips encoded id j c (record d { tx = q }) (send_all encoded cs) other rest)
      ]
]

-- A broadcast has no other ids than before.
absent :
    (encoded : List ℕ) (id : ℕ) (cs : List (ℕ × Client))
    → find id cs ≡ none
    → find id (send_all encoded cs).0 ≡ none
unfolding find send_all
absent encoded id [] e = refl
absent encoded id ((j, d) ∷ cs) e = elim (Bool-cases (j == id)) [
  | inl same ↦ absurd (some-ne-none d (sym (ap (λ b. if b then some d else find id cs) same) ∙ e))
  | inr other ↦
      let rest =
        absent encoded id cs (sym (ap (λ b. if b then some d else find id cs) other) ∙ e) in
      let NotFound : List (ℕ × Client) × List ℕ → Type 0 = λ r. find id r.0 ≡ none in
      elim (Option-cases (send encoded d.tx)) [
        | inl full ↦
            subst NotFound (sym (send_all-refused encoded j d cs full))
              (ap (λ b. if b then some d else find id (send_all encoded cs).0) other ∙ rest)
        | inr (q, sent) ↦ subst NotFound (sym (send_all-taken encoded j d cs q sent)) (
            ap (λ b. if b then some (record d { tx = q }) else find id (send_all encoded cs).0)
              other
            ∙ rest)
      ]
]

present :
    (encoded : List ℕ) (id : ℕ) (cs : List (ℕ × Client)) (c' : Client)
    → find id (send_all encoded cs).0 ≡ some c'
    → (c : Client) × (find id cs ≡ some c)
present encoded id cs c' e = elim (Option-cases (find id cs)) [
  | inl gone ↦ absurd (none-ne-some _ (sym (absent encoded id cs gone) ∙ e))
  | inr found ↦ found
]

module _ {S : Type 0} where
  clients-drop_found :
      (id k : ℕ) (found : Option Client) (b : BrokerState S)
      → find id b.clients ≡ found
      → find k (drop_found id found b).clients ≡ (if id == k then none else find k b.clients)
  unfolding drop_found
  clients-drop_found id k none b e =
      if-cases (λ o. find k b.clients ≡ o) (id == k) none (find k b.clients)
        (λ same. ap (λ i. find i b.clients) (sym (==→eq id k same)) ∙ e) (λ other. refl)
  clients-drop_found id k (some c) b e = find-remove k id b.clients

  clients-drop_client :
      (id k : ℕ) (b : BrokerState S)
      → find k (drop_client id b).clients ≡ (if id == k then none else find k b.clients)
  unfolding drop_client
  clients-drop_client id k b = clients-drop_found id k (find id b.clients) b refl

  -- Evicting takes the listed clients away and no others.
  find-evict :
      (dead : List ℕ) (id : ℕ) (b : BrokerState S) (c : Client)
      → find id (evict dead b).clients ≡ some c
      → (find id b.clients ≡ some c) × (Listed id dead → ⊥)
  unfolding evict
  find-evict [] id b c e = (e, λ x. x)
  find-evict (j ∷ dead) id b c e =
      let (found, rest) = find-evict dead id _ c e in
      let kept : (if j == id then none else find id b.clients) ≡ some c =
        sym (clients-drop_client j id b) ∙ found in
      elim (Bool-cases (j == id)) [
        | inl same ↦
            absurd
              (none-ne-some _ (sym (ap (λ x. if x then none else find id b.clients) same) ∙ kept))
        | inr other ↦ (
          sym (ap (λ x. if x then none else find id b.clients) other) ∙ kept,
          λ l. elim l [ inl e' ↦ ==→ne j id other e' | inr l' ↦ rest l' ],
        )
      ]

  -- A client still there after a broadcast has it in its queue.
  pub broadcast_reaches :
      (encoded : List ℕ) (b : BrokerState S) (id : ℕ) (c c' : Client)
      → find id b.clients ≡ some c
      → find id (broadcast encoded b).clients ≡ some c'
      → (send encoded c.tx ≡ some c'.tx) × (c'.role ≡ c.role)
  unfolding broadcast
  broadcast_reaches encoded b id c c' before after =
      let (found, alive) = find-evict (send_all encoded b.clients).1 id _ c' after in
      elim (find-send_all encoded id b.clients c before) [
        | inl (q, sent, now) ↦
            let same : record c { tx = q } ≡ c' = some-injective _ _ (sym now ∙ found) in
            (sent ∙ ap (λ (x : Client). some x.tx) same, sym (ap (λ (x : Client). x.role) same))
        | inr l ↦ absurd (alive l)
      ]

  -- Nobody joins by a broadcast.
  pub broadcast_keeps :
      (encoded : List ℕ) (b : BrokerState S) (id : ℕ) (c' : Client)
      → find id (broadcast encoded b).clients ≡ some c'
      → (c : Client) × (find id b.clients ≡ some c)
  unfolding broadcast
  broadcast_keeps encoded b id c' after =
      let (found, alive) = find-evict (send_all encoded b.clients).1 id _ c' after in
      present encoded id b.clients c' found
