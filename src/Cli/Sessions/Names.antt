-- ===== src/Cli/Sessions/Names.antt =====
-- The names of session files, as `cmd_list` of keepty/src/main.rs reads them.
use keepty.Base.{
  ℕ, zero, suc, ◌+◌, ◌-◌, ◌≤◌, ◌≡◌, ◌≢◌, refl, ap, ap₂, sym, ◌∙◌, subst, true, false, ◌&&◌, [], ◌∷◌,
  ◌++◌, length, take, drop, if-cases, arith, length-append, take-append, drop-append,
  take-append-drop, le→leb, ==→eq,
}
use keepty.Base.Text.{codes, starts_with, ends_with, same_bytes→eq, same_bytes_self}
use keepty.Broker.Args.{Text}
use keepty.Cli.Sessions.{socket_file, Name, other, session, name_of}

starts_with-drop : (p text : Text) → starts_with p text ≡ true → text ≡ p ++ drop (length p) text
starts_with-drop [] text h = refl
starts_with-drop (c ∷ p) [] h = absurd (ground (arith, h))
starts_with-drop (c ∷ p) (d ∷ text) h =
    ap₂ (λ x xs. x ∷ xs) (==→eq d c (ground (arith, h)))
      (starts_with-drop p text (ground (arith, h)))

starts_with_self : (p text : Text) → starts_with p (p ++ text) ≡ true
starts_with_self [] text = refl
starts_with_self (c ∷ p) text = ground (arith, starts_with_self p text)

length-socket_file : (id : Text) → length (socket_file id) ≡ length id + 12
length-socket_file id = omega (arith, length-append id (codes ".sock"))

drop_nil : (n : ℕ) → ◌≡◌ {A = Text} (drop n []) []
drop_nil zero = refl
drop_nil (suc n) = refl

drop-drop : (a b : ℕ) (xs : Text) → drop (a + b) xs ≡ drop b (drop a xs)
drop-drop zero b xs = ap (λ n. drop n xs) (zero_plus b)
  where
    zero_plus : (b : ℕ) → 0 + b ≡ b
    zero_plus b = omega arith
drop-drop (suc a) b [] = drop_nil (suc a + b) ∙ sym (drop_nil b)
drop-drop (suc a) b (x ∷ xs) = ap (λ n. drop n (x ∷ xs)) (suc_plus a b) ∙ drop-drop a b xs
  where
    suc_plus : (a b : ℕ) → suc a + b ≡ suc (a + b)
    suc_plus a b = omega arith

ends_with-suffix : (needle text : Text) → ends_with needle (text ++ needle) ≡ true
ends_with-suffix needle text =
    let size : length (text ++ needle) - length needle ≡ length text =
      omega (arith, length-append text needle) in
    let found : drop (length (text ++ needle) - length needle) (text ++ needle) ≡ needle =
      ap (λ n. drop n (text ++ needle)) size ∙ drop-append text needle in
    rw
      (
        le→leb (length needle) (length (text ++ needle)) (omega (arith, length-append text needle)),
        found,
      )
      (same_bytes_self needle)

-- The file that `socket_path` ends in is read back as its session, whatever text the id is.
pub name_of-socket_file : (id : Text) → name_of (socket_file id) ≡ session id
unfolding name_of
name_of-socket_file id =
    let sized : length (socket_file id) - 5 - 7 ≡ length id =
      omega (arith, length-socket_file id) in
    rw
      (
        ends_with-suffix (codes ".sock") (codes "keepty-" ++ id),
        le→leb 7 (length (socket_file id) - 5) (omega (arith, length-socket_file id)),
      )
      (ap session (ap (λ n. take n (id ++ codes ".sock")) sized ∙ take-append id (codes ".sock")))

-- The prefix and the suffix of a name do not overlap, since one ends in a dash and the other begins with
-- a dot.
no_overlap :
    (body : Text) → ends_with (codes ".sock") (codes "keepty-" ++ body) ≡ true → 5 ≤ length body
no_overlap [] h = absurd (ground (arith, h))
no_overlap (a ∷ []) h = absurd (ground (arith, h))
no_overlap (a ∷ b ∷ []) h = absurd (ground (arith, h))
no_overlap (a ∷ b ∷ c ∷ []) h = absurd (ground (arith, h))
no_overlap (a ∷ b ∷ c ∷ d ∷ []) h = absurd (ground (arith, h))
no_overlap (a ∷ b ∷ c ∷ d ∷ e ∷ body) h = omega arith

-- What a name with the prefix and the suffix is.
between :
    (name : Text)
    → starts_with (codes "keepty-") name ≡ true
    → ends_with (codes ".sock") name ≡ true
    → (7 ≤ length name - 5) × (name ≡ socket_file (take (length name - 5 - 7) (drop 7 name)))
between name starts ends =
    let body = drop 7 name in
    let whole : name ≡ codes "keepty-" ++ body = starts_with-drop (codes "keepty-") name starts in
    let long : 5 ≤ length body =
      no_overlap body (ap (ends_with (codes ".sock")) (sym whole) ∙ ends) in
    let size : length name ≡ length body + 7 = ap (λ (xs : Text). length xs) whole ∙ omega arith in
    let tail : drop (length name - 5 - 7) body ≡ codes ".sock" =
      sym (drop-drop 7 (length name - 5 - 7) name)
      ∙ ap (λ n. drop n name) (omega (arith, size, long))
      ∙ same_bytes→eq (drop (length name - 5) name) (codes ".sock") (ground (arith, ends)) in
    (
      omega (arith, size, long),
      whole
          ∙ ap (λ xs. codes "keepty-" ++ xs)
              (sym (take-append-drop (length name - 5 - 7) body)
                ∙ ap (λ xs. take (length name - 5 - 7) body ++ xs) tail),
    )

-- What the loop takes a name for.
pub data Reads (name : Text) : Name → Type 0 where
  as_session : (id : Text) → name ≡ socket_file id → Reads name (session id)
  as_other : ((id : Text) → name ≢ socket_file id) → Reads name other

pub name_of-Reads : (name : Text) → Reads name (name_of name)
unfolding name_of
name_of-Reads name =
    if-cases (Reads name) (starts_with (codes "keepty-") name && ends_with (codes ".sock") name) _
      other
      (λ both.
        let (long, whole) = between name (ground (arith, both)) (ground (arith, both)) in
        rw (le→leb 7 (length name - 5) long)
          (as_session (take (length name - 5 - 7) (drop 7 name)) whole))
      (λ not_both. as_other (λ id same.
        let e : starts_with (codes "keepty-") (socket_file id)
              && ends_with (codes ".sock") (socket_file id)
            ≡ false =
          subst (λ n. starts_with (codes "keepty-") n && ends_with (codes ".sock") n ≡ false) same
            not_both in
        absurd (ground (arith, e, ends_with-suffix (codes ".sock") (codes "keepty-" ++ id)))))
