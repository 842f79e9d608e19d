-- ===== src/Base/Text.antt =====
-- Texts as their bytes: literals, comparison, and decimal numbers as Rust's standard library prints
-- and parses them.
use Prim.Native.Char.{code}
use Prim.Native.String.{String}
use Prim.Native.Nat.{ℕ, zero, suc, ◌+◌, ◌-◌, ◌*◌, ◌/◌, ◌%◌, ◌≤◌}
use mathlib.Core.Path.{◌≡◌, refl, ap, ◌∙◌}
use mathlib.Core.Bool.{Bool, true, false, ◌&&◌}
use mathlib.Core.Option.{Option, none, some, some-injective}
use mathlib.Core.List.{List, [], ◌∷◌, ◌++◌}
use native.Mathlib.Omega.{arith}
use keepty.Base.Tests.{ltb, leb, ◌==◌, if◌then◌else◌, if-cases, ltb→lt, ltb→le}
use keepty.Base.Lists.{length, drop}

-- The bytes of an ASCII literal.
abbrev pub codes : String → List ℕ
codes String.[] = []
codes (String.◌∷◌ c s) = code c ∷ codes s

abbrev pub same_bytes : List ℕ → List ℕ → Bool
same_bytes [] [] = true
same_bytes [] (y ∷ ys) = false
same_bytes (x ∷ xs) [] = false
same_bytes (x ∷ xs) (y ∷ ys) = x == y && same_bytes xs ys

-- `strip_prefix`
abbrev pub strip_prefix : List ℕ → List ℕ → Option (List ℕ)
strip_prefix [] xs = some xs
strip_prefix (p ∷ ps) [] = none
strip_prefix (p ∷ ps) (x ∷ xs) = if x == p then strip_prefix ps xs else none

abbrev pub starts_with : List ℕ → List ℕ → Bool
starts_with [] xs = true
starts_with (p ∷ ps) [] = false
starts_with (p ∷ ps) (x ∷ xs) = x == p && starts_with ps xs

abbrev pub ends_with : List ℕ → List ℕ → Bool
ends_with needle xs =
    leb (length needle) (length xs) && same_bytes (drop (length xs - length needle) xs) needle

-- `to_string` of an unsigned number; a round for each digit, and `n` rounds are enough.
digits : ℕ → ℕ → List ℕ
digits zero n = (b'0' + n % 10) ∷ []
digits (suc fuel) n =
    let rest = digits fuel (n / 10) in
    if ltb n 10 then (b'0' + n) ∷ [] else rest ++ (b'0' + n % 10) ∷ []

unfoldable pub to_string : ℕ → List ℕ
unfolding digits
to_string n = digits n n

-- One digit more, with `max` the largest value of the type.
next_digit : ℕ → Option ℕ → ℕ → Option ℕ
next_digit max none c = none
next_digit max (some n) c =
    if (leb b'0' c && leb c b'9') && leb (n * 10 + (c - b'0')) max
    then some (n * 10 + (c - b'0'))
    else none

parse_digits : ℕ → Option ℕ → List ℕ → Option ℕ
unfolding next_digit
parse_digits max n [] = n
parse_digits max n (c ∷ cs) = parse_digits max (next_digit max n c) cs

-- `str::parse` of an unsigned type: digits, a `+` before them if any.
unfoldable pub parse : ℕ → List ℕ → Option ℕ
unfolding parse_digits
parse max [] = none
parse max (c ∷ []) = parse_digits max (some 0) (c ∷ [])
parse max (c ∷ d ∷ cs) =
    let signed = parse_digits max (some 0) (d ∷ cs) in
    if c == b'+' then signed else parse_digits max (some 0) (c ∷ d ∷ cs)

pub same_bytes→eq : (xs ys : List ℕ) → same_bytes xs ys ≡ true → xs ≡ ys
same_bytes→eq [] [] h = refl
same_bytes→eq [] (y ∷ ys) h = cc
same_bytes→eq (x ∷ xs) [] h = cc
same_bytes→eq (x ∷ xs) (y ∷ ys) h = ground (arith, h, same_bytes→eq xs ys)

pub same_bytes_self : (xs : List ℕ) → same_bytes xs xs ≡ true
same_bytes_self [] = refl
same_bytes_self (x ∷ xs) = ground (arith, same_bytes_self xs)

parse_digits-append :
    (max : ℕ) (n : Option ℕ) (xs : List ℕ) (c : ℕ)
    → parse_digits max n (xs ++ c ∷ []) ≡ next_digit max (parse_digits max n xs) c
unfolding parse_digits
parse_digits-append max n [] c = refl
parse_digits-append max n (x ∷ xs) c = parse_digits-append max (next_digit max n x) xs c

next_digit_lem : (max n : ℕ) → n ≤ max → next_digit max (some (n / 10)) (b'0' + n % 10) ≡ some n
unfolding next_digit
next_digit_lem max n le = ground arith

parse_digits-digits :
    (max fuel n : ℕ) → n ≤ max → n ≤ fuel → parse_digits max (some 0) (digits fuel n) ≡ some n
unfolding digits parse_digits
parse_digits-digits max zero n le f = ground arith
parse_digits-digits max (suc fuel) n le f =
    if-cases (λ ds. parse_digits max (some 0) ds ≡ some n) (ltb n 10) ((b'0' + n) ∷ [])
      (digits fuel (n / 10) ++ (b'0' + n % 10) ∷ []) (λ small. ground arith)
      (λ large.
        parse_digits-append max (some 0) (digits fuel (n / 10)) (b'0' + n % 10)
        ∙ ap (λ o. next_digit max o (b'0' + n % 10))
            (parse_digits-digits max fuel (n / 10) (omega arith) (omega (arith, ltb→le n 10 large)))
        ∙ next_digit_lem max n le)

-- A print has digits only, and one at least.
digits-plain :
    (fuel n : ℕ) → (c : ℕ) × (cs : List ℕ) × (digits fuel n ≡ c ∷ cs) × (b'0' ≤ c) × (c ≤ b'9')
unfolding digits
digits-plain zero n = (b'0' + n % 10, [], refl, omega arith, omega arith)
digits-plain (suc fuel) n =
    if-cases (λ ds. (c : ℕ) × (cs : List ℕ) × (ds ≡ c ∷ cs) × (b'0' ≤ c) × (c ≤ b'9')) (ltb n 10)
      ((b'0' + n) ∷ []) (digits fuel (n / 10) ++ (b'0' + n % 10) ∷ [])
      (λ small. (b'0' + n, [], refl, omega arith, omega (arith, ltb→lt n 10 small)))
      (λ large.
        let (c, cs, e, lo, hi) = digits-plain fuel (n / 10) in
        (c, cs ++ (b'0' + n % 10) ∷ [], ap (λ ds. ds ++ (b'0' + n % 10) ∷ []) e, lo, hi))

parse-plain :
    (max : ℕ) (s : List ℕ) (c : ℕ) (cs : List ℕ)
    → s ≡ c ∷ cs
    → b'0' ≤ c
    → parse max s ≡ parse_digits max (some 0) s
unfolding parse
parse-plain max [] c cs e lo = cc
parse-plain max (x ∷ []) c cs e lo = refl
parse-plain max (x ∷ y ∷ ys) c cs e lo = ground (arith, e, lo)

-- Every number of the type is read back from its print.
pub parse-to_string : (max n : ℕ) → n ≤ max → parse max (to_string n) ≡ some n
unfolding to_string
parse-to_string max n le =
    let (c, cs, e, lo, hi) = digits-plain n n in
    parse-plain max (digits n n) c cs e lo ∙ parse_digits-digits max n n le (omega arith)

next_digit_le : (max : ℕ) (o : Option ℕ) (c n : ℕ) → next_digit max o c ≡ some n → n ≤ max
unfolding next_digit
next_digit_le max none c n e = cc
next_digit_le max (some m) c n e = ground (arith, e)

parse_digits_le :
    (max : ℕ) (o : Option ℕ) (cs : List ℕ) (n : ℕ)
    → ((m : ℕ) → o ≡ some m → m ≤ max)
    → parse_digits max o cs ≡ some n
    → n ≤ max
unfolding parse_digits
parse_digits_le max o [] n h e = h n e
parse_digits_le max o (c ∷ cs) n h e =
    parse_digits_le max (next_digit max o c) cs n (next_digit_le max o c) e

-- What is read fits the type.
pub parse_le : (max : ℕ) (s : List ℕ) (n : ℕ) → parse max s ≡ some n → n ≤ max
unfolding parse
parse_le max [] n e = cc
parse_le max (c ∷ []) n e =
    parse_digits_le max (some 0) (c ∷ []) n (λ m h. omega (arith, some-injective 0 m h)) e
parse_le max (c ∷ d ∷ cs) n e =
    if-cases (λ o. o ≡ some n → n ≤ max) (c == b'+') (parse_digits max (some 0) (d ∷ cs))
      (parse_digits max (some 0) (c ∷ d ∷ cs))
      (λ _ h.
        parse_digits_le max (some 0) (d ∷ cs) n (λ m h. omega (arith, some-injective 0 m h)) h)
      (λ _ h.
        parse_digits_le max (some 0) (c ∷ d ∷ cs) n (λ m h. omega (arith, some-injective 0 m h)) h)
      e

prints : to_string 65535 ≡ codes "65535"
unfolding to_string
prints = refl
