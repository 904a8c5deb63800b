-- ===== src/Assets/TokenSymbol/Laws.antt =====
-- What holds of token symbols: objects/src/assets/token_symbol.rs.
use miden_base.Base.{
  ℕ, zero, suc, ◌+◌, ◌-◌, ◌*◌, ◌/◌, ◌%◌, ◌^◌, ◌≤◌, ◌<◌, ◌≡◌, refl, ap, ◌∙◌, ◌⊎◌, inl, inr,
  Bool-cases, true, false, not, ◌&&◌, List, [], ◌∷◌, ◌++◌, arith, any, All, length, replicate, leb,
  ok, err,
}
use mathlib.Core.List.{append-nil}
use native.Mathlib.Nat.{pow-le-pow_right}
use miden_base.Base.Words.{Field}
use miden_base.Errors.{token_symbol_error}
use miden_base.Assets.TokenSymbol.{
  Char, TokenSymbol, len_utf8, str_len, is_ascii_uppercase, encode_chars, new, decode_digits,
  to_str, try_from_felt,
}

-- A character from `A` to `Z`.
abbrev Upper : Char → Type 0
Upper c = (65 ≤ c) × (c ≤ 90)

-- 1 to 6 characters from `A` to `Z`.
abbrev pub IsSymbol : List Char → Type 0
IsSymbol s = All Upper s × (1 ≤ length s) × (length s ≤ 6)

-- The number that a string writes in base 26, after the digits read before.
abbrev base_26 : ℕ → List Char → ℕ
base_26 a [] = a
base_26 a (c ∷ s) = base_26 (a * 26 + (c - 65)) s

pow_small : (k : ℕ) → k ≤ 6 → 26 ^ k ≤ 26 ^ 6
pow_small k h = pow-le-pow_right {n = 26} (omega arith) h

-- One more digit.
next_small : (k a : ℕ) (c : Char) → Upper c → a < 26 ^ k → a * 26 + (c - 65) < 26 ^ suc k
next_small k a c u h = omega arith

-- The number stays below the power of its length, and no step of the loop panics.
encode_chars_lem :
    (k a : ℕ) (s : List Char)
    → All Upper s
    → a < 26 ^ k
    → k + length s ≤ 6
    → (encode_chars a s ≡ ok (base_26 a s)) × (base_26 a s < 26 ^ 6)
unfolding encode_chars
encode_chars_lem k a [] u small len = (refl, omega (arith, pow_small k (omega arith)))
encode_chars_lem k a (c ∷ s) (u, us) small len =
    let (e, b) =
      encode_chars_lem (suc k) (a * 26 + (c - 65)) s us (next_small k a c u small) (omega arith) in
    (ground (arith, next_small k a c u small, pow_small (suc k) (omega arith)), b)

-- The rounds undo the reading of a string and go on with what was read before it.
decode_digits-base_26 :
    (n m a : ℕ) (s t : List Char)
    → All Upper s
    → n ≡ length s + m
    → decode_digits n (base_26 a s) t ≡ decode_digits m a (s ++ t)
unfolding decode_digits
decode_digits-base_26 n m a [] t u h = ap (λ r. decode_digits r a t) {x = n} {y = m} (omega arith)
decode_digits-base_26 n m a (c ∷ s) t (u, us) h =
    let quotient : (a * 26 + (c - 65)) / 26 ≡ a = omega arith in
    let digit : (a * 26 + (c - 65)) % 26 + 65 ≡ c = omega arith in
    decode_digits-base_26 n (suc m) (a * 26 + (c - 65)) s t us (omega arith) ∙ ground arith

replicate_snoc : (m : ℕ) (s : List Char) → replicate m 65 ++ (65 ∷ s) ≡ 65 ∷ (replicate m 65 ++ s)
replicate_snoc zero s = refl
replicate_snoc (suc m) s = ap (λ t. 65 ∷ t) (replicate_snoc m s)

-- The rounds past the number's digits put an `A` each.
decode_digits_zero : (m : ℕ) (s : List Char) → decode_digits m 0 s ≡ replicate m 65 ++ s
unfolding decode_digits
decode_digits_zero zero s = refl
decode_digits_zero (suc m) s = decode_digits_zero m (65 ∷ s) ∙ replicate_snoc m s

-- Reading what the rounds wrote gives the number back.
base_26-decode_digits :
    (n v : ℕ) (s : List Char) → v < 26 ^ n → base_26 0 (decode_digits n v s) ≡ base_26 v s
unfolding decode_digits
base_26-decode_digits zero v s h = ap (λ a. base_26 a s) (omega arith)
base_26-decode_digits (suc n) v s h =
    base_26-decode_digits n (v / 26) ((v % 26 + 65) ∷ s) (omega arith)
    ∙ ap (λ a. base_26 a s) (omega arith)

str_len-length : (s : List Char) → All Upper s → str_len s ≡ length s
unfolding str_len len_utf8
str_len-length [] u = refl
str_len-length (c ∷ s) (u, us) = ground (arith, str_len-length s us)

no_lower : (s : List Char) → All Upper s → any (λ c. not (is_ascii_uppercase c)) s ≡ false
unfolding is_ascii_uppercase
no_lower [] u = refl
no_lower (c ∷ s) (u, us) = ground (arith, no_lower s us)

-- The checks pass on a symbol and the number is that of base 26.
encode_symbol_lem :
    ⦃F : Field⦄ (s : List Char) → IsSymbol s → (new s ≡ ok (base_26 0 s)) × (base_26 0 s < 26 ^ 6)
unfolding new
encode_symbol_lem ⦃F⦄ s (u, some_char, short) =
    let (loop, small) = encode_chars_lem 0 0 s u (omega arith) (omega arith) in
    let canonical : F.felt_new (base_26 0 s) ≡ base_26 0 s =
      F.felt_new_canonical (base_26 0 s) (omega (arith, F.half)) in
    (ground (arith, str_len-length s u, no_lower s u, loop, canonical), small)

All-Upper : (s : List Char) → any (λ c. not (is_ascii_uppercase c)) s ≡ false → All Upper s
unfolding is_ascii_uppercase
All-Upper [] h = tt
All-Upper (c ∷ s) h =
    let first : not (is_ascii_uppercase c) ≡ false = ground arith in
    let rest : any (λ c. not (is_ascii_uppercase c)) s ≡ false = ground arith in
    ((ground arith, ground arith), All-Upper s rest)

-- `new` accepts the strings of 1 to 6 letters from `A` to `Z`, which it reads in base 26, and answers
-- with its error for every other string; it never panics.
new_outcome :
    ⦃F : Field⦄ (s : List Char)
    → (IsSymbol s × (new s ≡ ok (base_26 0 s)))
      ⊎ ((¬ IsSymbol s) × (new s ≡ err token_symbol_error))
unfolding new
new_outcome s = elim (Bool-cases (any (λ c. not (is_ascii_uppercase c)) s)) [
  | inl bad ↦ inr (no_symbol bad, ground (arith, bad))
  | inr good ↦
      let u = All-Upper s good in
      let len = str_len-length s u in
      elim (Bool-cases (leb 1 (length s) && leb (length s) 6)) [
        | inl short ↦
            let symbol : IsSymbol s = (u, ground arith, ground arith) in
            inl (symbol, (encode_symbol_lem s symbol).0)
        | inr long ↦ inr ((λ h. absurd (ground (arith, h.1, h.2))), ground (arith, len))
      ]
]
  where
    no_symbol : any (λ c. not (is_ascii_uppercase c)) s ≡ true → ¬ IsSymbol s
    no_symbol bad h = absurd (cc (bad, no_lower s h.0))

-- The rounds write upper case letters, one each.
decode_digits-Upper :
    (n v : ℕ) (s : List Char)
    → All Upper s
    → All Upper (decode_digits n v s) × (length (decode_digits n v s) ≡ n + length s)
unfolding decode_digits
decode_digits-Upper zero v s u = (u, omega arith)
decode_digits-Upper (suc n) v s u =
    let (us, len) =
      decode_digits-Upper n (v / 26) ((v % 26 + 65) ∷ s) ((omega arith, omega arith), u) in
    (us, omega (arith, len))

-- A string of 1 to 6 upper case letters is a symbol, whose text is the string filled up to six
-- characters by `A` at the front.
pub to_str-new :
    ⦃F : Field⦄ (s : List Char)
    → IsSymbol s
    → (symbol : TokenSymbol) × (new s ≡ ok symbol)
      × (try_from_felt symbol ≡ ok symbol)
      × (to_str symbol ≡ ok (replicate (6 - length s) 65 ++ s))
unfolding to_str try_from_felt
to_str-new s (u, some_char, short) =
    let (encoded, small) = encode_symbol_lem s (u, some_char, short) in
    let digits =
      decode_digits-base_26 6 (6 - length s) 0 s [] u (omega arith)
      ∙ decode_digits_zero (6 - length s) (s ++ []) in
    (base_26 0 s, encoded, ground arith, ground (arith, digits, append-nil s))

-- Every number below 26^6 is the symbol of its text.
new-to_str :
    ⦃F : Field⦄ (symbol : TokenSymbol)
    → symbol < 26 ^ 6
    → (s : List Char) × (to_str symbol ≡ ok s) × (length s ≡ 6) × (new s ≡ ok symbol)
unfolding to_str
new-to_str symbol small =
    let s = decode_digits 6 symbol [] in
    let (us, len) = decode_digits-Upper 6 symbol [] tt in
    let (encoded, bound) = encode_symbol_lem s (us, omega (arith, len), omega (arith, len)) in
    (
      s,
      ground arith,
      omega (arith, len),
      encoded ∙ ap (λ v. ok v) (base_26-decode_digits 6 symbol [] small),
    )
