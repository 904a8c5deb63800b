-- ===== src/Assets/TokenSymbol.antt =====
-- `TokenSymbol`: objects/src/assets/token_symbol.rs.
pub mod Laws
use miden_base.Base.{
  ℕ, zero, suc, ◌+◌, ◌-◌, ◌*◌, ◌/◌, ◌%◌, ◌^◌, Bool, not, ◌&&◌, ◌||◌, List, [], ◌∷◌, any, ltb, leb,
  ◌==◌, if◌then◌else◌, Result, ok, err, panic, fail_if, ◌>>=◌,
}
use miden_base.Base.Words.{Felt, Field}
use miden_base.Errors.{AssetError, token_symbol_error}

-- A `char` by its code point, a string by its characters.
abbrev pub Char : Type 0
Char = ℕ

-- `TokenSymbol(Felt)`
abbrev pub TokenSymbol : Type 0
TokenSymbol = Felt

abbrev pub max_symbol_length : ℕ
max_symbol_length = 6

abbrev pub max_encoded_value : ℕ
max_encoded_value = 26 ^ max_symbol_length

-- `str::len` counts bytes of UTF-8.
unfoldable pub len_utf8 : Char → ℕ
len_utf8 c = if ltb c 128 then 1 else if ltb c 2048 then 2 else if ltb c 65536 then 3 else 4

unfoldable pub str_len : List Char → ℕ
str_len [] = 0
str_len (c ∷ s) = len_utf8 c + str_len s

unfoldable pub is_ascii_uppercase : Char → Bool
is_ascii_uppercase c = leb 65 c && leb c 90

-- The loop over the characters; the subtraction, the assertion and the `u64` may each panic.
unfoldable pub encode_chars : ℕ → List Char → Result AssetError ℕ
encode_chars encoded_value [] = ok encoded_value
encode_chars encoded_value (char ∷ s) =
    let digit = char - 65 in
    let rest = encode_chars (encoded_value * 26 + digit) s in
    if ltb char 65 || leb 26 digit || leb (2 ^ 64) (encoded_value * 26 + digit) then panic else rest

unfoldable pub encode_symbol_to_felt : ⦃F : Field⦄ → List Char → Result AssetError Felt
encode_symbol_to_felt ⦃F⦄ s =
    fail_if ((str_len s == 0) || ltb max_symbol_length (str_len s)) token_symbol_error (
      fail_if (any (λ c. not (is_ascii_uppercase c)) s) token_symbol_error
        (encode_chars 0 s >>= (λ encoded_value. ok (F.felt_new encoded_value))))

-- `new`, which `TryFrom<&str>` calls.
unfoldable pub new : ⦃F : Field⦄ → List Char → Result AssetError TokenSymbol
unfolding encode_symbol_to_felt
new s = encode_symbol_to_felt s

-- The loop that puts a digit before the string in each round.
unfoldable pub decode_digits : ℕ → ℕ → List Char → List Char
decode_digits zero remaining_value decoded_string = decoded_string
decode_digits (suc rounds) remaining_value decoded_string =
    decode_digits rounds (remaining_value / 26) ((remaining_value % 26 + 65) ∷ decoded_string)

unfoldable pub decode_felt_to_symbol : Felt → Result AssetError (List Char)
decode_felt_to_symbol encoded_felt =
    if ltb encoded_felt max_encoded_value then ok (decode_digits 6 encoded_felt []) else panic

unfoldable pub to_str : TokenSymbol → Result AssetError (List Char)
unfolding decode_felt_to_symbol
to_str self = decode_felt_to_symbol self

-- `TryFrom<Felt> for TokenSymbol`
unfoldable pub try_from_felt : Felt → Result AssetError TokenSymbol
try_from_felt felt = fail_if (leb max_encoded_value felt) token_symbol_error (ok felt)
