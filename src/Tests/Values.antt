-- ===== src/Tests/Values.antt =====
-- A field, a sparse Merkle tree and the order of digests, as functions that compute, and some
-- identifiers and assets.
use miden_base.Base.{
  ℕ, ◌+◌, ◌-◌, ◌*◌, ◌%◌, ◌^◌, ◌≤◌, ◌≡◌, refl, sym, ap, ◌↔◌, Bool, true, false, ◌||◌, none, some,
  List, [], ◌∷◌, arith, ltb, ◌==◌, if◌then◌else◌, ok,
}
use native.Mathlib.Nat.{mod-eq_of_lt}
use miden_base.Base.Maps.{Key}
use miden_base.Base.Words.{Field, Word, Digest, empty_word, word_eq, word_eq_iff}
use miden_base.Base.Trees.{Smt, entry_value}
use miden_base.Accounts.Kinds.{account_type_from_u64}
use miden_base.Assets.Fungible
use miden_base.Assets.NonFungible
use miden_base.Accounts.Id.{account_id_from_felt, ones}
use miden_base.Assets.Data.{AccountId, FungibleAsset, NonFungibleAsset}

abbrev pub goldilocks_modulus : ℕ
goldilocks_modulus = 2 ^ 64 - 2 ^ 32 + 1

instance abbrev pub goldilocks : Field
goldilocks = record {
  modulus = goldilocks_modulus;
  half = omega arith;
  within_u64 = omega arith;
  felt_new = λ v. v % goldilocks_modulus;
  felt_new_canonical = λ v h. mod-eq_of_lt h;
}

-- A tree is the list of its writes, the latest first.
abbrev pub Entries : Type 0
Entries = List (Digest × Word)

abbrev latest : Entries → Digest
latest [] = empty_word
latest ((_, w) ∷ _) = w

abbrev has_key : Digest → Entries → Bool
has_key k [] = false
has_key k ((j, _) ∷ es) = word_eq j k || has_key k es

abbrev distinct : Entries → Bool
distinct [] = true
distinct ((k, _) ∷ es) = if has_key k es then false else distinct es

pub entries-with :
    (es t : Entries)
    → (if distinct es then some es else none) ≡ some t
    → (k : Digest) → entry_value t k ≡ entry_value es k
entries-with es t h k = ap (λ (x : Entries). entry_value x k) (sym (ground arith))

instance abbrev pub entries_smt : Smt
entries_smt = record {
  Tree = Entries;
  new = [];
  root = latest;
  get_value = entry_value;
  insert = λ t k v. (entry_value t k, (k, v) ∷ t);
  with_entries = λ es. if distinct es then some es else none;
  get_value-new = λ k. refl;
  insert_old = λ t k v. refl;
  get_value-insert = λ t k v j. refl;
  get_value-with_entries = entries-with;
}

-- Digests in the order of their elements.
abbrev lex : ℕ → ℕ → Bool → Bool
lex a b rest = if ltb a b then true else if a == b then rest else false

abbrev pub digest_lt : Digest → Digest → Bool
digest_lt a b = lex a.e0 b.e0 (lex a.e1 b.e1 (lex a.e2 b.e2 (ltb a.e3 b.e3)))

pub digest_irrefl : (a : Digest) → digest_lt a a ≡ false
digest_irrefl a = ground arith

pub digest_trans :
    (a b c : Digest) → digest_lt a b ≡ true → digest_lt b c ≡ true → digest_lt a c ≡ true
digest_trans a b c h k = ground arith

pub digest_connex :
    (a b : Digest) → word_eq a b ≡ false → digest_lt a b ≡ false → digest_lt b a ≡ true
digest_connex a b h k = ground arith

instance abbrev pub digest_key : Key Digest
digest_key = record {
  beq = word_eq;
  lt = digest_lt;
  beq_iff = word_eq_iff;
  lt_irrefl = digest_irrefl;
  lt_trans = digest_trans;
  lt_connex = digest_connex;
}

pub asset_eq_iff : (a b : NonFungibleAsset) → (word_eq a.word b.word ≡ true) ↔ (a ≡ b)
asset_eq_iff a b = (
  λ h. ap (λ w. record { word = w }) ((word_eq_iff a.word b.word).0 h),
  λ e. (word_eq_iff a.word b.word).1 (ap (λ (x : NonFungibleAsset). x.word) e),
)

instance abbrev pub asset_key : Key NonFungibleAsset
asset_key = record {
  beq = λ a b. word_eq a.word b.word;
  lt = λ a b. digest_lt a.word b.word;
  beq_iff = asset_eq_iff;
  lt_irrefl = λ a. digest_irrefl a.word;
  lt_trans = λ a b c. digest_trans a.word b.word c.word;
  lt_connex = λ a b. digest_connex a.word b.word;
}

-- A public fungible faucet, a public non-fungible one, and a regular account.
abbrev pub coin_faucet : AccountId
coin_faucet = 2 * 2 ^ 60 + 31

abbrev pub art_faucet : AccountId
art_faucet = 3 * 2 ^ 60 + 31

abbrev pub wallet : AccountId
wallet = 31

abbrev pub coins : ℕ → FungibleAsset
coins n = record { faucet_id = coin_faucet; amount = n }

abbrev pub painting : NonFungibleAsset
painting = record { word = record { e0 = 5; e1 = art_faucet; e2 = 6; e3 = 7 } }

pub coin_faucet-valid : account_id_from_felt coin_faucet ≡ ok coin_faucet
unfolding account_id_from_felt ones
coin_faucet-valid = refl

pub art_faucet-valid : account_id_from_felt art_faucet ≡ ok art_faucet
unfolding account_id_from_felt ones
art_faucet-valid = refl

pub wallet-valid : account_id_from_felt wallet ≡ ok wallet
unfolding account_id_from_felt ones
wallet-valid = refl

pub coins-IsValid : (n : ℕ) → n ≤ 2 ^ 63 - 1 → Fungible.Laws.IsValid (coins n)
unfolding account_type_from_u64
coins-IsValid n h = record { id_valid = coin_faucet-valid; of_faucet = refl; bounded = h }

pub painting-IsValid : NonFungible.Laws.IsValid painting
unfolding account_type_from_u64
painting-IsValid = record { id_valid = art_faucet-valid; of_faucet = refl; bit_cleared = refl }
