-- ===== src/Assets/NonFungible/Laws.antt =====
-- What holds of non-fungible assets: objects/src/assets/nonfungible.rs.
use miden_base.Base.{
  ℕ, ◌+◌, ◌*◌, ◌/◌, ◌%◌, ◌^◌, ◌≤◌, ◌<◌, bit_and, bit_xor, ◌≡◌, sym, ap, subst, ◌∙◌, ◌↔◌, arith, ok,
}
use miden_base.Base.Bits.{clear_bit}
use miden_base.Base.Words.{Felt, Field, Word}
use miden_base.Accounts.Kinds.{non_fungible_faucet, type_code-injective, account_isfaucet_mask}
use miden_base.Accounts.Id.{account_type, account_id_from_felt}
use miden_base.Assets.Data.{AccountId, NonFungibleAsset}
use miden_base.Assets.NonFungible.{from_parts, try_from_word}

-- What `from_parts` guarantees for a valid faucet.
pub record IsValid (a : NonFungibleAsset) : Type 0 where
  pub id_valid : account_id_from_felt a.word.e1 ≡ ok a.word.e1
  pub of_faucet : account_type a.word.e1 ≡ non_fungible_faucet
  pub bit_cleared : a.word.e3 / 2 ^ 61 % 2 ≡ 0

cleared : (v : ℕ) → (v / 2 ^ 61 / 2 * 2) * 2 ^ 61 + v % 2 ^ 61 ≤ v
cleared v = omega arith

faucet_bit_cleared :
    ⦃F : Field⦄ (v : ℕ)
    → v < F.modulus
    → F.felt_new (bit_xor (bit_and v account_isfaucet_mask) v)
      ≡ (v / 2 ^ 61 / 2 * 2) * 2 ^ 61 + v % 2 ^ 61
faucet_bit_cleared ⦃F⦄ v h =
    ap F.felt_new (clear_bit 61 v)
    ∙ F.felt_new_canonical ((v / 2 ^ 61 / 2 * 2) * 2 ^ 61 + v % 2 ^ 61) (omega (arith, cleared v))

-- A non-fungible asset is built exactly for the non-fungible faucets. It carries the faucet at
-- index 1 and the hash at 0 and 2; at index 3 it is the hash with bit 61 cleared.
pub from_parts_accepts :
    ⦃F : Field⦄ (id : AccountId) (hash : Word) (a : NonFungibleAsset)
    → hash.e3 < F.modulus
    → (from_parts id hash ≡ ok a) ↔ (
        (account_type id ≡ non_fungible_faucet)
        × (a.word
            ≡ record hash { e1 = id; e3 = (hash.e3 / 2 ^ 61 / 2 * 2) * 2 ^ 61 + hash.e3 % 2 ^ 61 }))
unfolding from_parts
from_parts_accepts id hash a bound = (
  λ h. ground (
    arith,
    type_code-injective (account_type id) non_fungible_faucet,
    faucet_bit_cleared hash.e3 bound,
  ),
  λ h. ground (arith, faucet_bit_cleared hash.e3 bound),
)

-- A non-fungible asset that is built from a valid faucet ID and a hash with a canonical last
-- element is valid: it carries the ID of a non-fungible faucet, and bit 61 of its last element is
-- 0.
from_parts-IsValid :
    ⦃F : Field⦄ (id : AccountId) (hash : Word) (a : NonFungibleAsset)
    → hash.e3 < F.modulus
    → account_id_from_felt id ≡ ok id
    → from_parts id hash ≡ ok a
    → IsValid a
from_parts-IsValid id hash a bound valid h =
    let (of_faucet, same) = (from_parts_accepts id hash a bound).0 h in
    let id_is : a.word.e1 ≡ id = ap (λ (w : Word). w.e1) same in
    record {
      id_valid = subst (λ x. account_id_from_felt x ≡ ok x) (sym id_is) valid;
      of_faucet = subst (λ x. account_type x ≡ non_fungible_faucet) (sym id_is) of_faucet;
      bit_cleared = omega (arith, ap (λ (w : Word). w.e3) same);
    }

-- A word that is read as a non-fungible asset is read as one with any other last element too: the
-- bit that tells the two kinds of assets apart is not looked at here.
try_from_word_ignores_bit :
    (w : Word) (e3 : Felt) (a : NonFungibleAsset)
    → try_from_word w ≡ ok a
    → try_from_word (record w { e3 = e3 }) ≡ ok (record { word = record w { e3 = e3 } })
unfolding try_from_word
try_from_word_ignores_bit w e3 a h = ground arith
