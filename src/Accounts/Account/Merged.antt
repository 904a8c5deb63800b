-- ===== src/Accounts/Account/Merged.antt =====
-- Deltas that are merged and applied, against deltas that are applied one after the other:
-- objects/src/accounts/mod.rs and objects/src/accounts/delta.
use miden_base.Base.{ℕ, ◌≡◌, refl, sym, ap, ◌∙◌, Bool, Option, none, some, ok, some_injective}
use miden_base.Base.Ints.{pos, ◌+ℤ◌, +ℤ_assoc}
use miden_base.Base.Words.{Felt, Word, Digest, Field}
use miden_base.Base.Trees.{Smt}
use miden_base.Base.Maps.{Key, nat_key, lookup}
use miden_base.Base.Maps.Sorted.{or_none}
use miden_base.Assets.Data.{AccountId, NonFungibleAsset}
use miden_base.Assets.NonFungible as NonFungibleOps
use miden_base.Delta.Fungible.Laws.{change, IsDelta, merge_adds}
use miden_base.Delta.NonFungible.{NonFungibleDeltaAction, add_action, remove_action}
use miden_base.Delta.NonFungible.Laws.{Combines, merge-Combines}
use miden_base.Delta.Storage as StorageDelta
use miden_base.Delta.Storage.Laws.{map_item, merge_overrides}
use miden_base.Delta.Account.{AccountDelta, merge}
use miden_base.Delta.Account.Parts.{merge-parts}
use miden_base.Vault.Entries.{IsVault, balance}
use miden_base.Vault.NonFungible.{owns}
use miden_base.Vault.Updates.Owned.{owned_after}
use miden_base.Vault.Updates.Before.{owned_before, apply_delta-before}
use miden_base.Accounts.Storage.Items.{overwrite, value_at, entry_at}
use miden_base.Accounts.Account.{Account, apply_delta}
use miden_base.Accounts.Account.Laws.{apply_delta-ok}
use miden_base.Accounts.Account.WellFormed.{IsWellFormed, merge-IsWellFormed}
use miden_base.Accounts.Account.Applied.{apply_delta-Applied}

overwrite-or_none :
    (new old word : Option Word)
    → overwrite (or_none new old) word ≡ overwrite new (overwrite old word)
overwrite-or_none none none none = refl
overwrite-or_none none none (some w) = refl
overwrite-or_none none (some o) none = refl
overwrite-or_none none (some o) (some w) = refl
overwrite-or_none (some n) old none = refl
overwrite-or_none (some n) none (some w) = refl
overwrite-or_none (some n) (some o) (some w) = refl

or_none_assoc : (a b c : Option Felt) → or_none (or_none a b) c ≡ or_none a (or_none b c)
or_none_assoc none b c = refl
or_none_assoc (some a) b c = refl

-- Two actions that combine do what the two do one after the other, where the first can be done.
owned_after-Combines :
    (p a r : Option NonFungibleDeltaAction) (owned : Bool)
    → Combines p a r
    → ((action : NonFungibleDeltaAction) → p ≡ some action → owned ≡ owned_before action)
    → owned_after r owned ≡ owned_after a (owned_after p owned)
owned_after-Combines p none r owned c before = ap (λ o. owned_after o owned) c
owned_after-Combines none (some add_action) r owned c before = ap (λ o. owned_after o owned) c
owned_after-Combines none (some remove_action) r owned c before = ap (λ o. owned_after o owned) c
owned_after-Combines (some add_action) (some add_action) r owned c before = absurd (cc)
owned_after-Combines (some remove_action) (some remove_action) r owned c before = absurd (cc)
owned_after-Combines (some add_action) (some remove_action) r owned c before =
    ap (λ o. owned_after o owned) c.1 ∙ before add_action refl
owned_after-Combines (some remove_action) (some add_action) r owned c before =
    ap (λ o. owned_after o owned) c.1 ∙ before remove_action refl

pos-injective : {m n : ℕ} → pos m ≡ pos n → m ≡ n
pos-injective h = cc

module _ ⦃F : Field⦄ ⦃S : Smt⦄ ⦃K : Key NonFungibleAsset⦄ ⦃D : Key Digest⦄ where
  -- The two accounts agree in all that can be read of them.
  pub record Agree (c d : Account S.Tree) : Type 0 where
    pub id : d.id ≡ c.id
    pub code : d.code ≡ c.code
    pub nonce : d.nonce ≡ c.nonce
    pub balances : (j : AccountId) → balance d.vault j ≡ balance c.vault j
    pub owned :
        (n : NonFungibleAsset) → NonFungibleOps.Laws.IsValid n → owns d.vault n ≡ owns c.vault n
    pub values : (j : ℕ) → value_at d.storage j ≡ value_at c.storage j
    pub entries : (j : ℕ) (key : Digest) → entry_at d.storage j key ≡ entry_at c.storage j key

  -- Where two well-formed deltas, the later one with balance changes that are `i64`, can be applied
  -- one after the other to an account with a vault of valid entries, and their merge can be applied
  -- to it too, both ways lead to accounts that agree in identifier, code, nonce, every balance,
  -- every valid non-fungible asset, every value slot and every item of a map slot.
  pub merge-Agree :
      (first second merged : AccountDelta) (a b c d : Account S.Tree)
      → IsVault a.vault
      → IsWellFormed first
      → IsWellFormed second
      → IsDelta second.vault.fungible
      → apply_delta first a ≡ (ok tt, b)
      → apply_delta second b ≡ (ok tt, c)
      → merge second first ≡ (ok tt, merged)
      → apply_delta merged a ≡ (ok tt, d)
      → Agree c d
  unfolding StorageDelta.merge
  merge-Agree first second merged a b c d v w w' range h k m l =
      let one = apply_delta-Applied first a b v w h in
      let two = apply_delta-Applied second b c one.vault w' k in
      let (storage, non_fungible, fungible, nonce) = merge-parts second first merged m in
      let whole =
        apply_delta-Applied merged a d v (merge-IsWellFormed second first merged w' w m) l in
      let (values, entries, _) = merge_overrides second.storage first.storage w'.values w'.maps in
      record {
        id = whole.id ∙ sym (two.id ∙ one.id);
        code = whole.code ∙ sym (two.code ∙ one.code);
        nonce = some_injective (
            whole.nonce
            ∙ ap (λ n. or_none n (some a.nonce)) nonce
            ∙ or_none_assoc second.nonce first.nonce (some a.nonce)
            ∙ ap (or_none second.nonce) (sym one.nonce)
            ∙ sym two.nonce);
        balances = λ j. pos-injective (
            whole.balances j
            ∙ ap (λ z. pos (balance a.vault j) +ℤ z)
                (merge_adds second.vault.fungible first.vault.fungible merged.vault.fungible range
                  fungible j)
            ∙ sym (
                +ℤ_assoc (pos (balance a.vault j)) (change first.vault.fungible j)
                  (change second.vault.fungible j))
            ∙ ap (λ z. z +ℤ change second.vault.fungible j) (sym (one.balances j))
            ∙ sym (two.balances j));
        owned = λ n vn.
            whole.owned n vn
            ∙ owned_after-Combines (lookup n first.vault.non_fungible)
                (lookup n second.vault.non_fungible) (lookup n merged.vault.non_fungible)
                (owns a.vault n)
                (merge-Combines second.vault.non_fungible first.vault.non_fungible
                  merged.vault.non_fungible w'.non_fungible non_fungible n)
                (λ action there.
                  apply_delta-before first.vault a.vault b.vault v w.faucets w.fungible w.assets
                    (apply_delta-ok first a b h).0 n action vn there)
            ∙ ap (owned_after (lookup n second.vault.non_fungible)) (sym (one.owned n vn))
            ∙ sym (two.owned n vn);
        values = λ j.
            whole.values j
            ∙ ap (λ o. overwrite o (value_at a.storage j))
                (ap (λ p. lookup j p.1.values) (sym storage) ∙ values j)
            ∙ overwrite-or_none (lookup j second.storage.values) (lookup j first.storage.values)
                (value_at a.storage j)
            ∙ ap (overwrite (lookup j second.storage.values)) (sym (one.values j))
            ∙ sym (two.values j);
        entries = λ j key.
            whole.entries j key
            ∙ ap (λ o. overwrite o (entry_at a.storage j key))
                (ap (λ p. map_item p.1.maps j key) (sym storage) ∙ entries j key)
            ∙ overwrite-or_none (map_item second.storage.maps j key)
                (map_item first.storage.maps j key) (entry_at a.storage j key)
            ∙ ap (overwrite (map_item second.storage.maps j key)) (sym (one.entries j key))
            ∙ sym (two.entries j key);
      }
