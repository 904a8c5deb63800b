-- ===== src/Assets.antt =====
-- Assets and the vault: objects/src/assets.
pub mod Data
pub mod Fungible
pub mod NonFungible
pub mod Whole
pub mod TokenSymbol
