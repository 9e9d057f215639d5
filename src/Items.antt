-- ===== src/Items.antt =====
-- The inventory: catalogue names, tax, prices, metal rates (modules/items, modules/metal_rates).
pub mod Kinds
pub mod Catalog
pub mod Tax
pub mod Pricing
pub mod Schema
pub mod MetalRates
