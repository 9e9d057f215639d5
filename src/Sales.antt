-- ===== src/Sales.antt =====
-- Checkout: app/modules/sales/service.py and app/modules/sales/routes.py.
pub mod Cart
pub mod Invoice
pub mod Lines
pub mod Checkout
pub mod Requests
