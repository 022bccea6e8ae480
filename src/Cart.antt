-- ===== src/Cart.antt =====
-- The cart service (apps/cart).
pub mod Model
pub mod Store
pub mod Service
pub mod Items
pub mod Shuffle
pub mod RoundTrip
pub mod Requests
pub mod Guarantees
pub mod Quantities
pub mod Prices
pub mod Controller
mod Tests
