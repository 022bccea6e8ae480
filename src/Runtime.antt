-- ===== src/Runtime.antt =====
-- What the services take from the JavaScript runtime: IEEE numbers, random UUIDs, the clock.
use food_ordering_app.Prelude.{ℕ, String, ◌≡◌}

-- `number`, with the operations that the services apply to amounts of money.
pub record Numbers (Num : Type 0) : Type 0 where
  -- `Number(s)`
  pub number : String → Num
  pub nothing : Num
  pub add : Num → Num → Num
  pub times : Num → ℕ → Num
  -- `n.toFixed(2)`
  pub to_fixed : Num → String

-- The answers of `randomUUID()` and of `new Date()`, in milliseconds, in the order of the calls.
pub record Clock : Type 0 where
  pub uuid : ℕ → String
  pub now : ℕ → ℕ

-- No UUID is drawn twice.
abbrev pub IsFresh : Clock → Type 0
IsFresh c = (m n : ℕ) → c.uuid m ≡ c.uuid n → m ≡ n
