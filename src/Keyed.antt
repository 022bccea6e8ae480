-- ===== src/Keyed.antt =====
-- Stores addressed by text, such as the keys of Redis or of a table, as functions.
use food_ordering_app.Prelude.{String, ◌≡◌, ◌==◌, if◌then◌else◌, eq_refl, arith}

-- A write to one key.
abbrev pub write {ℓ} : {V : Type ℓ} → String → V → (String → V) → String → V
write k v m j = if k == j then v else m j

pub write_self : {V : Type 0} (k : String) (v : V) (m : String → V) → write k v m k ≡ v
write_self k v m = ground (arith, eq_refl k)
