-- ===== src/Core/Json.antt =====
-- What the program relies on of JSON values (`serde_json::Value`, a library's type): `==` holds of a
-- value and itself, since a JSON number is never NaN.
use piqo_server.Prelude.{Bool, true, ◌≡◌}

pub record Json (V : Type 0) : Type 0 where
  pub same : V → V → Bool
  pub same_refl : (v : V) → same v v ≡ true
