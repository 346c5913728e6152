-- ===== src/Http.antt =====
-- What a handler answers: its result, or the `HTTPException` that it raises.
use kb_backend.Prelude.{ℕ, String}

pub data Http {ℓ} (A : Type ℓ) : Type ℓ where
  ok : A → Http A
  http_error : ℕ → String → Http A
