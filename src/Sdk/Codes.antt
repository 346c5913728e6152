-- ===== src/Sdk/Codes.antt =====
-- How an error of the server reaches the caller of the client.
use text.Mathlib.Text.{◌==◌ as str_eq}
use kb_backend.Prelude.{◌≡◌, refl, false, some}
use kb_backend.Sdk.{
  ErrorClass, Formats, Reply, detail_text, code_of, class_of_code, class_among, detail_string,
  from_response,
}

-- The class is one of those with a code of their own.
abbrev pub IsKnown : ErrorClass → Type 0
IsKnown ErrorClass.plain = ⊥
IsKnown _ = Unit

-- What `from_response` makes of the code of a class.
recognised :
    (c : ErrorClass)
    → IsKnown c
    → (class_of_code (code_of c) ≡ some c) × (str_eq (code_of c) "" ≡ false)
unfolding class_of_code class_among code_of
recognised ErrorClass.unauthorized h = (refl, refl)
recognised ErrorClass.forbidden h = (refl, refl)
recognised ErrorClass.not_found h = (refl, refl)
recognised ErrorClass.validation h = (refl, refl)
recognised ErrorClass.anchor_stale h = (refl, refl)
recognised ErrorClass.quota_exceeded h = (refl, refl)
recognised ErrorClass.rate_limited h = (refl, refl)
recognised ErrorClass.server_error h = (refl, refl)
recognised ErrorClass.plain h = absurd h

-- A response of any status whose detail is the code of one of the eight subclasses becomes an error
-- of that class, with that code as its code and its message.
pub from_response-code_of :
    {B : Type 0} (formats : Formats) (r : Reply B) (c : ErrorClass)
    → IsKnown c
    → r.detail ≡ detail_text (code_of c)
    → let err = from_response formats r in
      (err.class ≡ c) × (err.code ≡ code_of c) × (err.message ≡ code_of c)
unfolding from_response detail_string
from_response-code_of formats r c known d =
    let (class, filled) = recognised c known in
    rw (from_response, d, detail_string, class, filled) (refl, refl, refl)
