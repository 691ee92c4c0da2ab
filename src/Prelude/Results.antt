-- ===== src/Prelude/Results.antt =====
-- Exceptions of src/exception.h as values: `error::NoData`, `error::InvalidData`, and a plain
-- `Exception` of the macro THROW.
pub data Error : Type 0 where
  no_data invalid_data exception : Error

-- What a function returns or throws.
pub data Result {ℓ} (A : Type ℓ) : Type ℓ where
  err : (thrown : Error) → Result A
  ok : (returned : A) → Result A

infixl 5 ◌>>=◌ ◌>>◌
-- The exception skips what follows.
abbrev pub ◌>>=◌ {ℓ κ} :
    {A : Type ℓ} → {B : Type κ} → (r : Result A) → (next : A → Result B) → Result B
r >>= next = elim r [ err e ↦ err e | ok a ↦ next a ]

abbrev pub ◌>>◌ {ℓ κ} : {A : Type ℓ} → {B : Type κ} → (r : Result A) → (next : Result B) → Result B
r >> next = elim r [ err e ↦ err e | ok a ↦ next ]
