-- ===== src/Prelude/Results.antt =====
-- `Result<A, E>` of the source, and the `?` operator as a bind.
pub data Result {ℓ κ} (E : Type κ) (A : Type ℓ) : Type (ℓ ⊔ κ) where
  ok : A → Result E A
  err : E → Result E A
