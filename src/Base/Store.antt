-- ===== src/Base/Store.antt =====
-- Arrays and heaps as functions from their indices, and the assignment to one cell of them.
use footstone.Base.{ℕ, ◌≡◌, ◌≢◌, ◌==◌, if◌then◌else◌, arith}

module _ {ℓ} {A : Type ℓ} where
  unfoldable pub write : ℕ → A → (ℕ → A) → ℕ → A
  write at new cells i = if i == at then new else cells i

  pub write_same : (at : ℕ) (new : A) (cells : ℕ → A) → write at new cells at ≡ new
  unfolding write
  write_same at new cells = ground arith

  pub write_ne :
      (at : ℕ) (new : A) (cells : ℕ → A) (i : ℕ) → i ≢ at → write at new cells i ≡ cells i
  unfolding write
  write_ne at new cells i ne = ground arith
