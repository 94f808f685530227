-- ===== src/Routes.antt =====
-- api/routes: the handlers of the HTTP API, as coroutines on the session. A handler ends with a
-- reply or with an `HTTPException`.
pub mod Deployments
pub mod Started
pub mod Rollbacks
pub mod Views
pub mod Table
pub mod Main
pub mod Lists
pub mod Devices
pub mod Configs
use netdeploy.Base.{ℕ, zero, suc, String, List, [], ◌∷◌}
use netdeploy.Text.{Text}

-- the `detail` of an `HTTPException`
pub data Detail : Type 0 where
  message : Text → Detail
  -- the devices without a configuration, and the version that was asked for
  missing_configs : List ℕ → String → Detail

pub data Reply (A : Type 0) : Type 0 where
  reply : A → Reply A
  refused : ℕ → Detail → Reply A

-- `.offset(skip).limit(limit)`
unfoldable pub page {ℓ} : {A : Type ℓ} → ℕ → ℕ → List A → List A
page skip limit [] = []
page zero zero (x ∷ xs) = []
page zero (suc n) (x ∷ xs) = x ∷ page zero n xs
page (suc m) n (x ∷ xs) = page m n xs

-- `.order_by(key.desc())` and `.order_by(key)` of the database, which is free to choose the order of
-- rows with equal keys.
pub record Ordering : Type 1 where
  pub newest : {A : Type 0} → (A → ℕ) → List A → List A
  pub oldest : {A : Type 0} → (A → ℕ) → List A → List A
