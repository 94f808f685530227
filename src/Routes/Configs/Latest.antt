-- ===== src/Routes/Configs/Latest.antt =====
-- api/routes/configs.py: a configuration that is stored is the one that is deployed next.
use netdeploy.Base.{ℕ, ◌<◌, ◌≡◌, List, All}
use netdeploy.Text.{Text}
use netdeploy.Db.{Configuration}

-- Every configuration of the device was created before a time.
abbrev pub Before : ℕ → ℕ → List Configuration → Type 0
Before t dev = All (λ c. c.device_id ≡ dev → c.created_at < t)
