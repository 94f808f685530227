-- ===== src/Routes/Devices/Hostnames.antt =====
-- api/routes/devices.py: what the registration of a device leaves in the table of devices.
use netdeploy.Base.{
  ◌≡◌, refl, Bool, false, List, [], ◌∷◌, ◌++◌, any, Option, none, some, find?, Bool-cases, inl, inr,
}
use netdeploy.Text.{Text, text_eq}
use netdeploy.Db.{Device, add_audit}
use netdeploy.Proc.{State, ◌>>=◌, Net, run}
use netdeploy.Snapshots.{Env, uuid4}
use netdeploy.Routes.Devices.{
  DeviceRequest, device_of, find_hostname, add_device, create_unless, create_device,
}

-- No two devices have one hostname.
abbrev pub UniqueHostnames : List Device → Type 0
UniqueHostnames [] = Unit
UniqueHostnames (d ∷ ds) =
    (any (λ e. text_eq d.hostname e.hostname) ds ≡ false) × UniqueHostnames ds

any-append :
    {A : Type 0} (p : A → Bool) (xs : List A) (x : A)
    → any p xs ≡ false
    → p x ≡ false
    → any p (xs ++ (x ∷ [])) ≡ false
any-append p [] x h k = rw k refl
any-append p (y ∷ ys) x h k = elim (Bool-cases (p y)) [
  | inl e ↦ cc
  | inr e ↦ let later : any p ys ≡ false = cc in rw e (any-append p ys x later k)
]

-- A device with a hostname that no other has may follow.
append-UniqueHostnames :
    (ds : List Device) (d : Device)
    → find? (λ e. text_eq e.hostname d.hostname) ds ≡ none
    → UniqueHostnames ds
    → UniqueHostnames (ds ++ (d ∷ []))
append-UniqueHostnames [] d h u = (refl, tt)
append-UniqueHostnames (e ∷ ds) d h u = elim (Bool-cases (text_eq e.hostname d.hostname)) [
  | inl same ↦ cc
  | inr other ↦
      let later : find? (λ (x : Device). text_eq x.hostname d.hostname) ds ≡ none = cc in
      (
        any-append (λ (x : Device). text_eq e.hostname x.hostname) ds d u.0 other,
        append-UniqueHostnames ds d later u.1,
      )
]

module _ (env : Env) (net : Net) (user_id : Text) (client : Option Text) (r : DeviceRequest) where
  -- The registration of a device keeps the hostnames of the devices distinct, whether it is
  -- accepted or refused.
  pub create_device-UniqueHostnames :
      (s : State)
      → UniqueHostnames s.db.devices
      → UniqueHostnames (run net (create_device env user_id client r) s).1.db.devices
  unfolding create_device run ◌>>=◌ create_unless uuid4 add_device add_audit find_hostname device_of
  create_device-UniqueHostnames s u = go (find_hostname r.hostname s.db) refl
    where
      go :
          (o : Option Device)
          → find_hostname r.hostname s.db ≡ o
          → UniqueHostnames (run net (create_unless env user_id client r o) s).1.db.devices
      go none e = append-UniqueHostnames s.db.devices _ e u
      go (some d) e = u
