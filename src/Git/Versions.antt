-- ===== src/Git/Versions.antt =====
-- core/git_handler.py: a committed configuration is read back, on libraries that behave as their
-- documentation says.
use netdeploy.Base.{
  ℕ, not, [], ◌∷◌, ◌++◌, ◌&&◌, any, ◌==◌, arith, ◌≡◌, refl, sym, ap, ◌∙◌, Bool, true, false, Option,
  some, if◌then◌else◌,
}
use mathlib.Core.Logic.{◌≢◌}
use mathlib.Core.Path.{subst}
use netdeploy.Text.{Text, codes, lacks, lacks-append}
use netdeploy.Value.{obj, Fields, end, field, truthy}
use netdeploy.Py.{Py, ok, raised}
use netdeploy.Git.{
  Act, ret, ◌>>=◌, try_except, caught, and_after, Libraries, Repository, config_path, tree_path,
  yaml_name, join, no_commit, push, is_given, commit_staged, commit_config, get_version, or_empty,
}

-- A name of a file or directory: it has no slash, and is not empty, `.` or `..`.
abbrev pub is_name : Text → Bool
is_name t = lacks 47 t && any (λ c. not (c == 46)) t

-- GitPython and PyYAML: a dumped document is the content of the file, `index.add` stages the content
-- of a file in a directory of the repository under the names of the two, a commit stores what is
-- staged, a push leaves the commits alone, and a blob is read as it was stored.
pub record Laws {W : Type 0} (lib : Libraries W) : Type 0 where
  pub file : Text → W → Option Text
  pub staged : Text → Text → W → Option Text
  pub stored : Text → Text → Text → W → Option Text
  pub dump : Fields → Text
  pub dumped :
      (path : Text) (config : Fields) (w w' : W)
      → lib.dump_to path config w ≡ (ok tt, w')
      → file path w' ≡ some (dump config)
  pub added :
      (repo dir name t : Text) (w w' : W)
      → is_name dir ≡ true
      → is_name name ≡ true
      → lib.index_add repo (join (join repo dir) name) w ≡ (ok tt, w')
      → file (join (join repo dir) name) w ≡ some t
      → staged repo (dir ++ (b'/' ∷ name)) w' ≡ some t
  pub committed :
      (repo message email h path t : Text) (w w' : W)
      → lib.index_commit repo message email w ≡ (ok h, w')
      → staged repo path w ≡ some t
      → stored repo h path w' ≡ some t
  pub pushed :
      (repo h path t : Text) (w : W)
      → stored repo h path w ≡ some t
      → stored repo h path (lib.push_origin repo w).1 ≡ some t
  pub reads :
      (repo h path t : Text) (w : W)
      → stored repo h path w ≡ some t
      → (w' : W) × (lib.read_blob repo h path w ≡ (ok t, w'))

-- Inversion of a step that returned, and of a `try` that did not end in its handler.
bind-ok :
    {W A B : Type 0} (m : Act W A) (f : A → Act W B) (w w' : W) {b : B}
    → (m >>= f) w ≡ (ok b, w')
    → (a : A) × (w₁ : W) × (m w ≡ (ok a, w₁)) × (f a w₁ ≡ (ok b, w'))
bind-ok {W} {A} {B} m f w w' {b} e = go (m w) refl e
  where
    go :
        (out : Py A × W)
        → m w ≡ out
        → and_after f out ≡ (ok b, w')
        → (a : A) × (w₁ : W) × (m w ≡ (ok a, w₁)) × (f a w₁ ≡ (ok b, w'))
    go (ok a, w₁) same rest = (a, w₁, same, rest)
    go (raised x, w₁) same rest = cc

tried-ok :
    {W : Type 0} (m : Act W Text) (w w' : W) {h : Text}
    → try_except m (λ e. ret no_commit) w ≡ (ok h, w')
    → h ≢ no_commit
    → m w ≡ (ok h, w')
tried-ok {W} m w w' {h} e real = go (m w) e real
  where
    go :
        (out : Py Text × W)
        → caught (λ x. ret no_commit) out ≡ (ok h, w')
        → h ≢ no_commit
        → out ≡ (ok h, w')
    go (ok a, w₁) rest real' = rest
    go (raised x, w₁) rest real' = let same : no_commit ≡ h = cc in elim (real' (sym same)) [ ]

taken :
    {W A : Type 0} (t : Bool) (m k : Act W A) (w : W) {q : Py A × W}
    → t ≡ true
    → (if t then m else k) w ≡ q
    → m w ≡ q
taken true m k w h e = e
taken false m k w h e = cc

any-append : (p : ℕ → Bool) (s t : Text) → any p t ≡ true → any p (s ++ t) ≡ true
any-append p [] t h = h
any-append p (c ∷ s) t h = let rest = any-append p s t h in ground (arith, rest)

yaml_name-is_name :
    (device_id : Text) → lacks 47 device_id ≡ true → is_name (yaml_name device_id) ≡ true
unfolding yaml_name lacks
yaml_name-is_name device_id plain =
    let no_slash = lacks-append 47 device_id (codes ".yaml") plain refl in
    let letters = any-append (λ c. not (c == 46)) device_id (codes ".yaml") refl in
    rw (no_slash, letters) refl

module _ {W : Type 0} (lib : Libraries W) (laws : Laws lib) (r : Repository) where
  caught_world : (out : Py (Unit {0}) × W) → (caught (λ e. ret tt) out).1 ≡ out.1
  caught_world (ok u, w) = refl
  caught_world (raised e, w) = refl

  push-stored :
      (h path t : Text) (w w' : W)
      → push lib r w ≡ (ok tt, w')
      → laws.stored r.repo_path h path w ≡ some t
      → laws.stored r.repo_path h path w' ≡ some t
  unfolding push
  push-stored h path t w w' e there = go r.has_repo (is_given r.remote_url) e
    where
      here : w ≡ w' → laws.stored r.repo_path h path w' ≡ some t
      here same = subst (λ u. laws.stored r.repo_path h path u ≡ some t) same there

      go :
          (has given : Bool)
          → (if has
                then (if given
                    then try_except (lib.push_origin r.repo_path) (λ x. ret tt)
                    else ret tt)
                else ret tt)
              w
            ≡ (ok tt, w')
          → laws.stored r.repo_path h path w' ≡ some t
      go true true e' =
          let same =
            sym (caught_world (lib.push_origin r.repo_path w))
            ∙ ap (λ (q : Py (Unit {0}) × W). q.1) e' in
          subst (λ u. laws.stored r.repo_path h path u ≡ some t) same
            (laws.pushed r.repo_path h path t w there)
      go true false e' = here (ap (λ (q : Py (Unit {0}) × W). q.1) e')
      go false given e' = here (ap (λ (q : Py (Unit {0}) × W). q.1) e')

  -- a staged file that holds a text is stored in the commit
  commit_staged-stored :
      (device_id message email h t : Text) (w w' : W)
      → lacks 47 device_id ≡ true
      → laws.file (config_path r.repo_path device_id) w ≡ some t
      → commit_staged lib r device_id message email w ≡ (ok h, w')
      → laws.stored r.repo_path h (tree_path device_id) w' ≡ some t
  unfolding commit_staged config_path tree_path lacks
  commit_staged-stored device_id message email h t w w' plain holds e =
      let (u, w₁, add, e₁) =
        bind-ok (lib.index_add r.repo_path (config_path r.repo_path device_id)) _ w w' e in
      let (h', w₂, commit, e₂) = bind-ok (lib.index_commit r.repo_path message email) _ w₁ w' e₁ in
      let (v, w₃, sent, e₃) = bind-ok (push lib r) (λ x. ret h') w₂ w' e₂ in
      let staged =
        laws.added r.repo_path (codes "devices") (yaml_name device_id) t w w₁ refl
          (yaml_name-is_name device_id plain) add holds in
      let stored =
        laws.committed r.repo_path message email h' (tree_path device_id) t w₁ w₂ commit staged in
      let kept = push-stored h' (tree_path device_id) t w₂ w₃ sent stored in
      let same_hash : h' ≡ h = cc in
      let same_world : w₃ ≡ w' = ap (λ (q : Py Text × W). q.1) e₃ in
      subst (λ k. laws.stored r.repo_path k (tree_path device_id) w' ≡ some t) same_hash
        (subst (λ x. laws.stored r.repo_path h' (tree_path device_id) x ≡ some t) same_world kept)

  loaded : (config : Fields) → (if truthy (obj config) then obj config else obj end) ≡ obj config
  unfolding truthy
  loaded end = refl
  loaded (field k v fs) = refl

  -- a stored dump is read as the dict that it is of
  get_version-stored :
      (device_id h : Text) (config : Fields) (w : W)
      → r.has_repo ≡ true
      → lib.safe_load (laws.dump config) ≡ ok (obj config)
      → laws.stored r.repo_path h (tree_path device_id) w ≡ some (laws.dump config)
      → (w' : W) × (get_version lib r device_id h w ≡ (ok (obj config), w'))
  unfolding get_version or_empty
  get_version-stored device_id h config w has loads stored =
      let (w', read) = laws.reads r.repo_path h (tree_path device_id) (laws.dump config) w stored in
      (w', rw (has, read, loads, loaded config) refl)

  -- If the libraries behave as documented, the id of the device has no slash, the configuration's
  -- YAML is loaded as it was dumped, and a commit of it to a repository returns a hash that is not
  -- the placeholder of a failure, then the version of the device at that hash is the configuration.
  pub commit_config-get_version :
      (device_id message email h : Text) (config : Fields) (w w' : W)
      → lacks 47 device_id ≡ true
      → r.has_repo ≡ true
      → lib.safe_load (laws.dump config) ≡ ok (obj config)
      → commit_config lib r device_id config message email w ≡ (ok h, w')
      → h ≢ no_commit
      → (w'' : W) × (get_version lib r device_id h w' ≡ (ok (obj config), w''))
  unfolding commit_config
  commit_config-get_version device_id message email h config w w' plain has loads e real =
      let (u, w₁, made, e₁) = bind-ok (lib.makedirs (join r.repo_path _)) _ w w' e in
      let (v, w₂, wrote, e₂) =
        bind-ok (lib.dump_to (config_path r.repo_path device_id) config) _ w₁ w' e₁ in
      let ran =
        tried-ok (commit_staged lib r device_id message email) w₂ w'
          (taken r.has_repo
            (try_except (commit_staged lib r device_id message email) (λ x. ret no_commit))
            (ret no_commit) w₂ has e₂)
          real in
      let holds = laws.dumped (config_path r.repo_path device_id) config w₁ w₂ wrote in
      let stored =
        commit_staged-stored device_id message email h (laws.dump config) w₂ w' plain holds ran in
      get_version-stored device_id h config w' has loads stored
