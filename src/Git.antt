-- ===== src/Git.antt =====
-- core/git_handler.py: GitConfigRepository. GitPython, PyYAML and the file system are parameters:
-- calls that read and change a world, and may raise at any point.
pub mod Versions
use netdeploy.Base.{
  ℕ, String, Bool, true, false, List, [], ◌∷◌, ◌++◌, map, Option, none, some, ◌==◌, if◌then◌else◌,
}
use netdeploy.Text.{Text, codes, strip}
use netdeploy.Value.{Value, str, arr, obj, Items, nil, cons, Fields, end, field, truthy}
use netdeploy.Py.{Py, ok, raised, Exn, exn_text}

-- what `list_versions` reads of a commit
pub record Commit : Type 0 where
  pub hexsha : Text
  pub message : Text
  pub email : Text
  pub authored : Text

-- The outcome of a call, and the world after it.
abbrev pub Act : Type 0 → Type 0 → Type 0
Act W A = W → Py A × W

abbrev pub ret : {W A : Type 0} → A → Act W A
ret a w = (ok a, w)

abbrev pub and_after : {W A B : Type 0} → (A → Act W B) → Py A × W → Py B × W
and_after f (ok a, w) = f a w
and_after f (raised e, w) = (raised e, w)

infixl 5 ◌>>=◌ ◌>>◌
abbrev pub ◌>>=◌ : {W A B : Type 0} → Act W A → (A → Act W B) → Act W B
◌>>=◌ m f w = and_after f (m w)

abbrev pub ◌>>◌ : {W A B : Type 0} → Act W A → Act W B → Act W B
m >> k = m >>= λ _. k

abbrev pub caught : {W A : Type 0} → (Exn → Act W A) → Py A × W → Py A × W
caught handler (ok a, w) = (ok a, w)
caught handler (raised e, w) = handler e w

-- `try: … except Exception as e: …`
abbrev pub try_except : {W A : Type 0} → Act W A → (Exn → Act W A) → Act W A
try_except m handler w = caught handler (m w)

-- the calls of the libraries; a repository is named by its path
pub record Libraries (W : Type 0) : Type 0 where
  pub open_repo : Text → Act W (Unit {0})
  pub clone_from : Text → Text → Act W (Unit {0})
  pub init : Text → Act W (Unit {0})
  pub makedirs : Text → Act W (Unit {0})
  -- `yaml.dump` into a file that is opened for writing
  pub dump_to : Text → Fields → Act W (Unit {0})
  pub safe_load : Text → Py Value
  pub index_add : Text → Text → Act W (Unit {0})
  -- message and e-mail address
  pub index_commit : Text → Text → Text → Act W Text
  pub push_origin : Text → Act W (Unit {0})
  -- `repo.commit(h).tree / …`, and its data
  pub read_blob : Text → Text → Text → Act W Text
  pub diffs : Text → Text → Text → Text → Act W (List Text)
  pub iter_commits : Text → Text → ℕ → Act W (List Commit)

pub record Repository : Type 0 where
  pub repo_path : Text
  pub remote_url : Option Text
  -- `self.repo is not None`
  pub has_repo : Bool

-- `os.path.join(a, b)` for a path `b` that is not absolute
unfoldable pub ends_in_slash : Text → Bool
ends_in_slash [] = true
ends_in_slash (c ∷ []) = c == b'/'
ends_in_slash (c ∷ d ∷ t) = ends_in_slash (d ∷ t)

unfoldable pub join : Text → Text → Text
unfolding ends_in_slash
join a b = if ends_in_slash a then a ++ b else a ++ (b'/' ∷ b)

-- `f"{device_id}.yaml"`
unfoldable pub yaml_name : Text → Text
yaml_name device_id = device_id ++ codes ".yaml"

-- the path within the tree of a commit
unfoldable pub tree_path : Text → Text
unfolding yaml_name
tree_path device_id = codes "devices/" ++ yaml_name device_id

unfoldable pub config_path : Text → Text → Text
unfolding join yaml_name
config_path repo_path device_id = join (join repo_path (codes "devices")) (yaml_name device_id)

abbrev pub no_commit : Text
no_commit = codes "0000000000000000000000000000000000000000"

-- `if remote_url:`
unfoldable pub is_given : Option Text → Bool
is_given none = false
is_given (some []) = false
is_given (some (c ∷ t)) = true

module _ {W : Type 0} (lib : Libraries W) where
  open lib use {
    open_repo, clone_from, init, makedirs, dump_to, safe_load, index_add, index_commit, push_origin,
    read_blob, diffs, iter_commits,
  }

  -- no repository at the path: clone the remote, or start a new one
  create_repo : Text → Option Text → Act W (Unit {0})
  create_repo path none = makedirs path >> init path
  create_repo path (some []) = makedirs path >> init path
  create_repo path (some (c ∷ t)) = makedirs path >> clone_from (c ∷ t) path

  unfoldable pub new_repository : Text → Option Text → Act W Repository
  unfolding create_repo
  new_repository repo_path remote_url =
      try_except
        (try_except (open_repo repo_path) (λ e. create_repo repo_path remote_url)
          >> ret (record { repo_path = repo_path; remote_url = remote_url; has_repo = true }))
        (λ e. ret (record { repo_path = repo_path; remote_url = remote_url; has_repo = false }))

  unfoldable pub push : Repository → Act W (Unit {0})
  unfolding is_given
  push r =
      if r.has_repo
      then (if is_given r.remote_url
          then try_except (push_origin r.repo_path) (λ e. ret tt)
          else ret tt)
      else ret tt

  unfoldable pub commit_staged : Repository → Text → Text → Text → Act W Text
  unfolding push config_path
  commit_staged r device_id message user_email = do
    index_add r.repo_path (config_path r.repo_path device_id)
    hexsha ← index_commit r.repo_path message user_email
    push r
    ret hexsha

  unfoldable pub commit_config : Repository → Text → Fields → Text → Text → Act W Text
  unfolding commit_staged config_path join
  commit_config r device_id config_data message user_email = do
    makedirs (join r.repo_path (codes "devices"))
    dump_to (config_path r.repo_path device_id) config_data
    (if r.has_repo
        then try_except (commit_staged r device_id message user_email) (λ e. ret no_commit)
        else ret no_commit)

  -- `yaml.safe_load(…) or {}`
  or_empty : Py Value → Act W Value
  or_empty (ok v) = ret (if truthy v then v else obj end)
  or_empty (raised e) = λ w. (raised e, w)

  unfoldable pub get_version : Repository → Text → Text → Act W Value
  unfolding or_empty tree_path
  get_version r device_id commit_hash =
      if r.has_repo
      then try_except
          (do
            stored ← read_blob r.repo_path commit_hash (tree_path device_id)
            or_empty (safe_load stored))
          (λ e. ret (obj end))
      else ret (obj end)

  -- `"\n".join(…)`
  joined_lines : List Text → Text
  joined_lines [] = []
  joined_lines (t ∷ []) = t
  joined_lines (t ∷ u ∷ ts) = t ++ (10 ∷ joined_lines (u ∷ ts))

  unfoldable pub get_diff : Repository → Text → Text → Text → Act W Text
  unfolding joined_lines tree_path
  get_diff r device_id v1 v2 =
      if r.has_repo
      then try_except
          (do patches ← diffs r.repo_path v1 v2 (tree_path device_id); ret (joined_lines patches))
          (λ e. ret (codes "[diff error: " ++ (exn_text e ++ codes "]")))
      else ret (
          codes "--- a/"
          ++ (tree_path device_id
              ++ (codes "\n+++ b/" ++ (tree_path device_id ++ codes "\n[no repo]"))))

  version_row : Commit → Fields
  version_row c = field "commit" (str c.hexsha) (
      field "message" (str (strip c.message))
        (field "author" (str c.email) (field "date" (str c.authored) end)))

  unfoldable pub list_versions : Repository → Text → ℕ → Act W (List Fields)
  unfolding version_row tree_path
  list_versions r device_id limit =
      if r.has_repo
      then try_except
          (do
            commits ← iter_commits r.repo_path (tree_path device_id) limit
            ret (map version_row commits))
          (λ e. ret [])
      else ret []
