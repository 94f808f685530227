-- ===== src/Tests/Repositories.antt =====
-- A repository as a table of files: what was written, what is staged and what the last commit
-- holds, by the path on the disk.
use netdeploy.Base.{
  ℕ, Bool, ◌≡◌, refl, sym, ap, ◌∙◌, true, false, [], ◌∷◌, ◌++◌, Option, none, some, pos, arith,
  Bool-cases, inl, inr, if◌then◌else◌,
}
use mathlib.Core.List.{append_assoc}
use netdeploy.Text.{Text, codes, lacks, text_eq, text_eq_refl}
use netdeploy.Value.{int, obj, Fields, end, field}
use netdeploy.Py.{Py, ok, raised, runtime_error}
use netdeploy.Git.{ret, Libraries, Repository, ends_in_slash, join, commit_config, get_version}
use netdeploy.Git.Versions.{is_name, Laws, commit_config-get_version}

-- A path whose last part has no slash does not end in one.
last_part :
    (a : Text) (c : ℕ) (t : Text) → lacks 47 (c ∷ t) ≡ true → ends_in_slash (a ++ (c ∷ t)) ≡ false
unfolding ends_in_slash lacks
last_part [] c [] h = ground arith
last_part [] c (d ∷ t) h =
    let rest : lacks 47 (d ∷ t) ≡ true = ground arith in last_part [] d t rest
last_part (x ∷ []) c t h = last_part [] c t h
last_part (x ∷ y ∷ a) c t h = last_part (y ∷ a) c t h

-- Two names joined to a path, one after the other or at once.
join_both :
    (a dir name : Text) → is_name dir ≡ true → join (join a dir) name ≡ join a (dir ++ (47 ∷ name))
unfolding join lacks
join_both a [] name h = cc
join_both a (c ∷ dir) name h =
    let plain : lacks 47 (c ∷ dir) ≡ true = ground arith in
    elim (Bool-cases (ends_in_slash a)) [
      | inl e ↦ rw e (rw (last_part a c dir plain) (append_assoc a (c ∷ dir) (47 ∷ name)))
      | inr e ↦
          let open_end =
            ap ends_in_slash (sym (append_assoc a (47 ∷ []) (c ∷ dir)))
            ∙ last_part (a ++ (47 ∷ [])) c dir plain in
          rw e (rw open_end (append_assoc a (47 ∷ c ∷ dir) (47 ∷ name)))
    ]

record World : Type 0 where
  written : Text → Option Text
  staged : Text → Option Text
  head : Text → Option Text

abbrev blob : Option Text → Py Text
blob none = raised (runtime_error [])
blob (some t) = ok t

abbrev config : Fields
config = field "ospf" (int (pos 1)) end

-- a table in which one entry is changed
abbrev with_entry : Text → Option Text → (Text → Option Text) → Text → Option Text
with_entry key t f k = if text_eq k key then t else f k

abbrev libraries : Libraries World
libraries = record {
  open_repo = λ path. ret tt;
  clone_from = λ url path. ret tt;
  init = λ path. ret tt;
  makedirs = λ path. ret tt;
  dump_to = λ path doc w.
      (ok tt, record w { written = with_entry path (some (codes "ospf: 1")) w.written });
  safe_load = λ t. ok (obj config);
  index_add =
      λ repo path w. (ok tt, record w { staged = with_entry path (w.written path) w.staged });
  index_commit = λ repo message email w. (ok (codes "a1b2"), record w { head = w.staged });
  push_origin = λ repo w. (raised (runtime_error []), w);
  read_blob = λ repo h path w. (blob (w.head (join repo path)), w);
  diffs = λ repo a b path. ret [];
  iter_commits = λ repo path n. ret [];
}

abbrev entry_there :
    (key : Text) (t : Option Text) (f : Text → Option Text) → with_entry key t f key ≡ t
entry_there key t f = ap (λ (b : Bool). if b then t else f key) (text_eq_refl key)

abbrev laws : Laws libraries
laws = record {
  file = λ path w. w.written path;
  staged = λ repo path w. w.staged (join repo path);
  stored = λ repo h path w. w.head (join repo path);
  dump = λ doc. codes "ospf: 1";
  dumped = λ path doc w w' e.
      ap (λ (q : Py (Unit {0}) × World). q.1.written path) (sym e)
      ∙ entry_there path (some (codes "ospf: 1")) w.written;
  added = λ repo dir name t w w' is_dir is_file e h.
      ap (λ (q : Py (Unit {0}) × World). q.1.staged (join repo (dir ++ (47 ∷ name)))) (sym e)
      ∙ (ap
            (with_entry (join (join repo dir) name) (w.written (join (join repo dir) name))
              w.staged)
            (sym (join_both repo dir name is_dir))
          ∙ (entry_there (join (join repo dir) name) (w.written (join (join repo dir) name))
                w.staged
              ∙ h));
  committed = λ repo m u h path t w w' e s.
      ap (λ (q : Py Text × World). q.1.head (join repo path)) (sym e) ∙ s;
  pushed = λ repo h path t w s. s;
  reads = λ repo h path t w s. (w, ap (λ o. (blob o, w)) s);
}

abbrev repository : Repository
repository = record {
  repo_path = codes "/repo";
  remote_url = some (codes "git@host");
  has_repo = true;
}

abbrev empty : World
empty = record { written = λ p. none; staged = λ p. none; head = λ p. none }

-- The push fails, and the commit is there.
abbrev committed : World
committed =
    (commit_config libraries repository (codes "7") config (codes "update") (codes "ops@host")
      empty).1

commit_config-get_version_example :
    (w : World) × (get_version libraries repository (codes "7") (codes "a1b2") committed
      ≡ (ok (obj config), w))
unfolding commit_config lacks
commit_config-get_version_example =
    commit_config-get_version libraries laws repository (codes "7") (codes "update")
      (codes "ops@host") (codes "a1b2") config empty committed refl refl refl refl (λ e. cc)
