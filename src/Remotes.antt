-- ===== src/Remotes.antt =====
-- repo.go: the configuration file of a repository, and the remotes that it keeps.
pub mod Added
use go_repo_dojo.Base.{
  Option, none, some, List, [], ◌∷◌, ◌++◌, if◌then◌else◌, Bytes, codes, length, drop, Result, ok,
  err, ◌>>=◌, map_get, map_set, map_delete,
}
use go_repo_dojo.Text.{has_prefix}
use go_repo_dojo.Refs.{Repo}
use go_repo_dojo.Config.{Vars, Config, new_config, AddConfigInput, add, remove, vars_of}
use go_repo_dojo.Config.Syntax.{parse_config, write}

parse_maybe : Option Bytes → Config
parse_maybe none = new_config
parse_maybe (some content) = parse_config content

-- `loadConfig`, and `ListConfig` that calls it: no file is an empty configuration.
unfoldable pub load_config : Repo → Config
unfolding parse_maybe
load_config repo = parse_maybe (map_get (codes "config") repo.files)

unfoldable pub remote_url_name : Bytes → Bytes
remote_url_name name = codes "remote" ++ (b'.' ∷ (name ++ (b'.' ∷ codes "url")))

unfoldable pub remote_fetch_name : Bytes → Bytes
remote_fetch_name name = codes "remote" ++ (b'.' ∷ (name ++ (b'.' ∷ codes "fetch")))

-- `+refs/heads/*:refs/remotes/%s/*`
unfoldable pub fetch_value : Bytes → Bytes
fetch_value name = codes "+refs/heads/*:refs/remotes/" ++ (name ++ codes "/*")

-- The changes of `AddRemote` and `RemoveRemote` to the configuration in memory.
unfoldable pub add_remote_entries : Config → Bytes → Bytes → Result Config
add_remote_entries c name url = do
  c' ← add c (record { name = remote_url_name name; value = url })
  add c' (record { name = remote_fetch_name name; value = fetch_value name })

unfoldable pub remove_remote_entries : Config → Bytes → Result Config
remove_remote_entries c name = do
  c' ← remove c (remote_url_name name)
  remove c' (remote_fetch_name name)

-- `visit` is the order in which Go visits the variables of a section.
module _ (visit : Vars → Vars) where
  -- The lock file beside "config" is created or emptied, written, and renamed to it.
  unfoldable pub store_config : Repo → Config → Repo
  store_config repo c = record repo {
    files = map_set (codes "config") (write visit c) (map_delete (codes "config.lock") repo.files);
  }

  unfoldable pub add_config : Repo → AddConfigInput → Result Repo
  add_config repo input = do c ← add (load_config repo) input; ok (store_config repo c)

  unfoldable pub remove_config : Repo → Bytes → Result Repo
  remove_config repo name = do c ← remove (load_config repo) name; ok (store_config repo c)

  unfoldable pub add_remote : Repo → Bytes → Bytes → Result Repo
  add_remote repo name url = do
    c ← add_remote_entries (load_config repo) name url
    ok (store_config repo c)

  unfoldable pub remove_remote : Repo → Bytes → Result Repo
  remove_remote repo name = do
    c ← remove_remote_entries (load_config repo) name
    ok (store_config repo c)

abbrev pub remote_prefix : Bytes
remote_prefix = codes "remote."

-- The sections named `remote.` and more, under what follows.
with_remote : Bytes → Config → Config → Config
with_remote section c result =
    let short = drop (length remote_prefix) section in
    record {
      sections = map_set short (vars_of (map_get section c.sections)) result.sections;
      section_order = result.section_order ++ (short ∷ []);
    }

remotes_in : List Bytes → Config → Config → Config
unfolding with_remote
remotes_in [] c result = result
remotes_in (section ∷ order) c result =
    remotes_in order c
      (if has_prefix section remote_prefix then with_remote section c result else result)

unfoldable pub list_remotes : Repo → Config
unfolding remotes_in
list_remotes repo = let c = load_config repo in remotes_in c.section_order c new_config
