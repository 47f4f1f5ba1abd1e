-- ===== src/Remotes/Added.antt =====
-- repo.go: what `AddRemote` leaves in the configuration.
use go_repo_dojo.Base.{
  ◌≡◌, ◌≢◌, refl, false, some, [], ◌++◌, arith, Bytes, codes, bytes_eq, bytes_eq_refl, ok,
}
use go_repo_dojo.Config.{
  Config, AddConfigInput, set_variable, to_lower, valid_name, valid_name_char, lower_char,
}
use go_repo_dojo.Config.Lookup.{lookup, config_keys, lookup-set_variable, add_keyed}
use go_repo_dojo.Config.Keys.{config_keys_subsection}
use go_repo_dojo.Remotes.{remote_url_name, remote_fetch_name, fetch_value, add_remote_entries}

-- In the configuration in memory, a remote with a name that is not empty, dots or not, is added with
-- its address and with the rule that fetches its branches into refs/remotes under its name. Sections other than that remote's keep what they had.
pub add_remote_entries_lem :
    (c : Config) (name url s n : Bytes)
    → name ≢ []
    → bytes_eq (codes "remote." ++ name) s ≡ false
    → (c' : Config) × (add_remote_entries c name url ≡ ok c')
      × (lookup c' (codes "remote." ++ name) (codes "url") ≡ some url)
      × (lookup c' (codes "remote." ++ name) (codes "fetch")
          ≡ some (codes "+refs/heads/*:refs/remotes/" ++ (name ++ codes "/*")))
      × (lookup c' s n ≡ lookup c s n)
unfolding add_remote_entries fetch_value remote_url_name remote_fetch_name bytes_eq valid_name
    to_lower valid_name_char lower_char
add_remote_entries_lem c name url s n ne other = (
  set_variable section (codes "fetch") (fetch_value name) with_url,
  rw (add_keyed c url_input url_keys) (add_keyed with_url fetch_input fetch_keys),
  rw (lookup-set_variable, lookup-set_variable, bytes_eq_refl) refl,
  rw (lookup-set_variable, bytes_eq_refl) refl,
  rw (lookup-set_variable, lookup-set_variable, other) refl,
)
  where
    section : Bytes
    section = codes "remote." ++ name

    with_url : Config
    with_url = set_variable section (codes "url") url c

    url_input : AddConfigInput
    url_input = record { name = remote_url_name name; value = url }

    fetch_input : AddConfigInput
    fetch_input = record { name = remote_fetch_name name; value = fetch_value name }

    url_keys : config_keys (remote_url_name name) ≡ ok (section, codes "url")
    url_keys =
        config_keys_subsection (codes "remote") name (codes "url") (omega arith) (omega arith) ne
          refl refl

    fetch_keys : config_keys (remote_fetch_name name) ≡ ok (section, codes "fetch")
    fetch_keys =
        config_keys_subsection (codes "remote") name (codes "fetch") (omega arith) (omega arith) ne
          refl refl
