-- ===== src/Ledger/Names.antt =====
-- How the ledger names a repository and a file of it.
use var_track.Prelude.{◌≡◌, refl, String, ◌<>◌, none, some, nat_eq, string_eq}
use var_track.Prelude.Texts.{cut, strip_suffix, rstrip}

-- `url.split(sep, 1)[1] if sep in url else url`
abbrev after : String → String → String
after sep url = elim (cut sep url) [ none ↦ url | some (a, b) ↦ b ]

abbrev without_scheme : String → String
without_scheme url = elim (cut "://" url) [ none ↦ url | some (scheme, rest) ↦ after "/" rest ]

-- git@host:owner/repo
abbrev without_host : String → String
without_host url = elim (cut "@" url) [
  | none ↦ url
  | some (user, rest) ↦ elim (cut ":" rest) [ none ↦ url | some (host, path) ↦ after ":" url ]
]

unfoldable pub repo_name : String → String
unfolding cut strip_suffix rstrip
repo_name repo_url = without_host (without_scheme (strip_suffix ".git" (rstrip b'/' repo_url)))

unfoldable pub inventory_key : String → String → String
unfolding repo_name
inventory_key repo_url file_path = repo_name repo_url <> (":" <> file_path)

repo_name_http : repo_name "http://gitea:3000/acme/configs.git/" ≡ "acme/configs"
unfolding repo_name nat_eq string_eq
repo_name_http = refl

repo_name_ssh : repo_name "git@host:owner/repo.git" ≡ "owner/repo"
unfolding repo_name nat_eq string_eq
repo_name_ssh = refl
