-- ===== src/Repo/Credentials.antt =====
-- Which credentials `GetSecretData` accepts, and which of them `getAuth` can use.
use crossform.Common.{
  String, ◌≡◌, ◌≢◌, Option, some, List, ◌⊎◌, inl, inr, arith, eq_iff, ◌==◌, false, Option-cases,
  String-cases, subst, sym, ◌↔◌,
}
use crossform.Common.Dict.{Dict}
use crossform.Common.Outcome.{ok, panic, ◌>>=◌}
use crossform.Repo.Config.{Config}
use crossform.Repo.Host.{Host}
use crossform.Repo.Secret.{AuthData, find_secret, check_secret, auth_data_of, get_secret_data}
use crossform.Repo.Auth.{get_auth}

-- A key and nothing else, or a user with any password.
abbrev pub IsKey : AuthData → Type 0
IsKey d = (d.private_key ≢ "") × (d.username ≡ "") × (d.password ≡ "")

abbrev pub IsUser : AuthData → Type 0
IsUser d = (d.private_key ≡ "") × (d.username ≢ "")

accepted : (url : String) (d : AuthData) → IsKey d ⊎ IsUser d → check_secret url d ≡ ok (some d)
unfolding check_secret
accepted url d (inl (k, u, p)) =
    ground (arith, eq_iff d.private_key "", eq_iff d.username "", eq_iff d.password "")
accepted url d (inr (k, u)) = ground (arith, eq_iff d.private_key "", eq_iff d.username "")

well_formed :
    (url : String) (d : AuthData) (out : Option AuthData)
    → check_secret url d ≡ ok out
    → (out ≡ some d) × (IsKey d ⊎ IsUser d)
unfolding check_secret
well_formed url d out h = elim (String-cases d.private_key "") [
  | inl no_key ↦ (
    ground (arith, eq_iff d.private_key "", eq_iff d.username ""),
    inr (no_key, λ p. ground (arith, eq_iff d.private_key "", eq_iff d.username "")),
  )
  | inr key ↦ (
    ground (arith, eq_iff d.private_key "", eq_iff d.username "", eq_iff d.password ""),
    inl (
      key,
      ground (arith, eq_iff d.private_key "", eq_iff d.username "", eq_iff d.password ""),
      ground (arith, eq_iff d.private_key "", eq_iff d.username "", eq_iff d.password ""),
    ),
  )
]

ssh_not_http :
    (scheme : String) → (scheme ≡ "https") ⊎ (scheme ≡ "http") → (scheme == "ssh") ≡ false
ssh_not_http scheme (inl https) = rw https
ssh_not_http scheme (inr http) = rw http

module _ {W R : Type 0} (host : Host W R) (c : Config) (w : W) where
  -- If the namespace is set and its secrets can be listed, then credentials are returned exactly if
  -- the first secret for the address holds them and they are a key alone, or no key and a user; the
  -- password of a user may be empty.
  pub get_secret_data-accepts :
      (ns : String) (secrets : List (Dict String)) (d : AuthData)
      → host.watch_namespace ≡ some ns
      → host.list_secrets ns "crossform.io/secret-type" "repository" w ≡ ok secrets
      → (get_secret_data host c w ≡ ok (some d)) ↔ (
          (s : Dict String) × (find_secret c.url secrets ≡ some s)
          × (d ≡ auth_data_of s)
          × (IsKey d ⊎ IsUser d))
  unfolding get_secret_data ◌>>=◌
  get_secret_data-accepts ns secrets d set listed = (found, back)
    where
      found :
          get_secret_data host c w ≡ ok (some d)
          → (s : Dict String) × (find_secret c.url secrets ≡ some s)
            × (d ≡ auth_data_of s)
            × (IsKey d ⊎ IsUser d)
      found h = elim (Option-cases (find_secret c.url secrets)) [
        | inl none_there ↦ absurd (ground arith)
        | inr (s, p) ↦
            let (same, kind) = well_formed c.url (auth_data_of s) (some d) (ground arith) in
            let e : d ≡ auth_data_of s = ground arith in
            (s, p, e, subst (λ x. IsKey x ⊎ IsUser x) (sym e) kind)
      ]

      back :
          (s : Dict String) × (find_secret c.url secrets ≡ some s)
            × (d ≡ auth_data_of s)
            × (IsKey d ⊎ IsUser d)
          → get_secret_data host c w ≡ ok (some d)
      back (s, p, e, kind) =
          ground (arith, accepted c.url (auth_data_of s) (subst (λ x. IsKey x ⊎ IsUser x) e kind))

  -- Credentials of the other kind than the scheme of the address asks for end the program: a user for
  -- an ssh address, or a key for an https or http address, passes the tests of `GetSecretData` and
  -- makes `getAuth` panic.
  pub get_auth-mismatch :
      (scheme : String) (d : AuthData)
      → host.parse_scheme c.url ≡ ok scheme
      → get_secret_data host c w ≡ ok (some d)
      → ((scheme ≡ "ssh") × IsUser d) ⊎ (((scheme ≡ "https") ⊎ (scheme ≡ "http")) × IsKey d)
      → get_auth host c w ≡ panic
  unfolding get_auth ◌>>=◌
  get_auth-mismatch scheme d parsed secret (inl (ssh, user)) =
      ground (arith, eq_iff scheme "ssh", eq_iff d.private_key "")
  get_auth-mismatch scheme d parsed secret (inr (http, key)) = ground (
    arith,
    eq_iff scheme "ssh",
    eq_iff scheme "https",
    eq_iff scheme "http",
    eq_iff d.username "",
    ssh_not_http scheme http,
  )
