-- ===== src/Secrets/Resolving.antt =====
-- What resolve_secrets and mask_secrets of app/pipeline/secret_resolver.py leave of a file's keys.
use var_track.Prelude.{
  String, ◌≡◌, refl, false, Option, some, [], ◌∷◌, arith, ◌==◌, string_eq, if◌then◌else◌,
  Option-cases, Bool-cases, ◌∙◌, inl, inr, ◌&&◌,
}
use var_track.Prelude.Dict
use var_track.Prelude.Dict.{Dict, get-put}
use var_track.Secrets.{
  Vault, Managers, SecretFields, resolve_field, resolve_secrets, mask_secrets, secret_location,
  manager_name, fetched,
}

-- A masked file has the keys that it had; a secret field's value is "***" and the others stay.
pub get-mask_secrets :
    (fields : SecretFields) (flat : Dict String String) (k : String)
    → Dict.get (mask_secrets fields flat) k
      ≡ (if Dict.has fields k && Dict.has flat k then some "***" else Dict.get flat k)
unfolding mask_secrets Dict.get
get-mask_secrets [] flat k = refl
get-mask_secrets ((field, ref) ∷ fields) flat k = elim (Bool-cases (Dict.has flat field)) [
  | inl here ↦ rw here (
      ground (
        arith,
        get-mask_secrets fields (Dict.put flat field "***") k,
        get-put flat field k "***",
        here,
      ))
  | inr absent ↦ rw absent (ground (arith, get-mask_secrets fields flat k, absent))
]

module _ (v : Vault) (managers : Managers) where
  -- One round changes no other key, and neither drops its own nor makes a new one.
  get-resolve_field_other :
      (field : String) (ref : Option String) (flat : Dict String String) (k : String)
      → (k == field) ≡ false
      → Dict.get (resolve_field v managers field ref flat) k ≡ Dict.get flat k
  unfolding resolve_field
  get-resolve_field_other field ref flat k other = elim (Option-cases (Dict.get flat field)) [
    | inl absent ↦ ground (arith, absent)
    | inr (old, here) ↦ elim (Option-cases (Dict.get managers (manager_name v ref))) [
      | inl unknown ↦ ground (arith, here, unknown)
      | inr (m, known) ↦
          let (path, key) = secret_location v old field m in
          ground
            (arith, other, here, known, get-put flat field k (fetched v old (v.fetch m path key)))
    ]
  ]

  has-resolve_field :
      (field : String) (ref : Option String) (flat : Dict String String) (k : String)
      → Dict.has (resolve_field v managers field ref flat) k ≡ Dict.has flat k
  unfolding resolve_field
  has-resolve_field field ref flat k = elim (Option-cases (Dict.get flat field)) [
    | inl absent ↦ ground (arith, absent)
    | inr (old, here) ↦ elim (Option-cases (Dict.get managers (manager_name v ref))) [
      | inl unknown ↦ ground (arith, here, unknown)
      | inr (m, known) ↦
          let (path, key) = secret_location v old field m in
          ground (arith, here, known, get-put flat field k (fetched v old (v.fetch m path key)))
    ]
  ]

  -- Resolving secrets neither adds a key to a file nor takes one away.
  pub has-resolve_secrets :
      (fields : SecretFields) (flat : Dict String String) (k : String)
      → Dict.has (resolve_secrets v managers fields flat) k ≡ Dict.has flat k
  unfolding resolve_secrets
  has-resolve_secrets [] flat k = refl
  has-resolve_secrets ((field, ref) ∷ fields) flat k =
      has-resolve_secrets fields (resolve_field v managers field ref flat) k
      ∙ has-resolve_field field ref flat k

  -- A key that the schema does not mark keeps its value.
  pub get-resolve_secrets_other :
      (fields : SecretFields) (flat : Dict String String) (k : String)
      → Dict.has fields k ≡ false
      → Dict.get (resolve_secrets v managers fields flat) k ≡ Dict.get flat k
  unfolding resolve_secrets Dict.get
  get-resolve_secrets_other [] flat k h = refl
  get-resolve_secrets_other ((field, ref) ∷ fields) flat k h =
      get-resolve_secrets_other fields (resolve_field v managers field ref flat) k
        (ground (arith, h))
      ∙ get-resolve_field_other field ref flat k (ground (arith, h))
