-- ===== src/Rule/Ending.antt =====
-- app/pipeline/presets.py: the resolution of presets ends.
use var_track.Prelude.{
  ℕ, zero, suc, ◌<◌, String, ◌<>◌, if-cases, ◌≡◌, ◌≢◌, refl, inl, inr, true, not, ◌||◌, ◌&&◌,
  Option, none, some, List, [], ◌∷◌, ◌++◌, contains, length, all, ◌==◌, string_eq, if◌then◌else◌,
  arith, Bool-cases,
}
use var_track.Prelude.Dict
use var_track.Prelude.Dict.{Dict, is_some, get-put}
use var_track.Prelude.Texts.{strip_prefix}
use var_track.Value.{
  Value, null, bool, num, text, list, dict, Fields, Record, to_dict, list_items, truthy,
}
use var_track.Rule.{RuleOptions}
use var_track.Rule.Layers.{merge_child, can_merge}
use var_track.Rule.Getters.{value_at}
use var_track.Rule.Settings.{find_wrapped}
use var_track.Rule.PresetNames.{Origin, Preset, parse_preset}
use var_track.Rule.Presets.{
  Outside, Outcome, merge_or_raise, type_error, ok, fault, Fault, preset_error, recursion_error,
  other_error, ◌>>=◌, or_fault, PresetCache, FileId, file_eq, names_in, extends_of, git_fetch,
  platform, load, as_settings, read_preset, kept_or_read, server_of, file_id, merge_presets,
  resolve_presets, Resolve,
}
use var_track.Rule.Chains.{
  Outcome-cases, Holds, Holds-ends, Holds->>=, preset_error-apart, Holds-or_fault, free,
  free-append, free_bound, is_known, all_known, knows, IsKnownCache, IsKnownCache-put,
}

-- What is known of git: the presets that it has name known ones, and an error is git's own.
abbrev pub Closed : Outside → RuleOptions → Record → List String → Type 0
Closed w o bundle known =
    (url ref path : String) (token : Option String) (content : String) (fs : Fields)
    → git_fetch w o bundle url ref path token ≡ ok (some content)
    → w.loads content ≡ some (dict fs)
    → knows known (Dict.pop (to_dict fs) "description") ≡ true

abbrev pub GitFaults : Outside → Type 0
GitFaults w =
    (url ref path : String) (token revision : Option String) (e : Fault)
    → w.extract_file url ref path token revision ≡ fault e
    → e ≡ other_error

module _ (w : Outside) (o : RuleOptions) (bundle : Record) (known : List String) (git : GitFaults w)
    (closed : Closed w o bundle known) where
  extract_file-Holds :
      (url ref path : String) (token revision : Option String)
      → Holds (λ c. Unit) (w.extract_file url ref path token revision)
  extract_file-Holds url ref path token revision =
      elim (Outcome-cases (w.extract_file url ref path token revision)) [
        | inl (a, e) ↦ rw e tt
        | inr (e, h) ↦
            rw h (rw (git url ref path token revision e h) (λ p. absurd (ground (arith, p))))
      ]

  git_fetch-Holds :
      (url ref path : String) (token : Option String)
      → Holds (λ c. Unit) (git_fetch w o bundle url ref path token)
  unfolding git_fetch
  git_fetch-Holds url ref path token =
      let is_full = is_some (strip_prefix "refs/" ref) in
      let full_ref = if is_full then ref else "refs/heads/" <> ref in
      Holds->>= (λ c. Unit) (λ c. Unit) (w.extract_file url full_ref path token none) _
        (extract_file-Holds url full_ref path token none)
        (λ content u.
          if-cases (Holds (λ c. Unit)) (not (is_some content) && not is_full)
            (w.extract_file url ("refs/tags/" <> ref) path token none) (ok content)
            (λ h. extract_file-Holds url ("refs/tags/" <> ref) path token none) (λ h. tt))

  as_settings-Holds :
      (v : Option Value)
      → ((fs : Fields)
          → v ≡ some (dict fs)
          → knows known (Dict.pop (to_dict fs) "description") ≡ true)
      → Holds (λ settings. knows known settings ≡ true) (as_settings v)
  unfolding as_settings
  as_settings-Holds (some (dict fs)) h = h fs refl
  as_settings-Holds none h = preset_error-apart
  as_settings-Holds (some null) h = preset_error-apart
  as_settings-Holds (some (bool b)) h = preset_error-apart
  as_settings-Holds (some (num n)) h = preset_error-apart
  as_settings-Holds (some (text s)) h = preset_error-apart
  as_settings-Holds (some (list vs)) h = preset_error-apart

  read_preset-Holds :
      (url ref path : String) (token : Option String) (content : Option String)
      → git_fetch w o bundle url ref path token ≡ ok content
      → Holds (λ settings. knows known settings ≡ true) (read_preset w o bundle content)
  unfolding read_preset
  read_preset-Holds url ref path token none e = preset_error-apart
  read_preset-Holds url ref path token (some content) e =
      as_settings-Holds (w.loads content) (λ fs. closed url ref path token content fs e)

  fetched-Holds :
      (url ref path : String) (token : Option String)
      → Holds
          (λ settings. knows known settings ≡ true)
          (git_fetch w o bundle url ref path token >>= read_preset w o bundle)
  fetched-Holds url ref path token =
      elim (Outcome-cases (git_fetch w o bundle url ref path token)) [
        | inl (content, e) ↦ rw e (read_preset-Holds url ref path token content e)
        | inr (f, e) ↦ rw e (rw e at (git_fetch-Holds url ref path token))
      ]

  kept_or_read-Holds :
      (id : FileId) (token : Option String) (cache : PresetCache) (found : Option Record)
      → IsKnownCache known cache
      → ((settings : Record) → found ≡ some settings → knows known settings ≡ true)
      → Holds
          (λ (settings, next). (knows known settings ≡ true) × IsKnownCache known next)
          (kept_or_read w o bundle id token cache found)
  unfolding kept_or_read
  kept_or_read-Holds id token cache (some settings) h k = (k settings refl, h)
  kept_or_read-Holds id token cache none h k =
      Holds->>= (λ settings. knows known settings ≡ true)
        (λ (settings, next). (knows known settings ≡ true) × IsKnownCache known next)
        (git_fetch w o bundle id.url id.ref id.file token >>= read_preset w o bundle)
        (λ settings. ok (settings, Dict.put cache id settings))
        (fetched-Holds id.url id.ref id.file token)
        (λ settings f. (f, IsKnownCache-put known cache id settings h f))

  abbrev LoadFine : Record × Origin × PresetCache → Type 0
  LoadFine (settings, server, next) = (knows known settings ≡ true) × IsKnownCache known next

  platform-Holds : (name : String) → Holds (λ server. Unit) (platform w o bundle name)
  unfolding platform
  platform-Holds name =
      Holds->>= (λ found. Unit) (λ server. Unit)
        (or_fault preset_error
          (find_wrapped w.conversions name (list_items (value_at bundle "platforms"))))
        _ (Holds-or_fault _) (λ found u. tt)

  server_of-Holds :
      (preset : Preset) (origin : Origin)
      → Holds (λ server. Unit) (server_of w o bundle preset origin)
  unfolding server_of
  server_of-Holds preset origin =
      if-cases (Holds (λ server. Unit)) ((preset.source == "") || (preset.source == "local"))
        (ok origin) (platform w o bundle preset.source) (λ h. tt)
        (λ h. platform-Holds preset.source)

  load-Holds :
      (name : String) (origin : Origin) (cache : PresetCache)
      → IsKnownCache known cache
      → Holds LoadFine (load w o bundle name origin cache)
  unfolding load
  load-Holds name origin cache h =
      Holds->>= (λ preset. Unit) LoadFine (or_fault preset_error (parse_preset w.unicode name)) _
        (Holds-or_fault (parse_preset w.unicode name))
        (λ preset u.
          Holds->>= (λ server. Unit) LoadFine (server_of w o bundle preset origin) _
            (server_of-Holds preset origin)
            (λ server v.
              let id = file_id w o bundle preset server in
              Holds->>=
                (λ (settings, next). (knows known settings ≡ true) × IsKnownCache known next)
                LoadFine (kept_or_read w o bundle id server.token cache (Dict.get cache id)) _
                (kept_or_read-Holds id server.token cache (Dict.get cache id) h (h id))
                (λ found good. good)))

  -- A call that is as deep as there are free names
  abbrev pub Deep : ℕ → Resolve w o bundle → Type 0
  Deep n f =
      (config : Record) (chain : List String) (origin : Origin) (cache : PresetCache)
      → knows known config ≡ true
      → IsKnownCache known cache
      → free known chain < n
      → Holds (λ (settings, next). IsKnownCache known next) (f config chain origin cache)

  abbrev Fine : Record × PresetCache → Type 0
  Fine (settings, next) = IsKnownCache known next

  merge_or_raise-Holds :
      (p c : Record) (next : PresetCache) (go : Record → Outcome (Record × PresetCache))
      → ((both : Record) → Holds Fine (go both))
      → Holds Fine (merge_or_raise o p c >>= go)
  unfolding merge_or_raise
  merge_or_raise-Holds p c next go h =
      if-cases (λ (m : Outcome Record). Holds Fine (m >>= go)) (can_merge o p c)
        (ok (merge_child o p c)) (fault type_error) (λ _. h (merge_child o p c))
        (λ _ e. absurd (ground (arith, e)))

  merge_presets-Holds :
      (n : ℕ) (f : Resolve w o bundle)
      → Deep n f
      → (names : List Value) (chain : List String) (origin : Origin) (merged : Record)
        (cache : PresetCache)
      → all (is_known known) names ≡ true
      → IsKnownCache known cache
      → free known chain < suc n
      → Holds Fine (merge_presets w o bundle f names chain origin merged cache)
  unfolding merge_presets
  merge_presets-Holds n f deep [] chain origin merged cache k h bound = h
  merge_presets-Holds n f deep (text name ∷ names) chain origin merged cache k h bound =
      let rest : (m : Record) (next : PresetCache)
          → IsKnownCache known next
          → Holds Fine (merge_presets w o bundle f names chain origin m next) =
        λ m next g.
          merge_presets-Holds n f deep names chain origin m next (ground (arith, k)) g bound in
      if-cases (Holds Fine) (contains chain name)
        (merge_presets w o bundle f names chain origin merged cache) _
        (λ there. rest merged cache h)
        (λ new.
          Holds->>= LoadFine Fine (load w o bundle name origin cache) _
            (load-Holds name origin cache h)
            (λ (settings, server, loaded) (s, g).
              Holds->>= Fine Fine (f settings (chain ++ name ∷ []) server loaded) _
                (deep settings (chain ++ name ∷ []) server loaded s g
                  (ground (arith, free-append known chain name, k, new, bound)))
                (λ (found, next) good.
                  merge_or_raise-Holds merged found next _ (λ both. rest both next good))))
  merge_presets-Holds n f deep (v ∷ names) chain origin merged cache k h bound = preset_error-apart

  names_in-Holds :
      (v : Value)
      → all_known known (names_in v) ≡ true
      → Holds (λ names. all (is_known known) names ≡ true) (names_in v)
  names_in-Holds (text s) k = k
  names_in-Holds (list vs) k = k
  names_in-Holds null k = preset_error-apart
  names_in-Holds (bool b) k = preset_error-apart
  names_in-Holds (num n) k = preset_error-apart
  names_in-Holds (dict fs) k = preset_error-apart

  extends_of-Holds :
      (config : Record)
      → knows known config ≡ true
      → Holds (λ names. all (is_known known) names ≡ true) (extends_of config)
  unfolding extends_of
  extends_of-Holds config k = elim (Bool-cases (truthy (value_at config "extends"))) [
    | inl given ↦ rw given (names_in-Holds (value_at config "extends") (rw given at k))
    | inr nothing ↦ rw nothing refl
  ]

  resolve_presets-Deep : (n : ℕ) → Deep n (resolve_presets w o bundle n)
  unfolding resolve_presets
  resolve_presets-Deep zero config chain origin cache k h bound = absurd (ground (arith, bound))
  resolve_presets-Deep (suc n) config chain origin cache k h bound =
      Holds->>= (λ names. all (is_known known) names ≡ true) Fine (extends_of config) _
        (extends_of-Holds config k)
        (λ names known_names.
          Holds->>= Fine Fine
            (merge_presets w o bundle (resolve_presets w o bundle n) names chain origin [] cache) _
            (merge_presets-Holds n (resolve_presets w o bundle n) (resolve_presets-Deep n) names
              chain origin [] cache known_names h bound)
            (λ (merged, next) good. merge_or_raise-Holds merged _ next _ (λ both. good)))

  -- Resolving presets ends: with one more call than there are names of presets, from settings that name
  -- these, it never runs out of calls; when git holds only presets that name these, and an error of git
  -- is git's own.
  pub resolve_presets-ends :
      (n : ℕ) (config : Record) (origin : Origin)
      → knows known config ≡ true
      → length known < n
      → resolve_presets w o bundle n config [] origin [] ≢ fault recursion_error
  unfolding Dict.get
  resolve_presets-ends n config origin k bound =
      Holds-ends Fine (resolve_presets w o bundle n config [] origin []) (
        resolve_presets-Deep n config [] origin [] k (λ id settings e. absurd (ground (arith, e)))
          (ground (arith, free_bound known [], bound)))
