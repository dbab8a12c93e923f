-- ===== src/Sink.antt =====
-- app/pipeline/sinks/base.py: a sink as the sync stage uses it. What a sink class does with its store
-- is a parameter: a record of its methods over a state. A method that raises may have changed the
-- state, so the state comes back beside the error.
use var_track.Prelude.{ℕ, String, ◌≡◌, refl, ◌⊎◌, inl, inr, Bool, Option, List}
use var_track.Prelude.Dict.{Dict}
use var_track.Value.{Value}
use var_track.Ledger.{Live}
use var_track.Prune.Stale.{SinkClass}

pub data Reply {ℓ} (A : Type ℓ) : Type ℓ where
  done : A → Reply A
  raised : String → Reply A

pub data SyncMode : Type 0 where
  unspecified git_upsert_all git_smart_repair live_state auto : SyncMode

-- The arguments of `write`.
pub record WriteCall : Type 0 where
  pub flat_data : Dict String String
  pub shape : Value
  pub sync_mode : SyncMode
  pub datasource : String
  pub env : String
  pub repo : String
  pub branch : String
  pub commit_sha : String
  pub file_path : String
  pub tenant_id : String
  pub total_sources : ℕ

-- What `_write` returns.
pub record Wrote : Type 0 where
  pub written : ℕ
  pub replaced : ℕ
  pub strategy : String

pub record Sink : Type 1 where
  pub State : Type 0
  pub cls : SinkClass
  -- the flag is `strict_reads`; then keys, datasource and environment
  pub read_values : State → Bool → List String → String → String → Reply (Dict String Live)
  pub write : State → WriteCall → State × Reply Wrote
  pub delete_keys : State → List String → String → String → State × Reply ℕ
  -- what a snapshot holds, and the empty one
  pub Docs : Type 0
  pub no_docs : Docs
  -- datasource, environment and file; `none` where the class has no `snapshot_file_data`
  pub snapshot_file_data : Option {0} (State → String → String → String → Reply Docs)
  -- `none` where the class has no `restore_file_data`
  pub restore_file_data :
      Option {0} (State → String → String → String → Docs → State × Reply (Unit {0}))
  pub delete_file_data : State → String → String → String → State × Reply ℕ

pub Reply-cases {ℓ} :
    {A : Type ℓ} (r : Reply A) → ((a : A) × (r ≡ done a)) ⊎ ((e : String) × (r ≡ raised e))
Reply-cases (done a) = inl (a, refl)
Reply-cases (raised e) = inr (e, refl)

pub done-injective {ℓ} : {A : Type ℓ} (a b : A) → done a ≡ done b → a ≡ b
done-injective a b e = cc

-- What comes after a call, where it does not raise.
infixl 5 ◌>>=◌
abbrev pub ◌>>=◌ {ℓ κ} : {A : Type ℓ} {B : Type κ} → Reply A → (A → Reply B) → Reply B
◌>>=◌ (done a) later = later a
◌>>=◌ (raised e) later = raised e

-- What holds of every result of the later call holds of the result of both.
pub >>=-done {ℓ κ ι} :
    {A : Type ℓ} {B : Type κ} (P : B → Type ι) (m : Reply A) (later : A → Reply B)
    → ((a : A) → m ≡ done a → (b : B) → later a ≡ done b → P b)
    → (b : B) → m >>= later ≡ done b
    → P b
>>=-done P (done a) later each b e = each a refl b e
>>=-done P (raised m) later each b e = cc
