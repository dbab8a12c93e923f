-- ===== src/Tests/Syncing.antt =====
-- A sync of four files whose third write fails, and the theorems on it.
use var_track.Prelude.{String, ◌≡◌, List, [], ◌∷◌, map, nat_eq}
use var_track.Prelude.Dict.{Dict}
use var_track.Value.{null}
use var_track.Sync.Files.{EtlFile, SyncResult}
use var_track.Sync.Run.{run_stage_sync}
use var_track.Sync.Results.{paths-run_stage_sync}
use var_track.Tests.Memory.{Store, memory_redis, registry, doc_sink, prune_on, job_on}

abbrev file : String → Dict String String → EtlFile
file path flat = record {
  file_path = path;
  env = "prod";
  flat_data = flat;
  root_key = "";
  logger_fields = [];
  shape = null;
}

abbrev files : List EtlFile
files =
    file "a.yaml" (("A", "2") ∷ [])
    ∷ file "empty.yaml" []
    ∷ file "bad.yaml" (("B", "1") ∷ [])
    ∷ file "c.yaml" (("C", "1") ∷ [])
    ∷ []

-- Every document held one key.
abbrev before : String → String → Dict String String
before env path = ("A", "1") ∷ []

abbrev store : Store
store = record { targets = []; sets = [] }

paths-run_stage_sync_example :
    map
      (λ (r : SyncResult). r.file_path)
      (run_stage_sync doc_sink
        (job_on "mongo")
        (λ s. s)
        memory_redis
        store
        registry
        prune_on
        files
        ("big.yaml" ∷ [])
        before).1
    ≡ "a.yaml" ∷ "empty.yaml" ∷ "bad.yaml" ∷ "c.yaml" ∷ "big.yaml" ∷ []
paths-run_stage_sync_example =
    paths-run_stage_sync doc_sink (job_on "mongo") (λ s. s) memory_redis store registry prune_on
      files ("big.yaml" ∷ []) before
