-- ===== src/Tests/Memory.antt =====
-- A Redis, two sinks and a registry in memory, and the data of the tests.
use var_track.Prelude.{
  String, true, false, ◌&&◌, none, some, List, [], ◌∷◌, map, keep, not, contains, length, ◌==◌,
  string_eq, if◌then◌else◌,
}
use var_track.Prelude.Dict
use var_track.Prelude.Dict.{Dict, or_else}
use var_track.Ledger.{Entry, Target, Redis, Live, value}
use var_track.Payload.{PruneConfig}
use var_track.Sink.{Reply, done, raised, unspecified, WriteCall, Wrote, Sink}
use var_track.Prune.Stale.{SinkClass, Registry}
use var_track.Sync.Files.{Job}

pub record Store : Type 0 where
  pub targets : Dict String Target
  pub sets : Dict String (List String)

abbrev pub memory_redis : Redis
memory_redis = record {
  State = Store;
  get = λ s k. some (Dict.get s.targets k);
  mget = λ s ks. some (map (Dict.get s.targets) ks);
  smembers = λ s k. some (or_else (Dict.get s.sets k) []);
}

-- Keys of their own, one key space for each environment but "qa", which shares that of "prod".
abbrev pub hash_class : SinkClass
hash_class = record {
  name = "RedisSink";
  prunes_keys = λ rule. true;
  store = λ rule. some "redis:6379/0";
  key_space = λ rule tenant env. some (if env == "qa" then "prod" else env);
}

abbrev pub registry : Registry
registry = record {
  tenant_ids = some ("acme" ∷ "blue" ∷ []);
  every_rule = some [];
  sink_class = λ datasource. some hash_class;
}

abbrev live_of : Dict String String → List String → Dict String Live
live_of d [] = []
live_of d (k ∷ ks) = elim (Dict.get d k) [
  | none ↦ live_of d ks
  | some v ↦ (k, value v) ∷ live_of d ks
]

abbrev without : Dict String String → List String → Dict String String
without d ks = keep (λ e. not (contains ks e.0)) d

-- A hash of keys, as a sink.
abbrev pub hash_sink : Sink
hash_sink = record {
  State = Dict String String;
  cls = hash_class;
  read_values = λ d strict keys datasource env. done (live_of d keys);
  write = λ d c. (
    Dict.update d c.flat_data,
    done (record { written = length c.flat_data; replaced = 0; strategy = "" }),
  );
  delete_keys = λ d keys datasource env. (without d keys, done (length keys));
  Docs = Unit;
  no_docs = tt;
  snapshot_file_data = none;
  restore_file_data = none;
  delete_file_data = λ d datasource env path. (d, done 0);
}

-- A document for each environment and file. The write of "bad.yaml" empties its document and raises.
abbrev Docs : Type 0
Docs = String → String → Dict String String

abbrev set_doc : String → String → Dict String String → Docs → Docs
set_doc env path d k e f = if (env == e) && (path == f) then d else k e f

abbrev write_doc : Docs → WriteCall → Docs × Reply Wrote
write_doc k c =
    if c.file_path == "bad.yaml"
    then (set_doc c.env c.file_path [] k, raised "connection lost")
    else (
      set_doc c.env c.file_path c.flat_data k,
      done (record { written = length c.flat_data; replaced = 0; strategy = "" }),
    )

abbrev pub doc_sink : Sink
doc_sink = record {
  State = Docs;
  cls = record hash_class { prunes_keys = λ rule. false };
  read_values = λ k strict keys datasource env. done [];
  write = write_doc;
  delete_keys = λ k keys datasource env. (k, done 0);
  Docs = Dict String String;
  no_docs = [];
  snapshot_file_data = some (λ k datasource env path. done (k env path));
  restore_file_data = some (λ k datasource env path d. (set_doc env path d k, done tt));
  delete_file_data = λ k datasource env path. (set_doc env path [] k, done 1);
}

abbrev pub plain_entry : String → Dict String String → Entry
plain_entry path desired = record { file = some path; desired = desired; secret_digests = [] }

-- A target with one file.
abbrev pub target_of : String → String → String → Dict String String → Target
target_of env path space desired = record {
  datasource = "redis";
  env = env;
  files = path ∷ [];
  desired = desired;
  secret_digests = [];
  desired_by_file = some (("acme/configs:a.yaml", plain_entry path desired) ∷ []);
  pending_prune = [];
  key_space = some space;
}

abbrev pub prune_on : PruneConfig
prune_on = record { enabled = true; dry_run = false; protection = "SYSTEM_*" ∷ [] }

abbrev pub job_on : String → Job
job_on datasource = record {
  rule = [];
  configured_mode = unspecified;
  datasource = datasource;
  tenant_id = "acme";
  total_sources = 1;
  ctx_repo_url = "http://gitea:3000/acme/configs.git";
  branch = "main";
  commit_sha = "0123456789abcdef";
  repo = "http://gitea:3000/acme/configs.git";
}
