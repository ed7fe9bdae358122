-- ===== src/Service/Sample.antt =====
-- crates/cng-core/src/service.rs: a small computer and its world, for tests.
use codex_no.Service.Machine.{Computer, Outside}
use codex_no.Base.{leb, true, false, none, some, []}
use codex_no.Base.Text.{codes}

-- Every call can be made and succeeds, and the daemon answers from the third round on.
abbrev pub calm_world : Outside
calm_world = record {
  fault = λ call. none;
  succeeds = λ call. true;
  answers = λ n. leb 2 n;
  has_source = λ name. true;
  is_same_file = λ name. false;
  bin = codes "/b";
  daemon = codes "/d";
  wrapper = codes "/w";
  logs = codes "/l";
  has_legacy = false;
  has_legacy_program = λ name. false;
  reads_state = true;
  query_output = λ value. value;
  left = none;
}

abbrev pub fresh : Computer
fresh = record {
  programs = none;
  has_logs = false;
  agent = none;
  loaded = false;
  environment = record { variable = some (codes "/u"); saved = none };
  shell = record { profile = none; backup = none };
  legacy = record { is_loaded = false; copies = [] };
}
