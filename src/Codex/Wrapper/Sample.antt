-- ===== src/Codex/Wrapper/Sample.antt =====
-- crates/cng-core/src/codex.rs: a Codex that lists the feature, for tests.
use codex_no.Codex.Wrapper.Jobs.{Programs}
use codex_no.Base.Results.{ok}
use codex_no.Base.{ℕ, true, some, []}
use codex_no.Base.Text.{Text, codes}

abbrev pub programs : Programs
programs = record {
  Value = Text;
  Child = ℕ;
  variable = λ name. some (codes "intranet");
  answer = λ c. some (true, codes "respect_system_proxy stable true");
  execute = λ c. ok (record { succeeded = true; code = some 0; stdout = codes "{}"; stderr = [] });
  spawn = λ c. ok 7;
  parse = λ bytes. ok bytes;
  lossy = λ bytes. bytes;
  ok_value = codes "ok";
}
