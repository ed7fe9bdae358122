-- ===== src/Codex/Wrapper/Examples.antt =====
-- crates/cng-core/src/codex.rs: a Codex that lists the feature, and the theorem there.
use codex_no.Codex.Wrapper.Sample.{programs}
use codex_no.Codex.Wrapper.Jobs.Shielded.{
  IsGuarded, arguments_of, control_job, started, started-AreGuarded,
}
use codex_no.Base.{All}
use codex_no.Base.Text.{codes}

started-AreGuarded_example :
    All
      (IsGuarded programs (codes "/opt/codex") (arguments_of (control_job (codes "pair"))))
      (started programs (codes "/opt/codex") (control_job (codes "pair")))
started-AreGuarded_example =
    started-AreGuarded programs (codes "/opt/codex") (control_job (codes "pair"))
