-- ===== src/Front/Examples.antt =====
-- crates/cng/src/main.rs and apps/desktop/src-tauri/src/main.rs: a small desk, a command that is typed
-- there, and tests.
use codex_no.Codex.Wrapper.Sample.{programs}
use codex_no.Front.Cli.{main, show_status, rpc}
use codex_no.Front.{call, Desk, Session, output_line, error_line}
use codex_no.Daemon.Requests.{status_reply}
use codex_no.Daemon.Sample.{world, start_state}
use codex_no.Service.Sample.{calm_world, fresh}
use codex_no.Base.Results.{ok, err}
use codex_no.Url.Sample.{sample_lib}
use codex_no.Base.{◌≡◌, refl, true, false, none, some, [], ◌∷◌, ◌++◌}
use codex_no.Base.Text.{codes}

abbrev desk : Desk sample_lib
desk = record {
  world = world;
  outside = calm_world;
  socket_fault = none;
  call_fault = none;
  answer_fault = none;
  print_reply = λ reply. ok (codes "{}");
  print_service = λ status. ok (codes "{}");
  print_migration = λ report. ok (codes "{}");
  read_status = λ reply. elim reply [ status_reply s ↦ ok s | _ ↦ err (codes "missing field") ];
  join_path = λ directory name. directory ++ (47 ∷ name);
  write_fault = λ path. none;
  load_config = ok start_state.config;
  programs = programs;
  open_app = ok true;
  profile = codes "/home/.zprofile";
  backup_directory = codes "/b";
  desktop_dir = none;
  support_dir = some (codes "/s");
}

abbrev session : Session sample_lib
session = record { daemon = start_state; computer = fresh; lines = []; reports = [] }

-- A daemon that is not reached.
unreached :
    main sample_lib (record desk { call_fault = some (codes "x") }) (show_status false) session ≡ (
      1,
      record session {
        lines =
            error_line (
              codes
                "cng: Codex Network Guard daemon is not reachable; run `cng service install`: x")
            ∷ [];
      },
    )
unfolding main codex_no.Front.Cli.run rpc call
unreached = refl
