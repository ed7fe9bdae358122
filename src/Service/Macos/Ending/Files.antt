-- ===== src/Service/Macos/Ending/Files.antt =====
-- crates/cng-core/src/service.rs: on macOS, the programs that are in place while they are copied.
use codex_no.Base.Text.Laws.{text_eq_iff, text_eq_refl}
use codex_no.Service.Machine.{Outside, files_of}
use codex_no.Service.Macos.{launch_agent_xml}
use codex_no.Base.{
  ◌≡◌, refl, Bool, true, false, not, Option, some, List, [], ◌∷◌, arith, any_of, keep_if, All,
}
use codex_no.Base.Text.{Text, codes, text_eq}

abbrev pub is_among : Text → Option (List Text) → Bool
is_among name programs = any_of (λ f. text_eq f name) (files_of programs)

-- The directory of the programs has all the names.
pub record IsPresent (names : List Text) (programs : Option (List Text)) : Type 0 where
  pub all : All (λ n. is_among n programs ≡ true) names

-- The directory with a file written anew, and with a file removed.
abbrev pub rewritten : Text → Option (List Text) → Option (List Text)
rewritten name programs = some (name ∷ keep_if (λ f. not (text_eq f name)) (files_of programs))

abbrev pub removed : Text → Option (List Text) → Option (List Text)
removed name programs = some (keep_if (λ f. not (text_eq f name)) (files_of programs))

any_rewritten_lem :
    (name n : Text) (files : List Text)
    → any_of (λ f. text_eq f n) files ≡ true
    → any_of (λ f. text_eq f n) (name ∷ keep_if (λ f. not (text_eq f name)) files) ≡ true
any_rewritten_lem name n [] h = cc
any_rewritten_lem name n (f ∷ fs) h =
    ground
      (arith, text_eq_iff f n, text_eq_iff f name, text_eq_iff name n, any_rewritten_lem name n fs)

any_removed_lem :
    (name n : Text) (files : List Text)
    → text_eq n name ≡ false
    → any_of (λ f. text_eq f n) files ≡ true
    → any_of (λ f. text_eq f n) (keep_if (λ f. not (text_eq f name)) files) ≡ true
any_removed_lem name n [] other h = cc
any_removed_lem name n (f ∷ fs) other h =
    ground (arith, text_eq_iff f n, any_removed_lem name n fs other)

all_rewritten_lem :
    (name : Text) (programs : Option (List Text)) (names : List Text)
    → All (λ n. is_among n programs ≡ true) names
    → All (λ n. is_among n (rewritten name programs) ≡ true) names
all_rewritten_lem name programs [] h = tt
all_rewritten_lem name programs (n ∷ ns) (p, h) =
    (any_rewritten_lem name n (files_of programs) p, all_rewritten_lem name programs ns h)

pub rewritten-IsPresent :
    (name : Text) (names : List Text) (programs : Option (List Text))
    → IsPresent names programs
    → IsPresent (name ∷ names) (rewritten name programs)
rewritten-IsPresent name names programs h = record {
  all = (rw (text_eq_refl name) refl, all_rewritten_lem name programs names h.all);
}

-- The programs that are copied, the last one first.
abbrev pub copied_names : List Text
copied_names = codes "cng" ∷ codes "cng-codex" ∷ codes "cngd" ∷ []

pub removed-IsPresent :
    (programs : Option (List Text))
    → IsPresent copied_names programs
    → IsPresent copied_names (removed (codes "codex") programs)
unfolding text_eq
removed-IsPresent programs h =
    let (p, (q, (r, e))) = h.all in
    record {
      all = (
        any_removed_lem (codes "codex") (codes "cng") (files_of programs) refl p,
        (
          any_removed_lem (codes "codex") (codes "cng-codex") (files_of programs) refl q,
          (any_removed_lem (codes "codex") (codes "cngd") (files_of programs) refl r, tt),
        ),
      );
    }

-- All is in place: the programs, the link `codex`, the directory of the logs, and the LaunchAgent.
pub record IsPlaced (w : Outside) (programs : Option (List Text)) (has_logs : Bool)
    (agent : Option Text) : Type 0 where
  pub is_present : IsPresent (codes "codex" ∷ copied_names) programs
  pub is_logged : has_logs ≡ true
  pub is_agent : agent ≡ some (launch_agent_xml w.daemon w.wrapper w.logs)
