-- ===== src/Service/Macos/Ending.antt =====
-- crates/cng-core/src/service.rs: how the installation on macOS ends, where every call can be made.
pub mod Rules
pub mod Files
pub mod Placing
pub mod Removal
use codex_no.Service.Macos.Ending.Placing.{
  redirected_lem, loaded_lem, placed_lem, HasAll, Holds, IsLoaded,
}
use codex_no.Service.Macos.Ending.Removal.{uninstalled_lem, IsRemoved, told_lem, told}
use codex_no.Service.Macos.Ending.Rules.{Leads-resume, IsWell}
use codex_no.Service.Environment.{IsOwn}
use codex_no.Service.Machine.{
  Computer, Outside, ServiceStatus, ◌>>=◌, ◌>>◌, ask_service, rolled_back, bind-ok,
}
use codex_no.Service.Custody.{IsWrapper}
use codex_no.Service.Macos.{
  status, place_files, load_service, redirect, uninstall, await_daemon, install,
}
use codex_no.Base.Results.{Result, ok, err}
use codex_no.Base.{
  ℕ, zero, suc, ◌+◌, ◌<◌, ◌≡◌, refl, sym, ap, ◌∙◌, ◌⊎◌, inl, inr, Bool, true, false, ◌&&◌, Option,
  none, some, arith, Bool-cases,
}
use codex_no.Base.Text.{Text}

module _ (w : Outside) (well : IsWell w) where
  abbrev pub is_ready : ℕ → Bool
  is_ready n = w.succeeds (ask_service n) && w.answers n

  -- The first of some rounds in which the daemon runs and answers ends the waiting; without one the
  -- installation is removed.
  abbrev pub EndsFrom : ℕ → ℕ → Computer → Result ServiceStatus × Computer → Type 0
  EndsFrom rounds n c o =
      ((k : ℕ) × (k < rounds)
        × (is_ready (n + k) ≡ true)
        × ((j : ℕ) → j < k → is_ready (n + j) ≡ false)
        × (o ≡ (ok (told w well (n + k) c), c)))
      ⊎ (((j : ℕ) → j < rounds → is_ready (n + j) ≡ false)
          × (o ≡ (err rolled_back, (uninstall w (n + rounds) c).1)))

  add_zero_lem : (n : ℕ) → n ≡ n + 0
  add_zero_lem n = omega arith

  add_suc_lem : (n k : ℕ) → (n + 1) + k ≡ n + suc k
  add_suc_lem n k = omega arith

  earlier :
      (k n : ℕ)
      → is_ready n ≡ false
      → ((j : ℕ) → j < k → is_ready (n + 1 + j) ≡ false)
      → (j : ℕ) → j < suc k
      → is_ready (n + j) ≡ false
  earlier k n e h zero lt = ap is_ready (sym (add_zero_lem n)) ∙ e
  earlier k n e h (suc j) lt = ap is_ready (sym (add_suc_lem n j)) ∙ h j (omega arith)

  later :
      (rounds n : ℕ) (c : Computer)
      → is_ready n ≡ false
      → {o p : Result ServiceStatus × Computer} → EndsFrom rounds (n + 1) c o
      → p ≡ o
      → EndsFrom (suc rounds) n c p
  later rounds n c e (inl (k, lt, ready, before, same)) step = inl (
    suc k,
    omega arith,
    ap is_ready (sym (add_suc_lem n k)) ∙ ready,
    earlier k n e before,
    step ∙ (same ∙ ap (λ i. (ok (told w well i c), c)) (add_suc_lem n k)),
  )
  later rounds n c e (inr (before, same)) step = inr (
    earlier rounds n e before,
    step ∙ (same ∙ ap (λ i. (err rolled_back, (uninstall w i c).1)) (add_suc_lem n rounds)),
  )

  awaited_lem : (rounds n : ℕ) (c : Computer) → EndsFrom rounds n c (await_daemon w rounds n c)
  unfolding await_daemon
  awaited_lem zero n c = inr (
    λ j h. absurd (omega arith),
    ap (λ k. (err rolled_back, (uninstall w k c).1)) (add_zero_lem n),
  )
  awaited_lem (suc rounds) n c = elim (Bool-cases (is_ready n)) [
    | inl e ↦ inl (
      0,
      omega arith,
      ap is_ready (sym (add_zero_lem n)) ∙ e,
      λ j h. absurd (omega arith),
      bind-ok (status w n) _ c c (told w well n c) (told_lem w well n c)
          ∙ rw e (ap (λ k. (ok (told w well k c), c)) (add_zero_lem n)),
    )
    | inr e ↦
        later rounds n c e (awaited_lem rounds (n + 1) c)
          (bind-ok (status w n) _ c c (told w well n c) (told_lem w well n c) ∙ rw e refl)
  ]

  -- The daemon was not ready in the rounds before this one.
  abbrev pub IsNotReadyBefore : ℕ → Type 0
  IsNotReadyBefore zero = Unit
  IsNotReadyBefore (suc k) = IsNotReadyBefore k × (is_ready k ≡ false)

  zero_add_lem : (k : ℕ) → 0 + k ≡ k
  zero_add_lem k = omega arith

  not_ready_lem : (k : ℕ) → ((j : ℕ) → j < k → is_ready (0 + j) ≡ false) → IsNotReadyBefore k
  not_ready_lem zero h = tt
  not_ready_lem (suc k) h = (
    not_ready_lem k (λ j lt. h j (omega arith)),
    ap is_ready (sym (zero_add_lem k)) ∙ h k (omega arith),
  )

  -- The two ends of the installation.
  abbrev pub IsEnd : Option Text → Result ServiceStatus × Computer → Type 0
  IsEnd v o =
      ((k : ℕ) × (d : Computer) × (k < 24)
        × (is_ready k ≡ true)
        × IsNotReadyBefore k
        × IsLoaded w well (some w.wrapper) (some v) d
        × (o ≡ (ok (told w well k d), d)))
      ⊎ ((d : Computer) × IsNotReadyBefore 24 × IsRemoved w well v d × (o ≡ (err rolled_back, d)))

  ends_lem :
      (v : Option Text) (c : Computer) (o : Result ServiceStatus × Computer)
      → IsWrapper w.wrapper
      → IsLoaded w well (some w.wrapper) (some v) c
      → EndsFrom 24 0 c o
      → IsEnd v o
  ends_lem v c o shape h (inl (k, lt, ready, before, same)) = inl (
    k,
    c,
    lt,
    ap is_ready (sym (zero_add_lem k)) ∙ ready,
    not_ready_lem k before,
    h,
    same ∙ ap (λ i. (ok (told w well i c), c)) (zero_add_lem k),
  )
  ends_lem v c o shape h (inr (before, same)) = inr (
    (uninstall w (0 + 24) c).1,
    not_ready_lem 24 before,
    uninstalled_lem w well v (0 + 24) c shape h,
    same,
  )

  -- Where every call can be made and the programs are beside the installer, an installation over a
  -- user's own value ends in one of two ways. Either there is a first round, of at most 24, in which the
  -- service runs and the daemon answers: then the status of that round is returned, the programs cng,
  -- cngd and cng-codex, the link codex, the directory of the logs and the LaunchAgent are in place, the
  -- service is loaded, CODEX_CLI_PATH leads to the wrapper and the state file holds the user's value.
  -- Or there is none: then the installation is refused as rolled back, the LaunchAgent, the programs
  -- and the state file are gone and CODEX_CLI_PATH is the user's again.
  pub install-IsEnd :
      (v : Option Text) (c : Computer)
      → IsWrapper w.wrapper
      → IsOwn w.wrapper v
      → Holds w well v none c
      → IsEnd v (install w c)
  unfolding install
  install-IsEnd v c shape own h =
      Leads-resume (HasAll w well v none) (IsEnd v) (place_files w c) _
        (placed_lem w well v none c h)
        λ u1 c1 h1.
          Leads-resume (IsLoaded w well v none) (IsEnd v) (load_service w c1) _
            (loaded_lem w well v none c1 h1)
            λ u2 c2 h2.
              Leads-resume (IsLoaded w well (some w.wrapper) (some v)) (IsEnd v) (redirect w c2) _
                (redirected_lem w well v c2 own h2)
                λ u3 c3 h3. ends_lem v c3 (await_daemon w 24 0 c3) shape h3 (awaited_lem 24 0 c3)
