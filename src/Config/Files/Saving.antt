-- ===== src/Config/Files/Saving.antt =====
-- crates/cng-core/src/config.rs: what is loaded after a save that may have failed anywhere.
use codex_no.Config.{GuardConfig}
use codex_no.Base.{◌≡◌, refl, sym, ap, ◌∙◌, ◌⊎◌, inl, inr, none, some, Option-cases}
use codex_no.Base.Text.{Text, codes}
use codex_no.Base.Results.{Result, ok, err, context}
use codex_no.Config.Files.{
  load_from, File, Fault, load_or_create, save, GuardConfig, private_mode, Toml, Disk,
  write_private, at_directory, at_permissions, at_rename, no_fault, at_write,
}

-- The new content is there, with private permissions, or the old file is untouched.
abbrev pub IsReplaced : Text → Disk → Result (Unit {0}) × Disk → Type 0
IsReplaced content d out =
    ((out.0 ≡ ok tt) × (out.1.target ≡ some (record { content = content; mode = private_mode })))
    ⊎ ((e : Text) × (out.0 ≡ err e) × (out.1.target ≡ d.target))

write_private-IsReplaced :
    (fault : Fault) (content : Text) (d : Disk)
    → IsReplaced content d (write_private fault content d)
unfolding write_private
write_private-IsReplaced at_directory content d = inr (_, refl, refl)
write_private-IsReplaced at_permissions content d = inr (_, refl, refl)
write_private-IsReplaced at_rename content d = inr (_, refl, refl)
write_private-IsReplaced no_fault content d = inl (refl, refl)
write_private-IsReplaced (at_write count) content d = inr (_, refl, refl)

module _ (toml : Toml) where
  -- The save succeeded, and the next start reads what was saved; or it failed, and the next start reads
  -- from the file that was there before, if there was one.
  abbrev pub IsLoadedAfter : GuardConfig → Disk → Fault → Result (Unit {0}) × Disk → Type 0
  IsLoadedAfter config d later out =
      ((out.0 ≡ ok tt) × (load_or_create toml later out.1 ≡ (ok config, out.1)))
      ⊎ ((e : Text) × (out.0 ≡ err e)
          × (out.1.target ≡ d.target)
          × ((d.target ≡ none)
              ⊎ ((load_or_create toml later out.1).0 ≡ (load_or_create toml later d).0)))

  load_lem :
      (later : Fault) (d : Disk) (f : File)
      → d.target ≡ some f
      → load_or_create toml later d
        ≡ (context (toml.parse f.content) (codes "parse configuration"), d)
  unfolding load_or_create load_from
  load_lem later d f e = ap (λ t. load_from toml t later d) e

  same_lem :
      (later : Fault) (d d' : Disk)
      → d'.target ≡ d.target
      → (d.target ≡ none) ⊎ ((load_or_create toml later d').0 ≡ (load_or_create toml later d).0)
  same_lem later d d' same = elim (Option-cases d.target) [
    | inl e ↦ inl e
    | inr (f, e) ↦ inr (
        ap (λ o. o.0) (load_lem later d' f (same ∙ e)) ∙ sym (ap (λ o. o.0) (load_lem later d f e)))
  ]

  -- Wherever a save fails, even in the middle of the write, the next start reads either the whole new
  -- configuration, if the save reported success, or the file as it was before, if it reported an error:
  -- never a part of one. This assumes that parsing what was printed gives the configuration.
  pub save-load_or_create :
      (fault later : Fault) (config : GuardConfig) (content : Text) (d : Disk)
      → toml.print config ≡ ok content
      → toml.parse content ≡ ok config
      → IsLoadedAfter config d later (save toml fault config d)
  unfolding save
  save-load_or_create fault later config content d p q =
      rw (p, save) (go (write_private fault content d) (write_private-IsReplaced fault content d))
    where
      go :
          (out : Result (Unit {0}) × Disk)
          → IsReplaced content d out
          → IsLoadedAfter config d later out
      go out (inl (o, t)) = inl (
        o,
        load_lem later out.1 (record { content = content; mode = private_mode }) t
            ∙ ap (λ r. (context r (codes "parse configuration"), out.1)) q,
      )
      go out (inr (e, o, t)) = inr (e, o, t, same_lem later d out.1 t)
