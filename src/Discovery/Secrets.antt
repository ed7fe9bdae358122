-- ===== src/Discovery/Secrets.antt =====
-- crates/cng-core/src/discovery.rs: where the credentials of a manual upstream go.
use codex_no.Discovery.Search.{
  macos, windows, elsewhere, Platform, save_elsewhere, has_secret, save_manual_upstream,
  save_on_macos, Host,
}
use codex_no.Base.{
  ◌≡◌, refl, sym, ap, ◌∙◌, ◌⊎◌, inl, inr, Bool, true, false, not, ◌&&◌, Option, none, some, arith,
  if◌then◌else◌, Bool-cases, is_some,
}
use codex_no.Base.Text.{Text}
use codex_no.Url.{UrlLib}
use codex_no.Base.Results.{ok, >>=-eq-ok, or_fail, ensure}

ensure-eq-ok : (b : Bool) (e : Text) (u : Unit {0}) → ensure b e ≡ ok u → b ≡ true
ensure-eq-ok true e u h = refl
ensure-eq-ok false e u h = cc

or_fail-eq-ok {ℓ} : {A : Type ℓ} (o : Option A) (e : Text) (a : A) → or_fail o e ≡ ok a → o ≡ some a
or_fail-eq-ok none e a h = cc
or_fail-eq-ok (some b) e a h = ground arith

module _ (U : UrlLib) (h : Host) where
  -- The value is a URL, it was stored in the keychain if it holds credentials, and the flag tells so.
  abbrev pub IsSaved : Text → Bool → Type 0
  IsSaved value stored =
      (url : U.Url) × (U.parse value ≡ some url)
      × (has_secret U h url ≡ stored)
      × ((stored ≡ false) ⊎ ((h.platform ≡ macos) × (h.add_password value ≡ ok true)))

  on_macos_lem :
      (value : Text) (url : U.Url) (stored : Bool)
      → save_on_macos U h value url ≡ ok stored
      → (has_secret U h url ≡ stored) × ((stored ≡ false) ⊎ (h.add_password value ≡ ok true))
  unfolding save_on_macos
  on_macos_lem value url stored e =
      let (u, _, e1) =
        >>=-eq-ok (ensure (is_some (U.host_str url) && is_some (U.port_or_known_default url)) _) _
          e in
      let (done, d, e2) =
        >>=-eq-ok (if has_secret U h url then h.add_password value else ok true) _ e1 in
      let (v, k, e3) = >>=-eq-ok (ensure done _) _ e2 in
      let yes : done ≡ true = ensure-eq-ok done _ v k in
      let same : has_secret U h url ≡ stored = ground arith in
      elim (Bool-cases (has_secret U h url)) [
        | inr n ↦ (same, inl (sym same ∙ n))
        | inl n ↦
            let kept : h.add_password value ≡ ok done = rw n at d in (same, inr (kept ∙ ap ok yes))
      ]

  elsewhere_lem :
      (url : U.Url) (stored : Bool)
      → save_elsewhere U h url ≡ ok stored
      → (has_secret U h url ≡ stored) × (stored ≡ false)
  unfolding save_elsewhere
  elsewhere_lem url stored e =
      let (u, k, e1) = >>=-eq-ok (ensure (not (has_secret U h url)) _) _ e in
      let no : not (has_secret U h url) ≡ true = ensure-eq-ok _ _ u k in
      (ground arith, ground arith)

  -- A manual upstream that is accepted is read as a URL by the URL parser; the flag that is returned says
  -- whether that URL holds a user name or a password; and if it does, the text was stored in the
  -- keychain. So on a platform without a keychain no text that is read with credentials is accepted.
  pub save_manual_upstream-IsSaved :
      (value : Text) (stored : Bool)
      → save_manual_upstream U h value ≡ ok stored
      → IsSaved value stored
  unfolding save_manual_upstream
  save_manual_upstream-IsSaved value stored e =
      let (url, p, e1) = >>=-eq-ok (or_fail (U.parse value) _) _ e in
      let parsed = or_fail-eq-ok (U.parse value) _ url p in go h.platform refl url parsed e1
    where
      go :
          (platform : Platform)
          → h.platform ≡ platform
          → (url : U.Url) → U.parse value ≡ some url
          → elim platform [ macos ↦ save_on_macos U h value url | _ ↦ save_elsewhere U h url ]
            ≡ ok stored
          → IsSaved value stored
      go macos on url parsed k =
          let (same, kept) = on_macos_lem value url stored k in
          (url, parsed, same, elim kept [ inl n ↦ inl n | inr y ↦ inr (on, y) ])
      go windows on url parsed k =
          let (same, none_kept) = elsewhere_lem url stored k in (url, parsed, same, inl none_kept)
      go elsewhere on url parsed k =
          let (same, none_kept) = elsewhere_lem url stored k in (url, parsed, same, inl none_kept)
