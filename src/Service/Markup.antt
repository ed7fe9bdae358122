-- ===== src/Service/Markup.antt =====
-- crates/cng-core/src/service.rs: what an XML reader makes of a path in the launch agent's file.
use codex_no.Service.{xml_escape}
use codex_no.Service.Quoting.{replace_if-append, prepend}
use codex_no.Base.{
  ℕ, ◌≡◌, refl, sym, ap, ◌∙◌, subst, ◌≢◌, ◌⊎◌, inl, inr, Option, none, some, [], ◌∷◌, ◌++◌,
  append_assoc, arith, ◌==◌, if◌then◌else◌, ==_iff, Bool-cases,
}
use codex_no.Base.Text.{Text, codes, text_eq, replace_if}

-- The five entities that every XML reader knows.
abbrev pub entity : Text → Option ℕ
entity name =
    if text_eq name (codes "amp")
    then some 38
    else if text_eq name (codes "lt")
    then some 60
    else if text_eq name (codes "gt")
    then some 62
    else if text_eq name (codes "quot")
    then some 34
    else if text_eq name (codes "apos")
    then some 39
    else none

-- What an XML reader makes of an element's content: the text up to the next tag and what stands there.
-- The first argument is the name of the entity that is being read, if one is.
unfoldable pub read_content : Option Text → Text → Option (Text × Text)
unfolding text_eq
read_content name [] = none
read_content none (c ∷ s) =
    if c == 60
    then some ([], c ∷ s)
    else if c == 38
    then read_content (some []) s
    else prepend c (read_content none s)
read_content (some name) (c ∷ s) =
    if c == 59
    then elim (entity name) [ none ↦ none | some d ↦ prepend d (read_content none s) ]
    else read_content (some (name ++ c ∷ [])) s

xml-append : (a b : Text) → xml_escape (a ++ b) ≡ xml_escape a ++ xml_escape b
unfolding xml_escape
xml-append a b = simp replace_if-append

-- What is read of one escaped character, whatever follows it.
abbrev ReadsAs : ℕ → Type 0
ReadsAs c =
    (s : Text) → read_content none (xml_escape (c ∷ []) ++ s) ≡ prepend c (read_content none s)

read_known : (c : ℕ) → (c ≡ 38) ⊎ ((c ≡ 60) ⊎ ((c ≡ 62) ⊎ ((c ≡ 34) ⊎ (c ≡ 39)))) → ReadsAs c
unfolding xml_escape replace_if read_content text_eq
read_known c (inl e) = subst ReadsAs (sym e) (λ s. refl)
read_known c (inr (inl e)) = subst ReadsAs (sym e) (λ s. refl)
read_known c (inr (inr (inl e))) = subst ReadsAs (sym e) (λ s. refl)
read_known c (inr (inr (inr (inl e)))) = subst ReadsAs (sym e) (λ s. refl)
read_known c (inr (inr (inr (inr e)))) = subst ReadsAs (sym e) (λ s. refl)

plain_lem : (c : ℕ) → c ≢ 38 → c ≢ 60 → c ≢ 62 → c ≢ 34 → c ≢ 39 → xml_escape (c ∷ []) ≡ c ∷ []
unfolding xml_escape replace_if
plain_lem c a b d e f = ground arith

read_plain :
    (c : ℕ) (s : Text)
    → c ≢ 38
    → c ≢ 60
    → read_content none (c ∷ s) ≡ prepend c (read_content none s)
unfolding read_content
read_plain c s a b = ground arith

read_one : (c : ℕ) → ReadsAs c
read_one c = elim (Bool-cases (c == 38)) [
  | inl e ↦ read_known c (inl ((==_iff c 38).0 e))
  | inr n38 ↦ elim (Bool-cases (c == 60)) [
    | inl e ↦ read_known c (inr (inl ((==_iff c 60).0 e)))
    | inr n60 ↦ elim (Bool-cases (c == 62)) [
      | inl e ↦ read_known c (inr (inr (inl ((==_iff c 62).0 e))))
      | inr n62 ↦ elim (Bool-cases (c == 34)) [
        | inl e ↦ read_known c (inr (inr (inr (inl ((==_iff c 34).0 e)))))
        | inr n34 ↦ elim (Bool-cases (c == 39)) [
          | inl e ↦ read_known c (inr (inr (inr (inr ((==_iff c 39).0 e)))))
          | inr n39 ↦ λ s.
              ap (λ t. read_content none (t ++ s))
                (plain_lem c (ground arith) (ground arith) (ground arith) (ground arith)
                  (ground arith))
              ∙ read_plain c s (ground arith) (ground arith)
        ]
      ]
    ]
  ]
]

-- Whatever path is written into the launch agent's file, an XML reader reads exactly this path as the
-- content of its element, up to the element's closing tag.
pub read_content-xml_escape :
    (value rest : Text)
    → read_content none (xml_escape value ++ 60 ∷ rest) ≡ some (value, 60 ∷ rest)
unfolding xml_escape replace_if read_content
read_content-xml_escape [] rest = refl
read_content-xml_escape (c ∷ s) rest =
    ap (read_content none) (
      ap (λ t. t ++ 60 ∷ rest) (xml-append (c ∷ []) s)
      ∙ append_assoc (xml_escape (c ∷ [])) (xml_escape s) (60 ∷ rest))
    ∙ (read_one c (xml_escape s ++ 60 ∷ rest) ∙ ap (prepend c) (read_content-xml_escape s rest))
