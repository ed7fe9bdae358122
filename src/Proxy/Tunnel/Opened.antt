-- ===== src/Proxy/Tunnel/Opened.antt =====
-- crates/cng-core/src/proxy.rs: when `http_connect` opens a tunnel through an HTTP proxy.
use codex_no.Proxy.Header.{
  Bytes, ReadEvent, chunk, HeaderRead, read_http_header, find_header_end, max_header_bytes,
}
use codex_no.Proxy.Header.Reads.{
  bytes_of, NoneEmpty, read_http_header-Explains, read_http_header-Delivers,
}
use codex_no.Proxy.Tunnel.{Network, Stream, write_all, connect_request, http_connect, status_of}
use codex_no.Model.Candidate.{UpstreamCandidate}
use codex_no.Base.Utf8.{encode_utf8, from_utf8}
use codex_no.Base.Results.{ok, ensure, or_fail, >>=-eq-ok}
use mathlib.Core.List.{append_cancel_left}
use codex_no.Url.{UrlLib}
use codex_no.Base.{
  ℕ, ◌≤◌, ◌≡◌, refl, sym, ap, ◌∙◌, subst, inl, inr, Bool, true, false, Option, none, some, List, [],
  ◌∷◌, ◌++◌, map, append-nil, arith, ==_iff, Option-cases, length, take,
}
use codex_no.Base.Text.{Text, is_empty}

ensure-ok : (b : Bool) (e : Text) (u : Unit {0}) → ensure b e ≡ ok u → b ≡ true
ensure-ok true e u h = refl
ensure-ok false e u h = cc

or_fail-ok : {A : Type 0} (o : Option A) (e : Text) (a : A) → or_fail o e ≡ ok a → o ≡ some a
or_fail-ok none e a h = cc
or_fail-ok (some b) e a h = cc

nil_of_is_empty : (b : Bytes) → is_empty b ≡ true → b ≡ []
nil_of_is_empty [] h = refl
nil_of_is_empty (x ∷ b) h = cc

write_all-ok :
    (s t : Stream) (b : Bytes) → write_all s b ≡ ok t → t ≡ record s { sent = s.sent ++ b }
unfolding write_all
write_all-ok s t b h = elim (Option-cases s.write_fault) [
  | inl e ↦ ground arith
  | inr (f, e) ↦ absurd (ground arith)
]

take_all : (b : Bytes) → take (length b) b ≡ b
take_all [] = refl
take_all (x ∷ b) = ap (λ r. x ∷ r) (take_all b)

nil_of_append : (a b : Bytes) → a ++ b ≡ [] → (a ≡ []) × (b ≡ [])
nil_of_append [] b h = (refl, h)
nil_of_append (x ∷ a) b h = cc

no_extra :
    (total extra : Bytes) (unread : List Bytes)
    → take (length total) total ++ (extra ++ bytes_of unread) ≡ total
    → (extra ≡ []) × (bytes_of unread ≡ [])
no_extra total extra unread h = nil_of_append extra (bytes_of unread) (
    append_cancel_left total (extra ++ bytes_of unread) [] (
      ap (λ t. t ++ (extra ++ bytes_of unread)) (sym (take_all total))
      ∙ (h ∙ sym (append-nil total))))

-- The bytes are one whole header of an answer with status 200.
abbrev pub IsAccepted : Bytes → Type 0
IsAccepted header =
    (length header ≤ max_header_bytes)
    × (find_header_end header ≡ some (length header))
    × ((response : Text) × (from_utf8 header ≡ some response) × (status_of response ≡ some 200))

module _ (U : UrlLib) (net : Network) (c : UpstreamCandidate U) (host : Text) (port : ℕ) where
  -- The request was written, and the accepted header is all that was taken from the stream.
  abbrev pub IsOpened : Stream → Stream → Type 0
  IsOpened s t =
      (t.sent ≡ s.sent ++ encode_utf8 (connect_request U net c host port))
      × ((taken : List Bytes) × (s.incoming ≡ map chunk taken ++ t.incoming)
          × IsAccepted (bytes_of taken))

  all_header :
      (stream : List ReadEvent) (r : HeaderRead)
      → read_http_header stream ≡ ok r
      → r.extra ≡ []
      → (response : Text) → from_utf8 r.header ≡ some response
      → status_of response ≡ some 200
      → (taken : List Bytes) × (stream ≡ map chunk taken ++ r.later) × IsAccepted (bytes_of taken)
  all_header stream r h none_left response e f =
      let (small, found, (taken, split, joined)) = read_http_header-Explains stream r h in
      let whole : r.header ++ r.extra ≡ r.header = rw (none_left) (append-nil r.header) in
      let same : bytes_of taken ≡ r.header = joined ∙ whole in
      (
        taken,
        split,
        rw (same) (
          subst (λ b. length b ≤ max_header_bytes) whole small,
          subst (λ b. find_header_end b ≡ some (length r.header)) whole found,
          (response, e, f),
        ),
      )

  opening_lem :
      (s asked t : Stream) (later : List ReadEvent)
      → asked ≡ record s { sent = s.sent ++ encode_utf8 (connect_request U net c host port) }
      → (taken : List Bytes) → asked.incoming ≡ map chunk taken ++ later
      → IsAccepted (bytes_of taken)
      → ok (record asked { incoming = later }) ≡ ok t
      → IsOpened s t
  opening_lem s asked t later wrote taken split accepted ends =
      let same : record asked { incoming = later } ≡ t = cc in
      subst (IsOpened s) same
        (ap (λ a. a.sent) wrote, (taken, ap (λ a. a.incoming) (sym wrote) ∙ split, accepted))

  -- A tunnel that is opened through an HTTP proxy has had the CONNECT request written to it, and what
  -- was taken from the proxy's answer is one whole header with status 200: every byte behind it is
  -- still to be read by the client.
  pub http_connect-IsOpened :
      (s t : Stream) → http_connect U net s c host port ≡ ok t → IsOpened s t
  unfolding http_connect
  http_connect-IsOpened s t h =
      let (asked, e_asked, h) = >>=-eq-ok _ _ h in
      let (reply, e_reply, h) = >>=-eq-ok _ _ h in
      let (response, e_text, h) = >>=-eq-ok _ _ h in
      let (status, e_status, h) = >>=-eq-ok _ _ h in
      let (u, e_good, h) = >>=-eq-ok _ _ h in
      let (v, e_extra, h) = >>=-eq-ok _ _ h in
      let wrote = write_all-ok s asked _ e_asked in
      let good : status ≡ 200 = (==_iff status 200).0 (ensure-ok _ _ u e_good) in
      let none_left = nil_of_is_empty reply.extra (ensure-ok _ _ v e_extra) in
      let text = or_fail-ok _ _ response e_text in
      let code = or_fail-ok _ _ status e_status ∙ ap some good in
      let (taken, split, accepted) =
        all_header asked.incoming reply e_reply none_left response text code in
      opening_lem s asked t reply.later wrote taken split accepted h

  -- However the accepted header arrives, the tunnel is opened: if the socket can be written and the
  -- proxy's answer begins with chunks, none of them empty, that make one whole header with status 200,
  -- then the CONNECT request is written and what the chunks are followed by is still to be read.
  pub http_connect-of_IsAccepted :
      (s : Stream) (cs : List Bytes) (tail : List ReadEvent)
      → s.write_fault ≡ none
      → s.incoming ≡ map chunk cs ++ tail
      → NoneEmpty cs
      → IsAccepted (bytes_of cs)
      → (unread : List Bytes) × (bytes_of unread ≡ [])
        × (http_connect U net s c host port
            ≡ ok (record s {
              incoming = map chunk unread ++ tail;
              sent = s.sent ++ encode_utf8 (connect_request U net c host port);
            }))
  unfolding http_connect write_all
  http_connect-of_IsAccepted s cs tail writable arrives full
        (small, found, (response, text, code)) =
      let ((extra, unread, read, joined), _) =
        read_http_header-Delivers cs tail (length (bytes_of cs)) full small found in
      let (none_left, all_read) = no_extra (bytes_of cs) extra unread joined in
      let whole : take (length (bytes_of cs)) (bytes_of cs) ≡ bytes_of cs =
        take_all (bytes_of cs) in
      (unread, all_read, rw (writable, arrives, read, whole, text, code, none_left) refl)
