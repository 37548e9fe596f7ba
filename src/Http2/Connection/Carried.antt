-- ===== src/Http2/Connection/Carried.antt =====
-- src/http/v2/Http2Connection.cpp: a response's own headers in its field lists.
use aegon.Base.{
  true, false, ◌≡◌, ap, sym, ◌∙◌, Bool, not, ◌&&◌, List, [], ◌∷◌, ◌++◌, ◌==◌, if◌then◌else◌, length,
  All, if_both, Bool-cases, inl, inr,
}
use mathlib.Core.List.{append_assoc, append-nil}
use aegon.Base.Bytes.{Bytes}
use aegon.HeaderMap.{HeaderEntry, contains}
use aegon.Protocol.{is_hop_by_hop_header}
use aegon.Http2.Connection.Source.{lower_name}
use aegon.Http2.Connection.Response.{
  Response, Nv, NvList, push_nv, nva, entries, push_headers, push_trailers, push_if, push_alt_svc,
  status_nv, sized_nv, dates_response, dates_stream, submit_response, submit_sse_headers,
}
use aegon.Http2.Connection.Names.{
  lowered, lower_name-lowered, is_own, is_hop_by_hop_header-is_own, EndToEnd, nva-push_nv,
}
use aegon.Http2.Connection.Sendable.{
  IsFieldList, submit_response-IsFieldList, submit_sse_headers-IsFieldList,
}

-- The headers but for the connection's own, in their order and with their names in lower case.
abbrev pub sent_headers : List HeaderEntry → List Nv
sent_headers [] = []
sent_headers (h ∷ hs) =
    if is_own h.name then sent_headers hs else (lowered h.name, h.value) ∷ sent_headers hs

pub record Carries (fields nvs : List Nv) : Type 0 where
  pub before : List Nv
  pub after : List Nv
  pub whole : nvs ≡ before ++ (fields ++ after)

nva-push_headers :
    (hs : List HeaderEntry) (l : NvList) → nva (push_headers hs l) ≡ nva l ++ sent_headers hs
unfolding push_headers
nva-push_headers [] l = sym (append-nil (nva l))
nva-push_headers (h ∷ hs) l = elim (Bool-cases (is_hop_by_hop_header h.name)) [
  | inl e ↦
      let own : is_own h.name ≡ true = sym (is_hop_by_hop_header-is_own h.name) ∙ e in
      rw (e, own, push_headers) (nva-push_headers hs l)
  | inr e ↦
      let own : is_own h.name ≡ false = sym (is_hop_by_hop_header-is_own h.name) ∙ e in
      let l' = push_nv (lower_name h.name) h.value l in
      let sent : List Nv = (lowered h.name, h.value) ∷ [] in
      let pushed : nva l' ≡ nva l ++ sent =
        nva-push_nv (lower_name h.name) h.value l
        ∙ ap (λ (n : Bytes). nva l ++ ((n, h.value) ∷ [])) (lower_name-lowered h.name) in
      rw (e, own, push_headers)
        (nva-push_headers hs l'
          ∙ (ap (λ xs. xs ++ sent_headers hs) pushed ∙ append_assoc (nva l) sent (sent_headers hs)))
]

push_headers-Carries :
    (hs : List HeaderEntry) (l : NvList) → Carries (sent_headers hs) (nva (push_headers hs l))
push_headers-Carries hs l = record {
  before = nva l;
  after = [];
  whole = nva-push_headers hs l ∙ ap (λ xs. nva l ++ xs) (sym (append-nil (sent_headers hs)));
}

push_nv-Carries :
    (fields : List Nv) (n v : Bytes) (l : NvList)
    → Carries fields (nva l)
    → Carries fields (nva (push_nv n v l))
push_nv-Carries fields n v l c = record {
  before = c.before;
  after = c.after ++ ((n, v) ∷ []);
  whole =
      nva-push_nv n v l
      ∙ (ap (λ xs. xs ++ ((n, v) ∷ [])) c.whole
          ∙ (append_assoc c.before (fields ++ c.after) ((n, v) ∷ [])
              ∙ ap (λ xs. c.before ++ xs) (append_assoc fields c.after ((n, v) ∷ []))));
}

push_if-Carries :
    (fields : List Nv) (test : Bool) (n v : Bytes) (l : NvList)
    → Carries fields (nva l)
    → Carries fields (nva (push_if test n v l))
push_if-Carries fields test n v l c =
    if_both (λ (k : NvList). Carries fields (nva k)) test (push_nv n v l) l
      (push_nv-Carries fields n v l c) c

push_trailers-Carries :
    (fields : List Nv) (ts : List HeaderEntry) (l : NvList)
    → Carries fields (nva l)
    → Carries fields (nva (push_trailers ts l))
unfolding push_trailers
push_trailers-Carries fields [] l c = c
push_trailers-Carries fields (t ∷ ts) l c =
    push_trailers-Carries fields ts (push_nv (lower_name t.name) t.value l)
      (push_nv-Carries fields (lower_name t.name) t.value l c)

module _ (date alt_svc : Bytes) (r : Response) where
  push_alt_svc-Carries :
      (l : NvList)
      → Carries (sent_headers (entries r.headers)) (nva l)
      → Carries (sent_headers (entries r.headers)) (nva (push_alt_svc date alt_svc r l))
  unfolding push_alt_svc
  push_alt_svc-Carries l c =
      push_if-Carries (sent_headers (entries r.headers))
        (not (length alt_svc == 0)
          && not (contains (b'a' ∷ b'l' ∷ b't' ∷ b'-' ∷ b's' ∷ b'v' ∷ b'c' ∷ []) r.headers))
        (b'a' ∷ b'l' ∷ b't' ∷ b'-' ∷ b's' ∷ b'v' ∷ b'c' ∷ []) alt_svc l c

  submit_response-Carries :
      Carries (sent_headers (entries r.headers)) (submit_response date alt_svc r)
  unfolding submit_response
  submit_response-Carries =
      let dated = push_if (dates_response r) (b'd' ∷ b'a' ∷ b't' ∷ b'e' ∷ []) date (sized_nv r) in
      if_both (Carries (sent_headers (entries r.headers))) r.is_trailers_only _ _
        (push_trailers-Carries (sent_headers (entries r.headers)) (entries r.trailers)
          (push_headers (entries r.headers) (status_nv r))
          (push_headers-Carries (entries r.headers) (status_nv r)))
        (push_alt_svc-Carries (push_headers (entries r.headers) dated)
          (push_headers-Carries (entries r.headers) dated))

  submit_sse_headers-Carries :
      Carries (sent_headers (entries r.headers)) (submit_sse_headers date alt_svc r)
  unfolding submit_sse_headers
  submit_sse_headers-Carries =
      let dated = push_if (dates_stream r) (b'd' ∷ b'a' ∷ b't' ∷ b'e' ∷ []) date (status_nv r) in
      push_alt_svc-Carries (push_headers (entries r.headers) dated)
        (push_headers-Carries (entries r.headers) dated)

-- Of a response without a trailer named connection, keep-alive, transfer-encoding or upgrade in
-- either case: its fields begin with its status, have names in lower case and none of these four, and
-- carry, in one piece and in order, the headers of the response with other names. So do the fields of
-- a stream of events or of gRPC frames.
pub submit_response_fields :
    (date alt_svc : Bytes) (r : Response)
    → All EndToEnd (entries r.trailers)
    → (IsFieldList r.status (submit_response date alt_svc r)
        × Carries (sent_headers (entries r.headers)) (submit_response date alt_svc r))
      × (IsFieldList r.status (submit_sse_headers date alt_svc r)
          × Carries (sent_headers (entries r.headers)) (submit_sse_headers date alt_svc r))
submit_response_fields date alt_svc r es = (
  (submit_response-IsFieldList date alt_svc r es, submit_response-Carries date alt_svc r),
  (submit_sse_headers-IsFieldList date alt_svc r, submit_sse_headers-Carries date alt_svc r),
)
