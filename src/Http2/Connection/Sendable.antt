-- ===== src/Http2/Connection/Sendable.antt =====
-- src/http/v2/Http2Connection.cpp: the names in the field lists of a response.
use aegon.Base.{
  sym, ℕ, ◌≡◌, refl, ap, ◌∙◌, Bool, not, ◌&&◌, List, [], ◌∷◌, ◌++◌, ◌==◌, if◌then◌else◌, length,
  All, All-append, if_both, if_cases,
}
use aegon.Base.Bytes.{Bytes, bytes_eq}
use aegon.Base.Decimal.{to_string}
use aegon.HeaderMap.{HeaderEntry, contains}
use aegon.Protocol.{is_hop_by_hop_header}
use aegon.Http2.Connection.Source.{lower_name}
use aegon.Http2.Connection.Response.{
  Response, Nv, NvList, no_nv, push_nv, nva, entries, push_headers, push_trailers, push_if,
  push_alt_svc, declares_length, content_len, status_nv, sized_nv, dates_response, dates_stream,
  submit_response, submit_sse_headers,
}
use aegon.Http2.Connection.Names.{
  is_own, is_hop_by_hop_header-is_own, EndToEnd, IsSendable, lower_name-IsSendable, nva-push_nv,
}

-- A list under way: its first field is the status, and every field can be sent.
pub record IsFieldList (status : ℕ) (nvs : List Nv) : Type 0 where
  pub rest : List Nv
  pub first : nvs ≡ ((b':' ∷ b's' ∷ b't' ∷ b'a' ∷ b't' ∷ b'u' ∷ b's' ∷ []), to_string status) ∷ rest
  pub sendable : All IsSendable nvs

module _ (status : ℕ) where
  push_nv-IsFieldList :
      (n v : Bytes) (l : NvList)
      → IsSendable (n, v)
      → IsFieldList status (nva l)
      → IsFieldList status (nva (push_nv n v l))
  push_nv-IsFieldList n v l p f = record {
    rest = f.rest ++ ((n, v) ∷ []);
    first = nva-push_nv n v l ∙ ap (λ xs. xs ++ ((n, v) ∷ [])) f.first;
    sendable =
        rw (nva-push_nv n v l) (All-append IsSendable (nva l) ((n, v) ∷ []) f.sendable (p, tt));
  }

  push_if-IsFieldList :
      (test : Bool) (n v : Bytes) (l : NvList)
      → IsSendable (n, v)
      → IsFieldList status (nva l)
      → IsFieldList status (nva (push_if test n v l))
  push_if-IsFieldList test n v l p f =
      if_both (λ (k : NvList). IsFieldList status (nva k)) test (push_nv n v l) l
        (push_nv-IsFieldList n v l p f) f

  push_headers-IsFieldList :
      (hs : List HeaderEntry) (l : NvList)
      → IsFieldList status (nva l)
      → IsFieldList status (nva (push_headers hs l))
  unfolding push_headers
  push_headers-IsFieldList [] l f = f
  push_headers-IsFieldList (h ∷ hs) l f =
      push_headers-IsFieldList hs
        (if is_hop_by_hop_header h.name then l else push_nv (lower_name h.name) h.value l)
        (if_cases (λ (k : NvList). IsFieldList status (nva k)) (is_hop_by_hop_header h.name) l
          (push_nv (lower_name h.name) h.value l) (λ e. f)
          (λ e.
            push_nv-IsFieldList (lower_name h.name) h.value l
              (lower_name-IsSendable h.name h.value (sym (is_hop_by_hop_header-is_own h.name) ∙ e))
              f))

  push_trailers-IsFieldList :
      (ts : List HeaderEntry) (l : NvList)
      → All EndToEnd ts
      → IsFieldList status (nva l)
      → IsFieldList status (nva (push_trailers ts l))
  unfolding push_trailers
  push_trailers-IsFieldList [] l e f = f
  push_trailers-IsFieldList (t ∷ ts) l (e, es) f =
      push_trailers-IsFieldList ts (push_nv (lower_name t.name) t.value l) es (
        push_nv-IsFieldList (lower_name t.name) t.value l (lower_name-IsSendable t.name t.value e)
          f)

  status-IsFieldList :
      IsFieldList status (
        nva
          (push_nv (b':' ∷ b's' ∷ b't' ∷ b'a' ∷ b't' ∷ b'u' ∷ b's' ∷ []) (to_string status) no_nv))
  unfolding push_nv is_own bytes_eq
  status-IsFieldList = record { rest = []; first = refl; sendable = ((refl, refl), tt) }

  sent_names :
      (v : Bytes)
      → IsSendable (
        (b'c' ∷ b'o' ∷ b'n' ∷ b't' ∷ b'e' ∷ b'n' ∷ b't' ∷ b'-' ∷ b'l' ∷ b'e' ∷ b'n' ∷ b'g' ∷ b't'
            ∷ b'h' ∷ []),
        v,
      )
        × (IsSendable ((b'd' ∷ b'a' ∷ b't' ∷ b'e' ∷ []), v)
            × IsSendable ((b'a' ∷ b'l' ∷ b't' ∷ b'-' ∷ b's' ∷ b'v' ∷ b'c' ∷ []), v))
  unfolding is_own bytes_eq
  sent_names v = ((refl, refl), ((refl, refl), (refl, refl)))

module _ (date alt_svc : Bytes) where
  push_alt_svc-IsFieldList :
      (status : ℕ) (r : Response) (l : NvList)
      → IsFieldList status (nva l)
      → IsFieldList status (nva (push_alt_svc date alt_svc r l))
  unfolding push_alt_svc
  push_alt_svc-IsFieldList status r l f =
      push_if-IsFieldList status
        (not (length alt_svc == 0)
          && not (contains (b'a' ∷ b'l' ∷ b't' ∷ b'-' ∷ b's' ∷ b'v' ∷ b'c' ∷ []) r.headers))
        (b'a' ∷ b'l' ∷ b't' ∷ b'-' ∷ b's' ∷ b'v' ∷ b'c' ∷ []) alt_svc l
        (sent_names status alt_svc).1.1 f

  pub submit_response-IsFieldList :
      (r : Response)
      → All EndToEnd (entries r.trailers)
      → IsFieldList r.status (submit_response date alt_svc r)
  unfolding submit_response
  submit_response-IsFieldList r es =
      let s = status-IsFieldList r.status in
      let z =
        push_if-IsFieldList r.status (declares_length r)
          (b'c' ∷ b'o' ∷ b'n' ∷ b't' ∷ b'e' ∷ b'n' ∷ b't' ∷ b'-' ∷ b'l' ∷ b'e' ∷ b'n' ∷ b'g' ∷ b't'
            ∷ b'h' ∷ [])
          (to_string (content_len r)) (status_nv r)
          (sent_names r.status (to_string (content_len r))).0 s in
      let d =
        push_if-IsFieldList r.status (dates_response r) (b'd' ∷ b'a' ∷ b't' ∷ b'e' ∷ []) date
          (sized_nv r) (sent_names r.status date).1.0 z in
      let dated = push_if (dates_response r) (b'd' ∷ b'a' ∷ b't' ∷ b'e' ∷ []) date (sized_nv r) in
      if_both (IsFieldList r.status) r.is_trailers_only _ _
        (push_trailers-IsFieldList r.status (entries r.trailers)
          (push_headers (entries r.headers) (status_nv r)) es
          (push_headers-IsFieldList r.status (entries r.headers) (status_nv r) s))
        (push_alt_svc-IsFieldList r.status r (push_headers (entries r.headers) dated)
          (push_headers-IsFieldList r.status (entries r.headers) dated d))

  pub submit_sse_headers-IsFieldList :
      (r : Response) → IsFieldList r.status (submit_sse_headers date alt_svc r)
  unfolding submit_sse_headers
  submit_sse_headers-IsFieldList r =
      let dated = push_if (dates_stream r) (b'd' ∷ b'a' ∷ b't' ∷ b'e' ∷ []) date (status_nv r) in
      let d =
        push_if-IsFieldList r.status (dates_stream r) (b'd' ∷ b'a' ∷ b't' ∷ b'e' ∷ []) date
          (status_nv r) (sent_names r.status date).1.0 (status-IsFieldList r.status) in
      push_alt_svc-IsFieldList r.status r (push_headers (entries r.headers) dated)
        (push_headers-IsFieldList r.status (entries r.headers) dated d)
