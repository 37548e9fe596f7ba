-- ===== src/Http2/Connection/Response.antt =====
-- src/http/v2/Http2Connection.cpp: the field lists of submit_response, submit_sse_headers,
-- submit_grpc_headers and submit_trailers, as nghttp2 gets them.
use aegon.Base.{
  ℕ, Bool, true, false, not, ◌&&◌, Option, none, some, List, [], ◌∷◌, ◌++◌, ltb, leb, ◌==◌,
  if◌then◌else◌, length,
}
use aegon.Base.Bytes.{Bytes}
use aegon.Base.Decimal.{to_string}
use aegon.HeaderMap.{HeaderMap, HeaderEntry, contains, size}
use aegon.Protocol.{is_hop_by_hop_header, should_suppress_content_length}
use aegon.Http2.Connection.Source.{lower_name}

-- The parts of a Response that the lists are made from; `file_size` is there when has_file is.
pub record Response : Type 0 where
  pub status : ℕ
  pub headers : HeaderMap
  pub trailers : HeaderMap
  pub body : Bytes
  pub file_size : Option ℕ
  pub is_trailers_only : Bool

-- nghttp2_nv, its name and its value.
abbrev pub Nv : Type 0
Nv = Bytes × Bytes

-- nva_stack, which has room for 16, and nva_heap.
pub record NvList : Type 0 where
  pub nva_stack : List Nv
  pub nva_heap : List Nv

abbrev pub no_nv : NvList
no_nv = record { nva_stack = []; nva_heap = [] }

abbrev pub is_empty_nv : List Nv → Bool
is_empty_nv [] = true
is_empty_nv (nv ∷ nvs) = false

unfoldable pub push_nv : Bytes → Bytes → NvList → NvList
push_nv name value l =
    if ltb (length l.nva_stack) 16 && is_empty_nv l.nva_heap
    then record l { nva_stack = l.nva_stack ++ ((name, value) ∷ []) }
    else if is_empty_nv l.nva_heap
    then record l { nva_heap = l.nva_stack ++ ((name, value) ∷ []) }
    else record l { nva_heap = l.nva_heap ++ ((name, value) ∷ []) }

-- nva_ptr
abbrev pub nva : NvList → List Nv
nva l = if is_empty_nv l.nva_heap then l.nva_stack else l.nva_heap

abbrev pub entries : HeaderMap → List HeaderEntry
entries m = m.inline_headers ++ m.heap_headers

-- for (const auto& h : stream->res.headers())
unfoldable pub push_headers : List HeaderEntry → NvList → NvList
unfolding push_nv is_hop_by_hop_header
push_headers [] l = l
push_headers (h ∷ hs) l =
    push_headers hs
      (if is_hop_by_hop_header h.name then l else push_nv (lower_name h.name) h.value l)

-- for (const auto& t : stream->res.trailers())
unfoldable pub push_trailers : List HeaderEntry → NvList → NvList
unfolding push_nv
push_trailers [] l = l
push_trailers (t ∷ ts) l = push_trailers ts (push_nv (lower_name t.name) t.value l)

abbrev pub has_entries : HeaderMap → Bool
has_entries m = not (size m == 0)

abbrev pub content_len : Response → ℕ
content_len r = elim r.file_size [ none ↦ length r.body | some n ↦ n ]

abbrev pub push_if : Bool → Bytes → Bytes → NvList → NvList
push_if test name value l = if test then push_nv name value l else l

abbrev pub declares_length : Response → Bool
declares_length r =
    not (has_entries r.trailers)
    && not (should_suppress_content_length r.status)
    && not (
        contains
          (b'c' ∷ b'o' ∷ b'n' ∷ b't' ∷ b'e' ∷ b'n' ∷ b't' ∷ b'-' ∷ b'l' ∷ b'e' ∷ b'n' ∷ b'g' ∷ b't'
            ∷ b'h' ∷ [])
          r.headers)

abbrev pub status_nv : Response → NvList
status_nv r =
    push_nv (b':' ∷ b's' ∷ b't' ∷ b'a' ∷ b't' ∷ b'u' ∷ b's' ∷ []) (to_string r.status) no_nv

abbrev pub sized_nv : Response → NvList
sized_nv r =
    push_if (declares_length r)
      (b'c' ∷ b'o' ∷ b'n' ∷ b't' ∷ b'e' ∷ b'n' ∷ b't' ∷ b'-' ∷ b'l' ∷ b'e' ∷ b'n' ∷ b'g' ∷ b't'
        ∷ b'h' ∷ [])
      (to_string (content_len r)) (status_nv r)

abbrev pub dates_response : Response → Bool
dates_response r =
    not (contains (b'd' ∷ b'a' ∷ b't' ∷ b'e' ∷ []) r.headers)
    && not (has_entries r.trailers)
    && leb 200 r.status

abbrev pub dates_stream : Response → Bool
dates_stream r = not (contains (b'd' ∷ b'a' ∷ b't' ∷ b'e' ∷ []) r.headers) && leb 200 r.status

-- The date, and the text of alt_svc_.
module _ (date alt_svc : Bytes) where
  unfoldable pub push_alt_svc : Response → NvList → NvList
  unfolding push_nv contains
  push_alt_svc r l =
      push_if
        (not (length alt_svc == 0)
          && not (contains (b'a' ∷ b'l' ∷ b't' ∷ b'-' ∷ b's' ∷ b'v' ∷ b'c' ∷ []) r.headers))
        (b'a' ∷ b'l' ∷ b't' ∷ b'-' ∷ b's' ∷ b'v' ∷ b'c' ∷ []) alt_svc l

  unfoldable pub submit_response : Response → List Nv
  unfolding push_headers push_trailers push_alt_svc contains should_suppress_content_length
      to_string
  submit_response r =
      if r.is_trailers_only
      then nva (push_trailers (entries r.trailers) (push_headers (entries r.headers) (status_nv r)))
      else nva (
          push_alt_svc r (
            push_headers (entries r.headers)
              (push_if (dates_response r) (b'd' ∷ b'a' ∷ b't' ∷ b'e' ∷ []) date (sized_nv r))))

  -- submit_grpc_headers has the same text.
  unfoldable pub submit_sse_headers : Response → List Nv
  unfolding push_headers push_alt_svc contains to_string
  submit_sse_headers r = nva (
      push_alt_svc r (
        push_headers (entries r.headers)
          (push_if (dates_stream r) (b'd' ∷ b'a' ∷ b't' ∷ b'e' ∷ []) date (status_nv r))))
