-- ===== src/Http2/Connection/Keeps.antt =====
-- src/http/v2/Http2Connection.cpp: headers and data, and the bounds of a connection.
use aegon.Base.{
  if_both, ℕ, Bool, true, false, not, Option, none, some, ◌++◌, leb, arith, if◌then◌else◌,
  Option-cases, inl, inr,
}
use aegon.Base.Bytes.{Bytes}
use aegon.Http2.Connection.{
  rst_stream, protocol_error, Stream, Connection, Setup, new_stream, contains, find_id,
  get_or_create_stream, put_stream, call,
}
use aegon.Http2.Connection.Callbacks.{
  Outcome, put_read, set_eof, start_streaming, count_header, header_of_stream, on_header,
  append_body, on_data_chunk_recv, refuse_dependency, end_headers, open_headers, end_data,
}
use aegon.Http2.Connection.Bounded.{
  find_id-Each, IsStream, IsBounded, new_stream-IsStream, put_stream-IsBounded,
  get_or_create_stream-IsStream, reset_stream-IsBounded,
}
use aegon.Http2.Connection.Fields.{
  Holds, holds, count_header_room, count_header-IsStream, read_header-IsStream,
  append_body-IsStream,
}

module _ (cfg : Setup) (k : ℕ) where
  abbrev pub Leaves : Outcome → Type 0
  Leaves o = IsBounded cfg k o.1

  pub put_read-IsBounded :
      (sid : ℕ) (counted : Stream) (o : Option Stream) (c : Connection)
      → IsStream cfg.limits counted
      → Holds (IsStream cfg.limits) o
      → IsBounded cfg k c
      → IsBounded cfg k (put_read sid counted o c).1
  put_read-IsBounded sid counted none c p q h = put_stream-IsBounded cfg k sid counted c p h
  put_read-IsBounded sid counted (some s) c p (holds q) h = put_stream-IsBounded cfg k sid s c q h

  pub header_of_stream-IsBounded :
      (sid : ℕ) (n v : Bytes) (s : Stream) (c : Connection)
      → IsStream cfg.limits s
      → IsBounded cfg k c
      → IsBounded cfg k (header_of_stream cfg sid n v s c).1
  unfolding header_of_stream put_stream
  header_of_stream-IsBounded sid n v s c p h =
      let q = count_header-IsStream cfg.limits n v s p in
      if_both Leaves s.request_complete _ _
        (put_stream-IsBounded cfg k sid (record s { reset = true }) c p h)
        (put_read-IsBounded sid (count_header cfg.limits n v s) _ c q
          (read_header-IsStream cfg n v _ (count_header_room cfg.limits n v s p) q) h)

  pub on_header-IsBounded :
      (is_request : Bool) (sid : ℕ) (n v : Bytes) (c : Connection)
      → IsBounded cfg k c
      → Leaves (on_header cfg is_request sid n v c)
  unfolding on_header
  on_header-IsBounded is_request sid n v c h = if_both Leaves (not is_request) _ _ h (
      if_both Leaves (contains sid c.closed_stream_ids) _ _ h
        (elim (Option-cases (find_id sid c.streams)) [
          | inl e ↦ rw e (
              if_both Leaves (leb sid c.max_remote_stream_id) _ _
                (record {
                  each = h.each;
                  ids = h.ids;
                  counted = h.counted;
                  resets = λ f. absurd (ground (arith, f));
                })
                (header_of_stream-IsBounded sid n v new_stream
                  (record c { max_remote_stream_id = sid }) (new_stream-IsStream cfg.limits) h))
          | inr (s, e) ↦
              let p = find_id-Each (IsStream cfg.limits) sid c.streams s h.each e in
              rw e (header_of_stream-IsBounded sid n v s c p h)
        ]))

  pub on_data_chunk_recv-IsBounded :
      (sid : ℕ) (chunk : Bytes) (c : Connection)
      → IsBounded cfg k c
      → IsBounded cfg k (on_data_chunk_recv cfg sid chunk c)
  unfolding on_data_chunk_recv put_stream
  on_data_chunk_recv-IsBounded sid chunk c h =
      let s = get_or_create_stream sid c in
      let p = get_or_create_stream-IsStream cfg k sid c h in
      if_both (IsBounded cfg k) (contains sid c.closed_stream_ids) _ _ h
        (elim (Option-cases s.grpc_inbound) [
          | inl e ↦ rw e (
              if_both (IsBounded cfg k) s.request_complete _ _
                (put_stream-IsBounded cfg k sid (record s { reset = true }) c p h)
                (put_stream-IsBounded cfg k sid (append_body cfg.limits.max_body_size chunk s) c
                  (append_body-IsStream cfg.limits chunk s p) h))
          | inr (inbound, e) ↦ rw e (
              put_stream-IsBounded cfg k sid
                (record s {
                  grpc_inbound = some (record inbound { pushed = inbound.pushed ++ chunk });
                })
                c p h)
        ])

  pub refuse_dependency-IsBounded :
      (sid : ℕ) (c : Connection) → IsBounded cfg k c → IsBounded cfg k (refuse_dependency sid c)
  unfolding refuse_dependency
  refuse_dependency-IsBounded sid c h =
      reset_stream-IsBounded cfg k sid (call (rst_stream sid protocol_error) c) h

  pub end_headers-IsBounded :
      (sid : ℕ) (c : Connection) → IsBounded cfg k c → IsBounded cfg k (end_headers cfg sid c)
  unfolding end_headers put_stream
  end_headers-IsBounded sid c h =
      let s = get_or_create_stream sid c in
      let p = get_or_create_stream-IsStream cfg k sid c h in
      elim (Option-cases s.grpc_inbound) [
        | inl e ↦
            rw (e, end_headers)
              (put_stream-IsBounded cfg k sid
                (record (if cfg.is_streaming s.method s.path then start_streaming true s else s) {
                  request_complete = true;
                })
                c
                (if_both (IsStream cfg.limits) (cfg.is_streaming s.method s.path)
                  (start_streaming true s) s p p)
                h)
        | inr (inbound, e) ↦
            rw (e, end_headers) (put_stream-IsBounded cfg k sid (set_eof inbound s) c p h)
      ]

  pub open_headers-IsBounded :
      (sid : ℕ) (c : Connection) → IsBounded cfg k c → IsBounded cfg k (open_headers cfg sid c)
  unfolding open_headers
  open_headers-IsBounded sid c h =
      let s = get_or_create_stream sid c in
      let p = get_or_create_stream-IsStream cfg k sid c h in
      if_both (IsBounded cfg k) (cfg.is_streaming s.method s.path) _ _
        (put_stream-IsBounded cfg k sid (start_streaming false s) c p h)
        (put_stream-IsBounded cfg k sid s c p h)

  pub end_data-IsBounded :
      (sid : ℕ) (c : Connection) → IsBounded cfg k c → IsBounded cfg k (end_data sid c)
  unfolding end_data put_stream
  end_data-IsBounded sid c h =
      let s = get_or_create_stream sid c in
      let p = get_or_create_stream-IsStream cfg k sid c h in
      elim (Option-cases s.grpc_inbound) [
        | inl e ↦
            rw (e, end_data)
              (put_stream-IsBounded cfg k sid (record s { request_complete = true }) c p h)
        | inr (inbound, e) ↦
            rw (e, end_data) (put_stream-IsBounded cfg k sid (set_eof inbound s) c p h)
      ]
