-- ===== src/Http2/Connection/Fields.antt =====
-- src/http/v2/Http2Connection.cpp: a header field, a chunk of data and the bounds of their stream.
use aegon.Base.{
  if_cases, ◌≤◌, ap, if_both, ℕ, ◌+◌, ◌≡◌, refl, Bool, true, false, not, Option, none, some, [],
  ◌∷◌, ltb, arith, length, length-append, Bool-cases, inl, inr,
}
use aegon.Base.Bytes.{Bytes, bytes_eq, eq_of_bytes_eq}
use aegon.HeaderMap.Flagged.{add-IsValid}
use aegon.Http1.Line.{Limits}
use aegon.Http1.Text.{Method, string_to_method}
use aegon.Simd.{Target}
use aegon.Simd.Check.{validate_h2_h3_header_value}
use aegon.Simd.Find.{starts_with}
use aegon.Simd.Search.{index_of}
use aegon.Http1.Fields.{is_some}
use aegon.Protocol.{
  StatusCode, is_ok, or_status, parse_path_header, with_length, validate_request_header,
}
use aegon.Http2.Connection.{Stream, Setup}
use aegon.Http2.Connection.Callbacks.{
  method_name, path_name, authority_name, host_name, add_header, count_header, read_header,
  set_path, set_header, append_body,
}
use aegon.Http2.Connection.Bounded.{header_bytes, header_bytes-add, IsStream}

or_status_keeps :
    (test : Bool) (code status : StatusCode)
    → is_ok code ≡ false
    → is_ok status ≡ false
    → is_ok (or_status test code status) ≡ false
or_status_keeps test code status h e = ground (arith, h, e)

or_status_sets :
    (test : Bool) (code status : StatusCode)
    → is_ok code ≡ false
    → test ≡ true
    → is_ok (or_status test code status) ≡ false
or_status_sets test code status h e = ground (arith, h, e)

add_header-IsStream :
    (limits : Limits) (n v : Bytes) (s : Stream)
    → header_bytes s.headers + (length n + length v) ≤ s.headers_total_size
    → IsStream limits s
    → IsStream limits (add_header n v s)
unfolding add_header
add_header-IsStream limits n v s room h = record {
  fits = h.fits;
  flagged = add-IsValid n v s.headers h.flagged;
  covered = omega (arith, room, header_bytes-add n v s.headers);
  limited = h.limited;
}

pub count_header-IsStream :
    (limits : Limits) (n v : Bytes) (s : Stream)
    → IsStream limits s
    → IsStream limits (count_header limits n v s)
unfolding count_header
count_header-IsStream limits n v s h = record {
  fits = h.fits;
  flagged = h.flagged;
  covered = omega (arith, h.covered);
  limited = λ big. or_status_sets _ _ s.error_status refl (ground (arith, big));
}

-- The field that was counted fits beside those of the map.
pub count_header_room :
    (limits : Limits) (n v : Bytes) (s : Stream)
    → IsStream limits s
    → header_bytes (count_header limits n v s).headers + (length n + length v)
      ≤ (count_header limits n v s).headers_total_size
unfolding count_header
count_header_room limits n v s h = omega (arith, h.covered)

module _ {A : Type 0} (P : A → Type 0) where
  pub data Holds : Option A → Type 0 where
    vacuous : Holds none
    holds : {a : A} → P a → Holds (some a)

-- A status that is not ok stays so.
abbrev pub Worse : StatusCode → StatusCode → Type 0
Worse status status' = is_ok status ≡ false → is_ok status' ≡ false

abbrev pub WorseTarget : StatusCode → Bytes × Bytes × StatusCode → Type 0
WorseTarget status r = Worse status r.2

parse_path_header-Worse :
    (t : Target) (max_uri_length : ℕ) (v : Bytes) (method : Method) (status : StatusCode)
    → Holds (WorseTarget status) (parse_path_header t max_uri_length v method status)
unfolding parse_path_header
parse_path_header-Worse t max_uri_length v method status =
    if_both (Holds (WorseTarget status)) _ _ _ vacuous
      (if_both (Holds (WorseTarget status)) _ _ _ vacuous (holds (or_status_keeps _ _ status refl)))

with_length-Worse :
    (max_body_size : ℕ) (status : StatusCode) (o : Option ℕ)
    → Holds (Worse status) (with_length max_body_size status o)
with_length-Worse max_body_size status none = vacuous
with_length-Worse max_body_size status (some n) = holds (or_status_keeps _ _ status refl)

validate_request_header-Worse :
    (max_body_size : ℕ) (n v : Bytes) (status : StatusCode)
    → Holds (Worse status) (validate_request_header max_body_size n v status)
unfolding validate_request_header
validate_request_header-Worse max_body_size n v status =
    if_both (Holds (Worse status)) _ _ _ (with_length-Worse max_body_size status _) (
      if_both (Holds (Worse status)) _ _ _ (holds (or_status_keeps _ _ status refl))
        (holds (λ h. h)))

Worse-IsStream :
    (limits : Limits) (s : Stream) (status : StatusCode)
    → Worse s.error_status status
    → IsStream limits s
    → IsStream limits (record s { error_status = status })
Worse-IsStream limits s status w h = record {
  fits = h.fits;
  flagged = h.flagged;
  covered = h.covered;
  limited = λ big. w (h.limited big);
}

set_path-IsStream :
    (limits : Limits) (o : Option (Bytes × Bytes × StatusCode)) (s : Stream)
    → Holds (WorseTarget s.error_status) o
    → IsStream limits s
    → Holds (IsStream limits) (set_path o s)
set_path-IsStream limits none s w h = vacuous
set_path-IsStream limits (some (p, q, status)) s (holds w) h =
    holds (Worse-IsStream limits (record s { path = p; query = q }) status w h)

set_header-IsStream :
    (limits : Limits) (n v : Bytes) (o : Option StatusCode) (s : Stream)
    → header_bytes s.headers + (length n + length v) ≤ s.headers_total_size
    → Holds (Worse s.error_status) o
    → IsStream limits s
    → Holds (IsStream limits) (set_header n v o s)
set_header-IsStream limits n v none s room w h = vacuous
set_header-IsStream limits n v (some status) s room (holds w) h = holds (
    add_header-IsStream limits n v (record s { error_status = status }) room
      (Worse-IsStream limits s status w h))

-- The name Host is shorter than :authority.
host_room :
    (n v : Bytes) (s : Stream)
    → n ≡ authority_name
    → header_bytes s.headers + (length n + length v) ≤ s.headers_total_size
    → header_bytes s.headers + (length host_name + length v) ≤ s.headers_total_size
host_room n v s e room = omega (arith, room, ap (λ (m : Bytes). length m) e)

pub read_header-IsStream :
    (cfg : Setup) (n v : Bytes) (s : Stream)
    → header_bytes s.headers + (length n + length v) ≤ s.headers_total_size
    → IsStream cfg.limits s
    → Holds (IsStream cfg.limits) (read_header cfg n v s)
unfolding read_header
read_header-IsStream cfg n v s room h =
    let Q = Holds (IsStream cfg.limits) in
    let path_worse =
      parse_path_header-Worse cfg.target cfg.limits.max_uri_length v s.method s.error_status in
    let header_worse = validate_request_header-Worse cfg.limits.max_body_size n v s.error_status in
    if_both Q (not (validate_h2_h3_header_value cfg.target v)) _ _ vacuous (
      if_both Q (bytes_eq n method_name) _ _
        (holds {a = record s { method = string_to_method v }} h)
        (if_both Q (bytes_eq n path_name) _ _ (set_path-IsStream cfg.limits _ s path_worse h) (
          if_cases Q (bytes_eq n authority_name) _ _
            (λ e. if_both Q (is_some (index_of (b'@' ∷ []) 0 v)) _ _ vacuous (
              holds {a = add_header host_name v s} (
                add_header-IsStream cfg.limits host_name v s
                  (host_room n v s (eq_of_bytes_eq n authority_name e) room) h)))
            (λ e.
              if_both Q (starts_with (b':' ∷ []) n) _ _ (holds {a = s} h)
                (set_header-IsStream cfg.limits n v _ s room header_worse h)))))

pub append_body-IsStream :
    (limits : Limits) (chunk : Bytes) (s : Stream)
    → IsStream limits s
    → IsStream limits (append_body limits.max_body_size chunk s)
unfolding append_body
append_body-IsStream limits chunk s h =
    elim (Bool-cases (ltb limits.max_body_size (length s.body_accum + length chunk))) [
      | inl e ↦ rw e (Worse-IsStream limits s _ (or_status_keeps true _ s.error_status refl) h)
      | inr e ↦ rw e record {
        fits = ground (arith, e, length-append s.body_accum chunk);
        flagged = h.flagged;
        covered = h.covered;
        limited = h.limited;
      }
    ]
