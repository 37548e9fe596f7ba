-- ===== src/Http2/Connection/Slices.antt =====
-- src/http/v2/Http2Connection.cpp: a response read from a file or a body.
use mathlib.Core.List.{append-nil}
use aegon.Base.{
  drop_all, drop-drop, if_cases, ℕ, ◌≡◌, ◌≤◌, ◌<◌, ◌+◌, refl, ap, sym, true, false, ◌||◌, Option,
  none, some, [], ◌++◌, ◌==◌, ◌∙◌, arith, length, take, drop, length-drop, take-append-drop, leb,
  Bool-cases, inl, inr,
}
use aegon.Base.Bytes.{Bytes}
use aegon.Http2.Connection.Source.{Outgoing, to_copy_from, read_mapped, read_file, read_body}
use aegon.Http2.Connection.Unread.{
  some_due, IsComplete, Reads, ends, fields_due, reads_left, trailers_due, unread,
}
use aegon.Http2.Connection.Ending.{finish-Reads, finish_if-Reads}
use aegon.Http2.Connection.Frames.{sent_all}

-- A slice of a file or of a body that is not finished gives at least one byte.
slice_rest :
    (k offset : ℕ) (bs : Bytes) → take k (drop offset bs) ++ drop (offset + k) bs ≡ drop offset bs
slice_rest k offset bs =
    ap (λ x. take k (drop offset bs) ++ x) (sym (drop-drop offset k bs))
    ∙ take-append-drop k (drop offset bs)

slice_end :
    (k offset : ℕ) (bs : Bytes) → length bs ≤ offset + k → take k (drop offset bs) ≡ drop offset bs
slice_end k offset bs h =
    sym (append-nil (take k (drop offset bs)))
    ∙ (ap (λ x. take k (drop offset bs) ++ x) (sym (drop_all (offset + k) bs h))
        ∙ slice_rest k offset bs)

slice_less :
    (n offset : ℕ) (bs : Bytes)
    → 0 < n
    → offset + to_copy_from n offset (length bs) < length bs
    → length (drop (offset + to_copy_from n offset (length bs)) bs) < length (drop offset bs)
slice_less n offset bs h more =
    let k : ℕ = to_copy_from n offset (length bs) in
    ground (arith, h, more, length-drop offset bs, length-drop (offset + k) bs)

module _ (o : Outgoing) (sse : o.is_sse ≡ false) (grpc : o.is_grpc_stream ≡ false) where
  file_due : o.is_file ≡ true → trailers_due o ≡ fields_due o
  file_due e = rw (sse, grpc, e) refl

  headless_due : o.is_head ≡ false → trailers_due o ≡ fields_due o
  headless_due e =
      rw (sse, grpc, e) (elim (Bool-cases o.is_file) [ inl f ↦ rw f refl | inr f ↦ rw f refl ])

  file_unread :
      (bs : Bytes)
      → o.is_head ≡ false
      → o.is_file ≡ true
      → o.file_data ≡ some bs
      → unread o ≡ drop o.file_offset bs
  file_unread bs head e q = rw (sse, grpc, head, e, q) refl

  head_unread : o.is_head ≡ true → unread o ≡ []
  head_unread e = rw (sse, grpc, e) refl

  head_due : o.is_head ≡ true → o.is_file ≡ false → trailers_due o ≡ []
  head_due e f = rw (sse, grpc, e, f) refl

  body_unread : o.is_head ≡ false → o.is_file ≡ false → unread o ≡ drop o.body_offset o.body
  body_unread head e = rw (sse, grpc, head, e) refl

  slice_left : reads_left o ≡ length (unread o)
  slice_left = rw (sse, grpc) refl

read_mapped-Reads :
    (n : ℕ) (buf bs : Bytes) (d : Option Bytes) (o : Outgoing)
    → 0 < n
    → IsComplete o
    → o.is_sse ≡ false
    → o.is_grpc_stream ≡ false
    → o.is_head ≡ false
    → o.is_file ≡ true
    → o.file_data ≡ some bs
    → o.file_size ≡ length bs
    → d ≡ some bs
    → Reads o (read_mapped n buf d o)
read_mapped-Reads n buf bs none o h whole sse grpc head e q size same =
    absurd (ground (arith, same))
read_mapped-Reads n buf bs (some bs') o h whole sse grpc head e q size same =
    let k : ℕ = to_copy_from n o.file_offset o.file_size in
    let k' : ℕ = to_copy_from n o.file_offset (length bs) in
    let o' = record o { file_offset = o.file_offset + k } in
    let before = file_unread o sse grpc bs head e q in
    let after = file_unread o' sse grpc bs head e q in
    let eq : bs' ≡ bs = ground (arith, same) in
    finish_if-Reads o (leb o.file_size (o.file_offset + k)) (take k (drop o.file_offset bs')) o'
      refl (file_due o sse grpc e)
      (λ t. rw (eq, before) (slice_end k o.file_offset bs (ground (arith, t, size))))
      (λ f. record {
        rest = rw (after, before, eq) (slice_rest k o.file_offset bs);
        due = file_due o' sse grpc e ∙ sym (file_due o sse grpc e);
        sent = refl;
        complete = record { sse = whole.sse; grpc = whole.grpc; file = whole.file };
        less =
            rw (slice_left o' sse grpc, slice_left o sse grpc, after, before, size)
              (slice_less n o.file_offset bs h (rw (← size) (ground (arith, f))));
      })

pub read_file-Reads :
    (n : ℕ) (buf : Bytes) (o : Outgoing)
    → 0 < n
    → IsComplete o
    → o.is_sse ≡ false
    → o.is_grpc_stream ≡ false
    → o.is_file ≡ true
    → Reads o (read_file n buf o)
read_file-Reads n buf o h whole sse grpc e =
    let (bs, (q, size)) = whole.file e in
    if_cases (Reads o) (o.is_head || o.file_size == 0) _ _
      (λ t.
        finish-Reads o [] o
          (elim (Bool-cases o.is_head) [
            | inl head ↦ sym (head_unread o sse grpc head)
            | inr head ↦
                let short : length bs ≤ o.file_offset = ground (arith, t, head, size) in
                sym (file_unread o sse grpc bs head e q ∙ drop_all o.file_offset bs short)
          ])
          refl (file_due o sse grpc e))
      (λ f.
        read_mapped-Reads n buf bs o.file_data o h whole sse grpc (ground (arith, f)) e q size q)

pub read_body-Reads :
    (n : ℕ) (o : Outgoing)
    → 0 < n
    → IsComplete o
    → o.is_sse ≡ false
    → o.is_grpc_stream ≡ false
    → o.is_file ≡ false
    → Reads o (read_body n o)
read_body-Reads n o h whole sse grpc e =
    let k : ℕ = to_copy_from n o.body_offset (length o.body) in
    let o' = record o { body_offset = o.body_offset + k } in
    if_cases (Reads o) o.is_head _ _
      (λ t. ends record {
        all = sym (head_unread o sse grpc t);
        held_open = sym (ap some_due (head_due o sse grpc t e));
        sent = sent_all o (head_due o sse grpc t e);
      })
      (λ head.
        let before = body_unread o sse grpc head e in
        let after = body_unread o' sse grpc head e in
        finish_if-Reads o (leb (length o.body) (o.body_offset + k))
          (take k (drop o.body_offset o.body)) o' refl (headless_due o sse grpc head)
          (λ t. slice_end k o.body_offset o.body (ground (arith, t)) ∙ sym before)
          (λ f. record {
            rest =
                ap (λ x. take k (drop o.body_offset o.body) ++ x) after
                ∙ (slice_rest k o.body_offset o.body ∙ sym before);
            due = headless_due o' sse grpc head ∙ sym (headless_due o sse grpc head);
            sent = refl;
            complete = record { sse = whole.sse; grpc = whole.grpc; file = whole.file };
            less =
                rw (slice_left o' sse grpc, slice_left o sse grpc, after, before)
                  (slice_less n o.body_offset o.body h (ground (arith, f)));
          }))
