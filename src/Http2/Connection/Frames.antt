-- ===== src/Http2/Connection/Frames.antt =====
-- src/http/v2/Http2Connection.cpp: a response read from a queue of frames.
use mathlib.Core.List.{append-nil, append_assoc}
use aegon.Base.{
  drop_all, if_cases, ℕ, suc, ◌≡◌, ◌<◌, ◌+◌, min, refl, ap, sym, Bool, true, false, ◌&&◌, List, [],
  ◌∷◌, ◌++◌, ◌==◌, ◌∙◌, arith, length, take, drop, length-drop, take-append-drop,
}
use aegon.Base.Bytes.{Bytes}
use aegon.Http2.Connection.Source.{Outgoing, front, pop_front, is_empty, read_sse, read_grpc}
use aegon.Http2.Connection.Unread.{
  some_due, IsComplete, Reads, ends, fields_due, join, reads_left, trailers_due, unread, weight,
}
use aegon.Http2.Connection.Ending.{finish-Reads, finish_if-Reads, flag-Reads}

-- The queue of frames.
front-pop_front :
    (n : ℕ) (frame : Bytes) (rest : List Bytes)
    → front n frame ++ join (pop_front n frame rest) ≡ frame ++ join rest
front-pop_front n frame rest =
    let k : ℕ = min (length frame) n in
    let both = take-append-drop k frame in
    if_cases (λ (q : List Bytes). front n frame ++ join q ≡ frame ++ join rest) (k == length frame)
      rest (drop k frame ∷ rest)
      (λ e.
        let none_left = drop_all k frame (ground (arith, e)) in
        ap (λ x. x ++ join rest)
          (sym (append-nil (take k frame)) ∙ (ap (λ x. take k frame ++ x) (sym none_left) ∙ both)))
      (λ e.
        sym (append_assoc (take k frame) (drop k frame) (join rest))
        ∙ ap (λ x. x ++ join rest) both)

weight-pop_front :
    (n : ℕ) (frame : Bytes) (rest : List Bytes)
    → 0 < n
    → weight (pop_front n frame rest) < suc (length frame) + weight rest
weight-pop_front n frame rest h =
    let k : ℕ = min (length frame) n in
    if_cases (λ (q : List Bytes). weight q < suc (length frame) + weight rest) (k == length frame)
      rest (drop k frame ∷ rest) (λ e. omega arith) (λ e. ground (arith, e, h, length-drop k frame))

empty-join : (frames : List Bytes) → is_empty frames ≡ true → join frames ≡ []
empty-join [] e = refl
empty-join (frame ∷ rest) e = absurd (ground (arith, e))

last_front :
    (n : ℕ) (frame : Bytes) (rest : List Bytes) (eof : Bool)
    → (is_empty (pop_front n frame rest) && eof) ≡ true
    → front n frame ≡ frame ++ join rest
last_front n frame rest eof e =
    let none_left = empty-join (pop_front n frame rest) (ground (arith, e)) in
    sym (append-nil (front n frame))
    ∙ (ap (λ x. front n frame ++ x) (sym none_left) ∙ front-pop_front n frame rest)

sse_unread : (o : Outgoing) → o.is_sse ≡ true → unread o ≡ join o.sse_frames
sse_unread o e = rw e refl

sse_due : (o : Outgoing) → o.is_sse ≡ true → trailers_due o ≡ []
sse_due o e = rw e refl

sse_left : (o : Outgoing) → o.is_sse ≡ true → reads_left o ≡ weight o.sse_frames
sse_left o e = rw e refl

pub sent_all :
    (o : Outgoing) → trailers_due o ≡ [] → o.sent_trailers ≡ o.sent_trailers ++ trailers_due o
sent_all o e = rw e (sym (append-nil o.sent_trailers))

pub read_sse-Reads :
    (n : ℕ) (frames : List Bytes) (o : Outgoing)
    → 0 < n
    → IsComplete o
    → o.is_sse ≡ true
    → o.sse_frames ≡ frames
    → Reads o (read_sse n frames o)
read_sse-Reads n [] o h whole e q =
    if_cases (Reads o) o.sse_eof _ _
      (λ t. ends record {
        all = sym (sse_unread o e ∙ ap join q);
        held_open = sym (ap some_due (sse_due o e));
        sent = sent_all o (sse_due o e);
      })
      (λ f. absurd (ground (arith, f, whole.sse e)))
read_sse-Reads n (frame ∷ rest) o h whole e q =
    let more = pop_front n frame rest in
    let o' = record o { sse_frames = more } in
    let before : unread o ≡ frame ++ join rest = sse_unread o e ∙ ap join q in
    flag-Reads o (is_empty more && o.sse_eof) (front n frame) o'
      (λ t. record {
        all = last_front n frame rest o.sse_eof t ∙ sym before;
        held_open = sym (ap some_due (sse_due o e));
        sent = sent_all o (sse_due o e);
      })
      (λ f. record {
        rest =
            ap (λ x. front n frame ++ x) (sse_unread o' e)
            ∙ (front-pop_front n frame rest ∙ sym before);
        due = sse_due o' e ∙ sym (sse_due o e);
        sent = refl;
        complete = record { sse = whole.sse; grpc = whole.grpc; file = whole.file };
        less = rw (sse_left o' e, sse_left o e, q) (weight-pop_front n frame rest h);
      })

-- A stream of gRPC frames, whose trailers come at the end.
module _ (o : Outgoing) (sse : o.is_sse ≡ false) (e : o.is_grpc_stream ≡ true) where
  grpc_unread : unread o ≡ join o.grpc_frames
  grpc_unread = rw (sse, e) refl

  grpc_due : trailers_due o ≡ fields_due o
  grpc_due = rw (sse, e) refl

  grpc_left : reads_left o ≡ weight o.grpc_frames
  grpc_left = rw (sse, e) refl

pub read_grpc-Reads :
    (n : ℕ) (frames : List Bytes) (o : Outgoing)
    → 0 < n
    → IsComplete o
    → o.is_sse ≡ false
    → o.is_grpc_stream ≡ true
    → o.grpc_frames ≡ frames
    → Reads o (read_grpc n frames o)
read_grpc-Reads n [] o h whole sse e q =
    if_cases (Reads o) o.grpc_eof _ _
      (λ t. finish-Reads o [] o (sym (grpc_unread o sse e ∙ ap join q)) refl (grpc_due o sse e))
      (λ f. absurd (ground (arith, f, whole.grpc e)))
read_grpc-Reads n (frame ∷ rest) o h whole sse e q =
    let more = pop_front n frame rest in
    let o' = record o { grpc_frames = more } in
    let before : unread o ≡ frame ++ join rest = grpc_unread o sse e ∙ ap join q in
    finish_if-Reads o (is_empty more && o.grpc_eof) (front n frame) o' refl (grpc_due o sse e)
      (λ t. last_front n frame rest o.grpc_eof t ∙ sym before)
      (λ f. record {
        rest =
            ap (λ x. front n frame ++ x) (grpc_unread o' sse e)
            ∙ (front-pop_front n frame rest ∙ sym before);
        due = grpc_due o' sse e ∙ sym (grpc_due o sse e);
        sent = refl;
        complete = record { sse = whole.sse; grpc = whole.grpc; file = whole.file };
        less = rw (grpc_left o' sse e, grpc_left o sse e, q) (weight-pop_front n frame rest h);
      })
