-- ===== src/Http2/Connection/Ending.antt =====
-- src/http/v2/Http2Connection.cpp: the last read of a response.
use mathlib.Core.List.{append-nil}
use aegon.Base.{
  if_cases, ◌≡◌, refl, ap, sym, Bool, true, false, not, ◌&&◌, List, [], ◌∷◌, ◌++◌, ◌∙◌, arith,
  if◌then◌else◌, Bool-cases, inl, inr,
}
use aegon.Base.Bytes.{Bytes}
use aegon.HeaderMap.{HeaderEntry}
use aegon.Http2.Connection.Source.{
  Outgoing, read_bytes, trailer_fields, add_fields, submit_trailers, has_trailers, finish,
  finish_if,
}
use aegon.Http2.Connection.Unread.{
  some_due, Ends, Goes, Reads, ends, fields_due, goes, trailers_due, unread,
}

add_fields_append :
    (fs : List (Bytes × Bytes)) (sent : List (List (Bytes × Bytes)))
    → add_fields fs sent ≡ sent ++ add_fields fs []
add_fields_append [] sent = sym (append-nil sent)
add_fields_append (f ∷ fs) sent = refl

no_fields :
    (ts : List HeaderEntry) → has_trailers ts ≡ false → add_fields (trailer_fields ts) [] ≡ []
no_fields [] e = refl
no_fields (t ∷ ts) e = absurd (ground (arith, e))

nothing_due :
    (o : Outgoing)
    → (has_trailers o.trailers && not o.trailers_submitted) ≡ false
    → fields_due o ≡ []
nothing_due o t = elim (Bool-cases o.trailers_submitted) [
  | inl e ↦ rw e refl
  | inr e ↦ rw e (no_fields o.trailers (ground (arith, t, e)))
]

some_fields :
    (ts : List HeaderEntry)
    → has_trailers ts ≡ true
    → some_due (add_fields (trailer_fields ts) []) ≡ true
some_fields [] e = absurd (ground (arith, e))
some_fields (t ∷ ts) e = refl

abbrev submitted_now : Outgoing → Outgoing
submitted_now o = record o {
  trailers_submitted = true;
  sent_trailers = add_fields (trailer_fields o.trailers) o.sent_trailers;
}

pub finish-Reads :
    (o : Outgoing) (bs : Bytes) (o' : Outgoing)
    → bs ≡ unread o
    → o'.sent_trailers ≡ o.sent_trailers
    → trailers_due o ≡ fields_due o'
    → Reads o (finish bs o')
unfolding finish submit_trailers
finish-Reads o bs o' all sent due =
    if_cases (Reads o) (has_trailers o'.trailers && not o'.trailers_submitted) _ _
      (λ t.
        let fresh : o'.trailers_submitted ≡ false = ground (arith, t) in
        let due' : trailers_due o ≡ add_fields (trailer_fields o'.trailers) [] =
          due ∙ rw fresh refl in
        ends record {
          all = all;
          held_open = sym (ap some_due due' ∙ some_fields o'.trailers (ground (arith, t)));
          sent =
              ap (λ b. (if b then o' else submitted_now o').sent_trailers) fresh
              ∙ (add_fields_append (trailer_fields o'.trailers) o'.sent_trailers
                  ∙ rw (sent, due') refl);
        })
      (λ t.
        let none_due : fields_due o' ≡ [] = nothing_due o' t in
        ends record {
          all = all;
          held_open = sym (ap some_due (due ∙ none_due));
          sent =
              sent
              ∙ (sym (append-nil o.sent_trailers)
                  ∙ ap (λ x. o.sent_trailers ++ x) (sym (due ∙ none_due)));
        })

pub finish_if-Reads :
    (o : Outgoing) (b : Bool) (bs : Bytes) (o' : Outgoing)
    → o'.sent_trailers ≡ o.sent_trailers
    → trailers_due o ≡ fields_due o'
    → (b ≡ true → bs ≡ unread o)
    → (b ≡ false → Goes o bs o')
    → Reads o (finish_if b bs o')
finish_if-Reads o b bs o' sent due all goes_on =
    if_cases (Reads o) b _ _ (λ e. finish-Reads o bs o' (all e) sent due) (λ e. goes (goes_on e))

pub flag-Reads :
    (o : Outgoing) (b : Bool) (bs : Bytes) (o' : Outgoing)
    → (b ≡ true → Ends o bs false o')
    → (b ≡ false → Goes o bs o')
    → Reads o (read_bytes bs b false, o')
flag-Reads o true bs o' p q = ends (p refl)
flag-Reads o false bs o' p q = goes (q refl)
