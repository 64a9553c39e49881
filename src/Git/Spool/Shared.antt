-- ===== src/Git/Spool/Shared.antt =====
-- What the readers of a spool have in common with the client whose response it is: SpoolTeeWriter and
-- ServeTo of internal/strategy/git/spool.go.
use cachew.Base.{
  zero, suc, ap, ◌||◌, ◌⊎◌, ℕ, ◌≡◌, refl, sym, ◌∙◌, subst, Bool, true, false, ◌&&◌, List, [], ◌∷◌,
  ◌++◌, length, take, ltb, leb, if◌then◌else◌, min, Bool-cases, inl, inr, arith,
}
use cachew.Http.{Header}
use cachew.Git.Spool
use cachew.Git.Spool.{
  SpoolError, Spool, Reader, Turn, upstream_status, client_failed, is_nil, new_response_spool,
  capture_header, mark_complete, mark_error, new_reader, turn, done,
}
use cachew.Git.Spool.Flow.{Flow, Knows}
use cachew.Git.Spool.Follow.{Flow-Follows}
use cachew.Git.Spool.Tee.{
  Tee, new_spool_tee_writer, write_header, write_client, write, Shares, starts, sends_header,
  writes, completes, turns,
}

-- A history of the spool in which the header is captured after WriteHeader only
record Follows (t : Tee) (r : Reader) : Type 0 where
  flow : Flow t.spool r
  unset : t.wrote_header ≡ false → t.spool.status ≡ 0

header_again :
    (close_fails : Bool) (code : ℕ) (headers : Header) (t : Tee)
    → t.wrote_header ≡ true
    → write_header close_fails code headers t ≡ t
unfolding write_header
header_again close_fails code headers t e = simp e

header-Follows :
    (close_fails : Bool) (code : ℕ) (headers : Header) (t : Tee) (r : Reader)
    → Follows t r
    → Follows (write_header close_fails code headers t) r
header-Follows close_fails code headers t r f = elim (Bool-cases t.wrote_header) [
  | inl e ↦ subst (λ u. Follows u r) (sym (header_again close_fails code headers t e)) f
  | inr e ↦ elim (Bool-cases (leb 200 code && ltb code 300)) [
    | inl q ↦
        unfold write_header in
        rw (e, q)
          (record {
            flow = Flow.captures code headers f.flow (f.unset e) (ground arith);
            unset = λ p. ground arith;
          })
    | inr q ↦
        unfold write_header in
        rw (e, q)
          (record {
            flow = Flow.marks close_fails (upstream_status code) f.flow;
            unset = λ p. ground arith;
          })
  ]
]

header_written :
    (close_fails : Bool) (code : ℕ) (headers : Header) (t : Tee)
    → (write_header close_fails code headers t).wrote_header ≡ true
unfolding write_header
header_written close_fails code headers t = elim (Bool-cases t.wrote_header) [
  | inl e ↦ rw e refl
  | inr e ↦ rw e refl
]

client-Follows :
    (close_fails : Bool) (accepted : ℕ) (bytes : List ℕ) (t : Tee) (r : Reader)
    (s : Spool × List SpoolError)
    → t.wrote_header ≡ true
    → Flow s.0 r
    → Follows (write_client close_fails accepted bytes t s).0 r
unfolding write_client
client-Follows close_fails accepted bytes t r (s, errors) w f =
    elim (Bool-cases (is_nil errors && ltb accepted (length bytes))) [
      | inl e ↦
          rw e (record { flow = Flow.marks close_fails client_failed f; unset = λ p. cc (w, p) })
      | inr e ↦ rw e (record { flow = f; unset = λ p. cc (w, p) })
    ]

write-Follows :
    (close_fails : Bool) (stored accepted : ℕ) (headers : Header) (bytes : List ℕ) (t : Tee)
    (r : Reader)
    → Follows t r
    → Follows (write close_fails stored accepted headers bytes t).0 r
unfolding write
write-Follows close_fails stored accepted headers bytes t r f =
    let t' = write_header close_fails 200 headers t in
    client-Follows close_fails accepted bytes t' r (Spool.write stored bytes t'.spool)
      (header_written close_fails 200 headers t)
      (Flow.writes stored bytes (header-Follows close_fails 200 headers t r f).flow)

completes-Follows :
    (close_fails : Bool) (t : Tee) (r : Reader)
    → Follows t r
    → Follows (record t { spool = mark_complete close_fails t.spool }) r
completes-Follows close_fails t r f = record {
  flow = Flow.completes close_fails f.flow;
  unset = λ p. unfold mark_complete in ground (arith, f.unset p);
}

-- In any history of a tee, the end of its response and a reader, the spool has a history in which the
-- header is captured at most once, with a status that is not 0.
Shares-Follows : {t : Tee} {r : Reader} → Shares t r → Follows t r
Shares-Follows starts = record {
  flow = unfold new_spool_tee_writer in Flow.starts;
  unset = λ p. unfold new_spool_tee_writer new_response_spool in refl;
}
Shares-Follows (sends_header {t} {r} close_fails code headers h) =
    header-Follows close_fails code headers t r (Shares-Follows h)
Shares-Follows (writes {t} {r} close_fails stored accepted headers bytes h) =
    write-Follows close_fails stored accepted headers bytes t r (Shares-Follows h)
Shares-Follows (completes {t} {r} close_fails h) =
    completes-Follows close_fails t r (Shares-Follows h)
Shares-Follows (turns x h) =
    let f = Shares-Follows h in record { flow = Flow.turns x f.flow; unset = f.unset }

take_whole : (n : ℕ) (xs : List ℕ) → ltb n (length xs) ≡ false → take n xs ≡ xs
take_whole zero [] h = refl
take_whole (suc n) [] h = refl
take_whole zero (x ∷ xs) h = absurd (ground arith)
take_whole (suc n) (x ∷ xs) h = ap (λ l. x ∷ l) (take_whole n xs (ground arith))

-- The tee's client has the bytes of a spool without errors, and the status that it captured.
record Copies (t : Tee) : Type 0 where
  bytes : is_nil t.spool.errors ≡ true → t.spool.file ≡ t.client_sent
  status : (t.spool.status ≡ 0) ⊎ (t.spool.status ≡ t.client_status)

header-Copies :
    (close_fails : Bool) (code : ℕ) (headers : Header) (t : Tee)
    → (t.wrote_header ≡ false → t.spool.status ≡ 0)
    → Copies t
    → Copies (write_header close_fails code headers t)
header-Copies close_fails code headers t unset c = elim (Bool-cases t.wrote_header) [
  | inl e ↦ subst Copies (sym (header_again close_fails code headers t e)) c
  | inr e ↦ elim (Bool-cases (leb 200 code && ltb code 300)) [
    | inl q ↦
        unfold write_header capture_header in
        rw (e, q) (record { bytes = c.bytes; status = inr refl })
    | inr q ↦ elim (Bool-cases t.spool.complete) [
      | inl z ↦
          unfold write_header mark_error in
          rw (e, q, z) (record { bytes = c.bytes; status = inl (unset e) })
      | inr z ↦
          unfold write_header mark_error in
          rw (e, q, z) (record { bytes = λ p. cc; status = inl (unset e) })
    ]
  ]
]

client-Copies :
    (close_fails : Bool) (stored accepted : ℕ) (bytes : List ℕ) (t : Tee)
    → Copies t
    → Copies (write_client close_fails accepted bytes t (Spool.write stored bytes t.spool)).0
unfolding Spool.write write_client mark_error
client-Copies close_fails stored accepted bytes t c = elim (Bool-cases (is_nil t.spool.errors)) [
  | inr e ↦ rw (e, e) (record { bytes = λ p. cc (e, p); status = c.status })
  | inl e ↦
      elim (Bool-cases (
        t.spool.complete
        || ltb (if t.spool.complete then 0 else min stored (length bytes)) (length bytes))) [
          | inl q ↦ rw (e, q) (record { bytes = λ p. cc; status = c.status })
          | inr q ↦
              let not_ended : t.spool.complete ≡ false = ground arith in
              let taken : ltb (if t.spool.complete then 0 else min stored (length bytes))
                    (length bytes)
                  ≡ false =
                ground arith in
              elim (Bool-cases (ltb accepted (length bytes))) [
                | inl short ↦
                    rw (e, q, short, not_ended) (record { bytes = λ p. cc; status = c.status })
                | inr all ↦
                    rw (e, q, all)
                      (record {
                        bytes = λ p.
                            rw (c.bytes e, take_whole _ bytes taken, take_whole accepted bytes all)
                              refl;
                        status = c.status;
                      })
              ]
        ]
]

write-Copies :
    (close_fails : Bool) (stored accepted : ℕ) (headers : Header) (bytes : List ℕ) (t : Tee)
    → (t.wrote_header ≡ false → t.spool.status ≡ 0)
    → Copies t
    → Copies (write close_fails stored accepted headers bytes t).0
unfolding write
write-Copies close_fails stored accepted headers bytes t unset c =
    client-Copies close_fails stored accepted bytes (write_header close_fails 200 headers t)
      (header-Copies close_fails 200 headers t unset c)

nil_append : (xs ys : List SpoolError) → is_nil (xs ++ ys) ≡ true → is_nil xs ≡ true
nil_append [] ys p = refl
nil_append (x ∷ xs) ys p = cc

completes-Copies :
    (close_fails : Bool) (t : Tee)
    → Copies t
    → Copies (record t { spool = mark_complete close_fails t.spool })
unfolding mark_complete
completes-Copies close_fails t c = elim (Bool-cases t.spool.complete) [
  | inl z ↦ rw z (record { bytes = c.bytes; status = c.status })
  | inr z ↦ rw z (record { bytes = λ p. c.bytes (nil_append _ _ p); status = c.status })
]

new-Copies : Copies (new_spool_tee_writer new_response_spool)
unfolding new_spool_tee_writer new_response_spool
new-Copies = record { bytes = λ p. refl; status = inl refl }

Shares-Copies : {t : Tee} {r : Reader} → Shares t r → Copies t
Shares-Copies starts = new-Copies
Shares-Copies (sends_header {t} close_fails code headers h) =
    header-Copies close_fails code headers t (Shares-Follows h).unset (Shares-Copies h)
Shares-Copies (writes {t} close_fails stored accepted headers bytes h) =
    write-Copies close_fails stored accepted headers bytes t (Shares-Follows h).unset
      (Shares-Copies h)
Shares-Copies (completes {t} close_fails h) = completes-Copies close_fails t (Shares-Copies h)
Shares-Copies (turns x h) = Shares-Copies h

-- In any history of a response through SpoolTeeWriter (its header, and writes that the file or
-- the client may take in part), the ends of the response and the turns of one reader of its
-- spool: when that reader's ServeTo has returned no error, the spool is complete; its client
-- has the whole file, the captured headers, and the status that the tee's client has got; and,
-- if the spool has no error, the very bytes that the tee's client has got.
pub shares_lem :
    {t : Tee} {r : Reader}
    → Shares t r
    → r.phase ≡ done []
    → (t.spool.complete ≡ true)
      × (r.sent ≡ t.spool.file)
      × (r.status ≡ t.client_status)
      × (r.headers ≡ t.spool.headers)
      × (t.spool.errors ≡ [] → r.sent ≡ t.client_sent)
shares_lem {t} {r} h p =
    let f = Shares-Follows h in
    let c = Shares-Copies h in
    let (closed, all, (set, st, hd)) = subst (Knows t.spool r) p (Flow-Follows f.flow).knows refl in
    (
      closed,
      all,
      st ∙ elim c.status [ inl z ↦ absurd (omega (arith, set, z)) | inr same ↦ same ],
      hd,
      λ e. all ∙ c.bytes (ap is_nil e),
    )
