-- ===== src/Git/Spool/Follow.antt =====
-- Readers of the response spool: what they have sent, whatever the writer does meanwhile, and that they
-- end.
use cachew.Base.{ℕ, ◌≡◌, refl, subst, true, List, [], ◌++◌}
use cachew.Git.Spool.{Spool, done, Reader, new_response_spool, new_reader}
use cachew.Git.Spool.Flow.{
  Flow, starts, captures, writes, completes, marks, turns, Knows, Follows, grows-Follows,
  write-Grows, mark_complete-Grows, mark_error-Grows, capture-Follows,
}
use cachew.Git.Spool.Turns.{turn-Follows}

pub Flow-Follows : {s : Spool} {r : Reader} → Flow s r → Follows s r
Flow-Follows starts = record {
  rest = [];
  prefix = unfold new_response_spool new_reader in refl;
  counted = unfold new_response_spool in refl;
  knows = unfold new_reader in refl;
}
Flow-Follows (captures {s = s} {r = r} status headers h z _) =
    capture-Follows status headers s r z (Flow-Follows h)
Flow-Follows (writes {s = s} {r = r} accepted p h) =
    grows-Follows s _ (write-Grows accepted p s) r (Flow-Follows h)
Flow-Follows (completes {s = s} {r = r} close_fails h) =
    grows-Follows s _ (mark_complete-Grows close_fails s) r (Flow-Follows h)
Flow-Follows (marks {s = s} {r = r} close_fails e h) =
    grows-Follows s _ (mark_error-Grows close_fails e s) r (Flow-Follows h)
Flow-Follows (turns {s = s} {r = r} t h) = turn-Follows t s r (Flow-Follows h)

-- Whatever the order of the writer's calls and the reader's turns, with one captured header:
-- what the reader has sent is a part of the file from its start; and when ServeTo has returned
-- no error, the spool is complete, and the client has the captured status and headers and the
-- whole file.
pub serve_to_lem :
    {s : Spool} {r : Reader}
    → Flow s r
    → ((rest : List ℕ) × (s.file ≡ r.sent ++ rest))
      × (r.phase ≡ done []
          → (s.complete ≡ true)
            × (r.sent ≡ s.file)
            × (r.status ≡ s.status)
            × (r.headers ≡ s.headers))
serve_to_lem {s} {r} h =
    let f = Flow-Follows h in
    (
      (f.rest, f.prefix),
      λ p. let (c, all, (_, st, hd)) = subst (Knows s r) p f.knows refl in (c, all, st, hd),
    )
