-- ===== src/Git/Coordinator.antt =====
-- Snapshots are generated by one replica at a time: internal/strategy/git/snapshotcoord.go. The shared
-- map of records is read and written at once; a write or a refresh of it may fail. A time is a number
-- of one clock, and 0 is Go's zero time.
pub mod Events
pub mod Records
pub mod Replicas
pub mod Writes
pub mod Known
pub mod Exclusive
pub mod Fresh
pub mod Generations
pub mod Synced
use cachew.Base.{
  ℕ, ◌+◌, Bool, true, false, ◌&&◌, ◌||◌, not, Option, none, some, List, [], ◌∷◌, ◌++◌, Text, codes,
  ltb, ◌==◌, if◌then◌else◌, text_eq,
}
use cachew.Base.Assoc.{Assoc, lookup, insert}
use cachew.Client.Options.{is_blank}

-- snapshotGenRecord
pub record GenRecord : Type 0 where
  pub started_at : ℕ
  pub completed_at : ℕ
  pub checked_at : ℕ
  pub claim_expires_at : ℕ
  pub commit : Text
  pub claim_id : Text

abbrev pub no_record : GenRecord
no_record = record {
  started_at = 0;
  completed_at = 0;
  checked_at = 0;
  claim_expires_at = 0;
  commit = [];
  claim_id = [];
}

-- SnapshotCoordinator: its map of records; none is nil.
abbrev pub Gens : Type 0
Gens = Assoc GenRecord

abbrev pub Coordinator : Type 0
Coordinator = Option Gens

-- What the calls of the metadata store answer: whether Flush and Set give no error.
pub record Calls : Type 0 where
  pub flushes : Bool
  pub sets : Bool

-- snapshotGenKey
abbrev pub snapshot_gen_key : Text → Text → Text
snapshot_gen_key job upstream_url = job ++ b'|' ∷ upstream_url

pub or_none : Option GenRecord → GenRecord
or_none none = no_record
or_none (some r) = r

-- gens.Set: the map after it, and whether it gave an error
unfoldable pub set_record : Calls → Text → GenRecord → Gens → Coordinator × Bool
set_record calls key r gens =
    if calls.sets then (some (insert key r gens), false) else (some gens, true)

-- now.Sub(at) < interval, of a time that is not zero
unfoldable pub is_fresh : ℕ → ℕ → ℕ → Bool
is_fresh now at interval = not (at == 0) && ltb now (at + interval)

-- The end of an in-progress claim
unfoldable pub claim_end : ℕ → GenRecord → ℕ
claim_end snapshot_claim_ttl r =
    if r.claim_expires_at == 0 then r.started_at + snapshot_claim_ttl else r.claim_expires_at

-- Whether a record makes ClaimWithTTL decline.
unfoldable pub suppresses : ℕ → ℕ → ℕ → GenRecord → Bool
unfolding is_fresh claim_end
suppresses snapshot_claim_ttl now interval r =
    is_fresh now r.completed_at interval
    || (is_fresh now r.checked_at interval
        || ltb r.completed_at r.started_at && ltb now (claim_end snapshot_claim_ttl r))

-- What a claim returns: its id, whether it is held, and whether there was an error.
pub record Claimed : Type 0 where
  pub id : Text
  pub held : Bool
  pub error : Bool

-- The record of a new claim
unfoldable pub claim_record : ℕ → Text → ℕ → GenRecord → GenRecord
claim_record now fresh claim_ttl r = record r {
  started_at = now;
  claim_id = fresh;
  claim_expires_at = now + claim_ttl;
}

unfoldable pub make_claim : Text → Coordinator × Bool → Coordinator × Claimed
make_claim fresh (c, error) = (c, record { id = fresh; held = true; error = error })

declined : Option GenRecord → ℕ → ℕ → ℕ → Bool
unfolding suppresses
declined none snapshot_claim_ttl now interval = false
declined (some r) snapshot_claim_ttl now interval = suppresses snapshot_claim_ttl now interval r

-- ClaimWithTTL; `fresh` is the text of a new UUID.
unfoldable pub claim_with_ttl :
    ℕ → Calls → ℕ → Text → Text → Text → ℕ → ℕ → Coordinator → Coordinator × Claimed
unfolding make_claim declined claim_record set_record or_none
claim_with_ttl snapshot_claim_ttl calls now fresh job upstream_url interval claim_ttl none =
    (none, record { id = []; held = true; error = false })
claim_with_ttl snapshot_claim_ttl calls now fresh job upstream_url interval claim_ttl (some gens) =
    let ttl = if claim_ttl == 0 then snapshot_claim_ttl else claim_ttl in
    let key = snapshot_gen_key job upstream_url in
    let r = lookup key gens in
    if declined r snapshot_claim_ttl now interval
    then (some gens, record { id = []; held = false; error = false })
    else make_claim fresh (set_record calls key (claim_record now fresh ttl (or_none r)) gens)

-- Claim
unfoldable pub claim : ℕ → Calls → ℕ → Text → Text → Text → ℕ → Coordinator → Coordinator × Claimed
unfolding claim_with_ttl
claim snapshot_claim_ttl calls now fresh job upstream_url interval c =
    claim_with_ttl snapshot_claim_ttl calls now fresh job upstream_url interval snapshot_claim_ttl c

-- The record of a completion, of a skip, and of a release
unfoldable pub completed_record : ℕ → Text → GenRecord → GenRecord
completed_record now commit r = record r {
  completed_at = now;
  commit = commit;
  claim_id = [];
  claim_expires_at = 0;
}

unfoldable pub skipped_record : ℕ → GenRecord → GenRecord
skipped_record now r = record r {
  checked_at = now;
  started_at = if ltb r.completed_at r.started_at then r.completed_at else r.started_at;
  claim_id = [];
  claim_expires_at = 0;
}

unfoldable pub released_record : GenRecord → GenRecord
released_record r = record r { started_at = r.completed_at; claim_id = []; claim_expires_at = 0 }

-- Complete
unfoldable pub complete : Calls → ℕ → Text → Text → Text → Coordinator → Coordinator × Bool
unfolding set_record completed_record or_none
complete calls now job upstream_url commit none = (none, false)
complete calls now job upstream_url commit (some gens) =
    let key = snapshot_gen_key job upstream_url in
    set_record calls key (completed_record now commit (or_none (lookup key gens))) gens

-- Skip
unfoldable pub skip : Calls → ℕ → Text → Text → Coordinator → Coordinator × Bool
unfolding set_record skipped_record or_none
skip calls now job upstream_url none = (none, false)
skip calls now job upstream_url (some gens) =
    let key = snapshot_gen_key job upstream_url in
    set_record calls key (skipped_record now (or_none (lookup key gens))) gens

-- Whether a claim's id is that of the record.
unfoldable pub owns : Text → Option GenRecord → Bool
owns claim_id none = false
owns claim_id (some r) = text_eq r.claim_id claim_id

-- CompleteClaim, SkipClaim and Fail refresh the map first, and change the record of their own claim.
unfoldable pub change_owned :
    Calls → Text → Text → Text → (GenRecord → GenRecord) → Gens → Coordinator × Bool
unfolding owns set_record or_none
change_owned calls job upstream_url claim_id f gens =
    let key = snapshot_gen_key job upstream_url in
    if not calls.flushes
    then (some gens, true)
    else if owns claim_id (lookup key gens)
    then set_record calls key (f (or_none (lookup key gens))) gens
    else (some gens, false)

unfoldable pub complete_claim :
    Calls → ℕ → Text → Text → Text → Text → Coordinator → Coordinator × Bool
unfolding change_owned completed_record
complete_claim calls now job upstream_url claim_id commit none = (none, false)
complete_claim calls now job upstream_url claim_id commit (some gens) =
    if is_blank claim_id
    then (some gens, false)
    else change_owned calls job upstream_url claim_id (completed_record now commit) gens

unfoldable pub skip_claim : Calls → ℕ → Text → Text → Text → Coordinator → Coordinator × Bool
unfolding change_owned skipped_record
skip_claim calls now job upstream_url claim_id none = (none, false)
skip_claim calls now job upstream_url claim_id (some gens) =
    if is_blank claim_id
    then (some gens, false)
    else change_owned calls job upstream_url claim_id (skipped_record now) gens

in_progress : Option GenRecord → Bool
in_progress none = false
in_progress (some r) = ltb r.completed_at r.started_at

-- Fail
unfoldable pub fail : Calls → Text → Text → Text → Coordinator → Coordinator × Bool
unfolding change_owned released_record in_progress owns
fail calls job upstream_url claim_id none = (none, false)
fail calls job upstream_url claim_id (some gens) =
    let key = snapshot_gen_key job upstream_url in
    if is_blank claim_id
    then (some gens, false)
    else if calls.flushes && not (in_progress (lookup key gens))
    then (some gens, false)
    else change_owned calls job upstream_url claim_id released_record gens

is_unchanged : ℕ → Text → ℕ → Option GenRecord → Bool
unfolding is_fresh
is_unchanged now commit max_age none = false
is_unchanged now commit max_age (some r) =
    text_eq r.commit commit && is_fresh now r.completed_at max_age

-- Unchanged
unfoldable pub unchanged : ℕ → Text → Text → Text → ℕ → Coordinator → Bool
unfolding is_unchanged
unchanged now job upstream_url commit max_age none = false
unchanged now job upstream_url commit max_age (some gens) =
    not (is_blank commit || (max_age == 0))
    && is_unchanged now commit max_age (lookup (snapshot_gen_key job upstream_url) gens)
