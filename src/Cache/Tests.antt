-- ===== src/Cache/Tests.antt =====
-- The in-memory backend on small inputs.
use cachew.Base.{
  ℕ, zero, suc, ap, ◌≡◌, refl, true, false, none, some, List, [], ◌∷◌, Text, codes, length, text_eq,
  arith,
}
use cachew.Base.Int.{pos, ◌+ℤ◌, ◌-ℤ◌}
use cachew.Base.Assoc.{remove, lookup}
use cachew.Client.Options.{no_options}
use cachew.Http
use cachew.Http.{Header, canonical, etag_key}
use cachew.Cache.Tiered
use cachew.Cache.Tiered.{
  TierError, StatAnswer, failed, OpenAnswer, opened, refused, stat, open_tiers,
}
use cachew.Cache.Tiered.Open.{IsGood, IsFresh, open_tiers_lem}
use cachew.Cache.Tiered.Plain.{first_copy, Serves, open_tiers-Serves}
use cachew.Base.Arrays.{values}
use cachew.Cache.Tiered.Backfill.{
  Backfill, new_backfill, send, write_chunk, close_destination, Flow,
}
use cachew.Cache.Tiered.Backfill.Whole.{backfill_lem}
use cachew.Cache.Tiered.Agree.{Agree, stat-open}
use cachew.Cache.Tiered.Write.{TieredWriter}
use cachew.Cache.Tiered.Write.Fresh.{close-IsFresh}
use cachew.Cache.Memory.{modify, Entry, Store, View, Writer, find, open_entry}
use cachew.Cache.Memory.Evict.{
  make_room, ensure, old_size, needed_space, gather, gather_in, sort_by_expiry, sort_rounds,
  exchange, evict_loop, evict_one, evict_oldest, commit, close_writer,
}
use cachew.Cache.Memory.Evict.Accounting.{IsSound, total}
use cachew.Cache.Memory.Evict.Order.{Evicts, evict_oldest-Evicts}
use cachew.Cache.Memory.Evict.Commit.{room}
use cachew.Cache.Memory.Laws.{close_writer-open, commit_evicting_old}

abbrev git : Text
git = codes "git"

abbrev key_a : Text
key_a = codes "a"

abbrev key_b : Text
key_b = codes "b"

abbrev view : View
view = record { config = record { limit_mb = 1; max_ttl = 100 }; namespace = git; open_view = true }

abbrev entry : List ℕ → ℕ → Entry
entry bytes expires_at = record { bytes = bytes; expires_at = expires_at; headers = [] }

abbrev store : Store
store = record {
  entries = (git, (key_a, entry (1 ∷ 2 ∷ 3 ∷ []) 50) ∷ (key_b, entry (4 ∷ []) 20) ∷ []) ∷ [];
  current_size = pos 4;
}

store-IsSound : IsSound store
unfolding text_eq lookup
store-IsSound = record { maps = ((refl, tt), ((refl, (refl, tt)), tt)); counted = refl }

abbrev writer : Text → Writer
writer key = record {
  view = view;
  key = key;
  buf = 7 ∷ 8 ∷ [];
  expires_at = 90;
  headers = [];
  closed = false;
  cancelled_ctx = false;
}

evict_oldest-Evicts_example : Evicts (pos 1) store (evict_oldest (pos 1) store)
evict_oldest-Evicts_example = evict_oldest-Evicts (pos 1) store store-IsSound

close_writer-open_example :
    ((close_writer (writer key_a) store).2 ≡ none)
    × ((open_entry view (close_writer (writer key_a) store).1 60 key_a []).body ≡ some (7 ∷ 8 ∷ []))
    × ((close_writer (close_writer (writer key_a) store).0 (close_writer (writer key_a) store).1).1
        ≡ (close_writer (writer key_a) store).1)
close_writer-open_example =
    close_writer-open (writer key_a) store 60 store-IsSound refl refl refl (omega arith)

abbrev key_c : Text
key_c = codes "c"

unknown_c : find store.entries git key_c ≡ none
unfolding find lookup text_eq
unknown_c = refl

-- A store that is one byte over the limit of 1 MiB, with the key that is written about to go first.
replicate : ℕ → List ℕ
replicate zero = []
replicate (suc n) = 0 ∷ replicate n

length-replicate : (n : ℕ) → length (replicate n) ≡ n
unfolding replicate
length-replicate zero = refl
length-replicate (suc n) = ap suc (length-replicate n)

abbrev crowded : List ℕ → Store
crowded big = record {
  entries = (git, (key_a, entry (1 ∷ []) 1) ∷ (key_b, entry big 2) ∷ []) ∷ [];
  current_size = pos 1048577;
}

crowded-IsSound : (big : List ℕ) → length big ≡ 1048576 → IsSound (crowded big)
unfolding text_eq lookup
crowded-IsSound big e = record {
  maps = ((refl, tt), ((refl, (refl, tt)), tt));
  counted = rw e refl;
}

crowded-found : (big : List ℕ) → find (crowded big).entries git key_a ≡ some (entry (1 ∷ []) 1)
unfolding find lookup text_eq
crowded-found big = refl

crowded-evicted :
    (big : List ℕ)
    → length big ≡ 1048576
    → find (room (writer key_a) (crowded big)).entries git key_a ≡ none
unfolding make_room ensure old_size needed_space evict_oldest gather gather_in sort_by_expiry
    sort_rounds exchange evict_loop evict_one modify find text_eq lookup remove ◌-ℤ◌ ◌+ℤ◌
crowded-evicted big e = refl

abbrev zeros : List ℕ
zeros = replicate 1048576

commit_evicting_old_example :
    ((commit (writer key_a) (crowded zeros)).current_size +ℤ pos 1
      ≡ pos (total (commit (writer key_a) (crowded zeros)).entries))
    × (¬ IsSound (commit (writer key_a) (crowded zeros)))
commit_evicting_old_example =
    commit_evicting_old (writer key_a) (crowded zeros) (entry (1 ∷ []) 1)
      (crowded-IsSound zeros (length-replicate 1048576)) (crowded-found zeros)
      (crowded-evicted zeros (length-replicate 1048576)) (omega arith)

abbrev tag_old : Text
tag_old = codes "\"v1\""

abbrev tag_new : Text
tag_new = codes "\"v2\""

abbrev tagged : Text → Header
tagged tag = (codes "Etag", tag ∷ []) ∷ []

-- The first tier has a stale copy, and the second has failed; the last has the recorded version.
abbrev answers : List OpenAnswer
answers = refused [] (failed 7) ∷ opened (tagged tag_new) (4 ∷ 5 ∷ []) ∷ []

abbrev stale_copy : OpenAnswer
stale_copy = opened (tagged tag_old) (1 ∷ 2 ∷ [])

open_tiers_lem_example :
    IsGood
      (some tag_new)
      (stale_copy ∷ answers)
      (open_tiers (some tag_new) no_options (stale_copy ∷ answers))
open_tiers_lem_example = open_tiers_lem (some tag_new) no_options stale_copy answers

open_tiers-Serves_example :
    Serves tag_new
      (tagged tag_new, 4 ∷ 5 ∷ [])
      (open_tiers
        (some tag_new)
        no_options
        (stale_copy ∷ opened (tagged tag_new) (4 ∷ 5 ∷ []) ∷ [])).0
unfolding first_copy Http.get lookup text_eq canonical etag_key
open_tiers-Serves_example =
    open_tiers-Serves tag_new no_options (stale_copy ∷ []) (tagged tag_new) (4 ∷ 5 ∷ []) refl
      (tt, tt) refl

-- What the same tiers answer to Stat
abbrev stats : List StatAnswer
stats =
    record { headers = tagged tag_old; error = none }
    ∷ record { headers = []; error = some (failed 7) }
    ∷ record { headers = tagged tag_new; error = none }
    ∷ []

stat-open_example :
    Agree (stat (some tag_new) stats) (open_tiers (some tag_new) no_options (stale_copy ∷ answers))
stat-open_example =
    stat-open (some tag_new) no_options refl stats (stale_copy ∷ answers)
      ((refl, refl), ((refl, refl), ((refl, refl), tt))) (tt, (tt, (tt, tt)))

abbrev tiered_writer : TieredWriter
tiered_writer = record {
  key = key_a;
  etag = tag_new;
  replace_etag = true;
  closed = false;
  aborted = false;
}

close-IsFresh_example :
    let (w', etags', errors) = Tiered.Write.close tiered_writer (none ∷ none ∷ []) none [] in
    let o = (open_tiers (lookup key_a etags') no_options (stale_copy ∷ answers)).0 in
    (errors ≡ [])
    × IsFresh (some tag_new) 3 o.tier o.headers
    × ((Tiered.Write.close w' (none ∷ none ∷ []) none etags').1 ≡ etags')
    × ((Tiered.Write.abort tiered_writer (none ∷ none ∷ []) none []).1 ≡ [])
    × ((e : TierError)
        → (Tiered.Write.close tiered_writer (none ∷ none ∷ some e ∷ []) none []).1 ≡ [])
close-IsFresh_example =
    close-IsFresh tiered_writer (none ∷ none ∷ []) [] no_options stale_copy answers refl refl refl
      (refl, (refl, tt))

-- An object of two bytes, read byte by byte.
abbrev two_bytes : ℕ → ℕ
two_bytes i = i

abbrev sent_both : Backfill
sent_both = send (send new_backfill (values two_bytes 0 1)) (values two_bytes 1 1)

abbrev ended_both : Backfill
ended_both = record sent_both { eof = true }

abbrev closed_both : Backfill
closed_both = record ended_both { closed = true }

abbrev copied_both : Backfill
copied_both =
    write_chunk
      (record (write_chunk (record closed_both { channel = (1 ∷ []) ∷ [] }) (0 ∷ []) false) {
        channel = [];
      })
      (1 ∷ []) false

copied-Flow : Flow two_bytes 2 copied_both 2
unfolding send write_chunk
copied-Flow =
    Flow.receives (1 ∷ []) [] false
      (Flow.receives (0 ∷ []) ((1 ∷ []) ∷ []) false
        (Flow.closes
          (Flow.reaches_end
            (Flow.reads 1 (Flow.reads 1 Flow.starts (omega arith) (omega arith)) (omega arith)
              (omega arith))
            refl)
          refl)
        refl)
      refl

backfill_lem_example : (close_destination copied_both).written ≡ values two_bytes 0 2
unfolding send write_chunk close_destination
backfill_lem_example = backfill_lem two_bytes 2 (Flow.finishes copied-Flow refl refl refl) refl refl
