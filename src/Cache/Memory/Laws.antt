-- ===== src/Cache/Memory/Laws.antt =====
-- What a client of the in-memory backend sees: writes are read back, deletes are seen, and the counter.
use cachew.Base.{
  ℕ, ◌≤◌, ◌<◌, ◌≡◌, refl, ap, true, false, ◌&&◌, none, some, [], Text, length, if◌then◌else◌,
  Option-cases, inl, inr, arith, text_eq, text_eq_iff, text_eq_refl,
}
use cachew.Base.Int.{pos, ◌+ℤ◌, ◌-ℤ◌, pos_part, neg_part, int_laws}
use cachew.Base.Assoc.{remove, remove-IsMap}
use cachew.Client.Options.{new_request_options, check}
use cachew.Client.ByteRange.{resolve_range}
use cachew.Cache.Short.{not_exist, conditional_short_circuit, range_short_circuit}
use cachew.Cache.Memory.{
  Entry, Entries, Store, View, Writer, find, modify, open_entry, delete, invalidate,
}
use cachew.Cache.Memory.Evict.{old_size, entry_of, commit, close_writer, abort}
use cachew.Cache.Memory.Evict.Accounting.{IsSound, total, find-evict, total-remove, modify-AreMaps}
use cachew.Cache.Memory.Evict.Commit.{room, lost, commit_counter, find-commit}

-- A plain Open of a live entry returns its bytes.
open-find :
    (v : View) (st : Store) (now : ℕ) (key : Text) (e : Entry)
    → v.open_view ≡ true
    → find st.entries v.namespace key ≡ some e
    → now ≤ e.expires_at
    → (open_entry v st now key []).body ≡ some e.bytes
unfolding open_entry conditional_short_circuit range_short_circuit new_request_options check
    resolve_range
open-find v st now key e is_open found alive = ground arith

-- A writer of an open view that is neither closed nor cancelled commits on Close, with no error;
-- until the entry expires a plain Open of the key returns the bytes that were written, and a second
-- Close changes nothing.
pub close_writer-open :
    (w : Writer) (st : Store) (now : ℕ)
    → IsSound st
    → w.closed ≡ false
    → w.cancelled_ctx ≡ false
    → w.view.open_view ≡ true
    → now ≤ w.expires_at
    → ((close_writer w st).2 ≡ none)
      × ((open_entry w.view (close_writer w st).1 now w.key []).body ≡ some w.buf)
      × ((close_writer (close_writer w st).0 (close_writer w st).1).1 ≡ (close_writer w st).1)
unfolding close_writer entry_of
close_writer-open w st now h p q r s =
    let found : find (commit w st).entries w.view.namespace w.key ≡ some (entry_of w) =
      rw (text_eq_refl w.view.namespace, text_eq_refl w.key) at
        (find-commit w st h w.view.namespace w.key) in
    let committed : (close_writer w st).1 ≡ commit w st = ground arith in
    (
      ground arith,
      rw committed (open-find w.view (commit w st) now w.key (entry_of w) r found s),
      ground arith,
    )

-- An aborted or cancelled writer leaves every entry and the counter alone.
pub abort_lem : (w : Writer) (st : Store) → (abort w st).1 ≡ st
unfolding abort
abort_lem w st = ground arith

deleted : View → Store → Text → Entry → Store
deleted v st key e = record {
  entries = modify v.namespace (remove key) st.entries;
  current_size = st.current_size -ℤ pos (length e.bytes);
}

delete_miss :
    (v : View) (st : Store) (key : Text)
    → v.open_view ≡ true
    → find st.entries v.namespace key ≡ none
    → delete v st key ≡ (st, some not_exist)
unfolding delete
delete_miss v st key p e = ground arith

delete_hit :
    (v : View) (st : Store) (key : Text) (e : Entry)
    → v.open_view ≡ true
    → find st.entries v.namespace key ≡ some e
    → delete v st key ≡ (deleted v st key e, none)
unfolding delete deleted
delete_hit v st key e p found = ground arith

deleted-IsSound :
    (v : View) (st : Store) (key : Text) (e : Entry)
    → find st.entries v.namespace key ≡ some e
    → IsSound st
    → IsSound (deleted v st key e)
unfolding deleted
deleted-IsSound v st key e found h = record {
  maps = modify-AreMaps v.namespace (remove key) st.entries (λ m. remove-IsMap key m) h.maps;
  counted = omega (
    int_laws,
    total-remove v.namespace key st.entries e h.maps found,
    ap pos_part h.counted,
    ap neg_part h.counted,
  );
}

find-miss :
    (n' k' n k : Text) (entries : Entries)
    → find entries n' k' ≡ none
    → find entries n k ≡ (if text_eq n' n && text_eq k' k then none else find entries n k)
find-miss n' k' n k entries h = ground (arith, text_eq_iff n' n, text_eq_iff k' k)

-- Delete removes the key's entry and no other, and keeps the counter right; a key with no entry is
-- reported, and changes nothing; Invalidate does the same and reports nothing.
pub delete_lem :
    (v : View) (st : Store) (key : Text)
    → v.open_view ≡ true
    → IsSound st
    → IsSound (delete v st key).0
      × ((n k : Text)
          → find (delete v st key).0.entries n k
            ≡ (if text_eq v.namespace n && text_eq key k then none else find st.entries n k))
      × ((invalidate v st key).0 ≡ (delete v st key).0)
      × ((invalidate v st key).1 ≡ none)
unfolding invalidate
delete_lem v st key p h = elim (Option-cases (find st.entries v.namespace key)) [
  | inl e ↦ rw (delete_miss v st key p e) (
    h,
    (λ n k. find-miss v.namespace key n k st.entries e),
    refl,
    ground (arith, delete_miss v st key p e),
  )
  | inr (x, e) ↦ rw (delete_hit v st key x p e) (
    deleted-IsSound v st key x e h,
    (λ n k. unfold deleted in find-evict v.namespace key n k st.entries),
    refl,
    ground (arith, delete_hit v st key x p e),
  )
]

-- A commit under a key with no entry keeps the counter right.
pub commit_new-IsSound :
    (w : Writer) (st : Store)
    → IsSound st
    → find st.entries w.view.namespace w.key ≡ none
    → IsSound (commit w st)
unfolding old_size
commit_new-IsSound w st h fresh =
    let (maps, counter) = commit_counter w st h in
    let none_lost : lost w st ≡ 0 = rw fresh (omega arith) in
    record {
      maps = maps;
      counted = omega (int_laws, ap pos_part counter, ap neg_part counter, none_lost);
    }

-- When making room evicts the old entry of the key that is written, and that entry is not empty, its
-- bytes are subtracted twice: the counter is then below the bytes that are stored by its length.
pub commit_evicting_old :
    (w : Writer) (st : Store) (e : Entry)
    → IsSound st
    → find st.entries w.view.namespace w.key ≡ some e
    → find (room w st).entries w.view.namespace w.key ≡ none
    → 0 < length e.bytes
    → ((commit w st).current_size +ℤ pos (length e.bytes) ≡ pos (total (commit w st).entries))
      × (¬ IsSound (commit w st))
unfolding old_size
commit_evicting_old w st e h found evicted nonempty =
    let (maps, counter) = commit_counter w st h in
    let all_lost : lost w st ≡ length e.bytes = rw (found, evicted) (omega arith) in
    (
      rw (← all_lost) counter,
      λ sound. absurd (
          omega (
            int_laws,
            ap pos_part counter,
            ap neg_part counter,
            ap pos_part sound.counted,
            ap neg_part sound.counted,
            all_lost,
          )),
    )
