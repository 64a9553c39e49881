-- ===== src/Cache/Memory/Evict/Commit.antt =====
-- What the commit of a writer does to the counter and to the stored entries.
use cachew.Base.{
  ℕ, ◌+◌, ◌-◌, ◌≤◌, ◌<◌, ◌≡◌, refl, ap, ◌∙◌, true, false, ◌&&◌, ◌⊎◌, none, some, Text, length, ltb,
  is_some, if◌then◌else◌, Bool-cases, inl, inr, arith, text_eq,
}
use cachew.Base.Int.{ℤ, pos, ltb_ℤ, ◌≤ℤ◌, ◌+ℤ◌, pos_part, neg_part, int_laws}
use cachew.Base.Assoc.{lookup, insert, insert-IsMap}
use cachew.Cache.Memory.{Store, Writer, limit_bytes, find}
use cachew.Cache.Memory.Evict.{
  evict_oldest, ensure, old_size, needed_space, make_room, entry_of, commit,
}
use cachew.Cache.Memory.Evict.Accounting.{total, AreMaps, IsSound, modify-AreMaps}
use cachew.Cache.Memory.Evict.Order.{evict_oldest-Evicts}
use cachew.Cache.Memory.Evict.Write.{
  total-insert, find-insert, lookup-ensure, find-ensure, ensure-IsSound, is_some-loop,
}

-- The store when the new entry is written, and the bytes of its old entry that eviction has freed.
abbrev pub room : Writer → Store → Store
room w st =
    make_room (record st { entries = ensure w.view.namespace st.entries })
      (old_size (find (ensure w.view.namespace st.entries) w.view.namespace w.key)) (length w.buf)
      (limit_bytes w.view.config)

abbrev pub old_of : Writer → Store → ℕ
old_of w st = old_size (find st.entries w.view.namespace w.key)

abbrev pub lost : Writer → Store → ℕ
lost w st = old_of w st - old_size (find (room w st).entries w.view.namespace w.key)

-- What a commit can rely on once there is room.
record HasRoom (w : Writer) (st : Store) (st' : Store) : Type 0 where
  sound : IsSound st'
  mapped : is_some (lookup w.view.namespace st'.entries) ≡ true
  left : (n k : Text) → (find st'.entries n k ≡ find st.entries n k) ⊎ (find st'.entries n k ≡ none)
  fits :
      0 < limit_bytes w.view.config
      → length w.buf ≤ limit_bytes w.view.config
      → total st'.entries + length w.buf ≤ limit_bytes w.view.config + old_of w st

module _ (w : Writer) (st : Store) (h : IsSound st) where
  abbrev ensured : Store
  ensured = record st { entries = ensure w.view.namespace st.entries }

  ensured-IsSound : IsSound ensured
  ensured-IsSound = ensure-IsSound w.view.namespace st h

  evicted_HasRoom :
      (needed : ℤ)
      → needed ≡ needed_space ensured (old_of w st) (length w.buf) (limit_bytes w.view.config)
      → HasRoom w st (evict_oldest needed ensured)
  unfolding needed_space evict_oldest
  evicted_HasRoom needed same =
      let ev = evict_oldest-Evicts needed ensured ensured-IsSound in
      record {
        sound = ev.sound;
        mapped = rw is_some-loop (lookup-ensure w.view.namespace st.entries);
        left = λ n k. ground (arith, ev.left n k, find-ensure w.view.namespace n k st.entries);
        fits = λ p q. elim ev.enough [
          | inl e ↦ omega (
            int_laws,
            e,
            ev.freed,
            ap pos_part same,
            ap neg_part same,
            ap pos_part ensured-IsSound.counted,
            ap neg_part ensured-IsSound.counted,
          )
          | inr e ↦ omega (arith, e)
        ];
      }

  kept_HasRoom :
      (needed : ℤ)
      → needed ≡ needed_space ensured (old_of w st) (length w.buf) (limit_bytes w.view.config)
      → (ltb 0 (limit_bytes w.view.config) && ltb_ℤ (pos 0) needed) ≡ false
      → HasRoom w st ensured
  unfolding needed_space
  kept_HasRoom needed same off = record {
    sound = ensured-IsSound;
    mapped = lookup-ensure w.view.namespace st.entries;
    left = λ n k. inl (find-ensure w.view.namespace n k st.entries);
    fits = λ p q.
        let none_needed : ltb_ℤ (pos 0) needed ≡ false = ground arith in
        let small : pos_part needed ≤ neg_part needed = ground arith in
        omega (
          int_laws,
          small,
          ap pos_part same,
          ap neg_part same,
          ap pos_part ensured-IsSound.counted,
          ap neg_part ensured-IsSound.counted,
        );
  }

  room-HasRoom : HasRoom w st (room w st)
  unfolding make_room
  room-HasRoom =
      let old_same = ap old_size (find-ensure w.view.namespace w.view.namespace w.key st.entries) in
      let needed =
        needed_space ensured (old_size (find ensured.entries w.view.namespace w.key)) (length w.buf)
          (limit_bytes w.view.config) in
      let same =
        ap (λ o. needed_space ensured o (length w.buf) (limit_bytes w.view.config)) old_same in
      elim (Bool-cases (ltb 0 (limit_bytes w.view.config) && ltb_ℤ (pos 0) needed)) [
        | inl e ↦ rw e (evicted_HasRoom needed same)
        | inr e ↦ rw e (kept_HasRoom needed same e)
      ]

  still-le : old_size (find (room w st).entries w.view.namespace w.key) ≤ old_of w st
  unfolding old_size
  still-le = elim (room-HasRoom.left w.view.namespace w.key) [
    | inl e ↦ rw e (omega arith)
    | inr e ↦ rw e (omega arith)
  ]

  written :
      (n k : Text)
      → find (commit w st).entries n k ≡ (
          if text_eq w.view.namespace n && text_eq w.key k
          then some (entry_of w)
          else find (room w st).entries n k)
  unfolding commit
  written n k =
      find-insert w.view.namespace w.key n k (entry_of w) (room w st).entries room-HasRoom.mapped

  -- The maps stay maps, and the counter falls short of the stored bytes by the bytes of the key's
  -- old entry, if eviction has removed it, and by nothing otherwise.
  pub commit_counter :
      AreMaps (commit w st).entries
      × ((commit w st).current_size +ℤ pos (lost w st) ≡ pos (total (commit w st).entries))
  unfolding commit entry_of
  commit_counter =
      let r = room-HasRoom in
      let k = w.view.namespace in
      let old_same = ap old_size (find-ensure k k w.key st.entries) in
      (
        modify-AreMaps k (insert w.key (entry_of w)) (room w st).entries
            (λ m. insert-IsMap w.key (entry_of w) m) r.sound.maps,
        omega (
          int_laws,
          still-le,
          total-insert k w.key (entry_of w) (room w st).entries r.mapped,
          ap pos_part r.sound.counted,
          ap neg_part r.sound.counted,
          old_same,
        ),
      )

  -- With a limit that the new entry meets by itself, the counter ends within the limit.
  pub commit_bound :
      0 < limit_bytes w.view.config
      → length w.buf ≤ limit_bytes w.view.config
      → (commit w st).current_size ≤ℤ pos (limit_bytes w.view.config)
  unfolding commit
  commit_bound p q =
      let r = room-HasRoom in
      let k = w.view.namespace in
      omega (
        int_laws,
        r.fits p q,
        ap pos_part r.sound.counted,
        ap neg_part r.sound.counted,
        ap old_size (find-ensure k k w.key st.entries),
      )

  -- After a commit its key has the new entry, and any other entry is unchanged or evicted.
  pub find-commit :
      (n k : Text)
      → if text_eq w.view.namespace n && text_eq w.key k
        then find (commit w st).entries n k ≡ some (entry_of w)
        else (find (commit w st).entries n k ≡ find st.entries n k)
        ⊎ (find (commit w st).entries n k ≡ none)
  unfolding commit
  find-commit n k = elim (Bool-cases (text_eq w.view.namespace n && text_eq w.key k)) [
    | inl e ↦ rw e (written n k ∙ rw e refl)
    | inr e ↦ rw e (elim (room-HasRoom.left n k) [
      | inl same ↦ inl (written n k ∙ rw e same)
      | inr gone ↦ inr (written n k ∙ rw e gone)
    ])
  ]
