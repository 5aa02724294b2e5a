-- ===== src/Playlist/Playback/Drains.antt =====
-- What a host hears that starts a playlist and reports every item as finished, or as failed.
use mathlib.Core.List.{Nodup, append_assoc}
use retrovert.Common.{
  ℕ, suc, ◌+◌, ◌<◌, ◌≤◌, ◌≡◌, refl, ap, sym, subst, ◌∙◌, true, none, some, List, [], ◌∷◌, ◌++◌,
  arith, leb, length, position, Outcome, returned, length-append, u64_max, saturating_add, ◌⊎◌, inl,
  inr,
}
use retrovert.Playlist.{Item, Playlist, Mode, Cursor, Engine}
use retrovert.Playlist.Cursors.{arrive, start_cursor}
use retrovert.Playlist.Store.{playlist}
use retrovert.Playlist.Transport.{stop, poll, on_finished, on_failed, fail_counted}
use retrovert.Playlist.Minted.{ids}
use retrovert.Playlist.Playback.{played, drain}
use retrovert.Playlist.Playback.Through.{
  onward, with_cursor, poll-next, poll-last, poll-first, cursor-stop,
}

-- The host heard these items, and the engine plays no more.
abbrev pub Heard {ℓ} : {P : Type ℓ} → List (Item P) → Outcome (List (Item P) × Engine P) → Type ℓ
Heard {P} is r = (e : Engine P) × (r ≡ returned (is, e)) × (e.cursor ≡ none)

Heard-played {ℓ} :
    {P : Type ℓ} (i : Item P) (is : List (Item P)) (r : Outcome (List (Item P) × Engine P))
    → Heard is r
    → Heard (i ∷ is) (played i r)
Heard-played i is r (e, h, idle) = (e, ap (played i) h, idle)

Mode-cases : (m : Mode) → (m ≡ Mode.sequential) ⊎ (m ≡ Mode.loop)
Mode-cases Mode.sequential = inl refl
Mode-cases Mode.loop = inr refl

fail_counted-loop {ℓ} :
    {P : Type ℓ} (e : Engine P) (c : Cursor) (p : Playlist P)
    → e.mode ≡ Mode.loop
    → playlist e c.playlist ≡ some p
    → leb (length p.items) c.failures ≡ true
    → fail_counted e c ≡ stop (with_cursor e c)
unfolding fail_counted
fail_counted-loop e c p mode found full = ground arith

module _ {ℓ} {P : Type ℓ} (e : Engine P) (pid : ℕ) (p : Playlist P)
    (found : playlist e pid ≡ some p) (distinct : Nodup (ids p.items)) where
  on_finished-arrive :
      (c : Cursor) (position iid : ℕ)
      → c.playlist ≡ pid
      → on_finished (with_cursor e (arrive c position iid))
        ≡ with_cursor e (onward pid iid position 0)
  unfolding on_finished
  on_finished-arrive c position iid own = ground arith

  finishes-onward :
      (pre : List (Item P)) (a : Item P) (rest : List (Item P))
      → p.items ≡ pre ++ a ∷ rest
      → e.mode ≡ Mode.sequential
      → Heard rest
          (drain on_finished (suc (length rest)) (with_cursor e (onward pid a.id (length pre) 0)))
  unfolding drain
  finishes-onward pre a [] split mode =
      rw (poll-last e pid p found distinct pre a 0 split mode, drain) (_, refl, cursor-stop _)
  finishes-onward pre a (b ∷ rest) split mode =
      let regroup : p.items ≡ (pre ++ a ∷ []) ++ b ∷ rest =
        split ∙ sym (append_assoc pre (a ∷ []) (b ∷ rest)) in
      let size : length (pre ++ a ∷ []) ≡ length pre + 1 =
        length-append pre (a ∷ []) ∙ omega arith in
      rw (poll-next e pid p found distinct pre a b rest 0 split, drain)
        (rw (on_finished-arrive (onward pid a.id (length pre) 0) (length pre + 1) b.id refl) (
          rw (← size)
            (Heard-played b rest _ (finishes-onward (pre ++ a ∷ []) b rest regroup mode))))

  pub drain-finishes :
      (pre : List (Item P)) (a : Item P) (rest : List (Item P))
      → p.items ≡ pre ++ a ∷ rest
      → e.mode ≡ Mode.sequential
      → Heard (a ∷ rest) (
          drain on_finished
            (suc (suc (length rest)))
            (with_cursor e (start_cursor pid (length pre))))
  unfolding drain
  drain-finishes pre a rest split mode =
      rw (poll-first e pid p found distinct pre a rest split, drain)
        (rw (on_finished-arrive (start_cursor pid (length pre)) (length pre) a.id refl)
          (Heard-played a rest _ (finishes-onward pre a rest split mode)))

  -- A failure before the last item sends the cursor on, and is counted.
  on_failed-onward :
      (c : Cursor) (k iid : ℕ)
      → c.playlist ≡ pid
      → c.failures ≡ k
      → k + 1 < length p.items
      → length p.items ≤ u64_max
      → on_failed (with_cursor e (arrive c k iid)) ≡ with_cursor e (onward pid iid k (k + 1))
  unfolding on_failed fail_counted
  on_failed-onward c k iid own count more fits = ground (arith, found)

  -- In sequential mode it is at the last item too.
  on_failed-sequential :
      (c : Cursor) (k iid : ℕ)
      → c.playlist ≡ pid
      → c.failures ≡ k
      → k + 1 ≡ length p.items
      → length p.items ≤ u64_max
      → e.mode ≡ Mode.sequential
      → on_failed (with_cursor e (arrive c k iid)) ≡ with_cursor e (onward pid iid k (k + 1))
  unfolding on_failed fail_counted
  on_failed-sequential c k iid own count last fits mode = ground (arith, found)

  -- In loop mode the playback stops when every item failed.
  on_failed-loop :
      (c : Cursor) (k iid : ℕ)
      → c.playlist ≡ pid
      → c.failures ≡ k
      → k + 1 ≡ length p.items
      → length p.items ≤ u64_max
      → e.mode ≡ Mode.loop
      → on_failed (with_cursor e (arrive c k iid))
        ≡ stop (with_cursor e (record (arrive c k iid) { failures = saturating_add c.failures 1 }))
  unfolding on_failed playlist
  on_failed-loop c k iid own count last fits mode =
      fail_counted-loop (with_cursor e (arrive c k iid))
        (record (arrive c k iid) { failures = saturating_add c.failures 1 }) p mode found'
        (ground arith)
    where
      found' : playlist e c.playlist ≡ some p
      found' = ap (playlist e) own ∙ found

  drain-idle :
      (report : Engine P → Engine P) (s : Engine P) (fuel : ℕ)
      → s.cursor ≡ none
      → Heard [] (drain report (suc fuel) s)
  unfolding drain poll
  drain-idle report s fuel idle = rw (idle, drain) (s, refl, idle)

  fails-arrive :
      (pre : List (Item P)) (a : Item P) (rest : List (Item P)) (c : Cursor)
      → p.items ≡ pre ++ a ∷ rest
      → length p.items ≤ u64_max
      → c.playlist ≡ pid
      → c.failures ≡ length pre
      → Heard rest (
          drain on_failed
            (suc (length rest))
            (on_failed (with_cursor e (arrive c (length pre) a.id))))
  unfolding drain
  fails-arrive pre a [] c split fits own count =
      let size : length pre + 1 ≡ length p.items =
        omega (arith, ap length split, length-append pre (a ∷ [])) in
      elim (Mode-cases e.mode) [
        | inl mode ↦ rw (on_failed-sequential c (length pre) a.id own count size fits mode) (
            rw (poll-last e pid p found distinct pre a (length pre + 1) split mode, drain)
              (_, refl, cursor-stop _))
        | inr mode ↦
            rw (on_failed-loop c (length pre) a.id own count size fits mode)
              (drain-idle on_failed _ 0 (cursor-stop _))
      ]
  fails-arrive pre a (b ∷ rest) c split fits own count =
      let regroup : p.items ≡ (pre ++ a ∷ []) ++ b ∷ rest =
        split ∙ sym (append_assoc pre (a ∷ []) (b ∷ rest)) in
      let size : length (pre ++ a ∷ []) ≡ length pre + 1 =
        length-append pre (a ∷ []) ∙ omega arith in
      let more : length pre + 1 < length p.items =
        omega (arith, ap length split, length-append pre (a ∷ b ∷ rest)) in
      let c' = onward pid a.id (length pre) (length pre + 1) in
      rw (on_failed-onward c (length pre) a.id own count more fits) (
        rw (poll-next e pid p found distinct pre a b rest (length pre + 1) split, drain)
          (Heard-played b rest _ (
            subst
              (λ k. Heard rest (
                drain on_failed (suc (length rest)) (on_failed (with_cursor e (arrive c' k b.id)))))
              size (fails-arrive (pre ++ a ∷ []) b rest c' regroup fits refl (sym size)))))

  pub drain-fails :
      (a : Item P) (rest : List (Item P))
      → p.items ≡ a ∷ rest
      → length p.items ≤ u64_max
      → Heard
          (a ∷ rest)
          (drain on_failed (suc (suc (length rest))) (with_cursor e (start_cursor pid 0)))
  unfolding drain
  drain-fails a rest split fits =
      rw (poll-first e pid p found distinct [] a rest split, drain)
        (Heard-played a rest _ (fails-arrive [] a rest (start_cursor pid 0) split fits refl refl))
