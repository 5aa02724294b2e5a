-- ===== src/Playlist/Laws/RoundTrip.antt =====
-- crates/playlist/src/lib.rs: what `to_bytes` wrote, `from_bytes` stores as a new playlist.
use retrovert.Common.{
  ℕ, suc, ◌+◌, ◌≤◌, ◌<◌, ◌≡◌, ◌≢◌, refl, ap, subst, String, true, false, Option, none, some, List,
  [], ◌∷◌, ◌++◌, map, arith, ◌==◌, leb, find, length, Option-cases, inl, inr, u64_max,
}
use retrovert.Common.Positions.{find-append_self}
use retrovert.Common.Results.{Result, ok, err}
use retrovert.Playlist.{Item, Playlist, Engine}
use retrovert.Playlist.Store.{playlist, fresh, is_dirty}
use retrovert.Playlist.Persist.{
  Json, WireItem, format_version, number_items, store_document, load, require_version, to_bytes,
  try_from_bytes, from_bytes,
}
use retrovert.Playlist.Invariant.{Inv, Ascends}

leb_of : (m n : ℕ) → m ≤ n → leb m n ≡ true
leb_of m n l = ground arith

equal_self : (n : ℕ) → (n == n) ≡ true
equal_self n = ground arith

unequal : (m n : ℕ) → m ≢ n → (n == m) ≡ false
unequal m n h = ground arith

module _ {ℓ} {P : Type ℓ} where
  -- What is written of an item; `keep` is what a payload keeps of itself.
  abbrev pub wire : (P → P) → Item P → WireItem P
  wire keep i = record {
    identity = i.identity;
    subsong = i.subsong;
    title = i.title;
    artist = i.artist;
    duration_ms = i.duration_ms;
    payload = keep i.payload;
  }

  abbrev pub same_payload : P → P
  same_payload x = x

  -- What the engine relies on: the reader gives back what the writer was given, as far as payloads
  -- keep themselves.
  pub record Faithful {J : Type 0} (serde : Json P J) (keep : P → P) : Type ℓ where
    pub version :
        (v : ℕ) (name : Option String) (items : List (Item P)) (bytes : List ℕ)
        → serde.write v name items ≡ ok bytes
        → serde.read_version bytes ≡ ok v
    pub document :
        (v : ℕ) (name : Option String) (items : List (Item P)) (bytes : List ℕ)
        → serde.write v name items ≡ ok bytes
        → serde.read_document bytes ≡ ok (record { name = name; items = map (wire keep) items })

  wire-number_items :
      (n : ℕ) (ws : List (WireItem P)) → map (wire same_payload) (number_items n ws) ≡ ws
  unfolding number_items
  wire-number_items n [] = refl
  wire-number_items n (w ∷ ws) = ap (◌∷◌ w) (wire-number_items (n + 1) ws)

  Ascends-below : (lo hi : ℕ) (ps : List (Playlist P)) → Ascends lo ps hi → lo ≤ hi
  Ascends-below lo hi [] h = h
  Ascends-below lo hi (p ∷ ps) h = omega (arith, Ascends-below p.id hi ps h.1)

  -- No stored playlist has the next id.
  find-next :
      (lo hi k : ℕ) (ps : List (Playlist P))
      → Ascends lo ps hi
      → hi < k
      → find (λ p. p.id == k) ps ≡ none
  find-next lo hi k [] h l = refl
  find-next lo hi k (p ∷ ps) h l =
      ground (arith, find-next p.id hi k ps h.1, Ascends-below p.id hi ps h.1)

  find-append_other :
      (k : ℕ) (ps : List (Playlist P)) (q : Playlist P)
      → (q.id == k) ≡ false
      → find (λ p. p.id == k) (ps ++ q ∷ []) ≡ find (λ p. p.id == k) ps
  find-append_other k [] q h = ground arith
  find-append_other k (p ∷ ps) q h = ground (arith, find-append_other k ps q)

  length-map :
      (f : Item P → WireItem P) (items : List (Item P)) → length (map f items) ≡ length items
  length-map f [] = refl
  length-map f (i ∷ is) = ap suc (length-map f is)

  module _ {J : Type 0} (serde : Json P J) (keep : P → P) (faithful : Faithful serde keep) where
    written :
        (e : Engine P) (id : ℕ) (bytes : List ℕ) (p : Playlist P)
        → playlist e id ≡ some p
        → (w : Result J (List ℕ)) → to_bytes serde e id ≡ ok bytes
        → serde.write format_version p.name p.items ≡ w
        → w ≡ ok bytes
    unfolding to_bytes
    written e id bytes p found (ok b) h out = ground arith
    written e id bytes p found (err x) h out = absurd (ground arith)

    to_bytes-ok :
        (e : Engine P) (id : ℕ) (bytes : List ℕ)
        → to_bytes serde e id ≡ ok bytes
        → (p : Playlist P) × (playlist e id ≡ some p)
          × (serde.write format_version p.name p.items ≡ ok bytes)
    unfolding to_bytes
    to_bytes-ok e id bytes h = elim (Option-cases (playlist e id)) [
      | inl missing ↦ absurd (ground arith)
      | inr (p, found) ↦
          (p, found, written e id bytes p found (serde.write format_version p.name p.items) h refl)
    ]

    -- Reading back what was written of a playlist is storing it again.
    from_bytes-written :
        (s : Engine P) (bytes : List ℕ) (p : Playlist P)
        → serde.write format_version p.name p.items ≡ ok bytes
        → s.next_playlist_id < u64_max
        → s.next_item_id + length p.items ≤ u64_max
        → from_bytes serde s bytes ≡ (
          store_document s
              (s.next_playlist_id + 1)
              (s.next_item_id + length p.items)
              (record { name = p.name; items = map (wire keep) p.items }),
          ok (s.next_playlist_id + 1),
        )
    unfolding from_bytes try_from_bytes load require_version
    from_bytes-written s bytes p w l1 l2 =
        rw
          (
            from_bytes,
            try_from_bytes,
            load,
            faithful.version format_version p.name p.items bytes w,
            faithful.document format_version p.name p.items bytes w,
            length-map (wire keep) p.items,
            leb_of (s.next_playlist_id + 1) u64_max (omega arith),
            leb_of (s.next_item_id + length p.items) u64_max l2,
          )
          refl

    stored :
        (s e : Engine P) (id j : ℕ) (bytes : List ℕ) (p p' : Playlist P)
        → Inv s
        → playlist e id ≡ some p
        → playlist e id ≡ some p'
        → serde.write format_version p'.name p'.items ≡ ok bytes
        → s.next_playlist_id < u64_max
        → s.next_item_id + length p.items ≤ u64_max
        → j ≢ s.next_playlist_id + 1
        → (s' : Engine P) × (q : Playlist P) × (from_bytes serde s bytes
            ≡ (s', ok (s.next_playlist_id + 1)))
          × (playlist s' (s.next_playlist_id + 1) ≡ some q)
          × (q.name ≡ p.name)
          × (map (wire same_payload) q.items ≡ map (wire keep) p.items)
          × (is_dirty q ≡ false)
          × (playlist s' j ≡ playlist s j)
    unfolding playlist is_dirty store_document
    stored s e id j bytes p p' inv found found' w l1 l2 other =
        let same : p' ≡ p = cc in
        let n = s.next_playlist_id + 1 in
        let q = fresh n p.name (number_items s.next_item_id (map (wire keep) p.items)) in
        (
          _,
          q,
          from_bytes-written s bytes p
              (subst (λ x. serde.write format_version x.name x.items ≡ ok bytes) same w) l1 l2,
          find-append_self (λ x. x.id == n) s.playlists q
              (find-next 0 s.next_playlist_id n s.playlists inv.ids_ascend (omega arith))
              (equal_self n),
          refl,
          wire-number_items s.next_item_id (map (wire keep) p.items),
          refl,
          find-append_other j s.playlists q (unequal j n other),
        )

    -- What `to_bytes` wrote of a playlist, any engine with ids left loads: the result is a new, clean
    -- playlist with the written name and, in order, the written fields of every item; every other
    -- playlist is as it was.
    pub from_bytes-to_bytes :
        (s e : Engine P) (id j : ℕ) (bytes : List ℕ) (p : Playlist P)
        → Inv s
        → playlist e id ≡ some p
        → to_bytes serde e id ≡ ok bytes
        → s.next_playlist_id < u64_max
        → s.next_item_id + length p.items ≤ u64_max
        → j ≢ s.next_playlist_id + 1
        → (s' : Engine P) × (q : Playlist P) × (from_bytes serde s bytes
            ≡ (s', ok (s.next_playlist_id + 1)))
          × (playlist s' (s.next_playlist_id + 1) ≡ some q)
          × (q.name ≡ p.name)
          × (map (wire same_payload) q.items ≡ map (wire keep) p.items)
          × (is_dirty q ≡ false)
          × (playlist s' j ≡ playlist s j)
    unfolding playlist is_dirty store_document
    from_bytes-to_bytes s e id j bytes p inv found h l1 l2 other =
        let (p', found', w) = to_bytes-ok e id bytes h in
        stored s e id j bytes p p' inv found found' w l1 l2 other
