-- ===== src/Playlist/Laws/Raises.antt =====
-- crates/playlist/src/lib.rs: the changes in place that raise a content revision.
use mathlib.Core.Option
use retrovert.Common.{
  ℕ, ◌+◌, ◌<◌, ◌≡◌, refl, ap, ◌∙◌, String, Bool, true, Option, some, arith, ◌==◌, find, position,
  u64_max, is_some,
}
use retrovert.Common.Positions.{find-modify_self}
use retrovert.Playlist.{ItemSpec, Item, Playlist, Engine}
use retrovert.Playlist.Store.{
  touch, is_dirty, playlist, playlist_index, change, touch_content, touch_structure, rename,
  mint_item_id,
}
use retrovert.Playlist.Items.{
  push_item, append, edit_at, edit_item, erase_at, remove_item, shift_at, move_item,
}
use retrovert.Playlist.Invariant.{RevisionsOk}

-- A change of one playlist's name or items.
pub data Edit {ℓ} (P : Type ℓ) : Type ℓ where
  adds : ItemSpec P → Edit P
  rewrites : ℕ → (Item P → Item P) → Edit P
  drops : ℕ → Edit P
  shifts : ℕ → Option ℕ → Edit P
  names : Option String → Edit P

module _ {ℓ} {P : Type ℓ} where
  -- The call that makes the change, and whether it did.
  abbrev pub edited : Engine P → ℕ → Edit P → Engine P × Bool
  edited e id (adds spec) = ((append e id spec).0, is_some (append e id spec).1)
  edited e id (rewrites iid edit) = edit_item e id iid edit
  edited e id (drops iid) = remove_item e id iid
  edited e id (shifts iid after) = move_item e id iid after
  edited e id (names name) = rename e id name

  -- A change in place that raises the content revision of the playlist.
  pub record Raises (f : Playlist P → Playlist P) : Type ℓ where
    pub keeps_id : (p : Playlist P) → (f p).id ≡ p.id
    pub keeps_saved : (p : Playlist P) → (f p).last_saved_revision ≡ p.last_saved_revision
    pub raises :
        (p : Playlist P)
        → p.content_revision < u64_max
        → (f p).content_revision ≡ p.content_revision + 1

  pub push_item-Raises : (i : Item P) → Raises (push_item i)
  unfolding push_item touch_content
  push_item-Raises i = record {
    keeps_id = λ p. refl;
    keeps_saved = λ p. refl;
    raises = λ p l. omega arith;
  }

  pub edit_at-Raises : (i : ℕ) (edit : Item P → Item P) → Raises (edit_at i edit)
  unfolding edit_at touch_content touch_structure
  edit_at-Raises i edit = record {
    keeps_id = λ p. refl;
    keeps_saved = λ p. refl;
    raises = λ p l. omega arith;
  }

  pub erase_at-Raises : (i : ℕ) → Raises (erase_at i)
  unfolding erase_at touch_content touch_structure
  erase_at-Raises i = record {
    keeps_id = λ p. refl;
    keeps_saved = λ p. refl;
    raises = λ p l. omega arith;
  }

  pub shift_at-Raises : (from to : ℕ) → Raises (shift_at from to)
  unfolding shift_at touch_content touch_structure
  shift_at-Raises from to = record {
    keeps_id = λ p. refl;
    keeps_saved = λ p. refl;
    raises = λ p l. omega arith;
  }

  pub rename-Raises :
      (name : Option String)
      → Raises (λ (p : Playlist P). touch_structure (record p { name = name }))
  unfolding touch_content touch_structure
  rename-Raises name = record {
    keeps_id = λ p. refl;
    keeps_saved = λ p. refl;
    raises = λ p l. omega arith;
  }

  -- What an edit leaves of the playlist.
  abbrev pub Dirtied : Engine P → ℕ → Playlist P → Type ℓ
  Dirtied e id p =
      (p' : Playlist P) × (playlist e id ≡ some p')
      × (p'.content_revision ≡ p.content_revision + 1)
      × (is_dirty p' ≡ true)

  pub change-Dirtied :
      (e : Engine P) (id i : ℕ) (f : Playlist P → Playlist P) (p : Playlist P)
      → Raises f
      → RevisionsOk p
      → p.content_revision < u64_max
      → playlist e id ≡ some p
      → playlist_index e id ≡ some i
      → Dirtied (change e i f) id p
  unfolding playlist playlist_index touch is_dirty
  change-Dirtied e id i f p r ok l h at = (
    f p,
    find-modify_self (λ q. q.id == id) f (λ q. ap (λ n. n == id) (r.keeps_id q)) e.playlists i at
        ∙ ap (Option.map f) h,
    r.raises p l,
    ground (arith, r.raises p l, r.keeps_saved p, ok.saved_le),
  )

  -- The same where the call changed other fields of the engine first.
  pub changed-Dirtied :
      (e e' : Engine P) (id i : ℕ) (f : Playlist P → Playlist P) (p : Playlist P)
      → e'.playlists ≡ e.playlists
      → Raises f
      → RevisionsOk p
      → p.content_revision < u64_max
      → playlist e id ≡ some p
      → playlist_index e id ≡ some i
      → Dirtied (change e' i f) id p
  unfolding playlist playlist_index
  changed-Dirtied e e' id i f p same r ok l h at =
      change-Dirtied e' id i f p r ok l (ap (find (λ q. q.id == id)) same ∙ h)
        (ap (position (λ q. q.id == id)) same ∙ at)

  pub mint_item_id-playlists :
      (e e' : Engine P) (iid : ℕ) → mint_item_id e ≡ some (iid, e') → e'.playlists ≡ e.playlists
  unfolding mint_item_id
  mint_item_id-playlists e e' iid minted = ground arith
