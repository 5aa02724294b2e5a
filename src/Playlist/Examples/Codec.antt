-- ===== src/Playlist/Examples/Codec.antt =====
-- A small format in which the theorem on saving and loading has an instance: a playlist without a
-- name whose items have no texts.
use Prim.Native.String as Text
use retrovert.Common.{
  ℕ, ◌+◌, ◌≡◌, refl, sym, String, false, Option, none, some, List, [], ◌∷◌, map, arith,
}
use retrovert.Common.Results.{Result, ok, err}
use retrovert.Playlist.{Item, Playlist, Engine, Mode}
use retrovert.Playlist.Store.{playlist, is_dirty}
use retrovert.Playlist.Persist.{Json, Document, WireItem, to_bytes, from_bytes}
use retrovert.Playlist.Examples.{filled, filled-Inv}
use retrovert.Playlist.Laws.RoundTrip.{Faithful, wire, same_payload, from_bytes-to_bytes}

abbrev if_empty : String → String → String → List ℕ → Result (Unit {0}) (List ℕ)
if_empty Text.[] Text.[] Text.[] bytes = ok bytes
if_empty _ _ _ bytes = err tt

abbrev write_items : List (Item ℕ) → Result (Unit {0}) (List ℕ)
write_items [] = ok []
write_items (i ∷ is) = elim (write_items is) [
  | err e ↦ err e
  | ok rest ↦ if_empty i.identity i.title i.artist (i.subsong ∷ i.duration_ms ∷ i.payload ∷ rest)
]

abbrev blank : ℕ → ℕ → ℕ → WireItem ℕ
blank subsong duration_ms payload = record {
  identity = "";
  subsong = subsong;
  title = "";
  artist = "";
  duration_ms = duration_ms;
  payload = payload;
}

abbrev prepend :
    WireItem ℕ → Result (Unit {0}) (List (WireItem ℕ)) → Result (Unit {0}) (List (WireItem ℕ))
prepend w (ok ws) = ok (w ∷ ws)
prepend w (err e) = err e

abbrev read_items : List ℕ → Result (Unit {0}) (List (WireItem ℕ))
read_items [] = ok []
read_items (a ∷ []) = err tt
read_items (a ∷ b ∷ []) = err tt
read_items (a ∷ b ∷ c ∷ rest) = prepend (blank a b c) (read_items rest)

if_empty-ok :
    (a b c : String) (bytes bytes' : List ℕ)
    → if_empty a b c bytes ≡ ok bytes'
    → (a ≡ "") × (b ≡ "") × (c ≡ "") × (bytes ≡ bytes')
if_empty-ok Text.[] Text.[] Text.[] bytes bytes' h = (refl, refl, refl, cc)
if_empty-ok (Text.◌∷◌ x a) b c bytes bytes' h = absurd (ground arith)
if_empty-ok Text.[] (Text.◌∷◌ x b) c bytes bytes' h = absurd (ground arith)
if_empty-ok Text.[] Text.[] (Text.◌∷◌ x c) bytes bytes' h = absurd (ground arith)

abbrev as_it_is : ℕ → ℕ
as_it_is n = n

read-write_items :
    (is : List (Item ℕ)) (bytes : List ℕ)
    → write_items is ≡ ok bytes
    → read_items bytes ≡ ok (map (wire as_it_is) is)
read-write_items [] bytes h = ground arith
read-write_items (i ∷ is) bytes h = go (write_items is) refl (read-write_items is)
  where
    go :
        (r : Result (Unit {0}) (List ℕ))
        → write_items is ≡ r
        → ((b : List ℕ) → write_items is ≡ ok b → read_items b ≡ ok (map (wire as_it_is) is))
        → read_items bytes ≡ ok (map (wire as_it_is) (i ∷ is))
    go (err e) wrote later = absurd (ground arith)
    go (ok rest) wrote later =
        let (a, b, c, same) =
          if_empty-ok i.identity i.title i.artist (i.subsong ∷ i.duration_ms ∷ i.payload ∷ rest)
            bytes (ground arith) in
        rw (sym same, later rest wrote, a, b, c) refl

-- The version stands in front of the items.
abbrev write : ℕ → Option String → List (Item ℕ) → Result (Unit {0}) (List ℕ)
write v (some name) items = err tt
write v none items = elim (write_items items) [ err e ↦ err e | ok bytes ↦ ok (v ∷ bytes) ]

abbrev read_version : List ℕ → Result (Unit {0}) ℕ
read_version [] = err tt
read_version (v ∷ bytes) = ok v

abbrev read_document : List ℕ → Result (Unit {0}) (Document ℕ)
read_document [] = err tt
read_document (v ∷ bytes) = elim (read_items bytes) [
  | err e ↦ err e
  | ok items ↦ ok (record { name = none; items = items })
]

abbrev toy : Json ℕ (Unit {0})
toy = record { write = write; read_version = read_version; read_document = read_document }

write-ok :
    (v : ℕ) (name : Option String) (items : List (Item ℕ)) (bytes : List ℕ)
    → write v name items ≡ ok bytes
    → (name ≡ none) × (rest : List ℕ) × (write_items items ≡ ok rest) × (bytes ≡ v ∷ rest)
write-ok v (some name) items bytes h = absurd (ground arith)
write-ok v none items bytes h = go (write_items items) refl
  where
    go :
        (r : Result (Unit {0}) (List ℕ))
        → write_items items ≡ r
        → (◌≡◌ {A = Option String} none none)
          × (rest : List ℕ) × (write_items items ≡ ok rest)
          × (bytes ≡ v ∷ rest)
    go (err e) wrote = absurd (ground arith)
    go (ok rest) wrote = (refl, rest, wrote, ground arith)

toy-Faithful : Faithful toy as_it_is
toy-Faithful = record {
  version = λ v name items bytes h.
      let (blank_name, rest, wrote, is) = write-ok v name items bytes h in rw is refl;
  document = λ v name items bytes h.
      let (blank_name, rest, wrote, is) = write-ok v name items bytes h in
      rw (is, read_document, read-write_items items rest wrote, blank_name) refl;
}

abbrev untitled : Playlist ℕ
untitled = record {
  id = 1;
  name = none;
  items =
      record {
        id = 1;
        identity = "";
        subsong = 2;
        title = "";
        artist = "";
        duration_ms = 1000;
        payload = 7;
      }
      ∷ [];
  content_revision = 1;
  structure_revision = 0;
  last_saved_revision = 0;
}

abbrev keeper : Engine ℕ
keeper = record {
  playlists = untitled ∷ [];
  next_playlist_id = 1;
  next_item_id = 1;
  revision = 2;
  cursor = none;
  mode = Mode.sequential;
}

keeper-found : playlist keeper 1 ≡ some untitled
unfolding playlist
keeper-found = refl

keeper-bytes : to_bytes toy keeper 1 ≡ ok (2 ∷ 2 ∷ 1000 ∷ 7 ∷ [])
unfolding to_bytes
keeper-bytes = refl

one_two : ¬ (1 ≡ filled.next_playlist_id + 1)
one_two e = omega (arith, e)

from_bytes-to_bytes_example :
    (s' : Engine ℕ) × (q : Playlist ℕ) × (from_bytes toy filled (2 ∷ 2 ∷ 1000 ∷ 7 ∷ [])
      ≡ (s', ok (filled.next_playlist_id + 1)))
    × (playlist s' (filled.next_playlist_id + 1) ≡ some q)
    × (q.name ≡ none)
    × (map (wire same_payload) q.items ≡ map (wire as_it_is) untitled.items)
    × (is_dirty q ≡ false)
    × (playlist s' 1 ≡ playlist filled 1)
from_bytes-to_bytes_example =
    from_bytes-to_bytes toy as_it_is toy-Faithful filled keeper 1 1 (2 ∷ 2 ∷ 1000 ∷ 7 ∷ []) untitled
      filled-Inv keeper-found keeper-bytes (omega arith) (omega arith) one_two
