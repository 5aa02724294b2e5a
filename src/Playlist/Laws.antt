-- ===== src/Playlist/Laws.antt =====
-- What the calls on stored playlists do, as a reader of the engine sees it.
pub mod Move
pub mod Saved
pub mod Raises
pub mod Dirty
pub mod RoundTrip
pub mod Successor
