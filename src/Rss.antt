-- ===== src/Rss.antt =====
-- rss_lite.h and rss_lite.cpp: the data that the parts of `Rss_lite` share, and the parts: `Match`
-- looks a title up among the rules, `Trackers` builds the trackers and fetches their feeds, and
-- `Title` handles a title from its lookup to the request for the torrent, `Xml` reads the feeds, and
-- `Torrent` stores the torrents.
pub mod Types
pub mod Match
pub mod Trackers
pub mod Title
pub mod Xml
pub mod Torrent
