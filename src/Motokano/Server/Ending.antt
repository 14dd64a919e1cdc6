-- ===== src/Motokano/Server/Ending.antt =====
-- The second half of `wipe_and_exit` (rs/crates/motokano/src/lib.rs).
use ningen_shikkaku.Motokano.Server.Standing.{Standing}
use ningen_shikkaku.Motokano.Server.{Server}
