-- ===== src/SingleThreaded/OnServer.antt =====
-- The single threaded server over the server of the library.
use ezgrpc.Event.{Event}
use ezgrpc.Server.{Server}
