-- ===== src/Joining/OwnId.antt =====
-- `new_server` for a server that asks under the leader's own ID.
use ds_project.Server.{Server}
