-- ===== src/Egress/Server/Guarded.antt =====
-- What serving a client leads to.
use private_onyx_app.Egress.Network.Answers.{Answers}
use private_onyx_app.Egress.Network.Sends.{Sends}
